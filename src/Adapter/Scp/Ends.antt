-- ===== src/Adapter/Scp/Ends.antt =====
-- That a session ends.
use packer_plugin_sdk.Prelude.{
  Result, failed, got, ℕ, zero, suc, ◌≤◌, ◌<◌, ◌≡◌, ◌≢◌, true, none, List, [], ◌∷◌, arith, length,
  concat, Bool-cases, inl, inr,
}
use packer_plugin_sdk.Adapter.Connection.{
  Bytes, Scan, scanned, unreadable, Lib, Outside, UploadState, Channel, scp_options,
}
use packer_plugin_sdk.Adapter.Scp.{
  at, time_protocol, make_dir, dir_protocol, message, protocol, upload_session, scp_exec,
  upload_from, scp_session, new_state, write,
}

-- What is left of the input.
abbrev pub left : {A : Type 0} → Scan A → Bytes
left (scanned a bs) = bs
left (unreadable e bs) = bs

module _ {S : Type 0} (lib : Lib) (out : Outside S)
    (headers : (bs : Bytes) → length (left (lib.scan_header bs)) ≤ length bs)
    (times : (bs : Bytes) → length (left (lib.scan_times bs)) ≤ length bs) where
  -- A message after which the loop goes on leaves no more input than there was.
  message-shorter :
      (b : ℕ) (u : UploadState) (bs : Bytes) (c : Channel S)
      → (message lib out b u (at lib out bs c)).0 ≡ true
      → length (message lib out b u (at lib out bs c)).1.2.input ≤ length bs
  unfolding message time_protocol dir_protocol make_dir
  message-shorter b u bs c h = ground (arith, headers bs, times bs)

  protocol_total :
      (f : ℕ) (u : UploadState) (bs : Bytes) (c : Channel S)
      → length bs < f
      → protocol lib out f u bs c ≢ none
  unfolding protocol
  protocol_total zero u bs c h = elim h [ ]
  protocol_total (suc f) u [] c h = cc
  protocol_total (suc f) u (b ∷ bs) c h =
      let m = message lib out b u (at lib out bs c) in
      elim (Bool-cases m.0) [
        | inr no_more ↦ ground (arith, no_more)
        | inl more ↦ ground (
          arith,
          more,
          protocol_total f m.1.1 m.1.2.input m.1.2 (omega (arith, message-shorter b u bs c more)),
        )
      ]

  upload_from_total :
      (f : ℕ) (target : Bytes) (made : Result Bytes) (s : S) (c : Channel S)
      → length c.input < f
      → upload_from lib out f target made s c ≢ none
  unfolding upload_from
  upload_from_total f target (failed e) s c h = cc
  upload_from_total f target (got d) s c h = ground (
    arith,
    protocol_total f (new_state lib out target d) c.input
        (write lib out (0 ∷ []) (record c { outside = s })) h,
  )

  upload_session_total :
      (f : ℕ) (rest : Bytes) (c : Channel S)
      → length c.input < f
      → upload_session lib out f rest c ≢ none
  unfolding upload_session
  upload_session_total f rest c h =
      let made = out.temp_dir c.outside in
      ground (arith, upload_from_total f (lib.trim_space rest) made.0 made.1 c h)

  scp_session_total :
      (f : ℕ) (opts : Bytes) (words : Result (List Bytes)) (c : Channel S)
      → length c.input < f
      → scp_session lib out f opts words c ≢ none
  unfolding scp_session
  scp_session_total f opts (failed e) c h = cc
  scp_session_total f opts (got words) c h =
      ground (arith, upload_session_total f (concat words) c h)

  -- If reading a header or times leaves no more input than there was, then with more fuel than input
  -- bytes every scp command ends.
  pub scp_exec_total :
      (f : ℕ) (args : Bytes) (c : Channel S) → length c.input < f → scp_exec lib out f args c ≢ none
  unfolding scp_exec
  scp_exec_total f args c h =
      let opts = scp_options args in scp_session_total f opts.0 (lib.split opts.1) c h
