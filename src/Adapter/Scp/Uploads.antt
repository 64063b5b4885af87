-- ===== src/Adapter/Scp/Uploads.antt =====
-- What an upload of one file does.
use packer_plugin_sdk.Prelude.{
  got, ℕ, suc, ◌≡◌, refl, ap, false, none, some, [], ◌∷◌, ◌++◌, arith, length, is_nil,
}
use packer_plugin_sdk.Adapter.Connection.{
  Bytes, scanned, FileHeader, Lib, Outside, Channel, scp_ok, scp_response, take, drop, UploadState,
}
use packer_plugin_sdk.Adapter.Scp.{
  new_state, file_protocol, message, protocol, upload_session, upload_from, file_dest,
}

take-append : (xs ys : Bytes) → take (length xs) (xs ++ ys) ≡ xs
take-append [] ys = refl
take-append (x ∷ xs) ys = ap (◌∷◌ x) (take-append xs ys)

drop-append : (xs ys : Bytes) → drop (length xs) (xs ++ ys) ≡ ys
drop-append [] ys = refl
drop-append (x ∷ xs) ys = drop-append xs ys

module _ {S : Type 0} (lib : Lib) (out : Outside S) where
  -- The header is read, and the contents and a zero stand behind it.
  file_protocol_lem :
      (u : UploadState) (contents left : Bytes) (h : FileHeader) (c : Channel S) (t : S)
      → lib.scan_header c.input ≡ scanned h (contents ++ (0 ∷ left))
      → h.size ≡ length contents
      → out.upload (file_dest lib out u h) contents c.outside ≡ (none, t)
      → file_protocol lib out u c ≡ (
        none,
        record u { mtime = none },
        record { input = left; output = (c.output ++ scp_ok) ++ scp_ok; outside = t },
      )
  unfolding file_protocol scp_response
  file_protocol_lem u contents left h c t scan size sent =
      let taken : take h.size (contents ++ (0 ∷ left)) ≡ contents =
        rw size (take-append contents (0 ∷ left)) in
      let dropped : drop h.size (contents ++ (0 ∷ left)) ≡ 0 ∷ left =
        rw size (drop-append contents (0 ∷ left)) in
      ground (arith, scan, taken, dropped, sent)

  -- With a target, a temporary directory, and a communicator that takes the file without an error:
  -- if a client sends the header of a file, as many bytes of contents as it says and a zero, the
  -- communicator is given those contents for the target, the session ends with no error behind
  -- them, and it has answered three times, to the start, to the header and to the contents.
  pub upload_session_lem :
      (f : ℕ) (rest : Bytes) (d header contents left : Bytes) (h : FileHeader) (c : Channel S)
      (s t : S)
      → is_nil (lib.trim_space rest) ≡ false
      → out.temp_dir c.outside ≡ (got d, s)
      → c.input ≡ b'C' ∷ (header ++ (contents ++ (0 ∷ left)))
      → lib.scan_header (header ++ (contents ++ (0 ∷ left))) ≡ scanned h (contents ++ (0 ∷ left))
      → h.size ≡ length contents
      → out.upload (lib.path_join (lib.trim_space rest) []) contents s ≡ (none, t)
      → upload_session lib out (suc f) rest c
        ≡ some (
          none,
          record { input = left; output = ((c.output ++ scp_ok) ++ scp_ok) ++ scp_ok; outside = t },
        )
  unfolding upload_session upload_from protocol message
  upload_session_lem f rest d header contents left h c s t target dir input scan size sent =
      ground (
        arith,
        file_protocol_lem (new_state lib out (lib.trim_space rest) d) contents left h
            (record {
              input = header ++ (contents ++ (0 ∷ left));
              output = c.output ++ scp_ok;
              outside = s;
            })
            t scan size sent,
      )
