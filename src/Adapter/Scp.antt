-- ===== src/Adapter/Scp.antt =====
-- adapter/scp.go, with the choice of a session in adapter/adapter.go: the scp protocol, over bytes.
pub mod Ends
pub mod Uploads
pub mod Directories
use packer_plugin_sdk.Prelude.{
  Result, failed, got, ℕ, zero, suc, ◌-◌, Bool, true, false, ◌||◌, ◌&&◌, Option, none, some, List,
  [], ◌∷◌, ◌++◌, String, if◌then◌else◌, ltb, ◌==◌, is_nil, concat, text, join,
}
use packer_plugin_sdk.Adapter.Connection.{
  Bytes, Scan, FileHeader, Lib, Outside, UploadState, Channel, scp_ok, scp_empty_error,
  scp_options_from, scp_options, has_byte, serve_scp, read_line, scp_response, take, drop, scanned,
  unreadable,
}

module _ {S : Type 0} (lib : Lib) (out : Outside S) where
  abbrev pub write : Bytes → Channel S → Channel S
  write bs c = record c { output = c.output ++ bs }

  abbrev pub at : Bytes → Channel S → Channel S
  at bs c = record c { input = bs }

  abbrev pub Ended : Type 0
  Ended = Option String × UploadState × Channel S

  abbrev pub dest_path : UploadState → Bytes
  dest_path u = lib.path_join u.target u.dir

  abbrev pub file_dest : UploadState → FileHeader → Bytes
  file_dest u h = if u.target_is_dir then lib.path_join (dest_path u) h.name else dest_path u

  abbrev no_mtime : UploadState → UploadState
  no_mtime u = record u { mtime = none }

  -- `scpUploadState.FileProtocol`
  unfoldable pub file_protocol : UploadState → Channel S → Ended
  file_protocol u c = elim (lib.scan_header c.input) [
    | unreadable e bs ↦
        (some (join "invalid file message: " e), no_mtime u, write scp_empty_error (at bs c))
    | scanned h bs ↦
        let (result, s) = out.upload (file_dest u h) (take h.size bs) c.outside in
        let c' = record (write scp_ok c) { input = drop h.size bs; outside = s } in
        elim result [
          | some e ↦ (some e, no_mtime u, write scp_empty_error c')
          | none ↦
              let (response, rest) = scp_response c'.input in
              elim response [
                | some e ↦ (some e, no_mtime u, at rest c')
                | none ↦ (none, no_mtime u, write scp_ok (at rest c'))
              ]
        ]
  ]

  -- `scpUploadState.TimeProtocol`
  unfoldable pub time_protocol : UploadState → Channel S → Ended
  time_protocol u c = elim (lib.scan_times c.input) [
    | unreadable e bs ↦ (some e, u, write scp_empty_error (at bs c))
    | scanned t bs ↦ (none, record u { mtime = some t.0; atime = some t.1 }, write scp_ok (at bs c))
  ]

  abbrev or_now : Option ℕ → S → ℕ
  or_now none s = out.now s
  or_now (some t) s = t

  abbrev outside_of : S → Channel S → Channel S
  outside_of s c = record c { outside = s }

  abbrev with_times : UploadState → S → UploadState
  with_times u s = record u { mtime = some (or_now u.mtime s); atime = some (or_now u.atime s) }

  -- `scpUploadState.DirProtocol` after its answer, up to the messages that follow.
  unfoldable pub make_dir : UploadState → FileHeader → Channel S → Ended
  make_dir u h c =
      let path = lib.path_join u.dir h.name in
      let (made, s) = out.mkdir path h.mode c.outside in
      elim made [
        | some e ↦ (some e, u, outside_of s c)
        | none ↦
            let u' = with_times (record u { dir = path }) s in
            let (timed, s') = out.chtimes path (or_now u'.atime s) (or_now u'.mtime s) s in
            elim timed [
              | some e ↦ (some e, u', outside_of s' c)
              | none ↦
                  let (sent, t) =
                    out.upload_dir (lib.path_dir (dest_path u')) (lib.path_join u'.src_root u'.dir)
                      s' in
                  elim sent [
                    | some e ↦ (some e, u', outside_of t c)
                    | none ↦ (none, record u' { mtime = none; atime = none }, outside_of t c)
                  ]
            ]
      ]

  unfoldable pub dir_protocol : UploadState → Channel S → Ended
  dir_protocol u c = elim (lib.scan_header c.input) [
    | unreadable e bs ↦
        (some (join "invalid directory message: " e), u, write scp_empty_error (at bs c))
    | scanned h bs ↦ make_dir u h (write scp_ok (at bs c))
  ]

  -- One message of `scpUploadState.Protocol`: its end, and whether the loop goes on.
  unfoldable pub message : ℕ → UploadState → Channel S → Bool × Ended
  message b u c =
      if b == b'T'
      then (true, time_protocol u c)
      else if b == b'C'
      then (false, file_protocol u c)
      else if b == b'E'
      then (false, (none, record u { dir = lib.path_dir u.dir }, write scp_ok c))
      else if b == b'D'
      then (true, dir_protocol u c)
      else (false, (some (join "unexpected message: " (text (b ∷ []))), u, write scp_empty_error c))

  -- `scpUploadState.Protocol`. None is an end of the fuel; an error ends the loop.
  unfoldable pub protocol : ℕ → UploadState → Bytes → Channel S → Option Ended
  protocol zero u bs c = none
  protocol (suc f) u [] c = some (some "EOF", u, at [] c)
  protocol (suc f) u (b ∷ bs) c =
      let m = message b u (at bs c) in
      let (result, u', c') = m.1 in
      let rest = protocol f u' c'.input c' in
      if m.0
      then (elim result [ some e ↦ some (some e, u', c') | none ↦ rest ])
      else some (result, u', c')

  abbrev pub new_state : Bytes → Bytes → UploadState
  new_state target d = record {
    target = target;
    src_root = d;
    mtime = none;
    atime = none;
    dir = [];
    target_is_dir = false;
  }

  -- `scpUploadSession` from the temporary directory on, with the fuel of its loop.
  unfoldable pub upload_from :
      ℕ → Bytes → Result Bytes → S → Channel S → Option (Option String × Channel S)
  upload_from fuel target (failed e) s c = some (some e, write scp_empty_error (outside_of s c))
  upload_from fuel target (got d) s c =
      elim (protocol fuel (new_state target d) c.input (write scp_ok (outside_of s c))) [
        | none ↦ none
        | some r ↦ some (r.0, r.2)
      ]

  -- `scpUploadSession`: the error, if it ends, and the channel.
  unfoldable pub upload_session : ℕ → Bytes → Channel S → Option (Option String × Channel S)
  upload_session fuel rest c =
      let target = lib.trim_space rest in
      let made = out.temp_dir c.outside in
      if is_nil target
      then some (some "no scp target specified", write scp_empty_error c)
      else upload_from fuel target made.0 made.1 c

  -- `scpDownloadState.FileProtocol`: the header, an answer, the contents, and an answer.
  unfoldable pub send_file : Bytes → Channel S → Option String × Channel S
  send_file path c = elim (out.header path c.outside) [
    | failed e ↦ (some e, c)
    | got header ↦
        let (response, rest) = scp_response c.input in
        let c' = write header (at rest c) in
        elim response [
          | some e ↦ (some e, c')
          | none ↦ elim (out.read path c.outside) [
            | failed e ↦ (some e, c')
            | got contents ↦
                let (last, left) = scp_response rest in
                (last, write scp_ok (write contents (at left c')))
          ]
        ]
  ]

  -- `scpDownloadState.Protocol`, over a directory with that one file.
  unfoldable pub download_protocol : Bytes → Channel S → Option String × Channel S
  download_protocol path c =
      let (response, rest) = scp_response c.input in
      elim response [ some e ↦ (some e, at rest c) | none ↦ send_file path (at rest c) ]

  -- `scpDownloadSession` after the check for directories.
  unfoldable pub download_file : Bytes → Bytes → Channel S → Option String × Channel S
  download_file source d c =
      let path = lib.path_join d (lib.path_base source) in
      let (made, s) = out.create path c.outside in
      elim made [
        | some e ↦ (some e, write scp_empty_error (outside_of s c))
        | none ↦
            let (loaded, s') = out.download source s in
            elim loaded [
              | some e ↦ (some e, write scp_empty_error (outside_of s' c))
              | none ↦ download_protocol path (outside_of s' c)
            ]
      ]

  unfoldable pub download_session : Bytes → Bytes → Channel S → Option String × Channel S
  download_session opts rest c =
      let source = lib.trim_space rest in
      if is_nil source
      then (some "no scp source specified", write scp_empty_error c)
      else (let (made, s) = out.temp_dir c.outside in
          elim made [
            | failed e ↦ (some e, write scp_empty_error (outside_of s c))
            | got d ↦
                if lib.contains (b'd' ∷ []) opts
                then (
                  some "directory downloads not supported",
                  write scp_empty_error (outside_of s c),
                )
                else download_file source d (outside_of s c)
          ])

  -- `scpExec`, with the fuel of an upload: the session, once the target is split into words.
  unfoldable pub scp_session :
      ℕ → Bytes → Result (List Bytes) → Channel S → Option (Option String × Channel S)
  scp_session fuel opts (failed e) c = some (some e, c)
  scp_session fuel opts (got words) c =
      if has_byte b't' opts
      then upload_session fuel (concat words) c
      else if has_byte b'f' opts
      then some (download_session opts (concat words) c)
      else some (some "no scp mode specified", c)

  unfoldable pub scp_exec : ℕ → Bytes → Channel S → Option (Option String × Channel S)
  scp_exec fuel args c =
      let (opts, rest) = scp_options args in scp_session fuel opts (lib.split rest) c

  -- `strings.HasPrefix(command, "scp ")` and the rest of the command.
  unfoldable pub after_scp : Bytes → Option Bytes
  after_scp (s ∷ c ∷ p ∷ b ∷ args) =
      if s == b's' && c == b'c' && p == b'p' && b == b' ' then some args else none
  after_scp _ = none

  -- `Adapter.exec` with the fuel of an upload: the exit status and the channel. `remote` executes a
  -- command on the machine.
  unfoldable pub exec :
      ℕ → (Bytes → Channel S → ℕ × Channel S) → Bytes → Channel S → Option (ℕ × Channel S)
  exec fuel remote command c = elim (after_scp command) [
    | none ↦ some (remote command c)
    | some args ↦
        if serve_scp args
        then (elim (scp_exec fuel args c) [
          | none ↦ none
          | some r ↦ some (elim r.0 [ none ↦ 0 | some e ↦ 1 ], r.1)
        ])
        else some (remote command c)
  ]
