-- ===== src/Adapter/Tests.antt =====
-- scp sessions at concrete inputs.
use packer_plugin_sdk.Prelude.{
  got, ◌≤◌, ◌≡◌, ◌≢◌, refl, ap, Bool, true, false, none, some, [], ◌∷◌, ◌++◌, if◌then◌else◌, ◌==◌,
  arith, length, codes, Bool-cases, inl, inr,
}
use packer_plugin_sdk.Adapter.Connection.{
  Bytes, scanned, Lib, Outside, Channel, scp_ok, drop, scp_options, scp_options_from,
}
use packer_plugin_sdk.Adapter.Scp.{upload_session, download_session, scp_exec}
use packer_plugin_sdk.Adapter.Scp.Ends.{scp_exec_total}
use packer_plugin_sdk.Adapter.Scp.Uploads.{upload_session_lem}
use packer_plugin_sdk.Adapter.Scp.Directories.{download_session-options}

-- Whether a list starts with another one.
abbrev is_prefix : Bytes → Bytes → Bool
is_prefix [] bs = true
is_prefix (p ∷ ps) [] = false
is_prefix (p ∷ ps) (b ∷ bs) = let rest = is_prefix ps bs in if p == b then rest else false

abbrev contains : Bytes → Bytes → Bool
contains [] sub = is_prefix sub []
contains (b ∷ bs) sub = let rest = contains bs sub in if is_prefix sub (b ∷ bs) then true else rest

prefix_found : (sub bs : Bytes) → is_prefix sub bs ≡ true → (post : Bytes) × (bs ≡ sub ++ post)
prefix_found [] bs h = (bs, refl)
prefix_found (p ∷ ps) [] h = cc
prefix_found (p ∷ ps) (b ∷ bs) h =
    let rest = prefix_found ps bs (ground (arith, h)) in (rest.0, ground (arith, h, rest.1))

contains_found :
    (bs sub : Bytes) → contains bs sub ≡ true → (pre post : Bytes) × (bs ≡ pre ++ (sub ++ post))
contains_found [] sub h = let p = prefix_found sub [] h in ([], p.0, p.1)
contains_found (b ∷ bs) sub h = elim (Bool-cases (is_prefix sub (b ∷ bs))) [
  | inl found ↦ let p = prefix_found sub (b ∷ bs) found in ([], p.0, p.1)
  | inr missed ↦
      let p = contains_found bs sub (ground (arith, missed, h)) in (b ∷ p.0, p.1, ap (◌∷◌ b) p.2)
]

-- A header is one byte, for a file of two bytes.
abbrev lib : Lib
lib = record {
  scan_header = λ bs. scanned (record { mode = 420; size = 2; name = [] }) (drop 1 bs);
  scan_times = λ bs. scanned (0, 0) [];
  path_join = λ a b. a ++ b;
  path_dir = λ a. a;
  path_base = λ a. a;
  trim_space = λ a. a;
  split = λ a. got (a ∷ []);
  contains = contains;
}

-- The state is what was uploaded.
abbrev out : Outside Bytes
out = record {
  upload = λ dest contents s. (none, contents);
  upload_dir = λ dest src s. (none, s);
  mkdir = λ path mode s. (none, s);
  chtimes = λ path a m s. (none, s);
  now = λ s. 1;
  temp_dir = λ s. (got (codes "/tmp/ansible"), s);
  create = λ path s. (none, s);
  download = λ path s. (none, s);
  header = λ path s. got [];
  read = λ path s. got [];
}

abbrev channel : Channel Bytes
channel = record { input = b'C' ∷ b'h' ∷ b'o' ∷ b'k' ∷ 0 ∷ []; output = []; outside = [] }

drop-shorter : (bs : Bytes) → length (drop 1 bs) ≤ length bs
drop-shorter [] = omega arith
drop-shorter (b ∷ bs) = omega arith

scp_exec_total_example : scp_exec lib out 6 (codes "-t a") channel ≢ none
scp_exec_total_example =
    scp_exec_total lib out drop-shorter (λ bs. omega arith) 6 (codes "-t a") channel (omega arith)

upload_session_lem_example :
    upload_session lib out 1 (codes "a") channel
    ≡ some (
      none,
      record {
        input = [];
        output = (([] ++ scp_ok) ++ scp_ok) ++ scp_ok;
        outside = b'o' ∷ b'k' ∷ [];
      },
    )
upload_session_lem_example =
    upload_session_lem lib out 0 (codes "a") (codes "/tmp/ansible") (b'h' ∷ []) (b'o' ∷ b'k' ∷ [])
      [] (record { mode = 420; size = 2; name = [] }) channel [] (b'o' ∷ b'k' ∷ []) refl refl refl
      refl refl refl

download_session-options_example :
    download_session lib out (codes "rdf") (codes "dir") channel
    ≡ download_session lib out (b'f' ∷ []) (codes "dir") channel
download_session-options_example =
    download_session-options lib out contains_found (codes "rdf") (codes "dir") channel refl

-- The options of a command that ansible sends.
options_read : scp_options (codes "-f -d /etc/hosts") ≡ (codes "fd", codes "/etc/hosts")
unfolding scp_options_from
options_read = refl
