-- ===== src/Adapter/Connection.antt =====
-- What adapter/scp.go works on: the bytes of a connection, its options and its responses, the state of an
-- upload, and what lies outside.
use packer_plugin_sdk.Prelude.{
  Result, ℕ, zero, suc, Bool, true, false, ◌||◌, Option, none, some, List, [], ◌∷◌, String,
  if◌then◌else◌, ltb, ◌==◌, text,
}

abbrev pub Bytes : Type 0
Bytes = List ℕ

-- What `fmt.Fscanf` reads: the values, or an error, and what is left of the input.
pub data Scan (A : Type 0) : Type 0 where
  scanned : A → Bytes → Scan A
  unreadable : String → Bytes → Scan A

pub record FileHeader : Type 0 where
  pub mode : ℕ
  pub size : ℕ
  pub name : Bytes

-- A header of a file or directory and a pair of times as `fmt.Fscanf` reads them, a negative size being
-- 0; `filepath.Join`, `filepath.Dir` and `filepath.Base`; `strings.TrimSpace`, `shlex.Split` and `bytes.Contains`.
pub record Lib : Type 0 where
  pub scan_header : Bytes → Scan FileHeader
  pub scan_times : Bytes → Scan (ℕ × ℕ)
  pub path_join : Bytes → Bytes → Bytes
  pub path_dir : Bytes → Bytes
  pub path_base : Bytes → Bytes
  pub trim_space : Bytes → Bytes
  pub split : Bytes → Result (List Bytes)
  pub contains : Bytes → Bytes → Bool

-- The communicator, which reads what it is given to the end, the files on the host, the clock, and a
-- temporary directory; the line with the mode, the size and the name of a file, and what it holds.
pub record Outside (S : Type 0) : Type 0 where
  pub upload : Bytes → Bytes → S → Option String × S
  pub upload_dir : Bytes → Bytes → S → Option String × S
  pub mkdir : Bytes → ℕ → S → Option String × S
  pub chtimes : Bytes → ℕ → ℕ → S → Option String × S
  pub now : S → ℕ
  pub temp_dir : S → Result Bytes × S
  pub create : Bytes → S → Option String × S
  pub download : Bytes → S → Option String × S
  pub header : Bytes → S → Result Bytes
  pub read : Bytes → S → Result Bytes

-- `scpUploadState`. A time that is zero is none.
pub record UploadState : Type 0 where
  pub target : Bytes
  pub src_root : Bytes
  pub mtime : Option ℕ
  pub atime : Option ℕ
  pub dir : Bytes
  pub target_is_dir : Bool

-- What is left of the input, what was written, and the rest of the state.
pub record Channel (S : Type 0) : Type 0 where
  pub input : Bytes
  pub output : Bytes
  pub outside : S

abbrev pub scp_ok : Bytes
scp_ok = 0 ∷ []

abbrev pub scp_empty_error : Bytes
scp_empty_error = 2 ∷ 10 ∷ []

-- `scpOptions`, with whether an option is being read.
unfoldable pub scp_options_from : Bool → Bytes → Bytes × Bytes
scp_options_from opt [] = ([], [])
scp_options_from opt (b ∷ bs) =
    let blank = scp_options_from false bs in
    let dash = scp_options_from true bs in
    if b == b' '
    then blank
    else if b == b'-'
    then dash
    else if opt
    then (b ∷ dash.0, dash.1)
    else ([], b ∷ bs)

abbrev pub scp_options : Bytes → Bytes × Bytes
scp_options s = scp_options_from false s

abbrev pub has_byte : ℕ → Bytes → Bool
has_byte b [] = false
has_byte b (c ∷ cs) = if c == b then true else has_byte b cs

-- `serveSCP`
unfoldable pub serve_scp : Bytes → Bool
serve_scp args = let opts = (scp_options args).0 in has_byte b't' opts || has_byte b'f' opts

-- `ReadString('\n')`: the line with its end, if there is one.
unfoldable pub read_line : Bytes → Option (Bytes × Bytes)
read_line [] = none
read_line (b ∷ bs) =
    let rest = read_line bs in
    if b == 10 then some (b ∷ [], bs) else elim rest [ none ↦ none | some p ↦ some (b ∷ p.0, p.1) ]

-- `scpResponse`: the error, and what is left of the input.
unfoldable pub scp_response : Bytes → Option String × Bytes
scp_response [] = (some "EOF", [])
scp_response (code ∷ bs) = if code == 0 then (none, bs) else elim (read_line bs) [
  | none ↦ (some "Error reading error message: EOF", [])
  | some p ↦ (if ltb 1 code then some (text p.0) else none, p.1)
]

abbrev pub take : ℕ → Bytes → Bytes
take zero bs = []
take (suc n) [] = []
take (suc n) (b ∷ bs) = b ∷ take n bs

abbrev pub drop : ℕ → Bytes → Bytes
drop zero bs = bs
drop (suc n) [] = []
drop (suc n) (b ∷ bs) = drop n bs
