-- ===== src/Bootcommand/PcXt.antt =====
-- bootcommand/pc_xt_driver.go: PC-XT scancodes, kept in a buffer and sent in chunks.
pub mod Chunks
pub mod Tables
pub mod Typing
use packer_plugin_sdk.Prelude.{
  ℕ, ◌+◌, ◌%◌, ◌<◌, Bool, true, false, Option, none, some, List, [], ◌∷◌, ◌++◌, String, ◌&&◌,
  if◌then◌else◌, ltb, Map, lookup, join, codes, index_from, hex02, length, is_nil,
}
use packer_plugin_sdk.Bootcommand.Driver.{
  KeyAction, key_on, key_off, key_press, goes_down, goes_up, BcDriver, key_shift,
}

pub record Scancode : Type 0 where
  pub make : List String
  pub break : List String

abbrev pub make_break : Scancode → List String
make_break sc = sc.make ++ sc.break

abbrev pub special_map : Map Scancode
special_map =
    ("bs", record { make = "0e" ∷ []; break = "8e" ∷ [] })
    ∷ ("del", record { make = "e0" ∷ "53" ∷ []; break = "e0" ∷ "d3" ∷ [] })
    ∷ ("down", record { make = "e0" ∷ "50" ∷ []; break = "e0" ∷ "d0" ∷ [] })
    ∷ ("end", record { make = "e0" ∷ "4f" ∷ []; break = "e0" ∷ "cf" ∷ [] })
    ∷ ("enter", record { make = "1c" ∷ []; break = "9c" ∷ [] })
    ∷ ("esc", record { make = "01" ∷ []; break = "81" ∷ [] })
    ∷ ("f1", record { make = "3b" ∷ []; break = "bb" ∷ [] })
    ∷ ("f2", record { make = "3c" ∷ []; break = "bc" ∷ [] })
    ∷ ("f3", record { make = "3d" ∷ []; break = "bd" ∷ [] })
    ∷ ("f4", record { make = "3e" ∷ []; break = "be" ∷ [] })
    ∷ ("f5", record { make = "3f" ∷ []; break = "bf" ∷ [] })
    ∷ ("f6", record { make = "40" ∷ []; break = "c0" ∷ [] })
    ∷ ("f7", record { make = "41" ∷ []; break = "c1" ∷ [] })
    ∷ ("f8", record { make = "42" ∷ []; break = "c2" ∷ [] })
    ∷ ("f9", record { make = "43" ∷ []; break = "c3" ∷ [] })
    ∷ ("f10", record { make = "44" ∷ []; break = "c4" ∷ [] })
    ∷ ("f11", record { make = "57" ∷ []; break = "d7" ∷ [] })
    ∷ ("f12", record { make = "58" ∷ []; break = "d8" ∷ [] })
    ∷ ("home", record { make = "e0" ∷ "47" ∷ []; break = "e0" ∷ "c7" ∷ [] })
    ∷ ("insert", record { make = "e0" ∷ "52" ∷ []; break = "e0" ∷ "d2" ∷ [] })
    ∷ ("left", record { make = "e0" ∷ "4b" ∷ []; break = "e0" ∷ "cb" ∷ [] })
    ∷ ("leftalt", record { make = "38" ∷ []; break = "b8" ∷ [] })
    ∷ ("leftctrl", record { make = "1d" ∷ []; break = "9d" ∷ [] })
    ∷ ("leftshift", record { make = "2a" ∷ []; break = "aa" ∷ [] })
    ∷ ("leftsuper", record { make = "e0" ∷ "5b" ∷ []; break = "e0" ∷ "db" ∷ [] })
    ∷ ("menu", record { make = "e0" ∷ "5d" ∷ []; break = "e0" ∷ "dd" ∷ [] })
    ∷ ("pagedown", record { make = "e0" ∷ "51" ∷ []; break = "e0" ∷ "d1" ∷ [] })
    ∷ ("pageup", record { make = "e0" ∷ "49" ∷ []; break = "e0" ∷ "c9" ∷ [] })
    ∷ ("return", record { make = "1c" ∷ []; break = "9c" ∷ [] })
    ∷ ("right", record { make = "e0" ∷ "4d" ∷ []; break = "e0" ∷ "cd" ∷ [] })
    ∷ ("rightalt", record { make = "e0" ∷ "38" ∷ []; break = "e0" ∷ "b8" ∷ [] })
    ∷ ("rightctrl", record { make = "e0" ∷ "1d" ∷ []; break = "e0" ∷ "9d" ∷ [] })
    ∷ ("rightshift", record { make = "36" ∷ []; break = "b6" ∷ [] })
    ∷ ("rightsuper", record { make = "e0" ∷ "5c" ∷ []; break = "e0" ∷ "dc" ∷ [] })
    ∷ ("spacebar", record { make = "39" ∷ []; break = "b9" ∷ [] })
    ∷ ("tab", record { make = "0f" ∷ []; break = "8f" ∷ [] })
    ∷ ("up", record { make = "e0" ∷ "48" ∷ []; break = "e0" ∷ "c8" ∷ [] })
    ∷ []

-- The rows of keys whose codes count up from a start.
abbrev pub scancode_index : List (List ℕ × ℕ)
scancode_index =
    (codes "1234567890-=", 0x02)
    ∷ (codes "!@#$%^&*()_+", 0x02)
    ∷ (codes "qwertyuiop[]", 0x10)
    ∷ (codes "QWERTYUIOP{}", 0x10)
    ∷ (codes "asdfghjkl;'`", 0x1e)
    ∷ (codes "ASDFGHJKL:\"~", 0x1e)
    ∷ (codes "\\zxcvbnm,./", 0x2b)
    ∷ (codes "|ZXCVBNM<>?", 0x2b)
    ∷ (codes " ", 0x39)
    ∷ []

-- `scancodeMap`, a byte for each rune of the rows.
unfoldable pub scancode_in : List (List ℕ × ℕ) → ℕ → Option ℕ
scancode_in [] key = none
scancode_in ((chars, start) ∷ rows) key =
    let rest = scancode_in rows key in
    elim (index_from 0 key chars) [ none ↦ rest | some i ↦ some ((start + i) % 256) ]

-- A read of the map: a rune that is not in it gives zero.
unfoldable pub scancode_of : ℕ → ℕ
unfolding scancode_in
scancode_of key = elim (scancode_in scancode_index key) [ none ↦ 0 | some b ↦ b ]

-- The codes of `SendKey`.
unfoldable pub key_codes : Bool → ℕ → KeyAction → List String
key_codes shift code action =
    (if goes_down action then (if shift then "2a" ∷ [] else []) ++ (hex02 code ∷ []) else [])
    ++ (if goes_up action
        then hex02 ((code + 0x80) % 256) ∷ (if shift then "aa" ∷ [] else [])
        else [])

-- The codes of `SendSpecial` for a key of the map.
unfoldable pub special_codes : Scancode → KeyAction → List String
special_codes sc key_on = sc.make
special_codes sc key_off = sc.break
special_codes sc key_press = make_break sc

-- The loop of `chunkScanCodes`; `none` is its error. A `running` that is nil is empty, and an empty one
-- is nil. A size of zero stands for any size that is not positive.
unfoldable pub chunk_loop :
    ℕ → List (List String) → List (List String) → List String → Option (List (List String))
chunk_loop size [] out running = some (if is_nil running then out else out ++ (running ∷ []))
chunk_loop size (cs ∷ sc) out running =
    let fresh = chunk_loop size sc (out ++ (running ∷ [])) cs in
    let joined = chunk_loop size sc out (running ++ cs) in
    if ltb 0 size && ltb size (length cs)
    then none
    else if ltb 0 size && ltb size (length running + length cs)
    then fresh
    else joined

unfoldable pub chunk_scan_codes : List (List String) → ℕ → Option (List (List String))
unfolding chunk_loop
chunk_scan_codes sc size = chunk_loop size sc [] []

-- The driver, over the state `S` of the machine that the codes are sent to.
pub record PcXtDriver (S : Type 0) : Type 0 where
  pub buffer : List (List String)
  pub vm : S

-- The loop of `Flush`, which stops at the first error.
unfoldable pub send_all :
    {S : Type 0}
    → (List String → S → Option String × S)
    → List (List String)
    → S
    → Option String × S
send_all send [] s = (none, s)
send_all send (b ∷ bs) s =
    let (err, s') = send b s in elim err [ none ↦ send_all send bs s' | some e ↦ (some e, s') ]

module _ {S : Type 0} (send_impl : List String → S → Option String × S) (chunk_size : ℕ)
    (is_upper : ℕ → Bool) where
  -- `send` stores the codes in the buffer.
  abbrev pub store : List String → PcXtDriver S → PcXtDriver S
  store cs d = record d { buffer = d.buffer ++ (cs ∷ []) }

  unfoldable pub flush : PcXtDriver S → Option String × PcXtDriver S
  flush d = elim (chunk_scan_codes d.buffer chunk_size) [
    | none ↦
        (some "chunkScanCodes: size cannot be smaller than sc width.", record d { buffer = [] })
    | some chunks ↦
        let (err, s) = send_all send_impl chunks d.vm in (err, record { buffer = []; vm = s })
  ]

  unfoldable pub send_key : ℕ → KeyAction → PcXtDriver S → Option String × PcXtDriver S
  send_key key action d =
      (none, store (key_codes (key_shift is_upper key) (scancode_of key) action) d)

  unfoldable pub send_special : String → KeyAction → PcXtDriver S → Option String × PcXtDriver S
  send_special special action d = elim (lookup special special_map) [
    | none ↦ (some (join "special " (join special " not found.")), d)
    | some sc ↦ (none, store (special_codes sc action) d)
  ]

  abbrev pub pc_xt_driver : BcDriver (PcXtDriver S)
  pc_xt_driver = record { send_key = send_key; send_special = send_special; flush = flush }
