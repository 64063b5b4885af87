-- ===== src/Bootcommand/Usb.antt =====
-- bootcommand/usb_driver.go: USB scancodes. The codes are constants of golang.org/x/mobile/event/key, a
-- parameter: `code` gives the number of a constant by its name.
pub mod Laws
use packer_plugin_sdk.Prelude.{
  ℕ, ◌+◌, Bool, true, false, Option, none, some, List, [], ◌∷◌, String, if◌then◌else◌, Map, lookup,
  join, codes, index_from,
}
use packer_plugin_sdk.Bootcommand.Driver.{
  KeyAction, key_on, key_off, key_press, BcDriver, key_shift,
}

-- The names of the constants of the special keys.
abbrev pub special : Map String
special =
    ("enter", "CodeReturnEnter")
    ∷ ("return", "CodeReturnEnter")
    ∷ ("esc", "CodeEscape")
    ∷ ("bs", "CodeDeleteBackspace")
    ∷ ("del", "CodeDeleteForward")
    ∷ ("tab", "CodeTab")
    ∷ ("f1", "CodeF1")
    ∷ ("f2", "CodeF2")
    ∷ ("f3", "CodeF3")
    ∷ ("f4", "CodeF4")
    ∷ ("f5", "CodeF5")
    ∷ ("f6", "CodeF6")
    ∷ ("f7", "CodeF7")
    ∷ ("f8", "CodeF8")
    ∷ ("f9", "CodeF9")
    ∷ ("f10", "CodeF10")
    ∷ ("f11", "CodeF11")
    ∷ ("f12", "CodeF12")
    ∷ ("insert", "CodeInsert")
    ∷ ("home", "CodeHome")
    ∷ ("end", "CodeEnd")
    ∷ ("pageup", "CodePageUp")
    ∷ ("pagedown", "CodePageDown")
    ∷ ("left", "CodeLeftArrow")
    ∷ ("right", "CodeRightArrow")
    ∷ ("up", "CodeUpArrow")
    ∷ ("down", "CodeDownArrow")
    ∷ ("leftalt", "CodeLeftAlt")
    ∷ ("leftctrl", "CodeLeftControl")
    ∷ ("leftshift", "CodeLeftShift")
    ∷ ("rightalt", "CodeRightAlt")
    ∷ ("rightctrl", "CodeRightControl")
    ∷ ("rightshift", "CodeRightShift")
    ∷ ("leftsuper", "CodeLeftGUI")
    ∷ ("rightsuper", "CodeRightGUI")
    ∷ ("spacebar", "CodeSpacebar")
    ∷ []

abbrev pub scancode_index : List (List ℕ × String)
scancode_index =
    (codes "abcdefghijklmnopqrstuvwxyz", "CodeA")
    ∷ (codes "ABCDEFGHIJKLMNOPQRSTUVWXYZ", "CodeA")
    ∷ (codes "1234567890", "Code1")
    ∷ (codes "!@#$%^&*()", "Code1")
    ∷ (codes " ", "CodeSpacebar")
    ∷ (codes "-=[]\\", "CodeHyphenMinus")
    ∷ (codes "_+{}|", "CodeHyphenMinus")
    ∷ (codes ";'`,./", "CodeSemicolon")
    ∷ (codes ":\"~<>?", "CodeSemicolon")
    ∷ []

module _ {S : Type 0} (code : String → ℕ) (send_impl : ℕ → Bool → S → Option String × S)
    (is_upper : ℕ → Bool) where
  unfoldable pub scancode_in : List (List ℕ × String) → ℕ → ℕ
  scancode_in [] key = 0
  scancode_in ((chars, start) ∷ rows) key =
      let rest = scancode_in rows key in
      elim (index_from 0 key chars) [ none ↦ rest | some i ↦ code start + i ]

  unfoldable pub send_key : ℕ → KeyAction → S → Option String × S
  unfolding scancode_in
  send_key k action s = send_impl (scancode_in scancode_index k) (key_shift is_upper k) s

  unfoldable pub send_special : String → KeyAction → S → Option String × S
  send_special name action s = elim (lookup name special) [
    | none ↦ (some (join "special " (join name " not found.")), s)
    | some constant ↦ elim action [
      | key_on ↦ send_impl (code constant) true s
      | _ ↦ send_impl (code constant) false s
    ]
  ]

  -- `Flush` does nothing.
  abbrev pub usb_driver : BcDriver S
  usb_driver = record { send_key = send_key; send_special = send_special; flush = λ s. (none, s) }
