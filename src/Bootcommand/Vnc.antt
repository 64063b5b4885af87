-- ===== src/Bootcommand/Vnc.antt =====
-- bootcommand/vnc_driver.go: key events over VNC.
pub mod Laws
use packer_plugin_sdk.Prelude.{
  ℕ, Bool, true, false, Option, none, some, List, [], ◌∷◌, String, if◌then◌else◌, Map, lookup, join,
}
use packer_plugin_sdk.Bootcommand.Driver.{
  KeyAction, key_on, key_off, key_press, BcDriver, key_shift,
}

abbrev pub key_left_shift : ℕ
key_left_shift = 0xFFE1

abbrev pub special_map : Map ℕ
special_map =
    ("bs", 0xFF08)
    ∷ ("del", 0xFFFF)
    ∷ ("down", 0xFF54)
    ∷ ("end", 0xFF57)
    ∷ ("enter", 0xFF0D)
    ∷ ("esc", 0xFF1B)
    ∷ ("f1", 0xFFBE)
    ∷ ("f2", 0xFFBF)
    ∷ ("f3", 0xFFC0)
    ∷ ("f4", 0xFFC1)
    ∷ ("f5", 0xFFC2)
    ∷ ("f6", 0xFFC3)
    ∷ ("f7", 0xFFC4)
    ∷ ("f8", 0xFFC5)
    ∷ ("f9", 0xFFC6)
    ∷ ("f10", 0xFFC7)
    ∷ ("f11", 0xFFC8)
    ∷ ("f12", 0xFFC9)
    ∷ ("home", 0xFF50)
    ∷ ("insert", 0xFF63)
    ∷ ("left", 0xFF51)
    ∷ ("leftalt", 0xFFE9)
    ∷ ("leftctrl", 0xFFE3)
    ∷ ("leftshift", 0xFFE1)
    ∷ ("leftsuper", 0xFFEB)
    ∷ ("menu", 0xFF67)
    ∷ ("pagedown", 0xFF56)
    ∷ ("pageup", 0xFF55)
    ∷ ("return", 0xFF0D)
    ∷ ("right", 0xFF53)
    ∷ ("rightalt", 0xFFEA)
    ∷ ("rightctrl", 0xFFE4)
    ∷ ("rightshift", 0xFFE2)
    ∷ ("rightsuper", 0xFFEC)
    ∷ ("spacebar", 0x20)
    ∷ ("tab", 0xFF09)
    ∷ ("up", 0xFF52)
    ∷ []

-- `c` is the state `S` of the connection; `err` is set by the first event that fails.
pub record VncDriver (S : Type 0) : Type 0 where
  pub c : S
  pub err : Option String

module _ {S : Type 0} (key_event_impl : ℕ → Bool → S → Option String × S)
    (is_upper : ℕ → Bool) where
  -- `keyEvent`, which sends nothing after an error. Its result is not used by its callers.
  unfoldable pub key_event : ℕ → Bool → VncDriver S → VncDriver S
  key_event k down d = elim d.err [
    | some e ↦ d
    | none ↦ let (err, c) = key_event_impl k down d.c in record { c = c; err = err }
  ]

  -- An event of the shift key around a shifted one.
  abbrev pub shift_event : Bool → Bool → VncDriver S → VncDriver S
  shift_event shift down d = if shift then key_event key_left_shift down d else d

  unfoldable pub send_key : ℕ → KeyAction → VncDriver S → Option String × VncDriver S
  send_key key key_on d =
      let d' = key_event key true (shift_event (key_shift is_upper key) true d) in (d'.err, d')
  send_key key key_off d =
      let d' = shift_event (key_shift is_upper key) false (key_event key false d) in (d'.err, d')
  send_key key key_press d =
      let down = key_event key true (shift_event (key_shift is_upper key) true d) in
      let d' = shift_event (key_shift is_upper key) false (key_event key false down) in (d'.err, d')

  -- The events of `SendSpecial` for a key of the map.
  abbrev pub special_events : KeyAction → ℕ → VncDriver S → VncDriver S
  special_events key_on code d = key_event code true d
  special_events key_off code d = key_event code false d
  special_events key_press code d = key_event code false (key_event code true d)

  unfoldable pub send_special : String → KeyAction → VncDriver S → Option String × VncDriver S
  send_special special action d = elim (lookup special special_map) [
    | none ↦ (some (join "special " (join special " not found.")), d)
    | some code ↦ let d' = special_events action code d in (d'.err, d')
  ]

  -- `Flush` does nothing.
  abbrev pub vnc_driver : BcDriver (VncDriver S)
  vnc_driver = record { send_key = send_key; send_special = send_special; flush = λ d. (none, d) }
