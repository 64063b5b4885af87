-- ===== src/Bootcommand/Specials.antt =====
-- The special keys that the boot command grammar knows (bootcommand/boot_command.go, rule SpecialKey),
-- and the tables of the drivers.
use packer_plugin_sdk.Prelude.{
  ◌≡◌, refl, Bool, true, List, [], ◌∷◌, String, arith, ◌&&◌, elem, str_eq, str_eq_iff, Map, lookup,
  is_some,
}
use packer_plugin_sdk.Bootcommand.PcXt
use packer_plugin_sdk.Bootcommand.PcXt.{Scancode}
use packer_plugin_sdk.Bootcommand.Vnc
use packer_plugin_sdk.Bootcommand.Usb

-- In lower case, as the action of rule Special makes them.
abbrev pub special_keys : List String
special_keys =
    "bs" ∷ "del" ∷ "enter" ∷ "esc" ∷ "f10" ∷ "f11" ∷ "f12" ∷ "f1" ∷ "f2" ∷ "f3" ∷ "f4" ∷ "f5" ∷ "f6"
    ∷ "f7" ∷ "f8" ∷ "f9" ∷ "return" ∷ "tab" ∷ "up" ∷ "down" ∷ "spacebar" ∷ "insert" ∷ "home" ∷ "end"
    ∷ "pageup" ∷ "pagedown" ∷ "leftalt" ∷ "leftctrl" ∷ "leftshift" ∷ "rightalt" ∷ "rightctrl"
    ∷ "rightshift" ∷ "leftsuper" ∷ "rightsuper" ∷ "left" ∷ "right" ∷ []

-- Whether every text of a list is a key of a map.
abbrev covers {ℓ} : {V : Type ℓ} → List String → Map V → Bool
covers [] m = true
covers (x ∷ xs) m = is_some (lookup x m) && covers xs m

covers_sound {ℓ} :
    {V : Type ℓ} (xs : List String) (m : Map V) (k : String)
    → covers xs m ≡ true
    → elem k xs ≡ true
    → is_some (lookup k m) ≡ true
covers_sound [] m k h e = cc
covers_sound (x ∷ xs) m k h e = ground (arith, str_eq_iff x k, covers_sound xs m k)

-- Every special key that a boot command can name is in the table of each driver.
pub special_keys_known :
    (k : String)
    → elem k special_keys ≡ true
    → (is_some (lookup k PcXt.special_map) ≡ true)
      × (is_some (lookup k Vnc.special_map) ≡ true)
      × (is_some (lookup k Usb.special) ≡ true)
unfolding lookup str_eq
special_keys_known k e = (
  covers_sound special_keys PcXt.special_map k refl e,
  covers_sound special_keys Vnc.special_map k refl e,
  covers_sound special_keys Usb.special k refl e,
)
