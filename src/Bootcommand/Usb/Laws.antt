-- ===== src/Bootcommand/Usb/Laws.antt =====
-- The USB driver: what it makes of a key action.
use packer_plugin_sdk.Prelude.{ℕ, ◌≡◌, refl, Bool, Option, String}
use packer_plugin_sdk.Bootcommand.Driver.{KeyAction, key_off, key_press}
use packer_plugin_sdk.Bootcommand.Usb.{send_key, send_special}

-- Holding, releasing and pressing a printable key all send the one same event, and pressing a special
-- key sends what releasing it sends.
pub actions_alike :
    {S : Type 0} (code : String → ℕ) (impl : ℕ → Bool → S → Option String × S) (is_upper : ℕ → Bool)
    (key : ℕ) (name : String) (a b : KeyAction) (s : S)
    → (send_key code impl is_upper key a s ≡ send_key code impl is_upper key b s)
      × (send_special code impl is_upper name key_press s
          ≡ send_special code impl is_upper name key_off s)
unfolding send_key send_special
actions_alike code impl is_upper key name a b s = (refl, refl)
