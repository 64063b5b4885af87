-- ===== src/Bootcommand/Vnc/Laws.antt =====
-- The VNC driver: a press is a hold and a release, and an error stops all that follows.
use packer_plugin_sdk.Prelude.{
  ℕ, ◌≡◌, refl, sym, ap, ◌∙◌, Bool, true, false, Option, some, String, arith, lookup, is_some, inl,
  inr, Option-cases,
}
use packer_plugin_sdk.Bootcommand.Driver.{KeyAction, key_on, key_off, key_press, key_shift}
use packer_plugin_sdk.Bootcommand.Vnc.{
  VncDriver, special_map, key_event, shift_event, send_key, send_special, special_events,
}

module _ {S : Type 0} (impl : ℕ → Bool → S → Option String × S) (is_upper : ℕ → Bool) where
  special_known :
      (name : String) (code : ℕ) (action : KeyAction) (d : VncDriver S)
      → lookup name special_map ≡ some code
      → send_special impl is_upper name action d ≡ (
        (special_events impl is_upper action code d).err,
        special_events impl is_upper action code d,
      )
  unfolding send_special
  special_known name code action d e = rw (e, send_special)

  special_press :
      (name : String) (d : VncDriver S)
      → is_some (lookup name special_map) ≡ true
      → send_special impl is_upper name key_press d
        ≡ send_special impl is_upper name key_off (send_special impl is_upper name key_on d).1
  special_press name d h = elim (Option-cases (lookup name special_map)) [
    | inl missing ↦ let e = rw missing at h in cc
    | inr (code, e) ↦
        special_known name code key_press d e
        ∙ sym (
            ap (λ (p : Option String × VncDriver S). send_special impl is_upper name key_off p.1)
              (special_known name code key_on d e)
            ∙ special_known name code key_off _ e)
  ]

  -- Whatever the connection does, pressing a key, or a special key of the table, has the events, the
  -- state and the result of holding it and then releasing it.
  pub press-hold_release :
      (key : ℕ) (name : String) (d : VncDriver S)
      → is_some (lookup name special_map) ≡ true
      → (send_key impl is_upper key key_press d
          ≡ send_key impl is_upper key key_off (send_key impl is_upper key key_on d).1)
        × (send_special impl is_upper name key_press d
            ≡ send_special impl is_upper name key_off (send_special impl is_upper name key_on d).1)
  unfolding send_key
  press-hold_release key name d h = (refl, special_press name d h)

  key_event_stopped :
      (k : ℕ) (down : Bool) (d : VncDriver S) (e : String)
      → d.err ≡ some e
      → key_event impl is_upper k down d ≡ d
  unfolding key_event
  key_event_stopped k down d e h = ground arith

  shift_event_stopped :
      (shift down : Bool) (d : VncDriver S) (e : String)
      → d.err ≡ some e
      → shift_event impl is_upper shift down d ≡ d
  shift_event_stopped true down d e h = key_event_stopped _ down d e h
  shift_event_stopped false down d e h = refl

  -- After an event has failed, no key sends another event, and every key returns that first error.
  pub send_key_stopped :
      (key : ℕ) (action : KeyAction) (d : VncDriver S) (e : String)
      → d.err ≡ some e
      → send_key impl is_upper key action d ≡ (some e, d)
  unfolding send_key
  send_key_stopped key key_on d e h =
      rw (
        shift_event_stopped (key_shift is_upper key) true d e h,
        key_event_stopped key true d e h,
        h,
      )
  send_key_stopped key key_off d e h = rw (
    key_event_stopped key false d e h,
    shift_event_stopped (key_shift is_upper key) false d e h,
    h,
  )
  send_key_stopped key key_press d e h = rw (
    shift_event_stopped (key_shift is_upper key) true d e h,
    key_event_stopped key true d e h,
    key_event_stopped key false d e h,
    shift_event_stopped (key_shift is_upper key) false d e h,
    h,
  )
