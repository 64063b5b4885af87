-- ===== src/CommonSteps/OnError/Handle.antt =====
-- `handleAbortsAndInterupts`: what it decides, and that it touches nothing but its own key.
use packer_plugin_sdk.Prelude.{
  ◌≡◌, refl, ◌∙◌, Bool, true, false, String, arith, ◌||◌, not, str_eq, inl, inr, Bool-cases,
  Option-cases,
}
use packer_plugin_sdk.Multistep.StateBag.{Value, StateBag, is_set, state_cancelled, state_halted}
use packer_plugin_sdk.CommonSteps.Ui.{Ui, Format}
use packer_plugin_sdk.CommonSteps.OnError.{logs, log_error, skip, handle_aborts_and_interrupts}

module _ {S : Type 0} {bag : StateBag S} (ui : Ui S bag) (fmt : Format) where
  logs-get_ok :
      (k m : String) (s : S)
      → str_eq "abort_step_logged" k ≡ false
      → bag.get_ok k (logs ui fmt m s) ≡ bag.get_ok k s
  logs-get_ok k m s h =
      bag.get_ok-put "abort_step_logged" k (Value.bool true) (ui.error m s)
      ∙ rw h (ui.get_ok-error k m s)

  log_error-get_ok :
      (k : String) (already : Bool) (s : S)
      → str_eq "abort_step_logged" k ≡ false
      → bag.get_ok k (log_error ui fmt already s) ≡ bag.get_ok k s
  log_error-get_ok k already s h = elim (Option-cases (bag.get_ok "error" s)) [
    | inl clean ↦ rw (clean, log_error)
    | inr (err, e) ↦
        rw (e, log_error)
          (elim (Bool-cases already) [
            | inl old ↦ rw old
            | inr new ↦ rw new (logs-get_ok k (fmt.value err) s h)
          ])
  ]

  skip-get_ok :
      (k : String) (already : Bool) (first name : String) (s : S)
      → str_eq "abort_step_logged" k ≡ false
      → bag.get_ok k (skip ui fmt already first name s).1 ≡ bag.get_ok k s
  skip-get_ok k true first name s h = ui.get_ok-error k _ s
  skip-get_ok k false first name s h = logs-get_ok k _ s h

  pub handle-get_ok :
      (k name : String) (s : S)
      → str_eq "abort_step_logged" k ≡ false
      → bag.get_ok k (handle_aborts_and_interrupts ui fmt name s).1 ≡ bag.get_ok k s
  unfolding handle_aborts_and_interrupts
  handle-get_ok k name s h =
      let already = is_set bag "abort_step_logged" s in
      let t = log_error ui fmt already s in
      let same = log_error-get_ok k already s h in
      elim (Bool-cases (is_set bag state_cancelled t)) [
        | inl cancelled ↦ rw cancelled (skip-get_ok k already _ name t h ∙ same)
        | inr live ↦ rw live (elim (Bool-cases (is_set bag state_halted t)) [
          | inl halted ↦ rw halted (skip-get_ok k already _ name t h ∙ same)
          | inr going ↦ rw going same
        ])
      ]

  -- A clean-up is due exactly if the bag is neither cancelled nor halted.
  pub handle-decision :
      (name : String) (s : S)
      → (handle_aborts_and_interrupts ui fmt name s).0
        ≡ not (is_set bag state_cancelled s || is_set bag state_halted s)
  unfolding handle_aborts_and_interrupts str_eq
  handle-decision name s =
      let already = is_set bag "abort_step_logged" s in
      ground (
        arith,
        log_error-get_ok state_cancelled already s refl,
        log_error-get_ok state_halted already s refl,
      )
