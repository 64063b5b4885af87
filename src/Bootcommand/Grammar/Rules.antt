-- ===== src/Bootcommand/Grammar/Rules.antt =====
-- Every rule of the grammar gives back a part of its input; those that a repetition repeats take some.
use packer_plugin_sdk.Prelude.{ℕ, List, [], ◌∷◌, String, codes}
use packer_plugin_sdk.Bootcommand.Specials.{special_keys}
use packer_plugin_sdk.Bootcommand.Peg.{
  Parser, choice, zero_or_more, one_or_more, zero_or_one, seq, action,
}
use packer_plugin_sdk.Bootcommand.Peg.Sound.{
  IsSound, IsProgress, any_matcher-IsSound, seq-IsSound, action-IsSound, choice-IsSound,
  as_value-IsSound, lit_matcher-IsSound, char_class-IsSound, zero_or_one-IsSound,
  zero_or_more-IsSound, one_or_more-IsSound,
}
use packer_plugin_sdk.Bootcommand.Peg.Progress.{
  seq-IsProgress, seq_second-IsProgress, action-IsProgress, choice-IsProgress, as_value-IsProgress,
  lit_matcher-IsProgress, char_class-IsProgress, any_matcher-IsProgress,
}
use packer_plugin_sdk.Bootcommand.Grammar.{
  GoLib, exact, any_case, expr_start, expr_end, literal_rule, on, off, digit, non_zero_digit,
  integer, number, choices, time_unit, duration, special_key, wait_rule, char_toggle, special_rule,
  expr_choice, expr, time_units,
}

module _ (lib : GoLib) where
  choices-IsSound :
      (p : String → Parser (List ℕ)) (ss : List String)
      → ((s : String) → IsSound (p s))
      → IsSound (choices lib p ss)
  unfolding IsSound
  choices-IsSound p [] h inp errs = tt
  choices-IsSound p (s ∷ ss) h inp errs =
      unfold IsSound in
      choice-IsSound (p s) (choices lib p ss) (h s) (choices-IsSound p ss h) inp errs

  ruleset sound = (
    seq-IsSound, action-IsSound, choice-IsSound, as_value-IsSound, lit_matcher-IsSound,
    char_class-IsSound, zero_or_one-IsSound, any_matcher-IsSound,
  )

  ruleset advancing = (
    seq-IsProgress, action-IsProgress, choice-IsProgress, as_value-IsProgress,
    lit_matcher-IsProgress, char_class-IsProgress, any_matcher-IsProgress,
  )

  on_off-IsSound : IsSound (choice (on lib) (off lib))
  unfolding on off
  on_off-IsSound = search sound

  literal_rule-IsSound : IsSound (literal_rule lib)
  unfolding literal_rule
  literal_rule-IsSound = search sound

  literal_rule-IsProgress : IsProgress (literal_rule lib)
  unfolding literal_rule
  literal_rule-IsProgress = search advancing

  ends-IsSound : IsSound (expr_start lib) × IsSound (expr_end lib)
  unfolding expr_start expr_end
  ends-IsSound = (search sound, search sound)

  expr_start-IsProgress : IsProgress (expr_start lib)
  unfolding expr_start
  expr_start-IsProgress = lit_matcher-IsProgress _ b'<' []

  digit-IsSound : IsSound (digit lib) × IsSound (non_zero_digit lib)
  unfolding digit non_zero_digit
  digit-IsSound = (search sound, search sound)

  digit-IsProgress : IsProgress (digit lib) × IsProgress (non_zero_digit lib)
  unfolding digit non_zero_digit
  digit-IsProgress = (search advancing, search advancing)

  digits-IsSound : IsSound (zero_or_more (digit lib)) × IsSound (one_or_more (digit lib))
  digits-IsSound = (
    zero_or_more-IsSound (digit lib) digit-IsSound.0 digit-IsProgress.0,
    one_or_more-IsSound (digit lib) digit-IsSound.0 digit-IsProgress.0,
  )

  integer-IsSound : IsSound (integer lib)
  unfolding integer
  integer-IsSound = search (sound, digit-IsSound.1, digits-IsSound.0)

  integer-IsProgress : IsProgress (integer lib)
  unfolding integer
  integer-IsProgress =
      choice-IsProgress _ _ (as_value-IsProgress _ _ (lit_matcher-IsProgress _ b'0' []))
        (action-IsProgress _ _ (seq-IsProgress _ _ digit-IsProgress.1 digits-IsSound.0))

  fraction-IsSound : IsSound (zero_or_one (seq (exact lib ".") (one_or_more (digit lib))))
  fraction-IsSound = search (sound, digits-IsSound.1)

  number-IsSound : IsSound (number lib)
  unfolding number
  number-IsSound = search (sound, integer-IsSound, fraction-IsSound)

  number-IsProgress : IsProgress (number lib)
  unfolding number
  number-IsProgress = action-IsProgress _ _ (
      seq_second-IsProgress _ _ (search sound)
        (seq-IsProgress _ _ integer-IsProgress fraction-IsSound))

  time_unit-IsSound : IsSound (time_unit lib)
  unfolding time_unit
  time_unit-IsSound = choices-IsSound (exact lib) time_units (λ s. lit_matcher-IsSound _ (codes s))

  duration-IsSound : IsSound (duration lib)
  unfolding duration
  duration-IsSound = action-IsSound _ _ (
      one_or_more-IsSound _ (search (sound, number-IsSound, time_unit-IsSound))
        (seq-IsProgress _ _ number-IsProgress time_unit-IsSound))

  special_key-IsSound : IsSound (special_key lib)
  unfolding special_key
  special_key-IsSound =
      choices-IsSound (any_case lib) special_keys (λ s. lit_matcher-IsSound _ (codes s))

  pub wait_rule-IsSound : IsSound (wait_rule lib)
  unfolding wait_rule
  wait_rule-IsSound =
      search (sound, ends-IsSound.0, ends-IsSound.1, integer-IsSound, duration-IsSound) depth 9

  pub char_toggle-IsSound : IsSound (char_toggle lib)
  unfolding char_toggle
  char_toggle-IsSound =
      search (sound, ends-IsSound.0, ends-IsSound.1, literal_rule-IsSound, on_off-IsSound)

  pub special_rule-IsSound : IsSound (special_rule lib)
  unfolding special_rule
  special_rule-IsSound =
      search (sound, ends-IsSound.0, ends-IsSound.1, special_key-IsSound, on_off-IsSound) depth 9

  pub expr_choice-IsSound : IsSound (expr_choice lib)
  unfolding expr_choice
  expr_choice-IsSound =
      search
        (sound, wait_rule-IsSound, char_toggle-IsSound, special_rule-IsSound, literal_rule-IsSound)

  pub expr_choice-IsProgress : IsProgress (expr_choice lib)
  unfolding expr_choice wait_rule char_toggle special_rule
  expr_choice-IsProgress =
      choice-IsProgress _ _
        (from_start _ _ (search (sound, ends-IsSound.1, integer-IsSound, duration-IsSound) depth 9))
        (choice-IsProgress _ _
          (from_start _ _
            (search (sound, ends-IsSound.1, literal_rule-IsSound, on_off-IsSound) depth 9))
          (choice-IsProgress _ _
            (from_start _ _
              (search (sound, ends-IsSound.1, special_key-IsSound, on_off-IsSound) depth 9))
            (as_value-IsProgress _ _ literal_rule-IsProgress)))
    where
      from_start :
          {A B : Type 0} (run : List ℕ → List ℕ × A → B × List String) (q : Parser A)
          → IsSound q
          → IsProgress (action run (seq (expr_start lib) q))
      from_start run q h = action-IsProgress _ _ (seq-IsProgress _ q expr_start-IsProgress h)

  pub expr-IsSound : IsSound (expr lib)
  unfolding expr
  expr-IsSound = one_or_more-IsSound (expr_choice lib) expr_choice-IsSound expr_choice-IsProgress
