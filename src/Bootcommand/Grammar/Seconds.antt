-- ===== src/Bootcommand/Grammar/Seconds.antt =====
-- A pause of a number of seconds is read back.
use packer_plugin_sdk.Prelude.{
  ℕ, zero, suc, ◌<◌, ◌*◌, ◌≡◌, refl, ap, ◌∙◌, true, ◌&&◌, leb, List, [], ◌∷◌, ◌++◌, map, String,
  codes, length, length-append, arith, All,
}
use packer_plugin_sdk.Bootcommand.Sequence.{wait}
use packer_plugin_sdk.Bootcommand.Peg.{
  fails, matches, behind, lit_matcher, char_class, choice, zero_or_one, repeat, zero_or_more,
  one_or_more, seq, action,
}
use packer_plugin_sdk.Bootcommand.Peg.Steps.{lit_matcher-other, repeat-fails, repeat-matches}
use packer_plugin_sdk.Bootcommand.Grammar.{
  GoLib, exact, expr_start, expr_end, digit, non_zero_digit, integer, number, time_unit, duration,
  wait_rule, expr_choice, on_wait, to_int64, second, int64,
}
use packer_plugin_sdk.Bootcommand.Grammar.Items.{pause_seconds, written, IsDigit}

module _ (lib : GoLib) where
  digit-one :
      (d : ℕ) (cs : List ℕ) (errs : List String)
      → IsDigit lib d
      → digit lib (d ∷ cs) errs ≡ matches (d ∷ []) (d ∷ []) cs errs
  unfolding digit char_class
  digit-one d cs errs h = rw (h, char_class) refl

  digits-repeat :
      (n : ℕ) (ds rest : List ℕ) (errs : List String)
      → All (IsDigit lib) ds
      → length ds < n
      → repeat n (digit lib) (ds ++ (b'>' ∷ rest)) errs
        ≡ matches (map (λ d. d ∷ []) ds) ds (b'>' ∷ rest) errs
  digits-repeat zero ds rest errs h f = absurd (omega (arith, f))
  digits-repeat (suc n) [] rest errs h f =
      repeat-fails (digit lib) (b'>' ∷ rest) errs n (unfold digit char_class in refl)
  digits-repeat (suc n) (d ∷ ds) rest errs h f =
      repeat-matches (digit lib) (d ∷ (ds ++ (b'>' ∷ rest))) errs n
        (digit-one d (ds ++ (b'>' ∷ rest)) errs h.0)
      ∙ ap (behind (d ∷ []) (λ as'. (d ∷ []) ∷ as'))
          (digits-repeat n ds rest errs h.1 (omega (arith, f)))

  module _ (d : ℕ) (ds rest : List ℕ) (errs : List String)
      (lead : (leb b'1' d && leb d b'9') ≡ true) (digits : All (IsDigit lib) ds)
      (fine : (lib.parse_int (d ∷ ds)).1 ≡ []) where
    abbrev number_text : List ℕ
    number_text = d ∷ (ds ++ (b'>' ∷ rest))

    not_zero : exact lib "0" number_text errs ≡ fails errs
    not_zero = lit_matcher-other (λ x. x) b'0' [] d (ds ++ (b'>' ∷ rest)) errs (ground arith)

    not_minus : exact lib "-" number_text errs ≡ fails errs
    not_minus = lit_matcher-other (λ x. x) b'-' [] d (ds ++ (b'>' ∷ rest)) errs (ground arith)

    non_zero :
        non_zero_digit lib number_text errs ≡ matches (d ∷ []) (d ∷ []) (ds ++ (b'>' ∷ rest)) errs
    unfolding non_zero_digit char_class
    non_zero = rw (lead, char_class) refl

    more_digits :
        zero_or_more (digit lib) (ds ++ (b'>' ∷ rest)) errs
        ≡ matches (map (λ c. c ∷ []) ds) ds (b'>' ∷ rest) errs
    unfolding zero_or_more
    more_digits =
        digits-repeat _ ds rest errs digits (omega (arith, length-append ds (b'>' ∷ rest)))

    integer-reads :
        integer lib number_text errs
        ≡ matches (int64 (lib.parse_int (d ∷ ds)).0) (d ∷ ds) (b'>' ∷ rest) errs
    unfolding integer choice action seq
    integer-reads = rw (not_zero, non_zero, more_digits, fine, integer, choice, action, seq) refl

    number-reads :
        number lib number_text errs ≡ matches (d ∷ (ds ++ [])) (d ∷ (ds ++ [])) (b'>' ∷ rest) errs
    unfolding number zero_or_one action seq
    number-reads =
        rw (not_minus, integer-reads, number, zero_or_one, action, seq) (unfold lit_matcher in refl)

    no_duration : duration lib number_text errs ≡ fails errs
    unfolding duration one_or_more action seq
    no_duration =
        rw (number-reads, duration, one_or_more, action, seq)
          (unfold time_unit choice lit_matcher in refl)

    pub seconds-read :
        (t : List ℕ) × (expr_choice lib (written (pause_seconds d ds) rest) errs
          ≡ matches (wait (to_int64 ((lib.parse_int (d ∷ ds)).0 * second))) t rest errs)
    unfolding expr_choice wait_rule choice zero_or_one action seq expr_start lit_matcher
    seconds-read = (
      codes "<wait" ++ ((d ∷ ds) ++ (b'>' ∷ [])),
      rw (no_duration, integer-reads, expr_choice, wait_rule, choice, zero_or_one, action, seq)
          (unfold expr_start expr_end lit_matcher on_wait in refl),
    )
