-- ===== src/Bootcommand/Grammar/Reads.antt =====
-- What is written is read back.
use packer_plugin_sdk.Prelude.{
  ℕ, ◌≡◌, refl, ◌∙◌, true, false, ◌==◌, List, [], ◌∷◌, String, codes, elem, Bool-cases, inl, inr,
}
use packer_plugin_sdk.Bootcommand.Driver.{KeyAction, key_on, key_off, key_press}
use packer_plugin_sdk.Bootcommand.Specials.{special_keys}
use packer_plugin_sdk.Bootcommand.Peg.{
  fails, matches, lit_matcher, any_matcher, char_class, choice, zero_or_one, one_or_more, seq,
  action,
}
use packer_plugin_sdk.Bootcommand.Peg.Steps.{lit_matcher-other, choice-fails}
use packer_plugin_sdk.Bootcommand.Grammar.{
  GoLib, exact, expr_start, expr_end, literal_rule, on, off, non_zero_digit, integer, number,
  duration, wait_rule, char_toggle, special_rule, expr_choice, on_wait,
}
use packer_plugin_sdk.Bootcommand.Grammar.Items.{
  Item, press, hold, release, key, pause, pause_seconds, written, meant, IsWritable,
}
use packer_plugin_sdk.Bootcommand.Grammar.Keys.{key-KeyReads}
use packer_plugin_sdk.Bootcommand.Grammar.Seconds.{seconds-read}

module _ (lib : GoLib) where
  -- A parser takes the text of an item and leaves what is behind it.
  abbrev pub Reads : Item → Type 0
  Reads item =
      (rest : List ℕ) (errs : List String)
      → (t : List ℕ) × (expr_choice lib (written item rest) errs
          ≡ matches (meant lib item) t rest errs)

  start_none :
      (c : ℕ) (cs : List ℕ) (errs : List String)
      → (c == b'<') ≡ false
      → expr_start lib (c ∷ cs) errs ≡ fails errs
  unfolding expr_start
  start_none c cs errs h = lit_matcher-other (λ x. x) b'<' [] c cs errs h

  start_some :
      (cs : List ℕ) (errs : List String)
      → expr_start lib (b'<' ∷ cs) errs ≡ matches (b'<' ∷ []) (b'<' ∷ []) cs errs
  unfolding expr_start lit_matcher
  start_some cs errs = refl

  no_rule :
      (c : ℕ) (cs : List ℕ) (errs : List String)
      → (c == b'<') ≡ false
      → (wait_rule lib (c ∷ cs) errs ≡ fails errs)
        × (char_toggle lib (c ∷ cs) errs ≡ fails errs)
        × (special_rule lib (c ∷ cs) errs ≡ fails errs)
  unfolding wait_rule char_toggle special_rule action seq
  no_rule c cs errs h = (
    rw (start_none c cs errs h, wait_rule, action, seq) refl,
    rw (start_none c cs errs h, char_toggle, action, seq) refl,
    rw (start_none c cs errs h, special_rule, action, seq) refl,
  )

  press-Reads : (c : ℕ) → (c == b'<') ≡ false → Reads (press c)
  unfolding expr_choice choice
  press-Reads c h rest errs =
      let (no_wait, no_toggle, no_special) = no_rule c rest errs h in
      (
        c ∷ [],
        rw (no_wait, no_toggle, no_special, expr_choice, choice)
            (unfold literal_rule action any_matcher in refl),
      )

  pause-Reads : Reads pause
  unfolding expr_choice wait_rule choice action seq expr_start expr_end lit_matcher zero_or_one
      duration one_or_more number integer non_zero_digit char_class on_wait
  pause-Reads rest errs = (codes "<wait>", refl)

  wait_word :
      (c : ℕ) (cs : List ℕ) (errs : List String)
      → exact lib "wait" (c ∷ b'O' ∷ cs) errs ≡ fails errs
  unfolding lit_matcher
  wait_word c cs errs = elim (Bool-cases (c == b'w')) [
    | inl w ↦ rw (w, lit_matcher) refl
    | inr other ↦ lit_matcher-other (λ x. x) b'w' (codes "ait") c (b'O' ∷ cs) errs other
  ]

  -- A character and then an "O" are not the start of "wait".
  no_wait_rule :
      (c : ℕ) (cs : List ℕ) (errs : List String)
      → wait_rule lib (b'<' ∷ c ∷ b'O' ∷ cs) errs ≡ fails errs
  unfolding wait_rule action seq
  no_wait_rule c cs errs =
      rw (start_some (c ∷ b'O' ∷ cs) errs, wait_word c cs errs, wait_rule, action, seq) refl

  hold-Reads : (c : ℕ) → Reads (hold c) × Reads (release c)
  unfolding expr_choice char_toggle literal_rule any_matcher on off action seq expr_start expr_end
      lit_matcher
  hold-Reads c = (
    λ rest errs. (
      b'<' ∷ c ∷ codes "On>",
      choice-fails _ _ _ _ (no_wait_rule c (b'n' ∷ b'>' ∷ rest) errs) ∙ unfold choice in refl,
    ),
    λ rest errs. (
      b'<' ∷ c ∷ codes "Off>",
      choice-fails _ _ _ _ (no_wait_rule c (b'f' ∷ b'f' ∷ b'>' ∷ rest) errs)
          ∙ unfold choice in refl,
    ),
  )

  key-Reads : (name : String) (a : KeyAction) → elem name special_keys ≡ true → Reads (key name a)
  key-Reads name key_on h rest errs = (_, (key-KeyReads lib name h rest errs).0)
  key-Reads name key_off h rest errs = (_, (key-KeyReads lib name h rest errs).1.0)
  key-Reads name key_press h rest errs = (_, (key-KeyReads lib name h rest errs).1.1)

  -- Every item is read back, whatever stands behind it.
  pub item-Reads : (item : Item) → IsWritable lib item → Reads item
  item-Reads (press c) h = press-Reads c h
  item-Reads (hold c) h = (hold-Reads c).0
  item-Reads (release c) h = (hold-Reads c).1
  item-Reads (key name a) h = key-Reads name a h
  item-Reads pause h = pause-Reads
  item-Reads (pause_seconds d ds) (lead, digits, fine) =
      λ rest errs. seconds-read lib d ds rest errs lead digits fine
