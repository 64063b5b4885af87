-- ===== src/Bootcommand/Grammar/RoundTrip.antt =====
-- A command that is written from items is parsed to what the items mean.
use packer_plugin_sdk.Prelude.{
  ℕ, zero, suc, ◌≤◌, ◌<◌, ◌≡◌, refl, ap, ◌∙◌, List, [], ◌∷◌, ◌++◌, map, String, codes, length,
  length-append, arith, All,
}
use packer_plugin_sdk.Bootcommand.Driver.{key_on, key_off}
use packer_plugin_sdk.Bootcommand.Peg.{
  fails, matches, behind, any_matcher, not_expr, lit_matcher, choice, repeat, seq, action,
}
use packer_plugin_sdk.Bootcommand.Peg.Steps.{repeat-fails, repeat-matches, one_or_more-matches}
use packer_plugin_sdk.Bootcommand.Grammar.{
  GoLib, expr_start, wait_rule, char_toggle, special_rule, literal_rule, expr_choice, expr, eof,
  input, parsed, parse, generate_expression_sequence,
}
use packer_plugin_sdk.Bootcommand.Grammar.Items.{
  Item, press, hold, release, key, pause, pause_seconds, suffix, written, written_all, meant,
  IsWritable,
}
use packer_plugin_sdk.Bootcommand.Grammar.Reads.{item-Reads}

module _ (lib : GoLib) where
  -- The loop over the items that are left.
  Loops : ℕ → List Item → List String → Type 0
  Loops n items errs =
      (t : List ℕ) × (repeat n (expr_choice lib) (written_all items) errs
        ≡ matches (map (meant lib) items) t [] errs)

  nothing_left : (errs : List String) → expr_choice lib [] errs ≡ fails errs
  unfolding expr_choice wait_rule char_toggle special_rule literal_rule any_matcher choice action
      seq expr_start lit_matcher
  nothing_left errs = refl

  repeat-Loops :
      (n : ℕ) (items : List Item) (errs : List String)
      → All (IsWritable lib) items
      → length items < n
      → Loops n items errs
  unfolding Loops written_all
  repeat-Loops zero items errs h f = absurd (omega (arith, f))
  repeat-Loops (suc n) [] errs h f =
      ([], repeat-fails (expr_choice lib) [] errs n (nothing_left errs))
  repeat-Loops (suc n) (item ∷ items) errs h f =
      let (t, e) = item-Reads lib item h.0 (written_all items) errs in
      let (u, ih) = repeat-Loops n items errs h.1 (omega (arith, f)) in
      (
        t ++ u,
        repeat-matches (expr_choice lib) (written item (written_all items)) errs n e
            ∙ ap (behind t (λ as'. meant lib item ∷ as')) ih,
      )

  length-written : (item : Item) (rest : List ℕ) → length rest < length (written item rest)
  length-written (press c) rest = omega arith
  length-written (hold c) rest = omega (arith, length-append (suffix key_on) rest)
  length-written (release c) rest = omega (arith, length-append (suffix key_off) rest)
  length-written (key name a) rest =
      omega (arith, length-append (codes name) (suffix a ++ rest), length-append (suffix a) rest)
  length-written pause rest = omega (arith, length-append (codes "<wait>") rest)
  length-written (pause_seconds d ds) rest = omega (
    arith,
    length-append (codes "<wait") (d ∷ (ds ++ (b'>' ∷ rest))),
    length-append ds (b'>' ∷ rest),
  )

  length-written_all : (items : List Item) → length items ≤ length (written_all items)
  unfolding written_all
  length-written_all [] = omega arith
  length-written_all (item ∷ items) =
      omega (arith, length-written_all items, length-written item (written_all items))

  expr-reads :
      (item : Item) (items : List Item) (errs : List String)
      → All (IsWritable lib) (item ∷ items)
      → (t : List ℕ) × (expr lib (written_all (item ∷ items)) errs
          ≡ matches (map (meant lib) (item ∷ items)) t [] errs)
  unfolding expr written_all Loops
  expr-reads item items errs h =
      let (t, e) = item-Reads lib item h.0 (written_all items) errs in
      let (u, ih) =
        repeat-Loops (suc (length (written_all items))) items errs h.1
          (omega (arith, length-written_all items)) in
      (
        t ++ u,
        one_or_more-matches (expr_choice lib) (written item (written_all items)) errs e
            ∙ ap (behind t (λ as'. meant lib item ∷ as')) ih,
      )

  parse-written :
      (item : Item) (items : List Item)
      → All (IsWritable lib) (item ∷ items)
      → parse lib (written_all (item ∷ items)) ≡ parsed (map (meant lib) (item ∷ items))
  unfolding parse input action seq
  parse-written item items h =
      rw ((expr-reads item items [] h).1, parse, input, action, seq)
        (unfold eof not_expr any_matcher in refl)

  generate-parse :
      (item : Item) (rest : List ℕ)
      → generate_expression_sequence lib (written item rest) ≡ parse lib (written item rest)
  unfolding generate_expression_sequence
  generate-parse (press c) rest = refl
  generate-parse (hold c) rest = refl
  generate-parse (release c) rest = refl
  generate-parse (key name a) rest = refl
  generate-parse pause rest = refl
  generate-parse (pause_seconds d ds) rest = refl

  -- A command that is written from items is parsed, with no error, to the expressions that the items
  -- mean, in their order: characters other than "<", characters held and released, the special keys
  -- of the grammar pressed, held and released, a pause, and a pause of a number of seconds that starts
  -- with no zero and that strconv.ParseInt reads with no error.
  pub generate-written :
      (items : List Item)
      → All (IsWritable lib) items
      → generate_expression_sequence lib (written_all items) ≡ parsed (map (meant lib) items)
  unfolding written_all
  generate-written [] h = unfold generate_expression_sequence in refl
  generate-written (item ∷ items) h =
      generate-parse item (written_all items) ∙ parse-written item items h
