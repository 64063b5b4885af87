-- ===== src/Template/Assemble/Complete.antt =====
-- What a template that is built holds.
use mathlib.Core.Path.{subst}
use packer_plugin_sdk.Prelude.{
  lookup-nil, ap, sym, ◌∙◌, elem, ℕ, suc, ◌≡◌, refl, true, false, Option, none, some, List, [], ◌∷◌,
  ◌++◌, String, str_eq, is_nil, ◌⊎◌, inl, inr, Map, lookup, delete, arith, All, length,
  Option-cases, Bool-cases, if◌then◌else◌, lookup-delete,
}
use packer_plugin_sdk.Template.Types.{Provisioner, Template}
use packer_plugin_sdk.Template.Parse.{
  Dynamic, nil, string, object, sequence, other, ParseError, provisioner_error, cleanup_error,
  RawTemplate, Decoders, gather_variables, gather_builders, gather_chains, decode_provisioner,
  delete_all, nil_if_empty, provisioner_keys, is_nil_value,
}
use packer_plugin_sdk.Template.Assemble.{
  Outcome, panics, failed, built, finish, gather_provisioners, gather_cleanup, template,
}

-- A result with no error has the property, and there was no error before.
NoError : {A : Type 0} → (A → Type 0) → List ParseError → A × List ParseError → Type 0
NoError P errs r = is_nil r.1 ≡ true → (is_nil errs ≡ true) × P r.0

snoc_nil : (errs : List ParseError) (e : ParseError) → is_nil (errs ++ e ∷ []) ≡ false
snoc_nil [] e = refl
snoc_nil (x ∷ errs) e = refl

NoErrors : {A : Type 0} → (A → Type 0) → List ParseError → Option (A × List ParseError) → Type 0
NoErrors P errs none = Unit
NoErrors P errs (some r) = NoError P errs r

-- Behind an error nothing is free of errors.
NoErrors-error :
    {A : Type 0} (P Q : A → Type 0) (errs : List ParseError) (e : ParseError)
    (r : Option (A × List ParseError))
    → NoErrors P (errs ++ e ∷ []) r
    → NoErrors Q errs r
unfolding NoErrors NoError
NoErrors-error P Q errs e none h = tt
NoErrors-error P Q errs e (some r) h =
    λ n. let (bad, holds) = h n in let good = snoc_nil errs e in cc

-- What a loop puts in front of the list that the rest of it returns.
NoErrors-cons :
    {A : Type 0} (P Q : List A → Type 0) (errs : List ParseError) (a : A)
    (r : Option (List A × List ParseError))
    → ((as' : List A) → P as' → Q (a ∷ as'))
    → NoErrors P errs r
    → NoErrors Q errs (elim r as (λ x. Option (List A × List ParseError)) [
      | none ↦ none
      | some (as', errs') ↦ some (a ∷ as', errs')
    ])
unfolding NoErrors NoError
NoErrors-cons P Q errs a none f h = tt
NoErrors-cons P Q errs a (some r) f h = λ n. let (before, holds) = h n in (before, f r.0 holds)

lookup-delete_all :
    {V : Type 0} (k : String) (ks : List String) (m : Map V)
    → lookup k (delete_all ks m) ≡ (if elem k ks then none else lookup k m)
lookup-delete_all k [] m = refl
lookup-delete_all k (j ∷ ks) m =
    ground (arith, lookup-delete_all k ks (delete j m), lookup-delete j k m)

abbrev lookup_config : {V : Type 0} → String → Option (Map V) → Option V
lookup_config k none = none
lookup_config k (some m) = lookup k m

-- The configuration has none of the keys.
pub Without : {V : Type 0} → List String → Option (Map V) → Type 0
Without ks config = (k : String) → elem k ks ≡ true → lookup_config k config ≡ none

nil_if_empty-lookup :
    {V : Type 0} (k : String) (m : Map V) → lookup_config k (nil_if_empty m) ≡ lookup k m
nil_if_empty-lookup k [] = sym (lookup-nil k)
nil_if_empty-lookup k (x ∷ m) = refl

delete_all-Without :
    {V : Type 0} (ks : List String) (m : Map V) → Without ks (nil_if_empty (delete_all ks m))
unfolding Without
delete_all-Without ks m k h =
    nil_if_empty-lookup k (delete_all ks m) ∙ rw (lookup-delete_all k ks m, h) refl

module _ {V : Type 0} (dynamic : V → Dynamic V) (of_string : String → V) (dec : Decoders V) where
  -- A provisioner with a type, whose special keys are not in its configuration.
  pub IsProvisioner : Provisioner V → Type 0
  IsProvisioner p = (str_eq p.type "" ≡ false) × Without provisioner_keys p.config

  Decoded : Option (String ⊎ Provisioner V) → Type 0
  Decoded none = Unit
  Decoded (some (inl e)) = Unit
  Decoded (some (inr p)) = IsProvisioner p

  decode_provisioner-Decoded :
      (raw : V) (d : String ⊎ Provisioner V) (y : Dynamic V)
      → dec.provisioner raw ≡ d
      → dynamic raw ≡ y
      → Decoded (decode_provisioner dynamic of_string dec raw)
  unfolding decode_provisioner Decoded IsProvisioner
  decode_provisioner-Decoded raw (inl text) y e f = rw (e, Decoded) tt
  decode_provisioner-Decoded raw (inr q) y e f = elim (Bool-cases (str_eq q.type "")) [
    | inl untyped ↦ rw (e, untyped, Decoded) tt
    | inr typed ↦ object-case y f typed
  ]
    where
      object-case :
          (y : Dynamic V)
          → dynamic raw ≡ y
          → str_eq q.type "" ≡ false
          → Decoded (decode_provisioner dynamic of_string dec raw)
      object-case (object m) f typed =
          rw (e, typed, f, Decoded) (typed, delete_all-Without provisioner_keys m)
      object-case nil f typed = rw (e, typed, f, Decoded) tt
      object-case other f typed = rw (e, typed, f, Decoded) tt
      object-case (string s) f typed = rw (e, typed, f, Decoded) tt
      object-case (sequence vs) f typed = rw (e, typed, f, Decoded) tt

  decode_provisioner-IsProvisioner :
      (raw : V) (p : Provisioner V)
      → decode_provisioner dynamic of_string dec raw ≡ some (inr p)
      → IsProvisioner p
  unfolding Decoded
  decode_provisioner-IsProvisioner raw p h =
      subst Decoded h (decode_provisioner-Decoded raw (dec.provisioner raw) (dynamic raw) refl refl)

  -- One provisioner for each value.
  Provisioners : List V → List (Provisioner V) → Type 0
  Provisioners raws ps = (length ps ≡ length raws) × All IsProvisioner ps

  gather_provisioners-NoErrors :
      (i : ℕ) (raws : List V) (errs : List ParseError)
      → NoErrors (Provisioners raws) errs (gather_provisioners dynamic of_string dec i raws errs)
  unfolding gather_provisioners NoErrors NoError Provisioners
  gather_provisioners-NoErrors i [] errs = λ h. (h, (refl, tt))
  gather_provisioners-NoErrors i (raw ∷ raws) errs =
      elim (Option-cases (decode_provisioner dynamic of_string dec raw)) [
        | inl e ↦ rw (e, NoErrors) tt
        | inr (inl text, e) ↦
            rw (e, NoErrors)
              (NoErrors-error (Provisioners raws) (Provisioners (raw ∷ raws)) errs _ _
                (gather_provisioners-NoErrors (suc i) raws (errs ++ provisioner_error i text ∷ [])))
        | inr (inr p, e) ↦
            rw (e, NoErrors)
              (NoErrors-cons (Provisioners raws) (Provisioners (raw ∷ raws)) errs p _
                (λ ps h. (ap suc h.0, (decode_provisioner-IsProvisioner raw p e, h.1)))
                (gather_provisioners-NoErrors (suc i) raws errs))
      ]

  gather_cleanup-NoErrors :
      (raw : V) (errs : List ParseError)
      → NoErrors (λ o. Unit) errs (gather_cleanup dynamic of_string dec raw errs)
  unfolding gather_cleanup NoErrors NoError
  gather_cleanup-NoErrors raw errs = elim (Bool-cases (is_nil_value dynamic of_string dec raw)) [
    | inl absent ↦ rw (absent, NoErrors) (λ h. (h, tt))
    | inr there ↦ elim (Option-cases (decode_provisioner dynamic of_string dec raw)) [
      | inl e ↦ rw (there, e, NoErrors) tt
      | inr (inl text, e) ↦
          rw (there, e, NoErrors) (λ h. let bad = snoc_nil errs (cleanup_error text) in cc)
      | inr (inr p, e) ↦ rw (there, e, NoErrors) (λ h. (h, tt))
    ]
  ]

  Built : RawTemplate V → Outcome V → Type 0
  Built r panics = Unit
  Built r (failed errs) = Unit
  Built r (built t) = Provisioners r.provisioners t.provisioners

  finish-Built :
      (r : RawTemplate V) (t : Template V) (errs : List ParseError)
      → (is_nil errs ≡ true → Provisioners r.provisioners t.provisioners)
      → Built r (finish dynamic of_string dec t errs)
  unfolding Built
  finish-Built r t [] h = h refl
  finish-Built r t (e ∷ errs) h = tt

  -- Without an error there is none before a step.
  before :
      {A : Type 0} (P : A → Type 0) (errs errs' : List ParseError) (a : A)
      (o : Option (A × List ParseError))
      → o ≡ some (a, errs')
      → NoErrors P errs o
      → is_nil errs' ≡ true
      → (is_nil errs ≡ true) × P a
  unfolding NoErrors NoError
  before P errs errs' a o e h = subst (NoErrors P errs) e h

  template-Built : (r : RawTemplate V) → Built r (template dynamic of_string dec r)
  unfolding template Built
  template-Built r =
      let ((variables, sensitive), errs) =
        gather_variables dynamic of_string dec r.sensitive_variables r.variables ([], []) [] in
      elim (Option-cases (gather_builders dynamic of_string dec 1 r.builders [] errs)) [
        | inl e ↦ rw (e, Built) tt
        | inr ((builders, errs1), e) ↦
            let (chains, errs2) = gather_chains dynamic of_string dec 1 r.post_processors errs1 in
            elim (Option-cases (gather_provisioners dynamic of_string dec 1 r.provisioners errs2)) [
              | inl f ↦ rw (e, f, Built) tt
              | inr ((ps, errs3), f) ↦
                  elim (Option-cases
                    (gather_cleanup dynamic of_string dec r.cleanup_provisioner errs3)) [
                      | inl g ↦ rw (e, f, g, Built) tt
                      | inr ((cleanup, errs4), g) ↦
                          rw (e, f, g, Built)
                            (finish-Built r _ errs4 (λ n.
                              let (n3, done) =
                                before (λ o. Unit) errs3 errs4 cleanup _ g
                                  (gather_cleanup-NoErrors r.cleanup_provisioner errs3) n in
                              (before (Provisioners r.provisioners) errs2 errs3 ps _ f
                                (gather_provisioners-NoErrors 1 r.provisioners errs2) n3).1))
                    ]
            ]
      ]

  -- A template that is built has one provisioner for each raw one. Each has a type, and its
  -- configuration has none of the keys that are settings of the provisioner itself.
  pub template-provisioners :
      (r : RawTemplate V) (t : Template V)
      → template dynamic of_string dec r ≡ built t
      → (length t.provisioners ≡ length r.provisioners) × All IsProvisioner t.provisioners
  unfolding Built Provisioners
  template-provisioners r t h = subst (Built r) h (template-Built r)
