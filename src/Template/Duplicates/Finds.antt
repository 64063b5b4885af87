-- ===== src/Template/Duplicates/Finds.antt =====
-- On the tokens of a document, the search ends behind them, or finds a duplicate field.
use packer_plugin_sdk.Prelude.{
  ℕ, zero, suc, ◌+◌, ◌≤◌, ◌≡◌, refl, ◌⊎◌, inl, inr, Bool, true, false, ◌&&◌, not, List, [], ◌∷◌,
  String, elem, arith, Bool-cases,
}
use packer_plugin_sdk.Template.Duplicates.{
  Json, scalar, text, array, object, Values, no_value, value, Fields, no_field, field, Token, close,
  tokens, value_tokens, field_tokens, Search, ends, duplicate, check_for_duplicate_fields,
  check_object, check_array,
}

-- No object of the document has two fields of one name. The names are those of the fields in front.
unfoldable mutual
  pub unique : Json → Bool
  unique scalar = true
  unique (text s) = true
  unique (array vs) = unique_values vs
  unique (object fs) = unique_fields [] fs

  pub unique_values : Values → Bool
  unique_values no_value = true
  unique_values (value v vs) = unique v && unique_values vs

  pub unique_fields : List String → Fields → Bool
  unique_fields names no_field = true
  unique_fields names (field k v fs) =
      not (elem k names) && (unique v && unique_fields (k ∷ names) fs)

-- Enough fuel for a document.
unfoldable mutual
  pub size : Json → ℕ
  size scalar = 1
  size (text s) = 1
  size (array vs) = suc (size_values vs)
  size (object fs) = suc (size_fields fs)

  pub size_values : Values → ℕ
  size_values no_value = 1
  size_values (value v vs) = suc (size v + size_values vs)

  pub size_fields : Fields → ℕ
  size_fields no_field = 1
  size_fields (field k v fs) = suc (size v + size_fields fs)

size-positive : (v : Json) → 1 ≤ size v
unfolding size
size-positive scalar = omega arith
size-positive (text s) = omega arith
size-positive (array vs) = omega arith
size-positive (object fs) = omega arith

size_values-positive : (vs : Values) → 1 ≤ size_values vs
unfolding size_values
size_values-positive no_value = omega arith
size_values-positive (value v vs) = omega arith

size_fields-positive : (fs : Fields) → 1 ≤ size_fields fs
unfolding size_fields
size_fields-positive no_field = omega arith
size_fields-positive (field k v fs) = omega arith

abbrev Finds : Bool → List Token → Search → Type 0
Finds b rest s = ((b ≡ true) × (s ≡ ends rest)) ⊎ ((k : String) × (b ≡ false) × (s ≡ duplicate k))

-- A search goes on behind its first part.
abbrev then_search : Search → (List Token → Search) → Search
then_search s next = elim s [ ends rest ↦ next rest | failed ↦ failed ]

Finds-then :
    {b c : Bool} {rest end : List Token} {s : Search} (next : List Token → Search)
    → Finds b rest s
    → Finds c end (next rest)
    → Finds (b && c) end (then_search s next)
Finds-then next (inl (e, f)) h = rw (e, f) h
Finds-then next (inr (k, e, f)) h = inr (k, rw e, rw f)

check_array-value :
    (n : ℕ) (v : Json) (ts : List Token)
    → check_array (suc n) (tokens v ts)
      ≡ then_search (check_for_duplicate_fields n (tokens v ts)) (check_array n)
unfolding check_array tokens
check_array-value n scalar ts = refl
check_array-value n (text s) ts = refl
check_array-value n (array vs) ts = refl
check_array-value n (object fs) ts = refl

mutual
  unfolding check_for_duplicate_fields check_array check_object tokens value_tokens field_tokens
      unique unique_values unique_fields size size_values size_fields

  check-Finds :
      (n : ℕ) (v : Json) (rest : List Token)
      → size v ≤ n
      → Finds (unique v) rest (check_for_duplicate_fields n (tokens v rest))
  check-Finds zero v rest h = absurd (omega (arith, size-positive v, h))
  check-Finds (suc n) scalar rest h = inl (refl, refl)
  check-Finds (suc n) (text s) rest h = inl (refl, refl)
  check-Finds (suc n) (array vs) rest h = array-Finds n vs rest (omega (arith, h))
  check-Finds (suc n) (object fs) rest h = object-Finds n [] fs rest (omega (arith, h))

  array-Finds :
      (n : ℕ) (vs : Values) (rest : List Token)
      → size_values vs ≤ n
      → Finds (unique_values vs) rest (check_array n (value_tokens vs (close ∷ rest)))
  array-Finds zero vs rest h = absurd (omega (arith, size_values-positive vs, h))
  array-Finds (suc n) no_value rest h = inl (refl, refl)
  array-Finds (suc n) (value v vs) rest h =
      rw (check_array-value n v (value_tokens vs (close ∷ rest))) (
        Finds-then (check_array n) (check-Finds n v _ (omega (arith, h)))
          (array-Finds n vs rest (omega (arith, h))))

  object-Finds :
      (n : ℕ) (names : List String) (fs : Fields) (rest : List Token)
      → size_fields fs ≤ n
      → Finds (unique_fields names fs) rest (check_object n names (field_tokens fs (close ∷ rest)))
  object-Finds zero names fs rest h = absurd (omega (arith, size_fields-positive fs, h))
  object-Finds (suc n) names no_field rest h = inl (refl, refl)
  object-Finds (suc n) names (field k v fs) rest h = elim (Bool-cases (elem k names)) [
    | inl twice ↦ rw twice (inr (k, refl, refl))
    | inr fresh ↦ rw fresh (
        Finds-then (check_object n (k ∷ names)) (check-Finds n v _ (omega (arith, h)))
          (object-Finds n (k ∷ names) fs rest (omega (arith, h))))
  ]

-- With fuel for the document, the search of its tokens ends behind them if no object has two fields
-- of one name, and otherwise returns the error of a duplicate field.
pub check_for_duplicate_fields_lem :
    (n : ℕ) (v : Json) (rest : List Token)
    → size v ≤ n
    → ((unique v ≡ true) × (check_for_duplicate_fields n (tokens v rest) ≡ ends rest))
      ⊎ ((k : String) × (unique v ≡ false)
          × (check_for_duplicate_fields n (tokens v rest) ≡ duplicate k))
check_for_duplicate_fields_lem n v rest h = check-Finds n v rest h
