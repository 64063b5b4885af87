-- ===== src/Template/Duplicates.antt =====
-- template/parse.go: the search for duplicate fields, over the token stream of encoding/json.
pub mod Finds
use packer_plugin_sdk.Prelude.{
  ℕ, zero, suc, Bool, true, false, ◌&&◌, not, Option, none, some, List, [], ◌∷◌, ◌++◌, String,
  if◌then◌else◌, elem,
}

-- A document. `Values` and `Fields` are the lists of its arrays and objects.
mutual
  pub data Json : Type 0 where
    scalar : Json
    text : String → Json
    array : Values → Json
    object : Fields → Json

  pub data Values : Type 0 where
    no_value : Values
    value : Json → Values → Values

  pub data Fields : Type 0 where
    no_field : Fields
    field : String → Json → Fields → Fields

-- What `Decoder.Token` gives: a delimiter, a string, or a number, a Boolean or null.
pub data Token : Type 0 where
  open_object open_array close other : Token
  str : String → Token

-- The stream that the decoder has for a document, in front of `rest`.
unfoldable mutual
  pub tokens : Json → List Token → List Token
  tokens scalar rest = other ∷ rest
  tokens (text s) rest = str s ∷ rest
  tokens (array vs) rest = open_array ∷ value_tokens vs (close ∷ rest)
  tokens (object fs) rest = open_object ∷ field_tokens fs (close ∷ rest)

  pub value_tokens : Values → List Token → List Token
  value_tokens no_value rest = rest
  value_tokens (value v vs) rest = tokens v (value_tokens vs rest)

  pub field_tokens : Fields → List Token → List Token
  field_tokens no_field rest = rest
  field_tokens (field k v fs) rest = str k ∷ tokens v (field_tokens fs rest)

-- How a search ends: with the tokens left, with an error of the decoder, with a duplicate, with the
-- failed assertion that a key is a string, or out of fuel.
pub data Search : Type 0 where
  ends : List Token → Search
  token_error not_string out_of_fuel : Search
  duplicate : String → Search

-- `d.More()`
abbrev pub more : List Token → Bool
more [] = false
more (close ∷ ts) = false
more (t ∷ ts) = true

-- The closing delimiter.
abbrev pub consume : List Token → Search
consume [] = token_error
consume (t ∷ ts) = ends ts

unfoldable mutual
  pub check_for_duplicate_fields : ℕ → List Token → Search
  check_for_duplicate_fields zero ts = out_of_fuel
  check_for_duplicate_fields (suc n) [] = token_error
  check_for_duplicate_fields (suc n) (open_object ∷ ts) = check_object n [] ts
  check_for_duplicate_fields (suc n) (open_array ∷ ts) = check_array n ts
  check_for_duplicate_fields (suc n) (close ∷ ts) = consume ts
  check_for_duplicate_fields (suc n) (other ∷ ts) = ends ts
  check_for_duplicate_fields (suc n) (str s ∷ ts) = ends ts

  -- The loop of an object, with the keys seen.
  pub check_object : ℕ → List String → List Token → Search
  check_object zero keys ts = out_of_fuel
  check_object (suc n) keys [] = token_error
  check_object (suc n) keys (close ∷ ts) = ends ts
  check_object (suc n) keys (str key ∷ ts) =
      if elem key keys then duplicate key else elim (check_for_duplicate_fields n ts) [
        | ends rest ↦ check_object n (key ∷ keys) rest
        | failed ↦ failed
      ]
  check_object (suc n) keys (t ∷ ts) = not_string

  pub check_array : ℕ → List Token → Search
  check_array zero ts = out_of_fuel
  check_array (suc n) [] = token_error
  check_array (suc n) (close ∷ ts) = ends ts
  check_array (suc n) (t ∷ ts) = elim (check_for_duplicate_fields n (t ∷ ts)) [
    | ends rest ↦ check_array n rest
    | failed ↦ failed
  ]
