-- ===== src/Multistep/StateBag.antt =====
-- multistep/statebag.go, the interface: what a runner may ask of a state bag. The carrier `S` is the
-- whole state that a step sees, so a step may also change what lies beside the bag.
use packer_plugin_sdk.Prelude.{
  ℕ, ◌≡◌, Bool, true, false, arith, is_some, str_eq_refl, Option, none, some, String, if◌then◌else◌,
  str_eq,
}

-- The values of an `interface{}` that the runners put in and look at; `other` is any further value.
pub data Value : Type 0 where
  nil : Value
  bool : Bool → Value
  error : String → Value
  pause_fn : Value
  other : ℕ → Value

pub record StateBag (S : Type 0) : Type 0 where
  pub get_ok : String → S → Option Value
  pub put : String → Value → S → S
  pub remove : String → S → S
  pub get_ok-put :
      (k j : String) (v : Value) (s : S)
      → get_ok j (put k v s) ≡ (if str_eq k j then some v else get_ok j s)
  pub get_ok-remove :
      (k j : String) (s : S) → get_ok j (remove k s) ≡ (if str_eq k j then none else get_ok j s)

abbrev pub state_cancelled : String
state_cancelled = "cancelled"

abbrev pub state_halted : String
state_halted = "halted"

module _ {S : Type 0} (bag : StateBag S) where
  -- `_, ok := state.GetOk(k)`
  abbrev pub is_set : String → S → Bool
  is_set k s = is_some (bag.get_ok k s)

  pub is_set-put : (k : String) (v : Value) (s : S) → is_set k (bag.put k v s) ≡ true
  is_set-put k v s = ground (arith, bag.get_ok-put k k v s, str_eq_refl k)

  -- A write under one key does not change whether another is set.
  pub is_set-put_ne :
      (k j : String) (v : Value) (s : S)
      → str_eq k j ≡ false
      → is_set j (bag.put k v s) ≡ is_set j s
  is_set-put_ne k j v s h = ground (arith, bag.get_ok-put k j v s)

  -- The bag of a state that stands beside something else.
  abbrev pub beside : (X : Type 0) → StateBag (S × X)
  beside X = record {
    get_ok = λ k p. bag.get_ok k p.0;
    put = λ k v p. (bag.put k v p.0, p.1);
    remove = λ k p. (bag.remove k p.0, p.1);
    get_ok-put = λ k j v p. bag.get_ok-put k j v p.0;
    get_ok-remove = λ k j p. bag.get_ok-remove k j p.0;
  }
