-- ===== src/Multistep/BasicStateBag/Laws.antt =====
-- The map-backed bag never writes to a nil map, and has the laws of the interface.
use packer_plugin_sdk.Prelude.{
  ◌≡◌, refl, true, none, some, [], String, arith, if◌then◌else◌, str_eq, is_some, insert,
  lookup-insert, lookup-delete, lookup-nil, inl, inr, Option-cases,
}
use packer_plugin_sdk.Multistep.StateBag.{Value, StateBag}
use packer_plugin_sdk.Multistep.BasicStateBag.{BasicStateBag, get_ok, put, remove}

-- The map exists exactly if `once` has run.
abbrev pub IsValid : BasicStateBag → Type 0
IsValid b = is_some b.table ≡ b.once

-- What a write leaves behind in a valid bag.
abbrev written : String → Value → BasicStateBag → BasicStateBag
written k v b = record {
  table = some (insert k v (elim b.table [ none ↦ [] | some m ↦ m ]));
  once = true;
}

pub put_total :
    (k : String) (v : Value) (b : BasicStateBag)
    → IsValid b
    → (b' : BasicStateBag) × (put k v b ≡ some b') × IsValid b'
unfolding put
put_total k v b h = (written k v b, ground arith, refl)

pub get_ok-put :
    (k j : String) (v : Value) (b b' : BasicStateBag)
    → IsValid b
    → put k v b ≡ some b'
    → get_ok j b' ≡ (if str_eq k j then some v else get_ok j b)
unfolding put get_ok
get_ok-put k j v b b' h e = elim (Option-cases b.table) [
  | inl nil_map ↦ ground (arith, lookup-insert k j v [], lookup-nil {0} {V = Value} j)
  | inr (m, made) ↦ ground (arith, lookup-insert k j v m)
]

pub get_ok-remove :
    (k j : String) (b : BasicStateBag)
    → get_ok j (remove k b) ≡ (if str_eq k j then none else get_ok j b)
unfolding remove get_ok
get_ok-remove k j b = elim (Option-cases b.table) [
  | inl nil_map ↦ ground arith
  | inr (m, made) ↦ ground (arith, lookup-delete k j m)
]

pub remove-IsValid : (k : String) (b : BasicStateBag) → IsValid b → IsValid (remove k b)
unfolding remove
remove-IsValid k b h = ground arith

-- In a bag that can arise a write does not panic, leaves such a bag, and changes the one key alone.
pub put-IsValid :
    (k : String) (v : Value) (b : BasicStateBag)
    → IsValid b
    → (b' : BasicStateBag) × (put k v b ≡ some b')
      × IsValid b'
      × ((j : String) → get_ok j b' ≡ (if str_eq k j then some v else get_ok j b))
put-IsValid k v b h =
    let (b', e, h') = put_total k v b h in (b', e, h', λ j. get_ok-put k j v b b' h e)

-- The bags that can arise from the zero value.
abbrev pub ValidBag : Type 0
ValidBag = (b : BasicStateBag) × IsValid b

-- A map-backed bag is a state bag: its writes are total on the bags that can arise.
abbrev pub basic_state_bag : StateBag ValidBag
basic_state_bag = record {
  get_ok = λ k b. get_ok k b.0;
  put = λ k v b. let (b', _, h) = put_total k v b.0 b.1 in (b', h);
  remove = λ k b. (remove k b.0, remove-IsValid k b.0 b.1);
  get_ok-put = λ k j v b. let (b', e, _) = put_total k v b.0 b.1 in get_ok-put k j v b.0 b' b.1 e;
  get_ok-remove = λ k j b. get_ok-remove k j b.0;
}
