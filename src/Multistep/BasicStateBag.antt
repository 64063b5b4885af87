-- ===== src/Multistep/BasicStateBag.antt =====
-- multistep/statebag.go, the implementation: a map that is made on the first write.
pub mod Laws
use packer_plugin_sdk.Prelude.{
  Bool, true, false, Option, none, some, [], String, if◌then◌else◌, Map, lookup, insert, delete,
}
use packer_plugin_sdk.Multistep.StateBag.{Value}

-- `data` is `none` while the Go map is nil; `once` says whether `once.Do` has run.
pub record BasicStateBag : Type 0 where
  pub table : Option (Map Value)
  pub once : Bool

-- The zero value, `new(BasicStateBag)`.
abbrev pub empty : BasicStateBag
empty = record { table = none; once = false }

-- A read of a nil map finds nothing.
unfoldable pub get_ok : String → BasicStateBag → Option Value
get_ok k b = elim b.table [ none ↦ none | some m ↦ lookup k m ]

-- `Get` drops the flag: a missing key reads as nil.
unfoldable pub get : String → BasicStateBag → Value
unfolding get_ok
get k b = elim (get_ok k b) [ none ↦ Value.nil | some v ↦ v ]

init_once : BasicStateBag → BasicStateBag
init_once b = if b.once then b else record b { table = some []; once = true }

-- `none` is the panic of an assignment to an entry of a nil map.
unfoldable pub put : String → Value → BasicStateBag → Option BasicStateBag
unfolding init_once
put k v b =
    let b' = init_once b in
    elim b'.table [ none ↦ none | some m ↦ some (record b' { table = some (insert k v m) }) ]

-- `Remove`, which takes no lock; `delete` on a nil map does nothing.
unfoldable pub remove : String → BasicStateBag → BasicStateBag
remove k b = record b { table = elim b.table [ none ↦ none | some m ↦ some (delete k m) ] }
