-- ===== src/Packer/Tests.antt =====
-- Hooks that count, and collected errors.
use packer_plugin_sdk.Prelude.{
  ℕ, suc, ◌+◌, ◌≡◌, refl, Option, none, some, List, [], ◌∷◌, String, Map, lookup, str_eq,
}
use packer_plugin_sdk.Packer.Hook.{Hook, run_hooks, dispatch}
use packer_plugin_sdk.Packer.Hook.Order.{hooks_of, StopsAt, dispatch-StopsAt}
use packer_plugin_sdk.Packer.MultiError.{
  GoError, plain, multi_error, none_left, then_error, append, from_list, append_all,
  multi_error_append,
}

abbrev count : Hook String ℕ
count name n = (none, suc n)

abbrev fail : Hook String ℕ
fail name n = (some "no disk", n + 10)

abbrev mapping : Map (List (Hook String ℕ))
mapping = ("packer_provision", count ∷ fail ∷ count ∷ []) ∷ []

abbrev alive : ℕ → Option String
alive i = none

the_third_hook_does_not_run : dispatch alive "packer_provision" mapping 0 ≡ (some "no disk", 11)
unfolding dispatch run_hooks lookup str_eq
the_third_hook_does_not_run = refl

dispatch-StopsAt_example :
    StopsAt alive "packer_provision" 0
      (hooks_of mapping "packer_provision")
      0
      (dispatch alive "packer_provision" mapping 0)
dispatch-StopsAt_example = dispatch-StopsAt alive "packer_provision" mapping 0

abbrev two : GoError
two = multi_error (then_error (plain "a") (then_error (plain "b") none_left))

taken_out :
    multi_error_append (multi_error none_left) (two ∷ [])
    ≡ then_error (plain "a") (then_error (plain "b") none_left)
unfolding multi_error_append append_all append
taken_out = refl

-- Behind an error of another type it stays one error.
stays_nested :
    multi_error_append (plain "c") (two ∷ []) ≡ then_error (plain "c") (then_error two none_left)
unfolding multi_error_append from_list
stays_nested = refl
