-- ===== src/Packer/MultiError.antt =====
-- packer/multi_error.go: errors that are collected in one.
pub mod Messages
use packer_plugin_sdk.Prelude.{List, [], ◌∷◌, String}

-- An `error`: nil, an error of another type, a nil *MultiError, or a *MultiError with its errors.
mutual
  pub data GoError : Type 0 where
    nil_error nil_multi_error : GoError
    plain : String → GoError
    multi_error : Errors → GoError

  pub data Errors : Type 0 where
    none_left : Errors
    then_error : GoError → Errors → Errors

unfoldable pub append : Errors → Errors → Errors
append none_left fs = fs
append (then_error e es) fs = then_error e (append es fs)

unfoldable pub from_list : List GoError → Errors
from_list [] = none_left
from_list (e ∷ es) = then_error e (from_list es)

-- The loop over the errors to append, which takes the errors out of a *MultiError.
unfoldable pub append_all : Errors → List GoError → Errors
append_all es [] = es
append_all es (multi_error fs ∷ errs) = append_all (append es fs) errs
append_all es (nil_multi_error ∷ errs) = append_all es errs
append_all es (nil_error ∷ errs) = append_all (append es (then_error nil_error none_left)) errs
append_all es (plain s ∷ errs) = append_all (append es (then_error (plain s) none_left)) errs

-- `MultiErrorAppend`: the errors of the *MultiError that it returns. An error of another type is put in
-- front of the others, which are copied as they are.
unfoldable pub multi_error_append : GoError → List GoError → Errors
multi_error_append nil_error errs = append_all none_left errs
multi_error_append nil_multi_error errs = append_all none_left errs
multi_error_append (multi_error es) errs = append_all es errs
multi_error_append (plain s) errs = then_error (plain s) (from_list errs)
