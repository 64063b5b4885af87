-- ===== src/Packer/MultiError/Messages.antt =====
-- The messages in a collected error.
use packer_plugin_sdk.Prelude.{
  ◌≡◌, refl, sym, ap, ◌∙◌, List, [], ◌∷◌, ◌++◌, append-nil, append_assoc, String,
}
use packer_plugin_sdk.Packer.MultiError.{
  GoError, nil_error, nil_multi_error, plain, multi_error, Errors, none_left, then_error, append,
  from_list, append_all, multi_error_append,
}

-- The messages of the errors that are no *MultiError, in their order.
unfoldable mutual
  pub messages : GoError → List String
  messages nil_error = []
  messages nil_multi_error = []
  messages (plain s) = s ∷ []
  messages (multi_error es) = messages_of es

  pub messages_of : Errors → List String
  messages_of none_left = []
  messages_of (then_error e es) = messages e ++ messages_of es

abbrev pub all_messages : List GoError → List String
all_messages [] = []
all_messages (e ∷ es) = messages e ++ all_messages es

messages_of-append :
    (es fs : Errors) → messages_of (append es fs) ≡ messages_of es ++ messages_of fs
unfolding append messages_of
messages_of-append none_left fs = refl
messages_of-append (then_error e es) fs =
    rw (messages_of-append es fs)
      (sym (append_assoc (messages e) (messages_of es) (messages_of fs)))

messages_of-from_list : (es : List GoError) → messages_of (from_list es) ≡ all_messages es
unfolding from_list messages_of
messages_of-from_list [] = refl
messages_of-from_list (e ∷ es) = rw (messages_of-from_list es) refl

messages_of-append_all :
    (es : Errors) (errs : List GoError)
    → messages_of (append_all es errs) ≡ messages_of es ++ all_messages errs
unfolding append_all messages messages_of
messages_of-append_all es [] = sym (append-nil (messages_of es))
messages_of-append_all es (multi_error fs ∷ errs) =
    messages_of-append_all (append es fs) errs
    ∙ rw (messages_of-append es fs) (append_assoc (messages_of es) (messages_of fs) _)
messages_of-append_all es (nil_multi_error ∷ errs) = messages_of-append_all es errs
messages_of-append_all es (nil_error ∷ errs) =
    messages_of-append_all (append es (then_error nil_error none_left)) errs
    ∙ rw (messages_of-append es (then_error nil_error none_left))
        (ap (λ t. t ++ all_messages errs) (append-nil (messages_of es)))
messages_of-append_all es (plain s ∷ errs) =
    messages_of-append_all (append es (then_error (plain s) none_left)) errs
    ∙ rw (messages_of-append es (then_error (plain s) none_left))
        (append_assoc (messages_of es) (s ∷ []) _)

-- Whatever the first error and the others are, no message is lost and none is added, and they keep
-- their order.
pub messages_of-multi_error_append :
    (err : GoError) (errs : List GoError)
    → messages_of (multi_error_append err errs) ≡ messages err ++ all_messages errs
unfolding multi_error_append messages messages_of
messages_of-multi_error_append nil_error errs = messages_of-append_all none_left errs
messages_of-multi_error_append nil_multi_error errs = messages_of-append_all none_left errs
messages_of-multi_error_append (multi_error es) errs = messages_of-append_all es errs
messages_of-multi_error_append (plain s) errs = ap (λ t. s ∷ t) (messages_of-from_list errs)
