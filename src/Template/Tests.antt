-- ===== src/Template/Tests.antt =====
-- Templates, settings, documents and positions.
use packer_plugin_sdk.Prelude.{
  ℕ, suc, ◌+◌, ◌≡◌, refl, ◌↔◌, ◌⊎◌, inl, inr, true, false, Option, none, some, List, [], ◌∷◌,
  String, if◌then◌else◌, ◌==◌, is_nil, length, All, codes, arith, Map, delete, str_eq,
}
use packer_plugin_sdk.Template.Types.{OnlyExcept, Builder, Provisioner, Template}
use packer_plugin_sdk.Template.Validate.{validate_template}
use packer_plugin_sdk.Template.Validate.Accepts.{
  IsValidProvisioner, IsValidPostProcessor, validate_template_ok_iff,
}
use packer_plugin_sdk.Template.Parse.{
  Dynamic, nil, string, object, RawTemplate, Decoders, gather_variables, gather_builders,
  gather_chains, decode_provisioner,
}
use packer_plugin_sdk.Template.Assemble.{
  built, template, gather_provisioners, gather_cleanup, gather_comments,
}
use packer_plugin_sdk.Template.Assemble.Complete.{IsProvisioner, template-provisioners}
use packer_plugin_sdk.Template.Duplicates.{
  scalar, object as json_object, no_field, field, ends, duplicate, tokens,
  check_for_duplicate_fields,
}
use packer_plugin_sdk.Template.Duplicates.Finds.{size, unique, check_for_duplicate_fields_lem}
use packer_plugin_sdk.Template.Highlight.{scan, start, highlight_position}
use packer_plugin_sdk.Template.Highlight.Caret.{breaks, highlight_position_lem}

abbrev only_qemu : OnlyExcept
only_qemu = record { only = "qemu" ∷ []; except = [] }

abbrev anywhere : OnlyExcept
anywhere = record { only = []; except = [] }

-- A value is a text, or nil.
abbrev text_or_nil : Option String → Dynamic (Option String)
text_or_nil none = nil
text_or_nil (some s) =
    if str_eq s "{}" then object (("inline", some "ls") ∷ ("type", some "shell") ∷ []) else string s

abbrev shell : Provisioner (Option String)
shell = record {
  only_except = only_qemu;
  type = "shell";
  config = none;
  override = [];
  pause_before = 0;
  max_retries = "";
  timeout = 0;
}

abbrev qemu : Builder (Option String)
qemu = record { name = "qemu"; type = "qemu"; config = none }

-- Decoders that know one provisioner.
abbrev shell_only : Decoders (Option String)
shell_only = record {
  variable_default = λ raw. inl "no variables";
  builder = λ raw. inl "no builders";
  post_processor = λ m. inl "no post-processors";
  provisioner = λ raw. inr shell;
}

abbrev raw : RawTemplate (Option String)
raw = record {
  min_version = "";
  description = "one provisioner";
  builders = [];
  comments = [];
  post_processors = [];
  provisioners = some "{}" ∷ [];
  cleanup_provisioner = none;
  variables = [];
  sensitive_variables = [];
  raw_contents = [];
}

-- The provisioner that is kept has the rest of the object as its configuration.
abbrev result : Template (Option String)
result = record {
  path = "";
  description = "one provisioner";
  min_version = "";
  comments = [];
  variables = [];
  sensitive_variables = [];
  builders = [];
  provisioners =
      record {
        only_except = only_qemu;
        type = "shell";
        config = some (("inline", some "ls") ∷ []);
        override = [];
        pause_before = 0;
        max_retries = "";
        timeout = 0;
      }
      ∷ [];
  cleanup_provisioner = none;
  post_processors = [];
  raw_contents = [];
}

raw_builds : template text_or_nil some shell_only raw ≡ built result
unfolding template gather_variables gather_builders gather_chains gather_provisioners
    decode_provisioner gather_cleanup gather_comments delete str_eq
raw_builds = refl

template-provisioners_example :
    (length result.provisioners ≡ length raw.provisioners)
    × All (IsProvisioner text_or_nil some shell_only) result.provisioners
template-provisioners_example =
    template-provisioners text_or_nil some shell_only raw result raw_builds

abbrev builders : Map (Builder (Option String))
builders = ("qemu", qemu) ∷ []

-- Its provisioner is meant for a builder that it does not have.
validate_template_ok_iff_example : (validate_template result ≡ []) ↔ (
    (is_nil result.builders ≡ false)
    × (All (IsValidProvisioner result.builders) result.provisioners
        × All (All (IsValidPostProcessor result.builders)) result.post_processors))
validate_template_ok_iff_example = validate_template_ok_iff result

check_for_duplicate_fields_lem_example :
    ((unique (json_object (field "a" scalar (field "a" scalar no_field))) ≡ true)
      × (check_for_duplicate_fields 9
            (tokens (json_object (field "a" scalar (field "a" scalar no_field))) [])
          ≡ ends []))
    ⊎ ((k : String) × (unique (json_object (field "a" scalar (field "a" scalar no_field))) ≡ false)
        × (check_for_duplicate_fields 9
              (tokens (json_object (field "a" scalar (field "a" scalar no_field))) [])
            ≡ duplicate k))
unfolding size
check_for_duplicate_fields_lem_example =
    check_for_duplicate_fields_lem 9 (json_object (field "a" scalar (field "a" scalar no_field))) []
      (omega arith)

abbrev no_number : ℕ → List ℕ
no_number n = []

-- The fourth byte is the first of the second line.
highlight_position_lem_example :
    ((highlight_position no_number (codes "{x\n}") 4).0 ≡ suc (breaks 4 (codes "{x\n}")))
    × ((highlight_position no_number (codes "{x\n}") 4).1
        ≡ length (scan 4 (codes "{x\n}") start).this_line
          + (if breaks 4 (codes "{x\n}") == 0 then 0 else 1))
highlight_position_lem_example = highlight_position_lem no_number (codes "{x\n}") 4
