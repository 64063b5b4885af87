-- ===== src/Template/Assemble.antt =====
-- template/parse.go: `rawTemplate.Template`, which collects every error before it gives up.
pub mod Complete
use packer_plugin_sdk.Prelude.{
  ℕ, suc, Bool, true, false, Option, none, some, List, [], ◌∷◌, ◌++◌, String, if◌then◌else◌, is_nil,
  ◌⊎◌, inl, inr, Map, insert,
}
use packer_plugin_sdk.Template.Types.{Variable, Builder, PostProcessor, Provisioner, Template}
use packer_plugin_sdk.Template.Parse.{
  Dynamic, nil, ParseError, provisioner_error, cleanup_error, RawTemplate, Decoders,
  gather_variables, gather_builders, gather_chains, decode_provisioner, is_nil_value,
}

abbrev pub add_comments : Map String → Map String → Map String
add_comments [] result = result
add_comments ((k, v) ∷ c) result = add_comments c (insert k v result)

unfoldable pub gather_comments : List (Map String) → Map String → Map String
gather_comments [] result = result
gather_comments (c ∷ cs) result = gather_comments cs (add_comments c result)

-- The outcome of `Template`: a nil template with errors, or a template.
pub data Outcome (V : Type 0) : Type 0 where
  panics : Outcome V
  failed : List ParseError → Outcome V
  built : Template V → Outcome V

module _ {V : Type 0} (dynamic : V → Dynamic V) (of_string : String → V) (dec : Decoders V) where
  unfoldable pub gather_provisioners :
      ℕ → List V → List ParseError → Option (List (Provisioner V) × List ParseError)
  gather_provisioners i [] errs = some ([], errs)
  gather_provisioners i (raw ∷ raws) errs = elim (decode_provisioner dynamic of_string dec raw) [
    | none ↦ none
    | some decoded ↦ elim decoded [
      | inl e ↦ gather_provisioners (suc i) raws (errs ++ provisioner_error i e ∷ [])
      | inr p ↦ elim (gather_provisioners (suc i) raws errs) [
        | none ↦ none
        | some (ps, errs') ↦ some (p ∷ ps, errs')
      ]
    ]
  ]

  unfoldable pub gather_cleanup :
      V → List ParseError → Option (Option (Provisioner V) × List ParseError)
  gather_cleanup raw errs =
      let decoded = decode_provisioner dynamic of_string dec raw in
      if is_nil_value dynamic of_string dec raw then some (none, errs) else elim decoded [
        | none ↦ none
        | some r ↦ elim r [
          | inl e ↦ some (none, errs ++ cleanup_error e ∷ [])
          | inr p ↦ some (some p, errs)
        ]
      ]

  -- The template, if there was no error.
  abbrev pub finish : Template V → List ParseError → Outcome V
  finish t errs = if is_nil errs then built t else failed errs

  -- `rawTemplate.Template`
  unfoldable pub template : RawTemplate V → Outcome V
  template r =
      let ((variables, sensitive), errs) =
        gather_variables dynamic of_string dec r.sensitive_variables r.variables ([], []) [] in
      elim (gather_builders dynamic of_string dec 1 r.builders [] errs) [
        | none ↦ panics
        | some (builders, errs1) ↦
            let (chains, errs2) = gather_chains dynamic of_string dec 1 r.post_processors errs1 in
            elim (gather_provisioners 1 r.provisioners errs2) [
              | none ↦ panics
              | some (provisioners, errs3) ↦ elim (gather_cleanup r.cleanup_provisioner errs3) [
                | none ↦ panics
                | some (cleanup, errs4) ↦
                    finish
                      (record {
                        path = "";
                        description = r.description;
                        min_version = r.min_version;
                        comments = gather_comments r.comments [];
                        variables = variables;
                        sensitive_variables = sensitive;
                        builders = builders;
                        provisioners = provisioners;
                        cleanup_provisioner = cleanup;
                        post_processors = chains;
                        raw_contents = r.raw_contents;
                      })
                      errs4
              ]
            ]
      ]
