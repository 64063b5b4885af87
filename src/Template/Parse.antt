-- ===== src/Template/Parse.antt =====
-- template/parse.go: a raw template and the template that is built from it. `V` is what an `interface{}`
-- holds, and `dynamic` its dynamic type.
use packer_plugin_sdk.Prelude.{
  ℕ, suc, Bool, true, false, Option, none, some, List, [], ◌∷◌, ◌++◌, String, if◌then◌else◌, str_eq,
  is_nil, is_some, ◌⊎◌, inl, inr, Map, lookup, insert, delete,
}
use packer_plugin_sdk.Template.Types.{Variable, Builder, PostProcessor, Provisioner}

-- The types that the parser asks an `interface{}` for.
pub data Dynamic (V : Type 0) : Type 0 where
  nil other : Dynamic V
  string : String → Dynamic V
  object : Map V → Dynamic V
  sequence : List V → Dynamic V

-- The messages, with the text of the decoder's error; positions are counted from 1.
pub data ParseError : Type 0 where
  variable_error : String → String → ParseError
  builder_error : ℕ → String → ParseError
  builder_type_missing : ℕ → ParseError
  builder_exists : ℕ → String → ParseError
  bad_format : ℕ → ParseError
  nested_sequence unknown_format : ℕ → ℕ → ParseError
  post_processor_error : ℕ → ℕ → String → ParseError
  post_processor_type_missing : ℕ → ℕ → ParseError
  provisioner_error : ℕ → String → ParseError
  cleanup_error : String → ParseError

pub record RawTemplate (V : Type 0) : Type 0 where
  pub min_version : String
  pub description : String
  pub builders : List V
  pub comments : List (Map String)
  pub post_processors : List V
  pub provisioners : List V
  pub cleanup_provisioner : V
  pub variables : Map V
  pub sensitive_variables : List String
  pub raw_contents : List ℕ

-- mapstructure: an error or the decoded record.
pub record Decoders (V : Type 0) : Type 0 where
  pub variable_default : V → String ⊎ String
  pub builder : V → String ⊎ Builder V
  pub post_processor : Map V → String ⊎ PostProcessor V
  pub provisioner : V → String ⊎ Provisioner V

abbrev pub delete_all : {V : Type 0} → List String → Map V → Map V
delete_all [] m = m
delete_all (k ∷ ks) m = delete_all ks (delete k m)

abbrev pub nil_if_empty : {V : Type 0} → Map V → Option (Map V)
nil_if_empty [] = none
nil_if_empty (kv ∷ m) = some (kv ∷ m)

abbrev pub builder_keys : List String
builder_keys = "name" ∷ "type" ∷ []

abbrev pub post_processor_keys : List String
post_processor_keys = "except" ∷ "only" ∷ "keep_input_artifact" ∷ "type" ∷ "name" ∷ []

abbrev pub provisioner_keys : List String
provisioner_keys =
    "except" ∷ "only" ∷ "override" ∷ "pause_before" ∷ "max_retries" ∷ "type" ∷ "timeout" ∷ []

-- The name defaults to the type.
abbrev pub default_name : String → String → String
default_name name type = if str_eq name "" then type else name

module _ {V : Type 0} (dynamic : V → Dynamic V) (of_string : String → V) (dec : Decoders V) where
  -- The loops return what they gathered, and their errors.
  abbrev pub is_sensitive : List String → Variable → List Variable
  is_sensitive [] v = []
  is_sensitive (s ∷ ss) v =
      let rest = is_sensitive ss v in if str_eq s v.key then v ∷ rest else rest

  abbrev pub is_nil_value : V → Bool
  is_nil_value raw = elim (dynamic raw) [ nil ↦ true | _ ↦ false ]

  -- The loop over the variables, in one of the orders that ranging over a map may have.
  unfoldable pub gather_variables :
      List String
      → Map V
      → Map Variable × List Variable
      → List ParseError
      → (Map Variable × List Variable) × List ParseError
  gather_variables sensitive [] vars errs = (vars, errs)
  gather_variables sensitive ((k, raw) ∷ m) vars errs = elim (dec.variable_default raw) [
    | inl e ↦ gather_variables sensitive m vars (errs ++ variable_error k e ∷ [])
    | inr text ↦
        let v : Variable = record { key = k; default = text; required = is_nil_value raw } in
        gather_variables sensitive m (insert k v vars.0, vars.1 ++ is_sensitive sensitive v) errs
  ]

  -- A builder whose record is decoded and whose configuration is set.
  unfoldable pub add_builder :
      ℕ → Builder V → Map (Builder V) → List ParseError → Map (Builder V) × List ParseError
  add_builder i b builders errs =
      if str_eq b.type ""
      then (builders, errs ++ builder_type_missing i ∷ [])
      else let name = default_name b.name b.type in
        if is_some (lookup name builders)
        then (builders, errs ++ builder_exists i name ∷ [])
        else (insert name (record { name = name; type = b.type; config = b.config }) builders, errs)

  -- The loop over the builders; `none` is the panic of `rawB.(map[string]interface{})`.
  unfoldable pub gather_builders :
      ℕ → List V → Map (Builder V) → List ParseError → Option (Map (Builder V) × List ParseError)
  gather_builders i [] builders errs = some (builders, errs)
  gather_builders i (raw ∷ raws) builders errs = elim (dec.builder raw) [
    | inl e ↦ gather_builders (suc i) raws builders (errs ++ builder_error i e ∷ [])
    | inr b ↦ elim (dynamic raw) [
      | object m ↦
          let b' : Builder V = record {
            name = b.name;
            type = b.type;
            config = nil_if_empty (delete_all builder_keys m);
          } in
          let (builders', errs') = add_builder i b' builders errs in
          gather_builders (suc i) raws builders' errs'
      | _ ↦ none
    ]
  ]

  -- The inner loop of `parsePostProcessor`.
  unfoldable pub parse_sequence : ℕ → ℕ → List V → List (Map V) × List ParseError
  parse_sequence i j [] = ([], [])
  parse_sequence i j (raw ∷ raws) =
      let (configs, errs) = parse_sequence i (suc j) raws in
      elim (dynamic raw) [
        | string s ↦ ((("type", of_string s) ∷ []) ∷ configs, errs)
        | object m ↦ (m ∷ configs, errs)
        | sequence vs ↦ ([] ∷ configs, nested_sequence i j ∷ errs)
        | _ ↦ ([] ∷ configs, unknown_format i j ∷ errs)
      ]

  unfoldable pub parse_post_processor : ℕ → V → List ParseError ⊎ List (Map V)
  parse_post_processor i raw = elim (dynamic raw) [
    | string s ↦ inr ((("type", of_string s) ∷ []) ∷ [])
    | object m ↦ inr (m ∷ [])
    | sequence vs ↦
        let (configs, errs) = parse_sequence i 1 vs in if is_nil errs then inr configs else inl errs
    | _ ↦ inl (bad_format i ∷ [])
  ]

  abbrev pub with_config : Map V → PostProcessor V → PostProcessor V
  with_config m p = record {
    only_except = p.only_except;
    name = default_name p.name p.type;
    type = p.type;
    keep_input_artifact = p.keep_input_artifact;
    config = nil_if_empty (delete_all post_processor_keys m);
  }

  -- The loop over the configurations of one post-processor.
  unfoldable pub gather_chain :
      ℕ → ℕ → List (Map V) → List ParseError → List (PostProcessor V) × List ParseError
  gather_chain i j [] errs = ([], errs)
  gather_chain i j (c ∷ cs) errs = elim (dec.post_processor c) [
    | inl e ↦ gather_chain i (suc j) cs (errs ++ post_processor_error i j e ∷ [])
    | inr p ↦
        let skipped = gather_chain i (suc j) cs (errs ++ post_processor_type_missing i j ∷ []) in
        let (ps, errs') = gather_chain i (suc j) cs errs in
        if str_eq p.type "" then skipped else (with_config c p ∷ ps, errs')
  ]

  unfoldable pub gather_chains :
      ℕ → List V → List ParseError → List (List (PostProcessor V)) × List ParseError
  gather_chains i [] errs = ([], errs)
  gather_chains i (raw ∷ raws) errs = elim (parse_post_processor i raw) [
    | inl es ↦ gather_chains (suc i) raws (errs ++ es)
    | inr configs ↦
        let (ps, errs') = gather_chain i 1 configs errs in
        let (chains, errs'') = gather_chains (suc i) raws errs' in (ps ∷ chains, errs'')
  ]

  -- `decodeProvisioner`; `none` is the panic of `raw.(map[string]interface{})`.
  unfoldable pub decode_provisioner : V → Option (String ⊎ Provisioner V)
  decode_provisioner raw = elim (dec.provisioner raw) [
    | inl e ↦ some (inl e)
    | inr p ↦
        if str_eq p.type "" then some (inl "Provisioner missing 'type'") else elim (dynamic raw) [
          | object m ↦ some (
              inr (record {
                only_except = p.only_except;
                type = p.type;
                config = nil_if_empty (delete_all provisioner_keys m);
                override = p.override;
                pause_before = p.pause_before;
                max_retries = p.max_retries;
                timeout = p.timeout;
              }))
          | _ ↦ none
        ]
  ]
