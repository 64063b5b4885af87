-- ===== src/Plugin/Set.antt =====
-- plugin/set.go: the components of a plugin by name, and the commands of its binary.
pub mod Start
use packer_plugin_sdk.Prelude.{
  ℕ, Bool, true, false, Option, none, some, List, [], ◌∷◌, String, if◌then◌else◌, join, str_eq,
  is_some, Map, lookup, insert,
}

-- `Set`, over the types of its components.
pub record Set (Builder PostProcessor Provisioner Datasource : Type 0) : Type 0 where
  pub version : String
  pub sdk_version : String
  pub api_version : String
  pub builders : Map Builder
  pub post_processors : Map PostProcessor
  pub provisioners : Map Provisioner
  pub datasources : Map Datasource

pub record SetDescription : Type 0 where
  pub version : String
  pub sdk_version : String
  pub api_version : String
  pub builders : List String
  pub post_processors : List String
  pub provisioners : List String
  pub datasources : List String

-- A component under its name; none is the panic of a name that is taken.
unfoldable pub register : {A : Type 0} → String → A → Map A → Option (Map A)
register name a m = if is_some (lookup name m) then none else some (insert name a m)

abbrev names : {A : Type 0} → Map A → List String
names [] = []
names ((k, a) ∷ m) = k ∷ names m

-- What a server registers. A name that is not in the map reads as a nil component, which is none.
pub data Registered (B P R D : Type 0) : Type 0 where
  a_builder : Option B → Registered B P R D
  a_post_processor : Option P → Registered B P R D
  a_provisioner : Option R → Registered B P R D
  a_datasource : Option D → Registered B P R D

-- What `RunCommand` does: print a description, serve a component, or return an error.
pub data Command (B P R D : Type 0) : Type 0 where
  describe : SetDescription → Command B P R D
  serve : Registered B P R D → Command B P R D
  refuse : String → Command B P R D

module _ {B P R D : Type 0} where
  -- `NewSet`, for the versions of the SDK and of its interface.
  abbrev pub new_set : String → String → Set B P R D
  new_set sdk api = record {
    version = "";
    sdk_version = sdk;
    api_version = api;
    builders = [];
    post_processors = [];
    provisioners = [];
    datasources = [];
  }

  abbrev pub set_version : String → Set B P R D → Set B P R D
  set_version v s = record s { version = v }

  unfoldable pub register_builder : String → B → Set B P R D → Option (Set B P R D)
  register_builder name b s = elim (register name b s.builders) [
    | none ↦ none
    | some m ↦ some (record s { builders = m })
  ]

  unfoldable pub register_post_processor : String → P → Set B P R D → Option (Set B P R D)
  register_post_processor name p s = elim (register name p s.post_processors) [
    | none ↦ none
    | some m ↦ some (record s { post_processors = m })
  ]

  unfoldable pub register_provisioner : String → R → Set B P R D → Option (Set B P R D)
  register_provisioner name p s = elim (register name p s.provisioners) [
    | none ↦ none
    | some m ↦ some (record s { provisioners = m })
  ]

  unfoldable pub register_datasource : String → D → Set B P R D → Option (Set B P R D)
  register_datasource name d s = elim (register name d s.datasources) [
    | none ↦ none
    | some m ↦ some (record s { datasources = m })
  ]

  -- `description`; `sort` is `sort.Strings`.
  unfoldable pub description : (List String → List String) → Set B P R D → SetDescription
  description sort s = record {
    version = s.version;
    sdk_version = s.sdk_version;
    api_version = s.api_version;
    builders = sort (names s.builders);
    post_processors = sort (names s.post_processors);
    provisioners = sort (names s.provisioners);
    datasources = sort (names s.datasources);
  }

  -- `start`: the error of `Server`, and then that of the registration.
  unfoldable pub start :
      Option String
      → (Registered B P R D → Option String)
      → String
      → String
      → Set B P R D
      → Command B P R D
  start (some e) register_error kind name s = refuse e
  start none register_error kind name s =
      elim (if str_eq kind "builder"
        then some (a_builder (lookup name s.builders))
        else if str_eq kind "post-processor"
        then some (a_post_processor (lookup name s.post_processors))
        else if str_eq kind "provisioner"
        then some (a_provisioner (lookup name s.provisioners))
        else if str_eq kind "datasource"
        then some (a_datasource (lookup name s.datasources))
        else none) [
          | none ↦ refuse (join "Unknown plugin type: " kind)
          | some r ↦ elim (register_error r) [ none ↦ serve r | some e ↦ refuse e ]
        ]

  -- `RunCommand`, with `%v` of the arguments and `%q` of a text.
  unfoldable pub run_command :
      (List String → String)
      → (String → String)
      → (List String → List String)
      → Option String
      → (Registered B P R D → Option String)
      → List String
      → Set B P R D
      → Command B P R D
  run_command show quote sort server_error register_error [] s =
      refuse "needs at least one argument"
  run_command show quote sort server_error register_error (command ∷ args) s =
      if str_eq command "describe"
      then describe (description sort s)
      else if str_eq command "start"
      then start_args args
      else refuse (join "Unknown command: " (quote command))
    where
      start_args : List String → Command B P R D
      start_args (kind ∷ name ∷ []) = start server_error register_error kind name s
      start_args other = refuse (
          join "start takes two arguments, for example 'start builder example-builder'. Found: "
            (show other))
