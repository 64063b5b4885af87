-- ===== src/Template/Types.antt =====
-- template/template.go: the records of a template. `V` is what an `interface{}` of a decoded document
-- holds, and a map that may be nil is an Option.
use packer_plugin_sdk.Prelude.{ℕ, Bool, Option, List, String, Map}

pub record OnlyExcept : Type 0 where
  pub only : List String
  pub except : List String

pub record Variable : Type 0 where
  pub key : String
  pub default : String
  pub required : Bool

pub record Builder (V : Type 0) : Type 0 where
  pub name : String
  pub type : String
  pub config : Option (Map V)

pub record PostProcessor (V : Type 0) : Type 0 where
  pub only_except : OnlyExcept
  pub name : String
  pub type : String
  pub keep_input_artifact : Option Bool
  pub config : Option (Map V)

-- Durations are counted in nanoseconds.
pub record Provisioner (V : Type 0) : Type 0 where
  pub only_except : OnlyExcept
  pub type : String
  pub config : Option (Map V)
  pub override : Map V
  pub pause_before : ℕ
  pub max_retries : String
  pub timeout : ℕ

pub record Template (V : Type 0) : Type 0 where
  pub path : String
  pub description : String
  pub min_version : String
  pub comments : Map String
  pub variables : Map Variable
  pub sensitive_variables : List Variable
  pub builders : Map (Builder V)
  pub provisioners : List (Provisioner V)
  pub cleanup_provisioner : Option (Provisioner V)
  pub post_processors : List (List (PostProcessor V))
  pub raw_contents : List ℕ
