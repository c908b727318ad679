-- ===== src/Config.antt =====
-- config_discovery.go: the ConfigMaps and Secrets with the label curity.io/managed. The field
-- `Object` of the types here is left out: the code hands it to the event recorder and reads nothing
-- of it.
pub mod Scope
pub mod Kinds
pub mod Discover
pub mod Duplicates
pub mod Logging
use curity_operator.Prelude.{
  ℕ, String, Bool, not, List, [], ◌∷◌, ◌==◌, if◌then◌else◌, sprint, join, str_ltb,
}
use curity_operator.Kube.{Map}

abbrev pub config_type_base : String
config_type_base = "base"

abbrev pub config_type_license : String
config_type_license = "license"

abbrev pub config_type_logging : String
config_type_logging = "logging"

abbrev pub config_type_post_commit_script : String
config_type_post_commit_script = "postCommitScript"

abbrev pub config_type_env : String
config_type_env = "env"

-- The values of the data are bytes.
pub record DiscoveredManagedResource : Type 0 where
  pub name : String
  pub is_secret : Bool
  pub config_type : String
  pub contents : Map (List ℕ)

pub record SkippedResource : Type 0 where
  pub name : String
  pub kind : String
  pub reason : String

-- `kind := "ConfigMap"; if cfg.IsSecret { kind = "Secret" }`
abbrev pub kind_of : DiscoveredManagedResource → String
kind_of cfg = if cfg.is_secret then "Secret" else "ConfigMap"

-- The comparison of the sorts by kind and name.
unfoldable pub kind_name_ltb : String × String → String × String → Bool
kind_name_ltb (kind, name) (kind', name') =
    if not (kind == kind') then str_ltb kind kind' else str_ltb name name'

-- `%v` of a list of texts
abbrev pub format_list : List String → String
format_list names = sprint ("[" ∷ join names " " ∷ "]" ∷ [])
