-- ===== src/Witnesses/Config.antt =====
-- Inputs for the theorems on managed configs.
use curity_operator.Prelude.{
  ◌+◌, ◌≤◌, String, ◌≡◌, refl, ◌↔◌, ◌⊎◌, inr, true, false, not, ◌&&◌, ◌||◌, none, some, List, [],
  ◌∷◌, Memᴰ, length, any, select, is_empty, All, insert_by, sort_by, IsSorted, less_by, count_if,
}
use curity_operator.Api.{admin, runtime, is_admin}
use curity_operator.Kube.{Map}
use curity_operator.Config.{DiscoveredManagedResource, SkippedResource}
use curity_operator.Config.Kinds.{should_mount_config}
use curity_operator.Config.Kinds.Filename.{mount_filename_inj}
use curity_operator.Config.Kinds.Reach.{should_mount_config-reach}
use curity_operator.Config.Discover.{discover_managed_resources}
use curity_operator.Config.Discover.Laws.{discover_managed_resources_complete}
use curity_operator.Config.Discover.Sources.{
  is_for, TakesConfigMap, TakesSecret, SkipsConfigMap, SkipsSecret,
}
use curity_operator.Kube.{Secret}
use curity_operator.Config.Scope.{
  ConfigMap, trim_space, split_commas, scope_names, ScopeIssue, scope_issue, applies_to_cluster,
  parse_cluster_scope,
}
use curity_operator.Config.Scope.Laws.{scope_issue-applies, holds_name}
use curity_operator.Config.Logging.{apply_logging_validations, is_logging, invalid_issue}
use curity_operator.Config.Logging.Laws.{apply_logging_validations-one, logging_count}

should_mount_config-reach_example :
    (any (λ n. should_mount_config n true "base") (runtime ∷ admin ∷ []) ≡ true)
    × (any (λ n. not (is_admin n) && should_mount_config n true "base") (runtime ∷ admin ∷ [])
        ≡ false)
should_mount_config-reach_example = should_mount_config-reach runtime (admin ∷ []) "base"

abbrev scoped : Map String
scoped = ("curity.io/cluster", "prod, dev,") ∷ []

abbrev dev_is_missing : ScopeIssue
dev_is_missing = record {
  kind = "Secret";
  name = "keys";
  empty = false;
  unknown = "dev" ∷ [];
  applied = "prod" ∷ [];
}

dev_is_reported : scope_issue ("prod" ∷ "test" ∷ []) "Secret" "keys" scoped ≡ some dev_is_missing
unfolding scope_issue parse_cluster_scope scope_names split_commas trim_space sort_by insert_by
dev_is_reported = refl

scope_issue-applies_example :
    (false ≡ is_empty dev_is_missing.unknown)
    × ((cluster : String)
        → (applies_to_cluster scoped cluster
            ≡ (holds_name ("dev" ∷ []) cluster || holds_name ("prod" ∷ []) cluster))
          × (holds_name ("dev" ∷ []) cluster ≡ (
              applies_to_cluster scoped cluster
              && not (holds_name ("prod" ∷ "test" ∷ []) cluster))))
scope_issue-applies_example =
    scope_issue-applies ("prod" ∷ "test" ∷ []) "Secret" "keys" scoped dev_is_missing dev_is_reported

abbrev logging_config : String → DiscoveredManagedResource
logging_config name = record {
  name = name;
  is_secret = false;
  config_type = "logging";
  contents = ("log4j2.xml", 60 ∷ []) ∷ [];
}

abbrev base_config : DiscoveredManagedResource
base_config = record {
  name = "base";
  is_secret = true;
  config_type = "base";
  contents = ("a.xml", 60 ∷ []) ∷ ("b.xml", []) ∷ [];
}

abbrev configs : List DiscoveredManagedResource
configs = logging_config "one" ∷ base_config ∷ logging_config "two" ∷ []

apply_logging_validations-one_example :
    let (left, issues) = apply_logging_validations configs in
    (logging_count left ≤ 1)
    × (select (λ c. not (is_logging c)) left ≡ select (λ c. not (is_logging c)) configs)
    × (length left + length issues ≡ length configs)
    × All (λ c. invalid_issue c ≡ none) left
apply_logging_validations-one_example = apply_logging_validations-one configs

abbrev base_map : ConfigMap
base_map = record { name = "base"; annotations = []; contents = ("a.xml", 60 ∷ []) ∷ [] }

abbrev other_map : ConfigMap
other_map = record {
  name = "a-map";
  annotations = ("curity.io/config-type", "bse") ∷ ("curity.io/cluster", "prod") ∷ [];
  contents = [];
}

discover_managed_resources_complete_example :
    (configs : List DiscoveredManagedResource) × (skips : List SkippedResource)
    × (discover_managed_resources (inr (base_map ∷ other_map ∷ [])) (inr []) "prod"
        ≡ inr (configs, skips))
    × ((r : DiscoveredManagedResource)
        → Memᴰ r configs ↔ (
            ((cm : ConfigMap) × Memᴰ cm (base_map ∷ other_map ∷ []) × TakesConfigMap "prod" cm r)
            ⊎ ((s : Secret) × Memᴰ s [] × TakesSecret "prod" s r)))
    × ((r : SkippedResource)
        → Memᴰ r skips ↔ (
            ((cm : ConfigMap) × Memᴰ cm (base_map ∷ other_map ∷ []) × SkipsConfigMap "prod" cm r)
            ⊎ ((s : Secret) × Memᴰ s [] × SkipsSecret "prod" s r)))
    × (length configs + length skips
        ≡ count_if (λ cm. applies_to_cluster cm.annotations "prod") (base_map ∷ other_map ∷ [])
          + count_if (is_for "prod") [])
    × IsSorted (less_by (λ (r : DiscoveredManagedResource). r.name)) configs
    × IsSorted (less_by (λ (r : SkippedResource). r.name)) skips
discover_managed_resources_complete_example =
    discover_managed_resources_complete (base_map ∷ other_map ∷ []) [] "prod"

mount_filename_inj_example :
    (false ≡ false) × ◌≡◌ {A = String} "base" "base" × ◌≡◌ {A = String} "a_b.xml" "a_b.xml"
mount_filename_inj_example =
    mount_filename_inj false false "base" "base" "a_b.xml" "a_b.xml" refl refl refl
