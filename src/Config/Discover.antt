-- ===== src/Config/Discover.antt =====
-- discoverManagedResources and buildAppliedManagedResources. The two lists are those that the API
-- client answers with, for the label and the namespace.
pub mod Sources
pub mod Laws
use curity_operator.Prelude.{
  String, ◌⊎◌, inl, inr, true, false, not, Option, none, some, List, [], ◌∷◌, ◌++◌, map,
  if◌then◌else◌, collect, sprint, sort_by, less_by,
}
use curity_operator.Kube.{Secret}
use curity_operator.Config.{DiscoveredManagedResource, SkippedResource, kind_of}
use curity_operator.Config.Scope.{ConfigMap, Listing, applies_to_cluster, is_cluster_config}
use curity_operator.Config.Kinds.{resolve_config_type}

-- What a round of either loop appends: to the skipped resources, to the result, or nothing.
pub data Found : Type 0 where
  ignored : Found
  skipped : SkippedResource → Found
  taken : DiscoveredManagedResource → Found

abbrev pub typed : String → String → (String → DiscoveredManagedResource) → String ⊎ String → Found
typed name kind make (inl error) = skipped (record { name = name; kind = kind; reason = error })
typed name kind make (inr config_type) = taken (make config_type)

unfoldable pub find_config_map : String → ConfigMap → Found
find_config_map cluster_name cm =
    if not (applies_to_cluster cm.annotations cluster_name)
    then ignored
    else typed cm.name "ConfigMap"
        (λ config_type. record {
          name = cm.name;
          is_secret = false;
          config_type = config_type;
          contents = cm.contents;
        })
        (resolve_config_type cm.annotations)

unfoldable pub find_secret : String → Secret → Found
find_secret cluster_name s =
    if is_cluster_config s
    then ignored
    else if not (applies_to_cluster s.annotations cluster_name)
    then ignored
    else typed s.name "Secret"
        (λ config_type. record {
          name = s.name;
          is_secret = true;
          config_type = config_type;
          contents = s.secret_data;
        })
        (resolve_config_type s.annotations)

abbrev pub taken_of : Found → Option DiscoveredManagedResource
taken_of (taken r) = some r
taken_of _ = none

abbrev pub skipped_of : Found → Option SkippedResource
skipped_of (skipped r) = some r
skipped_of _ = none

abbrev pub all_found : String → List ConfigMap → List Secret → List Found
all_found cluster_name config_maps secrets =
    map (find_config_map cluster_name) config_maps ++ map (find_secret cluster_name) secrets

-- The error of the first List call that fails, or the two results.
unfoldable pub discover_managed_resources :
    Listing ConfigMap
    → Listing Secret
    → String
    → String ⊎ (List DiscoveredManagedResource × List SkippedResource)
discover_managed_resources (inl error) secrets cluster_name =
    inl (sprint ("listing managed ConfigMaps: " ∷ error ∷ []))
discover_managed_resources (inr config_maps) (inl error) cluster_name =
    inl (sprint ("listing managed Secrets: " ∷ error ∷ []))
discover_managed_resources (inr config_maps) (inr secrets) cluster_name =
    let found = all_found cluster_name config_maps secrets in
    inr (
      sort_by (less_by (λ (r : DiscoveredManagedResource). r.name)) (collect taken_of found),
      sort_by (less_by (λ (r : SkippedResource). r.name)) (collect skipped_of found),
    )

-- status.appliedManagedResources
pub record AppliedManagedResource : Type 0 where
  pub name : String
  pub kind : String
  pub config_type : String

unfoldable pub build_applied_managed_resources :
    List DiscoveredManagedResource → List AppliedManagedResource
build_applied_managed_resources configs =
    map (λ cfg. record { name = cfg.name; kind = kind_of cfg; config_type = cfg.config_type })
      configs
