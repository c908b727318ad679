-- ===== src/Resources/Labels.antt =====
-- resources.go: labels. Merging of maps (mergeMaps, mergeManagedLabels), the labels of a node's objects
-- and of its pods, and which labels of a user the operator's replace. `none` is a nil map.
pub mod Laws
pub mod Managed
use curity_operator.Prelude.{
  ◌-◌, String, Bool, Option, none, some, List, [], ◌∷◌, ◌==◌, starts_with, if◌then◌else◌, any,
  select, sort_by, str_ltb,
}
use curity_operator.Kube.{Map, has_key, keys}
use curity_operator.Api.{NodeType, admin, runtime}
use curity_operator.Resources.{IdentityServerCluster, IdentityServerNode}

-- `m[k] = v`
abbrev pub put : String → String → Map String → Map String
put k v [] = (k, v) ∷ []
put k v ((j, w) ∷ m) = let rest = put k v m in if j == k then (k, v) ∷ m else (j, w) ∷ rest

-- `for k, v := range from { into[k] = v }`
abbrev pub put_all : Map String → Map String → Map String
put_all into [] = into
put_all into ((k, v) ∷ m) = put_all (put k v into) m

abbrev pub entries : Option (Map String) → Map String
entries none = []
entries (some m) = m

unfoldable pub merge_maps : Option (Map String) → Option (Map String) → Option (Map String)
merge_maps none none = none
merge_maps none (some override) = some (put_all [] override)
merge_maps (some base) override = some (put_all (put_all [] base) (entries override))

unfoldable pub is_operator_owned_label : String → Bool
is_operator_owned_label key =
    any (λ p. starts_with key p) ("app.kubernetes.io/" ∷ "curity.io/" ∷ [])

-- The entries of a map that do not belong to the operator.
abbrev pub foreign : Map String → Map String
foreign [] = []
foreign ((k, v) ∷ m) =
    let rest = foreign m in if is_operator_owned_label k then rest else (k, v) ∷ rest

unfoldable pub merge_managed_labels :
    Option (Map String) → Option (Map String) → Option (Map String)
merge_managed_labels none none = none
merge_managed_labels none (some desired) = some (put_all [] desired)
merge_managed_labels (some existing) desired =
    some (put_all (put_all [] (foreign existing)) (entries desired))

abbrev pub type_text : NodeType → String
type_text admin = "admin"
type_text runtime = "runtime"

-- `owned_resource_name` is OwnedResourceName.
module _ {U : Type 0} (owned_resource_name : String → String → String) where
  unfoldable pub build_labels : IdentityServerCluster U → IdentityServerNode U → Map String
  build_labels cluster node =
      ("app.kubernetes.io/name", "curity-identity-server")
      ∷ ("app.kubernetes.io/instance", owned_resource_name cluster.name node.name)
      ∷ ("app.kubernetes.io/managed-by", "curity-operator")
      ∷ ("app.kubernetes.io/component", type_text node.node_type)
      ∷ ("app.kubernetes.io/version", cluster.version)
      ∷ ("curity.io/cluster", cluster.name)
      ∷ ("curity.io/role", node.role)
      ∷ ("curity.io/owned-by", owned_resource_name cluster.name node.name)
      ∷ []

  unfoldable pub build_selector_labels : IdentityServerCluster U → IdentityServerNode U → Map String
  build_selector_labels cluster node =
      ("curity.io/owned-by", owned_resource_name cluster.name node.name) ∷ []

  -- podLabels of buildDeployment.
  unfoldable pub build_pod_labels :
      IdentityServerCluster U → IdentityServerNode U → Option (Map String)
  build_pod_labels cluster node =
      merge_maps (merge_maps cluster.shared.pod_labels node.shared.pod_labels)
        (some (build_labels cluster node))

  unfoldable pub user_pod_labels_overridden :
      IdentityServerCluster U → IdentityServerNode U → List String
  user_pod_labels_overridden cluster node = sort_by str_ltb (
      select (λ k. has_key k (build_labels cluster node))
        (keys (entries (merge_maps cluster.shared.pod_labels node.shared.pod_labels))))

-- clusterManagedLabels
unfoldable pub cluster_managed_labels : String → Map String
cluster_managed_labels cluster_name =
    ("app.kubernetes.io/managed-by", "curity-operator") ∷ ("curity.io/cluster", cluster_name) ∷ []
