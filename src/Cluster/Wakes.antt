-- ===== src/Cluster/Wakes.antt =====
-- The events that wake a cluster: managed_config_handler.go, and the maps of
-- identityservercluster_reconciler.go from an object to the clusters that it concerns.
pub mod Union
use curity_operator.Prelude.{
  ◌+◌, String, ◌⊎◌, inl, inr, Bool, false, not, ◌&&◌, ◌||◌, Option, none, some, List, [], ◌∷◌, ◌++◌,
  map, ◌==◌, if◌then◌else◌, any, select, is_empty,
}
use curity_operator.Kube.{Map, Pod, Secret, lookup, has_key}
use curity_operator.Config.Scope.{annotation_cluster_scope, applies_to_cluster, Listing}
use curity_operator.Predicates.{Object, meta_of, has_managed_label}
use curity_operator.Resources.{SecretKeyRefSource}
use curity_operator.Database.Template.{Request}

abbrev pub same_request : Request → Request → Bool
same_request a b = a.0 == b.0 && a.1 == b.1

-- `seen[r] = struct{}{}`
abbrev pub see : List Request → Request → List Request
see seen r = if any (same_request r) seen then seen else seen ++ r ∷ []

abbrev pub see_all : List Request → List Request → List Request
see_all seen [] = seen
see_all seen (r ∷ requests) = see_all (see seen r) requests

pub data HandlerEvent : Type 0 where
  create_event : (object : Object) → HandlerEvent
  update_event : (object_old object_new : Object) → HandlerEvent
  delete_event : (object : Object) → HandlerEvent
  generic_event : (object : Object) → HandlerEvent

-- newUnionScopeHandler: the requests that are added to the queue.
unfoldable pub union_scope_handler : (Object → List Request) → HandlerEvent → List Request
union_scope_handler list (create_event object) = list object
union_scope_handler list (update_event object_old object_new) =
    see_all (see_all [] (list object_old)) (list object_new)
union_scope_handler list (delete_event object) = list object
union_scope_handler list (generic_event object) = list object

abbrev items_listed : {A : Type 0} → Listing A → List A
items_listed (inl error) = []
items_listed (inr items) = items

abbrev fan_out : Bool → List String → List String → List String
fan_out is_scoped all_names matched = if is_scoped && is_empty matched then all_names else matched

-- The clusters of the namespace are what the List answers, by their names.
unfoldable pub find_clusters_for_managed_config : String → Listing String → Object → List Request
find_clusters_for_managed_config namespace answer object =
    if not (has_managed_label (some object))
    then []
    else let annotations = (meta_of object).annotations in
      map (λ name. (namespace, name))
        (fan_out (has_key annotation_cluster_scope annotations) (items_listed answer)
          (select (applies_to_cluster annotations) (items_listed answer)))

-- The controller among the owner references.
pub record ControllerReference : Type 0 where
  pub api_version : String
  pub kind : String
  pub name : String

-- v1alpha1.GroupVersion.String()
abbrev group_version : String
group_version = "curity.io/v1alpha1"

abbrev owner_request : String → String → Option ControllerReference → List Request
owner_request namespace cluster_ref none = []
owner_request namespace cluster_ref (some owner) =
    if owner.api_version == group_version
      && owner.kind == "IdentityServerCluster"
      && not (owner.name == cluster_ref)
    then (namespace, owner.name) ∷ []
    else []

-- The owner is what metav1.GetControllerOf answers.
unfoldable pub find_cluster_for_node : String → String → Option ControllerReference → List Request
find_cluster_for_node namespace cluster_ref owner =
    (namespace, cluster_ref) ∷ owner_request namespace cluster_ref owner

abbrev labelled : String → Option String → List Request
labelled namespace none = []
labelled namespace (some name) = (namespace, name) ∷ []

unfoldable pub find_cluster_for_job_pod : String → Pod → List Request
find_cluster_for_job_pod namespace pod = labelled namespace (lookup "curity.io/cluster" pod.labels)

-- The namespace and the labels of the Job.
unfoldable pub find_cluster_for_job : String → Map String → List Request
find_cluster_for_job namespace labels = labelled namespace (lookup "curity.io/cluster" labels)

-- The Job is what a Get answers.
unfoldable pub find_cluster_for_job_failed_create_event :
    String ⊎ (String × Map String) → List Request
find_cluster_for_job_failed_create_event (inl error) = []
find_cluster_for_job_failed_create_event (inr (namespace, labels)) =
    labelled namespace (lookup "curity.io/cluster" labels)

-- A cluster of the List, with the Secrets that its keystores come from.
pub record ListedCluster : Type 0 where
  pub name : String
  pub namespace : String
  pub admin_credentials : Option SecretKeyRefSource
  pub source_tls_secrets : List String

abbrev is_named : String → Option SecretKeyRefSource → Bool
is_named name none = false
is_named name (some ref) = ref.name == name

abbrev reads_secret : String → ListedCluster → Bool
reads_secret name c = is_named name c.admin_credentials || any (λ s. s == name) c.source_tls_secrets

unfoldable pub find_cluster_for_secret : String → Listing ListedCluster → Secret → List Request
find_cluster_for_secret namespace answer secret = elim (lookup "curity.io/cluster" secret.labels) [
  | some name ↦ (namespace, name) ∷ []
  | none ↦
      map (λ c. (c.namespace, c.name)) (select (reads_secret secret.name) (items_listed answer))
]
