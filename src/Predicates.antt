-- ===== src/Predicates.antt =====
-- predicates.go: which events of a watch reach the reconcilers. An object that a watch delivers is an
-- `Object`, and `none` is nil; the type assertions are matches on its constructor.
pub mod Containers
pub mod Watches
pub mod SecretData
pub mod Dropped
pub mod Observed
pub mod Named
use curity_operator.Predicates.Containers.{
  package_init_container_status_differs, cluster_config_pod_status_differs,
  database_init_pod_status_differs,
}
use curity_operator.Failures.{container_failure_state_differs}
use curity_operator.Packages.Status.Classify.{label_managed_by, managed_by_operator}
use curity_operator.Prelude.{
  ℕ, ◌-◌, String, Bool, true, false, not, ◌&&◌, ◌||◌, Option, none, some, List, [], ◌∷◌, ◌==◌,
  nat_eq, if◌then◌else◌, length, any,
}
use curity_operator.Kube.{
  Map, Pod, Secret, Job, JobCondition, KubeEvent, ObjectMeta, OwnerReference, lookup, value_of,
}
use curity_operator.Api.{
  Condition, ConditionStatus, condition_cluster_config_ready, yes_status, no_status, unknown_status,
}
use curity_operator.Prelude.Int.{ℤ, negsuc, eq_ℤ}

abbrev pub label_managed_config : String
label_managed_config = "curity.io/managed"

abbrev component_label : String
component_label = "curity.io/component"

abbrev database_component_value : String
database_component_value = "database-init"

-- client.Object, by the types that the predicates assert.
pub data Object : Type 0 where
  node_object : (meta : ObjectMeta) (conditions : List Condition) → Object
  cluster_object : (meta : ObjectMeta) (node_count : ℤ) (conditions : List Condition) → Object
  secret_object : (meta : ObjectMeta) (secret : Secret) → Object
  pod_object : (meta : ObjectMeta) (pod : Pod) → Object
  job_object : (meta : ObjectMeta) (job : Job) → Object
  event_object : (meta : ObjectMeta) (event : KubeEvent) → Object
  other_object : (meta : ObjectMeta) → Object

abbrev pub meta_of : Object → ObjectMeta
meta_of (node_object meta conditions) = meta
meta_of (cluster_object meta node_count conditions) = meta
meta_of (secret_object meta secret) = meta
meta_of (pod_object meta pod) = meta
meta_of (job_object meta job) = meta
meta_of (event_object meta event) = meta
meta_of (other_object meta) = meta

-- What a predicate answers to each kind of event.
pub record Predicate : Type 0 where
  pub create : Option Object → Bool
  pub update : Option Object → Option Object → Bool
  pub delete : Option Object → Bool
  pub generic : Option Object → Bool

abbrev pub equal_status : ConditionStatus → ConditionStatus → Bool
equal_status yes_status yes_status = true
equal_status no_status no_status = true
equal_status unknown_status unknown_status = true
equal_status a b = false

abbrev pub same_answer : Option ConditionStatus → Option ConditionStatus → Bool
same_answer none none = true
same_answer none (some b) = false
same_answer (some a) none = false
same_answer (some a) (some b) = equal_status a b

abbrev pub same_condition : Condition → Condition → Bool
same_condition a b =
    a.type == b.type
    && equal_status a.status b.status
    && a.reason == b.reason
    && a.message == b.message

unfoldable pub conditions_equal : List Condition → List Condition → Bool
conditions_equal [] [] = true
conditions_equal [] (b ∷ bs) = false
conditions_equal (a ∷ rest) [] = false
conditions_equal (a ∷ rest) (b ∷ bs) = same_condition a b && conditions_equal rest bs

unfoldable pub extract_conditions : Object → List Condition
extract_conditions (node_object meta conditions) = conditions
extract_conditions (cluster_object meta node_count conditions) = []
extract_conditions (secret_object meta secret) = []
extract_conditions (pod_object meta pod) = []
extract_conditions (job_object meta job) = []
extract_conditions (event_object meta event) = []
extract_conditions (other_object meta) = []

abbrev pub uid_changed : Option OwnerReference → Option OwnerReference → Bool
uid_changed none none = false
uid_changed none (some new) = true
uid_changed (some old) none = true
uid_changed (some old) (some new) = not (old.uid == new.uid)

-- The status of a condition of a type, "" where there is none.
unfoldable pub cluster_condition_status : List Condition → String → Option ConditionStatus
cluster_condition_status [] cond_type = none
cluster_condition_status (c ∷ conditions) cond_type =
    if c.type == cond_type then some c.status else cluster_condition_status conditions cond_type

unfoldable pub cluster_changed : Object → Object → Bool
cluster_changed (cluster_object old_meta old_count old) (cluster_object meta count new) =
    not (eq_ℤ old_count count)
    || not (
        same_answer (cluster_condition_status old condition_cluster_config_ready)
          (cluster_condition_status new condition_cluster_config_ready))
cluster_changed old new = true

unfoldable pub has_managed_label : Option Object → Bool
has_managed_label none = false
has_managed_label (some o) = value_of label_managed_config (meta_of o).labels == "true"

-- `obj.(*corev1.Secret)`
abbrev pub secret_of : Option Object → Option Secret
secret_of (some (secret_object meta secret)) = some secret
secret_of o = none

abbrev pub pod_of : Option Object → Option Pod
pod_of (some (pod_object meta pod)) = some pod
pod_of o = none

abbrev pub job_of : Option Object → Option Job
job_of (some (job_object meta job)) = some job
job_of o = none

-- Whether a Secret is there and its type is one of a list.
abbrev pub has_type : List String → Option Secret → Bool
has_type types none = false
has_type types (some s) = any (λ t. s.secret_type == t) types

unfoldable pub is_cluster_watched_secret : Option Object → Bool
is_cluster_watched_secret o = has_type ("" ∷ "Opaque" ∷ "kubernetes.io/tls" ∷ []) (secret_of o)

unfoldable pub is_acceptable_package_secret_type : Option Object → Bool
is_acceptable_package_secret_type o =
    has_type ("" ∷ "Opaque" ∷ "kubernetes.io/tls" ∷ "kubernetes.io/basic-auth" ∷ []) (secret_of o)

unfoldable pub is_connection_secret_candidate : Option Object → Bool
is_connection_secret_candidate o = has_type ("" ∷ "Opaque" ∷ []) (secret_of o)

-- bytes.Equal
abbrev pub bytes_equal : List ℕ → List ℕ → Bool
bytes_equal [] [] = true
bytes_equal [] (b ∷ bs) = false
bytes_equal (a ∷ rest) [] = false
bytes_equal (a ∷ rest) (b ∷ bs) = nat_eq a b && bytes_equal rest bs

abbrev pub found_equal : List ℕ → Option (List ℕ) → Bool
found_equal va none = false
found_equal va (some vb) = bytes_equal va vb

-- The loop of secretDataEqual.
abbrev pub data_within : Map (List ℕ) → Map (List ℕ) → Bool
data_within [] b = true
data_within ((k, va) ∷ a) b = found_equal va (lookup k b) && data_within a b

unfoldable pub secret_data_equal : Map (List ℕ) → Map (List ℕ) → Bool
secret_data_equal a b = if not (nat_eq (length a) (length b)) then false else data_within a b

-- The Update of the two predicates on Secrets, by their test of a type.
unfoldable pub secret_changed : (Option Object → Bool) → Option Object → Option Object → Bool
secret_changed is_candidate old new = elim (secret_of old) [
  | none ↦ false
  | some old_secret ↦ elim (secret_of new) [
    | none ↦ false
    | some new_secret ↦
        if not (is_candidate new)
        then false
        else if not (old_secret.secret_type == new_secret.secret_type)
        then true
        else not (secret_data_equal old_secret.secret_data new_secret.secret_data)
  ]
]

unfoldable pub has_component : String → Option Object → Bool
has_component component o = elim (pod_of o) [
  | none ↦ false
  | some pod ↦ value_of component_label pod.labels == component
]

unfoldable pub is_database_init_pod : Option Object → Bool
is_database_init_pod o = has_component database_component_value o

unfoldable pub is_cluster_config_pod : Option Object → Bool
is_cluster_config_pod o = has_component "cluster-config" o

-- "Unknown" where there is no condition of the type.
unfoldable pub job_condition_status : List JobCondition → String → String
job_condition_status [] cond_type = "Unknown"
job_condition_status (c ∷ conditions) cond_type =
    if c.type == cond_type then c.status else job_condition_status conditions cond_type

abbrev deref_ready : Option ℤ → ℤ
deref_ready none = negsuc 0
deref_ready (some n) = n

unfoldable pub job_status_differs : Job → Job → Bool
job_status_differs old_job new_job =
    if not (eq_ℤ old_job.active new_job.active)
      || not (eq_ℤ old_job.succeeded new_job.succeeded)
      || not (eq_ℤ old_job.failed new_job.failed)
      || not (eq_ℤ (deref_ready old_job.ready) (deref_ready new_job.ready))
    then true
    else not (
        job_condition_status old_job.conditions "Complete"
        == job_condition_status new_job.conditions "Complete")
      || not (
          job_condition_status old_job.conditions "Failed"
          == job_condition_status new_job.conditions "Failed")

unfoldable pub matches_job_failed_create : Option Object → Bool
matches_job_failed_create (some (event_object meta ev)) =
    ev.type == "Warning" && ev.reason == "FailedCreate" && ev.involved_kind == "Job"
matches_job_failed_create o = false
