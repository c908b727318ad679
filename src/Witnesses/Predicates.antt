-- ===== src/Witnesses/Predicates.antt =====
-- The theorems on the watches and on the labels, applied to concrete objects.
use curity_operator.Failures.{
  container_failure_state_differs, pod_failure_signature, failure_entries, failure_entry,
  classify_container_failure, classify_waiting_failure, normalize_image_pull_reason,
}
use curity_operator.Predicates.Containers.{
  find_by_name, package_init_container_status_differs, any_status_changed,
  equal_init_container_status, equal_container_state,
}
use curity_operator.Prelude.{
  ℕ, String, ◌≡◌, refl, ◌↔◌, true, false, Option, none, some, List, [], ◌∷◌, map, if◌then◌else◌,
}
use curity_operator.Prelude.Int.{pos}
use curity_operator.Api.{Condition, no_status}
use curity_operator.Kube.{
  Map, Pod, ContainerStatus, ContainerState, ObjectMeta, OwnerReference, lookup,
}
use curity_operator.Packages.Status.Translate.{scan_containers}
use curity_operator.Predicates.{Predicate, node_object, secret_data_equal}
use curity_operator.Predicates.SecretData.{secret_data_equal-lookup}
use curity_operator.Predicates.Dropped.{scan_containers_dropped}
use curity_operator.Predicates.Observed.{node_status_conditions_changed-update, observed, uid_of}
use curity_operator.Predicates.Watches.{
  node_status_conditions_changed, package_init_container_status_changed,
}

abbrev old_data : Map (List ℕ)
old_data = ("user", 97 ∷ []) ∷ ("password", 98 ∷ 99 ∷ []) ∷ []

abbrev new_data : Map (List ℕ)
new_data = ("password", 98 ∷ 99 ∷ []) ∷ ("user", 97 ∷ []) ∷ []

secret_data_equal-lookup_example :
    (secret_data_equal old_data new_data ≡ true)
    ↔ ((k : String) → lookup k old_data ≡ lookup k new_data)
secret_data_equal-lookup_example =
    secret_data_equal-lookup old_data new_data (refl, (refl, tt)) (refl, (refl, tt))

abbrev waiting_state : String → ContainerState
waiting_state reason = record {
  waiting = some (record { reason = reason; message = "" });
  running = false;
  terminated = none;
}

abbrev unset_state : ContainerState
unset_state = record { waiting = none; running = false; terminated = none }

abbrev status_of_fetch : String → String → ContainerStatus
status_of_fetch name image = record {
  name = name;
  image = image;
  restart_count = pos 0;
  state = waiting_state "ImagePullBackOff";
  last_termination_state = unset_state;
}

abbrev managed_pod : String → Pod
managed_pod image = record {
  name = "idsvr-0";
  creation_timestamp = 5;
  deletion_timestamp = none;
  labels = ("app.kubernetes.io/managed-by", "curity-operator") ∷ [];
  annotations = [];
  owner_references = [];
  phase = "Pending";
  conditions = [];
  init_container_statuses =
      status_of_fetch "package-fetch-0" image ∷ status_of_fetch "setup" image ∷ [];
  container_statuses = [];
}

abbrev no_meta : ObjectMeta
no_meta = record { generation = 1; labels = []; annotations = []; owner_references = [] }

scan_containers_dropped_example :
    scan_containers [] 0 false (managed_pod "a").init_container_statuses
    ≡ scan_containers [] 0 false (managed_pod "b").init_container_statuses
unfolding find_by_name package_init_container_status_changed package_init_container_status_differs
    any_status_changed equal_init_container_status equal_container_state
    container_failure_state_differs pod_failure_signature failure_entries failure_entry
    classify_container_failure classify_waiting_failure normalize_image_pull_reason
scan_containers_dropped_example =
    scan_containers_dropped [] no_meta no_meta (managed_pod "a") (managed_pod "b") refl
      (refl, refl, (refl, refl, tt)) ((refl, refl), ((refl, refl), tt))
      ((refl, refl), ((refl, refl), tt)) refl 0 false

abbrev first_controller : List OwnerReference → Option OwnerReference
first_controller [] = none
first_controller (ref ∷ refs) =
    let rest = first_controller refs in
    elim ref.controller [ none ↦ rest | some b ↦ if b then some ref else rest ]

abbrev pass_all : Predicate
pass_all = record {
  create = λ o. true;
  update = λ old new. true;
  delete = λ o. true;
  generic = λ o. true;
}

abbrev ready : String → Condition
ready message = record {
  type = "Ready";
  status = no_status;
  reason = "Starting";
  message = message;
  observed_generation = 1;
}

node_status_conditions_changed-update_example :
    ((node_status_conditions_changed first_controller pass_all).update
        (some (node_object no_meta (ready "1 of 2" ∷ [])))
        (some (node_object no_meta (ready "2 of 2" ∷ [])))
      ≡ false)
    ↔ ((no_meta.generation ≡ no_meta.generation)
        × (uid_of (first_controller no_meta.owner_references)
            ≡ uid_of (first_controller no_meta.owner_references))
        × (map observed (ready "1 of 2" ∷ []) ≡ map observed (ready "2 of 2" ∷ [])))
node_status_conditions_changed-update_example =
    node_status_conditions_changed-update first_controller pass_all no_meta no_meta
      (ready "1 of 2" ∷ []) (ready "2 of 2" ∷ [])
