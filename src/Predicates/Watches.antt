-- ===== src/Predicates/Watches.antt =====
-- predicates.go: the predicates of the watches. A predicate embeds predicate.Funcs of
-- controller-runtime, which answers the events that it has no method for: that is `funcs`. What
-- metav1.GetControllerOf finds among the owner references is a parameter.
use curity_operator.Prelude.{
  Bool, true, false, not, ◌&&◌, ◌||◌, Option, none, some, List, ◌==◌, nat_eq, if◌then◌else◌,
  is_some,
}
use curity_operator.Kube.{OwnerReference, Pod, value_of}
use curity_operator.Predicates.{
  managed_by_operator, container_failure_state_differs, label_managed_by, Object, Predicate,
  meta_of, conditions_equal, extract_conditions, uid_changed, cluster_changed, has_managed_label,
  is_cluster_watched_secret, is_acceptable_package_secret_type, is_connection_secret_candidate,
  secret_changed, pod_of, job_of, is_database_init_pod, is_cluster_config_pod, job_status_differs,
  matches_job_failed_create,
}
use curity_operator.Predicates.Containers.{
  package_init_container_status_differs, cluster_config_pod_status_differs,
  database_init_pod_status_differs,
}

-- `if e.ObjectOld == nil || e.ObjectNew == nil { return absent }`
abbrev pub both : Bool → (Object → Object → Bool) → Option Object → Option Object → Bool
both absent test none new = absent
both absent test (some old) none = absent
both absent test (some old) (some new) = test old new

-- Both are pods, and the new one passes a test.
abbrev pub pods_changed :
    (Option Object → Bool) → (Pod → Pod → Bool) → Option Object → Option Object → Bool
pods_changed is_watched differs old new = elim (pod_of new) [
  | none ↦ false
  | some new_pod ↦
      if not (is_watched new)
      then false
      else elim (pod_of old) [ none ↦ false | some old_pod ↦ differs old_pod new_pod ]
]

abbrev pub is_managed_pod : Option Object → Bool
is_managed_pod o = elim (pod_of o) [
  | none ↦ false
  | some pod ↦ value_of label_managed_by pod.labels == managed_by_operator
]

unfoldable pub is_generation_changed : Object → Object → Bool
is_generation_changed old new = not (nat_eq (meta_of new).generation (meta_of old).generation)

unfoldable pub cluster_spec_or_node_count_changed : Predicate → Predicate
cluster_spec_or_node_count_changed funcs = record {
  create = funcs.create;
  update =
      both true
        (λ old new. if is_generation_changed old new then true else cluster_changed old new);
  delete = funcs.delete;
  generic = funcs.generic;
}

unfoldable pub managed_config : Predicate → Predicate
managed_config funcs = record {
  create = has_managed_label;
  update = λ old new. has_managed_label new || has_managed_label old;
  delete = has_managed_label;
  generic = funcs.generic;
}

unfoldable pub cluster_secret_watch : Predicate → Predicate
cluster_secret_watch funcs = record {
  create = is_cluster_watched_secret;
  update = λ old new. is_cluster_watched_secret old || is_cluster_watched_secret new;
  delete = is_cluster_watched_secret;
  generic = funcs.generic;
}

unfoldable pub package_init_container_status_changed : Predicate
package_init_container_status_changed = record {
  create = λ o. false;
  update = both false (λ old new.
      pods_changed is_managed_pod
        (λ old_pod new_pod.
          package_init_container_status_differs old_pod new_pod
          || container_failure_state_differs old_pod new_pod)
        (some old) (some new));
  delete = λ o. true;
  generic = λ o. false;
}

unfoldable pub package_secret_candidate : Predicate
package_secret_candidate = record {
  create = is_acceptable_package_secret_type;
  update = secret_changed is_acceptable_package_secret_type;
  delete = is_acceptable_package_secret_type;
  generic = λ o. false;
}

unfoldable pub database_init_pod_changed : Predicate
database_init_pod_changed = record {
  create = λ o. false;
  update = pods_changed is_database_init_pod database_init_pod_status_differs;
  delete = is_database_init_pod;
  generic = λ o. false;
}

unfoldable pub connection_secret_changed : Predicate
connection_secret_changed = record {
  create = is_connection_secret_candidate;
  update = secret_changed is_connection_secret_candidate;
  delete = is_connection_secret_candidate;
  generic = λ o. false;
}

unfoldable pub cluster_config_pod_changed : Predicate
cluster_config_pod_changed = record {
  create = λ o. false;
  update = both false (λ old new.
      pods_changed is_cluster_config_pod cluster_config_pod_status_differs (some old) (some new));
  delete = is_cluster_config_pod;
  generic = λ o. false;
}

unfoldable pub job_status_changed : Predicate → Predicate
job_status_changed funcs = record {
  create = funcs.create;
  update = λ old new. elim (job_of old) [
    | none ↦ false
    | some old_job ↦ elim (job_of new) [
      | none ↦ false
      | some new_job ↦
          if not (is_some old_job.deletion_timestamp) && is_some new_job.deletion_timestamp
          then true
          else job_status_differs old_job new_job
    ]
  ];
  delete = funcs.delete;
  generic = funcs.generic;
}

unfoldable pub job_failed_create_event : Predicate
job_failed_create_event = record {
  create = matches_job_failed_create;
  update = λ old new. matches_job_failed_create new;
  delete = λ o. false;
  generic = λ o. false;
}

module _ (get_controller_of : List OwnerReference → Option OwnerReference) where
  unfoldable pub controller_owner_ref_changed : Object → Object → Bool
  controller_owner_ref_changed old new =
      uid_changed (get_controller_of (meta_of old).owner_references)
        (get_controller_of (meta_of new).owner_references)

  unfoldable pub node_status_conditions_changed : Predicate → Predicate
  node_status_conditions_changed funcs = record {
    create = funcs.create;
    update = both true (λ old new.
        if is_generation_changed old new
        then true
        else if controller_owner_ref_changed old new
        then true
        else not (conditions_equal (extract_conditions old) (extract_conditions new)));
    delete = funcs.delete;
    generic = funcs.generic;
  }
