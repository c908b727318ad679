-- ===== src/Witnesses/Cluster.antt =====
-- The theorems on a cluster's configuration and on what wakes it, applied to two pods of a Job and to a
-- node that moves to another cluster.
use curity_operator.Prelude.{
  ℕ, String, ◌≡◌, refl, false, ◌||◌, none, some, List, [], ◌∷◌, Permᴰ, arith, eq_iff, nat_eq,
  if◌then◌else◌, DistinctBy,
}
use curity_operator.Prelude.Int.{pos}
use curity_operator.Kube.{Pod, ContainerState}
use curity_operator.Predicates.{Object, node_object}
use curity_operator.Database.Template.{Request}
use curity_operator.Cluster.JobPods.{translate_job_pod_admission, extract_genclust_failure_message}
use curity_operator.Cluster.JobPods.Order.{translate_job_pod_admission_of_perm}
use curity_operator.Cluster.Wakes.{union_scope_handler, update_event, find_cluster_for_node}
use curity_operator.Cluster.Wakes.Union.{asks, Once, union_scope_handler-update}

abbrev pulling : ContainerState
pulling = record {
  waiting = some (record { reason = "ErrImagePull"; message = "no such image" });
  running = false;
  terminated = none;
}

abbrev unset : ContainerState
unset = record { waiting = none; running = false; terminated = none }

abbrev genclust_pod : String → ℕ → Pod
genclust_pod name time = record {
  name = name;
  creation_timestamp = time;
  deletion_timestamp = none;
  labels = ("curity.io/component", "cluster-config") ∷ [];
  annotations = [];
  owner_references = [];
  phase = "Pending";
  conditions = [];
  init_container_statuses = [];
  container_statuses =
      record {
        name = "genclust";
        image = "curity";
        restart_count = pos 0;
        state = pulling;
        last_termination_state = unset;
      }
      ∷ [];
}

abbrev old_pod : Pod
old_pod = genclust_pod "job-a" 4

abbrev new_pod : Pod
new_pod = genclust_pod "job-b" 9

pods_swapped : Permᴰ (old_pod ∷ new_pod ∷ []) (new_pod ∷ old_pod ∷ [])
pods_swapped = Permᴰ.swap refl refl

names_differ : DistinctBy (λ p. p.name) (old_pod ∷ new_pod ∷ [])
names_differ = (((λ e. ground (arith, (eq_iff "job-a" "job-b").1 e)), tt), (tt, tt))

translate_job_pod_admission_of_perm_example :
    (translate_job_pod_admission (old_pod ∷ new_pod ∷ []) ""
      ≡ translate_job_pod_admission (new_pod ∷ old_pod ∷ []) "")
    × (extract_genclust_failure_message (old_pod ∷ new_pod ∷ [])
        ≡ extract_genclust_failure_message (new_pod ∷ old_pod ∷ []))
translate_job_pod_admission_of_perm_example =
    translate_job_pod_admission_of_perm (old_pod ∷ new_pod ∷ []) (new_pod ∷ old_pod ∷ []) ""
      pods_swapped names_differ

abbrev node_with : ℕ → Object
node_with generation =
    node_object
      (record { generation = generation; labels = []; annotations = []; owner_references = [] }) []

-- The node names one cluster in its first generation and another in the next.
abbrev clusters_of : Object → List Request
clusters_of (node_object meta conditions) =
    find_cluster_for_node "default" (if nat_eq meta.generation 1 then "one" else "two") none
clusters_of _ = []

union_scope_handler-update_example :
    ((r : Request)
      → asks r (union_scope_handler clusters_of (update_event (node_with 1) (node_with 2)))
        ≡ (asks r (clusters_of (node_with 1)) || asks r (clusters_of (node_with 2))))
    × Once (union_scope_handler clusters_of (update_event (node_with 1) (node_with 2)))
union_scope_handler-update_example =
    union_scope_handler-update clusters_of (node_with 1) (node_with 2)
