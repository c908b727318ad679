-- ===== src/Witnesses/Conditions.antt =====
-- Inputs for the theorems on conditions: a Deployment with one of two replicas, and a cluster of an
-- admin and a runtime node.
use curity_operator.Prelude.{
  ◌≤◌, String, ◌≡◌, refl, ◌≢◌, ◌↔◌, ◌⊎◌, true, false, ◌&&◌, none, some, List, [], ◌∷◌, Permᴰ, Memᴰ,
  if◌then◌else◌, All, insert_by, sort_by, str_ltb, count_if,
}
use curity_operator.Prelude.Int.{pos, ◌≤ℤ◌, ◌<ℤ◌}
use curity_operator.Api.{
  condition_packages_ready, is_admin, Condition, Node, ConditionStatus, yes_status, no_status,
  admin, runtime, condition_ready, condition_available, condition_progressing, condition_degraded,
}
use curity_operator.Conditions.Set.{status_of, apply_ready_overlay}
use curity_operator.Conditions.Deployment.{Deployment, compute_node_conditions}
use curity_operator.Conditions.Deployment.Health.{compute_node_conditions_health}
use curity_operator.Conditions.Nodes.{
  describe_degraded, degraded_nodes, Aggregate, aggregate_node_degraded, compute_cluster_conditions,
  node_holds,
}
use curity_operator.Conditions.Nodes.Statuses.{NodeIs}
use curity_operator.Conditions.Nodes.Order.{compute_cluster_conditions_of_perm}
use curity_operator.Conditions.Nodes.First.{aggregate_node_degraded_first}
use curity_operator.Conditions.Nodes.Rollup.{
  compute_cluster_conditions_ready, compute_cluster_conditions_degraded,
}
use curity_operator.Conditions.Nodes.Fetched.{
  compute_cluster_conditions_packages, together, says_no, find-apply_ready_overlay, not_ready,
}
use curity_operator.Witnesses.Meta.{meta, find}

abbrev partial : Deployment
partial = record {
  replicas = some (pos 2);
  updated_replicas = pos 2;
  ready_replicas = pos 1;
  available_replicas = pos 1;
  unavailable_replicas = pos 1;
}

compute_node_conditions_health_example :
    let cs = (compute_node_conditions meta (some partial) 3).0 in
    ((status_of meta cs condition_ready ≡ some yes_status) ↔ ((pos 2 ≤ℤ pos 1) × (pos 0 <ℤ pos 2)))
    × ((status_of meta cs condition_available ≡ some yes_status)
        ↔ ((pos 2 ≤ℤ pos 1) × (pos 0 <ℤ pos 2)))
    × ((status_of meta cs condition_progressing ≡ some yes_status)
        ↔ ((pos 2 <ℤ pos 2) ⊎ (pos 0 <ℤ pos 1)))
    × ((status_of meta cs condition_degraded ≡ some yes_status)
        ↔ ((pos 1 <ℤ pos 2) × (pos 0 <ℤ pos 1)))
compute_node_conditions_health_example = compute_node_conditions_health meta partial 3

abbrev healthy : Deployment
healthy = record {
  replicas = none;
  updated_replicas = pos 1;
  ready_replicas = pos 1;
  available_replicas = pos 1;
  unavailable_replicas = pos 0;
}

abbrev condition : String → ConditionStatus → String → Condition
condition type status reason = record {
  type = type;
  status = status;
  reason = reason;
  message = "message";
  observed_generation = 1;
}

abbrev admin_node : Node
admin_node = record {
  name = "admin";
  node_type = admin;
  conditions = condition "Ready" yes_status "AllReplicasReady" ∷ [];
}

abbrev runtime_node : Node
runtime_node = record {
  name = "runtime";
  node_type = runtime;
  conditions =
      condition "Ready" no_status "ReplicasNotReady"
      ∷ condition "Degraded" yes_status "PartiallyAvailable"
      ∷ [];
}

abbrev nodes : List Node
nodes = admin_node ∷ runtime_node ∷ []

compute_cluster_conditions_of_perm_example :
    compute_cluster_conditions meta (admin_node ∷ runtime_node ∷ []) 5
    ≡ compute_cluster_conditions meta (runtime_node ∷ admin_node ∷ []) 5
compute_cluster_conditions_of_perm_example =
    compute_cluster_conditions_of_perm meta (admin_node ∷ runtime_node ∷ [])
      (runtime_node ∷ admin_node ∷ []) 5 (Permᴰ.swap refl refl) ((λ e. cc e, tt), (tt, tt))

abbrev forwarded : Aggregate
forwarded = record {
  status = yes_status;
  reason = "PartiallyAvailable";
  message = "runtime: message";
}

forwarded_from_runtime : aggregate_node_degraded meta nodes ≡ some forwarded
unfolding aggregate_node_degraded degraded_nodes describe_degraded meta find sort_by insert_by
forwarded_from_runtime = refl

aggregate_node_degraded_first_example :
    (n : Node) × (c : Condition) × Memᴰ n nodes
    × (find n.conditions condition_degraded ≡ some c)
    × (c.status ≡ yes_status)
    × (yes_status ≡ yes_status)
    × ("PartiallyAvailable" ≡ c.reason)
    × All (λ n'. (node_holds meta condition_degraded n' && str_ltb n'.name n.name) ≡ false) nodes
unfolding meta
aggregate_node_degraded_first_example =
    aggregate_node_degraded_first meta nodes forwarded forwarded_from_runtime

compute_cluster_conditions_ready_example :
    let cs = compute_cluster_conditions meta nodes 5 in
    ((status_of meta cs condition_ready ≡ some yes_status)
      ↔ ((nodes ≢ []) × All (NodeIs meta condition_ready yes_status) nodes))
    × ((status_of meta cs condition_available ≡ some yes_status)
        ↔ ((nodes ≢ []) × All (NodeIs meta condition_available yes_status) nodes))
    × ((status_of meta cs condition_progressing ≡ some yes_status)
        ↔ (status_of meta cs condition_ready ≡ some no_status))
compute_cluster_conditions_ready_example = compute_cluster_conditions_ready meta nodes 5

compute_cluster_conditions_degraded_example :
    let cs = compute_cluster_conditions meta nodes 5 in
    ((status_of meta cs condition_degraded ≡ some no_status) ↔ (
      (count_if (λ n. is_admin n.node_type) nodes ≤ 1)
      × All (λ n. ¬ NodeIs meta condition_degraded yes_status n) nodes))
    × ((status_of meta cs condition_degraded ≡ some no_status)
        ⊎ (status_of meta cs condition_degraded ≡ some yes_status))
compute_cluster_conditions_degraded_example = compute_cluster_conditions_degraded meta nodes 5

abbrev fetched_nodes : List Node
fetched_nodes =
    record {
      name = "a";
      node_type = admin;
      conditions = condition "PackagesReady" yes_status "AllPackagesFetched" ∷ [];
    }
    ∷ record {
      name = "b";
      node_type = runtime;
      conditions = condition "PackagesReady" no_status "PackageHTTPError" ∷ [];
    }
    ∷ []

compute_cluster_conditions_packages_example :
    status_of meta (compute_cluster_conditions meta fetched_nodes 5) condition_packages_ready
    ≡ together meta fetched_nodes
compute_cluster_conditions_packages_example =
    compute_cluster_conditions_packages meta fetched_nodes 5

abbrev failed_fetch : List Condition
failed_fetch =
    condition "Ready" yes_status "AllReplicasReady"
    ∷ condition "PackagesReady" no_status "PackageHTTPError"
    ∷ []

find-apply_ready_overlay_example :
    meta.find_status_condition (apply_ready_overlay meta failed_fetch 2) "Ready" ≡ (
      if says_no (status_of meta failed_fetch condition_packages_ready) && true
      then some (not_ready meta 2)
      else meta.find_status_condition failed_fetch "Ready")
find-apply_ready_overlay_example = find-apply_ready_overlay meta failed_fetch 2 "Ready"
