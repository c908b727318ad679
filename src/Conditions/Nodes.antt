-- ===== src/Conditions/Nodes.antt =====
-- computeClusterConditions and the aggregations that it calls (conditions.go). A loop over the
-- nodes is a recursion on the list of nodes.
pub mod Order
pub mod Statuses
pub mod First
pub mod Rollup
pub mod Fetched
use curity_operator.Prelude.{
  collect, nat_eq, is_empty, ◌==◌, suc, less_by, ltb, not, true, [], if◌then◌else◌, false, sort_by,
  length, none, some, format_nat, select, Bool, ◌∷◌, Option, sprint, List, String, ℕ,
}
use curity_operator.Api.{
  no_status, is_admin, reason_all_packages_fetched, is_true, condition_progressing,
  condition_available, condition_ready, yes_status, is_false, condition_packages_ready,
  condition_degraded, Condition, ApiMeta, ConditionStatus, Node,
}
use curity_operator.Conditions.Set.{set_condition}

-- What an aggregation hands to setCondition: the type is the caller's, and the generation is not
-- set.
pub record Aggregate : Type 0 where
  pub status : ConditionStatus
  pub reason : String
  pub message : String

-- The struct `nodeCond` of both aggregations.
pub record NodeCond : Type 0 where
  pub name : String
  pub cond : Condition

-- status.managedResourceIssues
pub record ManagedResourceIssue : Type 0 where
  pub kind : String
  pub name : String
  pub reason : String
  pub message : String

abbrev pub event_reason_duplicate_config_key : String
event_reason_duplicate_config_key = "DuplicateConfigKey"

abbrev pub counted : ℕ → ℕ → String
counted a b = sprint (format_nat a ∷ "/" ∷ format_nat b ∷ [])

module _ (m : ApiMeta) where
  open m use {find_status_condition}

  -- What one round of the first loop of aggregateNodeDegraded appends.
  abbrev pub failing_cond : String → Option Condition → Option NodeCond
  failing_cond name none = none
  failing_cond name (some c) =
      if is_true c.status then some (record { name = name; cond = c }) else none

  unfoldable pub degraded_nodes : List Node → List NodeCond
  degraded_nodes nodes =
      collect (λ n. failing_cond n.name (find_status_condition n.conditions condition_degraded))
        nodes

  -- The message, from the sorted list of failing nodes; `total` is the number of nodes.
  unfoldable pub describe_degraded : ℕ → List NodeCond → Option Aggregate
  describe_degraded total [] = none
  describe_degraded total (first ∷ rest) = some (record {
    status = yes_status;
    reason = first.cond.reason;
    message =
        if ltb 1 total
        then if is_empty rest
          then sprint (first.name ∷ ": " ∷ first.cond.message ∷ [])
          else sprint (
              counted (length (first ∷ rest)) total
              ∷ " nodes are degraded (first: "
              ∷ first.name
              ∷ ": "
              ∷ first.cond.message
              ∷ ")"
              ∷ [])
        else first.cond.message;
  })

  unfoldable pub aggregate_node_degraded : List Node → Option Aggregate
  aggregate_node_degraded nodes =
      describe_degraded (length nodes) (sort_by (less_by (λ n. n.name)) (degraded_nodes nodes))

  abbrev pub named_cond : String → Option Condition → Option NodeCond
  named_cond name none = none
  named_cond name (some c) = some (record { name = name; cond = c })

  unfoldable pub nodes_with_packages : List Node → List NodeCond
  nodes_with_packages nodes =
      collect (λ n. named_cond n.name (find_status_condition n.conditions condition_packages_ready))
        nodes

  abbrev pub or_first : Option NodeCond → NodeCond → Option NodeCond
  or_first none n = some n
  or_first (some first) n = some first

  -- The loop over the sorted conditions, with `firstFail` and `failCount`.
  unfoldable pub first_failure : Option NodeCond → ℕ → List NodeCond → Option NodeCond × ℕ
  first_failure first fails [] = (first, fails)
  first_failure first fails (n ∷ rest) =
      let failed = is_false n.cond.status in
      first_failure (if failed then or_first first n else first)
        (if failed then suc fails else fails) rest

  unfoldable pub describe_packages : ℕ → Option NodeCond × ℕ → Aggregate
  describe_packages total (none, fails) = record {
    status = yes_status;
    reason = reason_all_packages_fetched;
    message = sprint (format_nat total ∷ " node(s) have all packages fetched" ∷ []);
  }
  describe_packages total (some first, fails) = record {
    status = no_status;
    reason = first.cond.reason;
    message =
        if ltb 1 total
        then if nat_eq fails 1
          then sprint (first.name ∷ ": " ∷ first.cond.message ∷ [])
          else sprint (
              counted fails total
              ∷ " nodes have package failures (first: "
              ∷ first.name
              ∷ ": "
              ∷ first.cond.message
              ∷ ")"
              ∷ [])
        else first.cond.message;
  }

  unfoldable pub describe_with_cond : List NodeCond → Option Aggregate
  unfolding describe_packages first_failure
  describe_with_cond [] = none
  describe_with_cond (n ∷ rest) =
      some (describe_packages (length (n ∷ rest)) (first_failure none 0 (n ∷ rest)))

  unfoldable pub aggregate_packages_ready : List Node → Option Aggregate
  unfolding describe_with_cond
  aggregate_packages_ready nodes =
      describe_with_cond (sort_by (less_by (λ n. n.name)) (nodes_with_packages nodes))

  -- `readyCond != nil && readyCond.Status == ConditionTrue`, of either condition type
  abbrev pub holds : Option Condition → Bool
  holds none = false
  holds (some c) = is_true c.status

  abbrev pub node_holds : String → Node → Bool
  node_holds t n = holds (find_status_condition n.conditions t)

  -- The loop over the nodes: `allReady`, `allAvailable` and `adminCount`.
  unfoldable pub survey : Bool → Bool → ℕ → List Node → Bool × Bool × ℕ
  survey all_ready all_available admin_count [] = (all_ready, all_available, admin_count)
  survey all_ready all_available admin_count (n ∷ nodes) =
      survey (if node_holds condition_ready n then all_ready else false)
        (if node_holds condition_available n then all_available else false)
        (if is_admin n.node_type then suc admin_count else admin_count) nodes

  cluster_ready : List Condition → Bool → ℕ → List Condition
  cluster_ready cs true g =
      set_condition m cs condition_ready yes_status "AllNodesReady" "All nodes are ready" g
  cluster_ready cs false g =
      set_condition m cs condition_ready no_status "NodesNotReady" "Not all nodes are ready" g

  cluster_available : List Condition → Bool → ℕ → List Condition
  cluster_available cs true g =
      set_condition m cs condition_available yes_status "AllNodesAvailable"
        "All nodes have minimum availability" g
  cluster_available cs false g =
      set_condition m cs condition_available no_status "NodesUnavailable"
        "Not all nodes have minimum availability" g

  cluster_progressing : List Condition → Bool → ℕ → List Condition
  cluster_progressing cs false g =
      set_condition m cs condition_progressing yes_status "NodesProgressing"
        "Some nodes are not yet ready" g
  cluster_progressing cs true g =
      set_condition m cs condition_progressing no_status "Stable" "All nodes are ready" g

  forwarded_degraded : List Condition → Option Aggregate → ℕ → List Condition
  forwarded_degraded cs none g =
      set_condition m cs condition_degraded no_status "NotDegraded"
        "No partial-availability degradation detected" g
  forwarded_degraded cs (some a) g =
      set_condition m cs condition_degraded a.status a.reason a.message g

  cluster_degraded : List Condition → ℕ → List Node → ℕ → List Condition
  cluster_degraded cs admin_count nodes g =
      if ltb 1 admin_count
      then set_condition m cs condition_degraded yes_status "MultipleAdminNodes"
          "More than one admin node exists for this cluster" g
      else forwarded_degraded cs (aggregate_node_degraded nodes) g

  cluster_packages : List Condition → Option Aggregate → ℕ → List Condition
  cluster_packages cs none g = cs
  cluster_packages cs (some a) g =
      set_condition m cs condition_packages_ready a.status a.reason a.message g

  no_nodes : ℕ → List Condition
  no_nodes g =
      let reason : String = "NoNodes" in
      let absent : String = "No nodes reference this cluster" in
      let cs = set_condition m [] condition_ready no_status reason absent g in
      let cs' = set_condition m cs condition_available no_status reason absent g in
      let cs'' =
        set_condition m cs' condition_progressing yes_status "WaitingForNodes"
          "Waiting for nodes to be created" g in
      set_condition m cs'' condition_degraded no_status reason absent g

  pub from_survey : List Node → Bool × Bool × ℕ → ℕ → List Condition
  unfolding cluster_ready cluster_available cluster_progressing
  from_survey nodes (all_ready, all_available, admin_count) g =
      let cs = cluster_ready [] all_ready g in
      let cs' = cluster_available cs all_available g in
      let cs'' = cluster_progressing cs' all_ready g in
      let cs''' = cluster_degraded cs'' admin_count nodes g in
      cluster_packages cs''' (aggregate_packages_ready nodes) g

  pub compute_cluster_conditions : List Node → ℕ → List Condition
  unfolding from_survey no_nodes
  compute_cluster_conditions [] g = no_nodes g
  compute_cluster_conditions (n ∷ nodes) g =
      from_survey (n ∷ nodes) (survey true true 0 (n ∷ nodes)) g

-- The issues that dropped a config, in the order given.
unfoldable pub dropping_issues : List ManagedResourceIssue → List ManagedResourceIssue
dropping_issues issues = select (λ i. not (i.reason == event_reason_duplicate_config_key)) issues

describe_dropped : List ManagedResourceIssue → Option Aggregate
describe_dropped [] = none
describe_dropped (first ∷ rest) = some (record {
  status = no_status;
  reason = first.reason;
  message =
      if is_empty rest
      then sprint (first.kind ∷ "/" ∷ first.name ∷ ": " ∷ first.message ∷ [])
      else sprint (
          format_nat (length (first ∷ rest))
          ∷ " managed config issues (first: "
          ∷ first.kind
          ∷ "/"
          ∷ first.name
          ∷ ": "
          ∷ first.message
          ∷ ")"
          ∷ []);
})

unfoldable pub aggregate_managed_configs_valid : List ManagedResourceIssue → Option Aggregate
unfolding describe_dropped
aggregate_managed_configs_valid issues = describe_dropped (dropping_issues issues)
