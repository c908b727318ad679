-- ===== src/Conditions/Nodes/Fetched.antt =====
-- The condition PackagesReady of a cluster (aggregatePackagesReady), and what that of a node does to
-- its Ready (applyReadyOverlay).
use curity_operator.Prelude.{
  ℕ, suc, String, ◌≡◌, refl, ap, ◌∙◌, inl, inr, Bool, true, false, not, ◌&&◌, ◌||◌, Option, none,
  some, List, [], ◌∷◌, arith, ◌==◌, if◌then◌else◌, Bool-cases, is_some, length, any, is_empty,
  sort_by, sort_by-perm, less_by, any-perm, is_empty-perm,
}
use curity_operator.Api.{
  ApiMeta, ConditionStatus, yes_status, no_status, is_false, condition_packages_ready,
  condition_ready, reason_packages_not_ready, Condition, Node,
}
use curity_operator.Conditions.Set.{status_of, set_condition, overlay, apply_ready_overlay}
use curity_operator.Conditions.Nodes.{
  Aggregate, NodeCond, first_failure, describe_packages, describe_with_cond,
  aggregate_packages_ready, nodes_with_packages, compute_cluster_conditions, survey,
}
use curity_operator.Conditions.Nodes.Statuses.{aggregate_status, from_survey_statuses}
use curity_operator.Conditions.Nodes.Rollup.{no_nodes_statuses}

-- The status that an aggregate has, where it is there.
abbrev pub given_status : Option Aggregate → Option ConditionStatus
given_status none = none
given_status (some a) = some a.status

abbrev failing : NodeCond → Bool
failing c = is_false c.cond.status

abbrev pub says_no : Option ConditionStatus → Bool
says_no none = false
says_no (some s) = is_false s

given :
    (o : Option Aggregate)
    → (if is_some o then some (aggregate_status o) else none) ≡ given_status o
given none = refl
given (some a) = refl

module _ (m : ApiMeta) where
  open m use {find_status_condition}

  is_some-first_failure :
      (first : Option NodeCond) (k : ℕ) (l : List NodeCond)
      → is_some (first_failure m first k l).0 ≡ is_some first || any failing l
  unfolding first_failure
  is_some-first_failure first k [] = ground arith
  is_some-first_failure none k (c ∷ l) =
      ground (arith, is_some-first_failure (some c) (suc k) l, is_some-first_failure none k l)
  is_some-first_failure (some f) k (c ∷ l) =
      ground (arith, is_some-first_failure (some f) (suc k) l, is_some-first_failure (some f) k l)

  status-describe_packages :
      (total : ℕ) (r : Option NodeCond × ℕ)
      → (describe_packages m total r).status ≡ (if is_some r.0 then no_status else yes_status)
  unfolding describe_packages
  status-describe_packages total (none, fails) = refl
  status-describe_packages total (some c, fails) = refl

  status-describe_with_cond :
      (l : List NodeCond)
      → given_status (describe_with_cond m l)
        ≡ (if is_empty l then none else some (if any failing l then no_status else yes_status))
  unfolding describe_with_cond
  status-describe_with_cond [] = refl
  status-describe_with_cond (c ∷ l) = ap some (
      status-describe_packages (length (c ∷ l)) (first_failure m none 0 (c ∷ l))
      ∙ ap (λ b. if b then no_status else yes_status) (is_some-first_failure none 0 (c ∷ l)))

  any-nodes_with_packages :
      (ns : List Node)
      → (any failing (nodes_with_packages m ns)
          ≡ any (λ n. says_no (status_of m n.conditions condition_packages_ready)) ns)
        × (is_empty (nodes_with_packages m ns)
            ≡ not (any (λ n. is_some (status_of m n.conditions condition_packages_ready)) ns))
  unfolding nodes_with_packages status_of
  any-nodes_with_packages [] = (refl, refl)
  any-nodes_with_packages (n ∷ ns) = (
    ground (arith, (any-nodes_with_packages ns).0),
    ground (arith, (any-nodes_with_packages ns).1),
  )

  -- The status that the nodes together give to PackagesReady.
  abbrev pub together : List Node → Option ConditionStatus
  together ns =
      if not (any (λ n. is_some (status_of m n.conditions condition_packages_ready)) ns)
      then none
      else some (
          if any (λ n. says_no (status_of m n.conditions condition_packages_ready)) ns
          then no_status
          else yes_status)

  status-aggregate_packages_ready :
      (ns : List Node) → given_status (aggregate_packages_ready m ns) ≡ together ns
  unfolding aggregate_packages_ready
  status-aggregate_packages_ready ns =
      let l = nodes_with_packages m ns in
      let d = sort_by-perm (less_by (λ (c : NodeCond). c.name)) l in
      let (fails, empty) = any-nodes_with_packages ns in
      status-describe_with_cond (sort_by (less_by (λ c. c.name)) l)
      ∙ cc (any-perm failing d, is_empty-perm d, fails, empty)

  -- A cluster has PackagesReady exactly when some of its nodes has; then it is False if it is False on
  -- some node, and True otherwise.
  pub compute_cluster_conditions_packages :
      (ns : List Node) (g : ℕ)
      → status_of m (compute_cluster_conditions m ns g) condition_packages_ready ≡ together ns
  unfolding compute_cluster_conditions
  compute_cluster_conditions_packages [] g = (no_nodes_statuses m g).4
  compute_cluster_conditions_packages (n ∷ ns) g =
      let (ready, available, admins) = survey m true true 0 (n ∷ ns) in
      (from_survey_statuses m (n ∷ ns) ready available admins g).4
      ∙ given (aggregate_packages_ready m (n ∷ ns))
      ∙ status-aggregate_packages_ready (n ∷ ns)

  -- The condition that the overlay writes.
  abbrev pub not_ready : ℕ → Condition
  not_ready g = record {
    type = condition_ready;
    status = no_status;
    reason = reason_packages_not_ready;
    message = "package fetch not ready; see PackagesReady condition";
    observed_generation = g;
  }

  find-overlay :
      (o : Option Condition) (cs : List Condition) (g : ℕ) (u : String)
      → find_status_condition (overlay m o cs g) u ≡ (
          if says_no (elim o [ none ↦ none | some c ↦ some c.status ]) && condition_ready == u
          then some (not_ready g)
          else find_status_condition cs u)
  unfolding overlay set_condition
  find-overlay none cs g u = ground arith
  find-overlay (some c) cs g u = elim (Bool-cases (is_false c.status)) [
    | inr e ↦ rw e refl
    | inl e ↦ rw e (m.find-set cs (not_ready g) u)
  ]

  -- Where PackagesReady is there and False, the overlay of a node puts a Ready that is False, with its
  -- reason and message; the conditions of all other types are found as they were, and all of them
  -- otherwise.
  pub find-apply_ready_overlay :
      (cs : List Condition) (g : ℕ) (u : String)
      → find_status_condition (apply_ready_overlay m cs g) u ≡ (
          if says_no (status_of m cs condition_packages_ready) && condition_ready == u
          then some (not_ready g)
          else find_status_condition cs u)
  unfolding apply_ready_overlay
  find-apply_ready_overlay cs g u =
      find-overlay (find_status_condition cs condition_packages_ready) cs g u
      ∙ (unfold status_of in refl)
