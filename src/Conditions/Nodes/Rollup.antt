-- ===== src/Conditions/Nodes/Rollup.antt =====
-- What the conditions of a cluster (computeClusterConditions) say of its nodes.
use curity_operator.Prelude.{
  ℕ, ◌≤◌, String, ◌≡◌, refl, ap, ◌≢◌, ◌↔◌, ◌⊎◌, inl, inr, Bool, true, false, not, Option, none,
  some, List, [], ◌∷◌, arith, ltb, if◌then◌else◌, Bool-cases, is_some, all, All, count_if,
}
use curity_operator.Api.{
  ConditionStatus, is_admin, condition_packages_ready, condition_degraded, yes_status,
  condition_progressing, condition_available, no_status, condition_ready, ApiMeta, Node,
}
use curity_operator.Conditions.Nodes.{
  aggregate_packages_ready, aggregate_node_degraded, from_survey, node_holds,
  compute_cluster_conditions, survey,
}
use curity_operator.Conditions.Nodes.First.{
  aggregate_node_degraded-status, aggregate_node_degraded-is_some,
}
use curity_operator.Conditions.Nodes.Order.{survey-eq}
use curity_operator.Conditions.Nodes.Statuses.{
  node_holds_iff, from_survey_statuses, all_iff, aggregate_status, NodeIs,
}
use curity_operator.Conditions.Set.{status_of-nil, status_of-set_condition, status_of}

module _ (m : ApiMeta) where
  open m use {find_status_condition}

  pub no_nodes_statuses :
      (g : ℕ)
      → let cs = compute_cluster_conditions m [] g in
        (status_of m cs condition_ready ≡ some no_status)
        × (status_of m cs condition_available ≡ some no_status)
        × (status_of m cs condition_progressing ≡ some yes_status)
        × (status_of m cs condition_degraded ≡ some no_status)
        × (status_of m cs condition_packages_ready ≡ none)
  unfolding compute_cluster_conditions
  no_nodes_statuses g = (
    simp status_of-set_condition,
    simp status_of-set_condition,
    simp status_of-set_condition,
    simp status_of-set_condition,
    simp (status_of-set_condition, status_of-nil),
  )

  survey-all :
      (ns : List Node)
      → survey m true true 0 ns ≡ (
        all (node_holds m condition_ready) ns,
        all (node_holds m condition_available) ns,
        count_if (λ n. is_admin n.node_type) ns,
      )
  survey-all ns = ground (arith, survey-eq m true true 0 ns)

  -- The conditions of a cluster that has nodes, from tests on the nodes.
  compute-cons :
      (n : Node) (ns : List Node) (g : ℕ)
      → compute_cluster_conditions m (n ∷ ns) g
        ≡ from_survey m
            (n ∷ ns)
            (
              all (node_holds m condition_ready) (n ∷ ns),
              all (node_holds m condition_available) (n ∷ ns),
              count_if (λ n'. is_admin n'.node_type) (n ∷ ns),
            )
            g
  unfolding compute_cluster_conditions
  compute-cons n ns g = ap (λ v. from_survey m (n ∷ ns) v g) (survey-all (n ∷ ns))

  cluster_statuses :
      (n : Node) (ns : List Node) (g : ℕ)
      → let cs = compute_cluster_conditions m (n ∷ ns) g in
        let r = all (node_holds m condition_ready) (n ∷ ns) in
        let a = all (node_holds m condition_available) (n ∷ ns) in
        let k = count_if (λ n'. is_admin n'.node_type) (n ∷ ns) in
        (status_of m cs condition_ready ≡ some (if r then yes_status else no_status))
        × (status_of m cs condition_available ≡ some (if a then yes_status else no_status))
        × (status_of m cs condition_progressing ≡ some (if r then no_status else yes_status))
        × (status_of m cs condition_degraded
            ≡ some (
                if ltb 1 k
                then yes_status
                else aggregate_status (aggregate_node_degraded m (n ∷ ns))))
        × (status_of m cs condition_packages_ready ≡ (
            if is_some (aggregate_packages_ready m (n ∷ ns))
            then some (aggregate_status (aggregate_packages_ready m (n ∷ ns)))
            else none))
  cluster_statuses n ns g = rw compute-cons (from_survey_statuses m (n ∷ ns) _ _ _ g)

  -- A status that a test decides is True exactly when what the test stands for holds.
  status_iff :
      {P : Type 0} {o : Option ConditionStatus} (b : Bool)
      → o ≡ some (if b then yes_status else no_status)
      → (b ≡ true) ↔ P
      → (o ≡ some yes_status) ↔ P
  status_iff true e h = (λ _. h.0 refl, λ _. e)
  status_iff false e h = (λ k. absurd (cc (e, k)), λ p. cc (h.1 p))

  every_iff :
      (t : String) (n : Node) (ns : List Node)
      → (all (node_holds m t) (n ∷ ns) ≡ true)
        ↔ ((n ∷ ns ≢ []) × All (NodeIs m t yes_status) (n ∷ ns))
  every_iff t n ns =
      let (there, back) = all_iff m t (n ∷ ns) in (λ h. ((λ e. cc e), there h), λ h. back h.1)

  -- A cluster is Ready exactly when it has nodes and every one of them is Ready, and so for
  -- Available; it is Progressing exactly when it is not Ready.
  pub compute_cluster_conditions_ready :
      (ns : List Node) (g : ℕ)
      → let cs = compute_cluster_conditions m ns g in
        ((status_of m cs condition_ready ≡ some yes_status)
          ↔ ((ns ≢ []) × All (NodeIs m condition_ready yes_status) ns))
        × ((status_of m cs condition_available ≡ some yes_status)
            ↔ ((ns ≢ []) × All (NodeIs m condition_available yes_status) ns))
        × ((status_of m cs condition_progressing ≡ some yes_status)
            ↔ (status_of m cs condition_ready ≡ some no_status))
  compute_cluster_conditions_ready [] g = (
    (λ h. cc (h, (no_nodes_statuses g).0), λ h. absurd (h.0 refl)),
    (λ h. cc (h, (no_nodes_statuses g).1), λ h. absurd (h.0 refl)),
    (λ _. (no_nodes_statuses g).0, λ _. (no_nodes_statuses g).2),
  )
  compute_cluster_conditions_ready (n ∷ ns) g =
      let s = cluster_statuses n ns g in
      (
        status_iff _ s.0 (every_iff condition_ready n ns),
        status_iff _ s.1 (every_iff condition_available n ns),
        (λ h. ground (arith, s), λ h. ground (arith, s)),
      )

  none_iff :
      (t : String) (ns : List Node)
      → (all (λ n. not (node_holds m t n)) ns ≡ true) ↔ All (λ n. ¬ NodeIs m t yes_status n) ns
  none_iff t [] = (λ _. tt, λ _. refl)
  none_iff t (n ∷ ns) =
      let (there, back) = none_iff t ns in
      let (now, ago) = node_holds_iff m t n in
      (
        λ h. ((λ degraded. ground (arith, ago degraded)), there (ground arith)),
        λ h. elim (Bool-cases (node_holds m t n)) [
          | inl e ↦ absurd (h.0 (now e))
          | inr e ↦ ground (arith, back h.1)
        ],
      )

  -- A cluster is not Degraded exactly when it has at most one admin node and none of its nodes is
  -- Degraded. Otherwise it is Degraded.
  pub compute_cluster_conditions_degraded :
      (ns : List Node) (g : ℕ)
      → let cs = compute_cluster_conditions m ns g in
        ((status_of m cs condition_degraded ≡ some no_status) ↔ (
          (count_if (λ n. is_admin n.node_type) ns ≤ 1)
          × All (λ n. ¬ NodeIs m condition_degraded yes_status n) ns))
        × ((status_of m cs condition_degraded ≡ some no_status)
            ⊎ (status_of m cs condition_degraded ≡ some yes_status))
  compute_cluster_conditions_degraded [] g =
      ((λ _. (omega arith, tt), λ _. (no_nodes_statuses g).3), inl (no_nodes_statuses g).3)
  compute_cluster_conditions_degraded (n ∷ ns) g =
      let s = (cluster_statuses n ns g).3 in
      let (there, back) = none_iff condition_degraded (n ∷ ns) in
      let forwarded = aggregate_node_degraded-status m (n ∷ ns) in
      let found = aggregate_node_degraded-is_some m (n ∷ ns) in
      (
        (
          (λ h. (ground (arith, s), there (ground (arith, s, forwarded, found)))),
          λ h. ground (arith, s, forwarded, found, back h.1),
        ),
        ground (arith, s, forwarded, found),
      )
