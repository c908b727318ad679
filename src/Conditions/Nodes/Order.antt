-- ===== src/Conditions/Nodes/Order.antt =====
-- The API server lists nodes in no particular order: what computeClusterConditions returns does not
-- depend on it (the sorts of aggregateNodeDegraded and aggregatePackagesReady).
use curity_operator.Prelude.{
  ℕ, suc, ◌+◌, String, ◌≡◌, refl, ap, ◌∙◌, Bool, true, false, Option, none, some, List, [], ◌∷◌,
  Permᴰ, arith, if◌then◌else◌, all, sort_by, sort_by_of_perm, less_by, less_by-IsStrictOrder,
  DistinctBy, Distinct-of_DistinctBy, length-perm, all-perm, count_if, count_if-perm, collect-perm,
  DistinctBy-collect,
}
use curity_operator.Api.{
  is_admin, condition_available, condition_packages_ready, condition_ready, condition_degraded,
  Condition, ApiMeta, Node,
}
use curity_operator.Conditions.Nodes.{
  cluster_degraded, compute_cluster_conditions, from_survey, aggregate_packages_ready,
  aggregate_node_degraded, nodes_with_packages, node_holds, named_cond, failing_cond, NodeCond,
  degraded_nodes, survey,
}

module _ (m : ApiMeta) where
  open m use {find_status_condition}

  pub survey-eq :
      (r a : Bool) (k : ℕ) (ns : List Node)
      → survey m r a k ns ≡ (
        (if all (node_holds m condition_ready) ns then r else false),
        (if all (node_holds m condition_available) ns then a else false),
        k + count_if (λ n. is_admin n.node_type) ns,
      )
  unfolding survey
  survey-eq r a k [] = ground arith
  survey-eq r a k (n ∷ ns) = ground (
    arith,
    survey-eq (if node_holds m condition_ready n then r else false)
        (if node_holds m condition_available n then a else false)
        (if is_admin n.node_type then suc k else k) ns,
  )

  failing_cond-name :
      (name : String) (o : Option Condition) (c : NodeCond)
      → failing_cond m name o ≡ some c
      → c.name ≡ name
  failing_cond-name name none c h = cc
  failing_cond-name name (some x) c h = ground arith

  named_cond-name :
      (name : String) (o : Option Condition) (c : NodeCond)
      → named_cond m name o ≡ some c
      → c.name ≡ name
  named_cond-name name none c h = cc
  named_cond-name name (some x) c h = cc

  abbrev pub DistinctNames : List Node → Type 0
  DistinctNames = DistinctBy (λ n. n.name)

  sorted_degraded :
      {ns ns' : List Node}
      → Permᴰ ns ns'
      → DistinctNames ns
      → sort_by (less_by (λ c. c.name)) (degraded_nodes m ns)
        ≡ sort_by (less_by (λ c. c.name)) (degraded_nodes m ns')
  unfolding degraded_nodes
  sorted_degraded {ns} d h =
      sort_by_of_perm _ (less_by-IsStrictOrder (λ c. c.name)) (collect-perm _ d) (
        Distinct-of_DistinctBy (λ c. c.name) _
          (DistinctBy-collect _ (λ n. n.name) (λ c. c.name)
            (λ n c.
              failing_cond-name n.name (find_status_condition n.conditions condition_degraded) c)
            ns h))

  sorted_with_packages :
      {ns ns' : List Node}
      → Permᴰ ns ns'
      → DistinctNames ns
      → sort_by (less_by (λ c. c.name)) (nodes_with_packages m ns)
        ≡ sort_by (less_by (λ c. c.name)) (nodes_with_packages m ns')
  unfolding nodes_with_packages
  sorted_with_packages {ns} d h =
      sort_by_of_perm _ (less_by-IsStrictOrder (λ c. c.name)) (collect-perm _ d) (
        Distinct-of_DistinctBy (λ c. c.name) _
          (DistinctBy-collect _ (λ n. n.name) (λ c. c.name)
            (λ n c.
              named_cond-name n.name (find_status_condition n.conditions condition_packages_ready)
                c)
            ns h))

  aggregate_node_degraded_of_perm :
      {ns ns' : List Node}
      → Permᴰ ns ns'
      → DistinctNames ns
      → aggregate_node_degraded m ns ≡ aggregate_node_degraded m ns'
  unfolding aggregate_node_degraded
  aggregate_node_degraded_of_perm d h = cc (length-perm d, sorted_degraded d h)

  aggregate_packages_ready_of_perm :
      {ns ns' : List Node}
      → Permᴰ ns ns'
      → DistinctNames ns
      → aggregate_packages_ready m ns ≡ aggregate_packages_ready m ns'
  unfolding aggregate_packages_ready
  aggregate_packages_ready_of_perm d h = cc (sorted_with_packages d h)

  survey_of_perm :
      {ns ns' : List Node} → Permᴰ ns ns' → survey m true true 0 ns ≡ survey m true true 0 ns'
  survey_of_perm {ns} {ns'} d = cc (
    survey-eq true true 0 ns,
    survey-eq true true 0 ns',
    all-perm (node_holds m condition_ready) d,
    all-perm (node_holds m condition_available) d,
    count_if-perm (λ n. is_admin n.node_type) d,
  )

  from_survey_of_perm :
      {ns ns' : List Node} (v : Bool × Bool × ℕ) (g : ℕ)
      → Permᴰ ns ns'
      → DistinctNames ns
      → from_survey m ns v g ≡ from_survey m ns' v g
  unfolding from_survey cluster_degraded
  from_survey_of_perm v g d h =
      cc (aggregate_node_degraded_of_perm d h, aggregate_packages_ready_of_perm d h)

  -- The conditions of a cluster do not depend on the order in which its nodes are listed, as long
  -- as the nodes have different names.
  pub compute_cluster_conditions_of_perm :
      (ns ns' : List Node) (g : ℕ)
      → Permᴰ ns ns'
      → DistinctNames ns
      → compute_cluster_conditions m ns g ≡ compute_cluster_conditions m ns' g
  unfolding compute_cluster_conditions
  compute_cluster_conditions_of_perm [] [] g d h = refl
  compute_cluster_conditions_of_perm [] (n ∷ ns') g d h = absurd (omega (arith, length-perm d))
  compute_cluster_conditions_of_perm (n ∷ ns) [] g d h = absurd (omega (arith, length-perm d))
  compute_cluster_conditions_of_perm (n ∷ ns) (n' ∷ ns') g d h =
      ap (λ v. from_survey m (n ∷ ns) v g) (survey_of_perm d)
      ∙ from_survey_of_perm (survey m true true 0 (n' ∷ ns')) g d h
