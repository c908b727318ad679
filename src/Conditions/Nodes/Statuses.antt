-- ===== src/Conditions/Nodes/Statuses.antt =====
-- The status that each step of computeClusterConditions leaves, one condition type at a time.
use curity_operator.Prelude.{
  ℕ, String, ◌≡◌, refl, ◌↔◌, Bool, true, false, ◌&&◌, Option, none, some, List, [], ◌∷◌, arith,
  ◌==◌, ltb, if◌then◌else◌, is_some, all, All,
}
use curity_operator.Api.{
  condition_packages_ready, condition_degraded, condition_progressing, condition_available,
  condition_ready, no_status, Condition, yes_status, ConditionStatus, ApiMeta, Node,
}
use curity_operator.Conditions.Nodes.{
  aggregate_packages_ready, from_survey, aggregate_node_degraded, forwarded_degraded,
  cluster_packages, cluster_degraded, Aggregate, cluster_progressing, cluster_available,
  cluster_ready, node_holds,
}
use curity_operator.Conditions.Set.{status_of-set_condition, status_of-nil, status_of}

-- No aggregate leaves the condition False.
abbrev pub aggregate_status : Option Aggregate → ConditionStatus
aggregate_status none = no_status
aggregate_status (some a) = a.status

module _ (m : ApiMeta) where
  open m use {find_status_condition}

  -- The node has the condition with this status.
  abbrev pub NodeIs : String → ConditionStatus → Node → Type 0
  NodeIs t s n = status_of m n.conditions t ≡ some s

  pub node_holds_iff : (t : String) (n : Node) → (node_holds m t n ≡ true) ↔ NodeIs t yes_status n
  unfolding status_of
  node_holds_iff t n = ground arith

  pub all_iff :
      (t : String) (ns : List Node)
      → (all (node_holds m t) ns ≡ true) ↔ All (NodeIs t yes_status) ns
  all_iff t [] = (λ _. tt, λ _. refl)
  all_iff t (n ∷ ns) =
      let (there, back) = all_iff t ns in
      let (now, ago) = node_holds_iff t n in
      (λ h. (now (ground arith), there (ground arith)), λ h. ground (arith, ago h.0, back h.1))

  status_of-ready :
      (cs : List Condition) (b : Bool) (g : ℕ) (t : String)
      → status_of m (cluster_ready m cs b g) t ≡ (
          if condition_ready == t
          then some (if b then yes_status else no_status)
          else status_of m cs t)
  unfolding cluster_ready
  status_of-ready cs true g t = simp status_of-set_condition
  status_of-ready cs false g t = simp status_of-set_condition

  status_of-available :
      (cs : List Condition) (b : Bool) (g : ℕ) (t : String)
      → status_of m (cluster_available m cs b g) t ≡ (
          if condition_available == t
          then some (if b then yes_status else no_status)
          else status_of m cs t)
  unfolding cluster_available
  status_of-available cs true g t = simp status_of-set_condition
  status_of-available cs false g t = simp status_of-set_condition

  status_of-progressing :
      (cs : List Condition) (b : Bool) (g : ℕ) (t : String)
      → status_of m (cluster_progressing m cs b g) t ≡ (
          if condition_progressing == t
          then some (if b then no_status else yes_status)
          else status_of m cs t)
  unfolding cluster_progressing
  status_of-progressing cs true g t = simp status_of-set_condition
  status_of-progressing cs false g t = simp status_of-set_condition

  status_of-degraded :
      (cs : List Condition) (k : ℕ) (ns : List Node) (g : ℕ) (t : String)
      → status_of m (cluster_degraded m cs k ns g) t ≡ (
          if condition_degraded == t
          then some
              (if ltb 1 k then yes_status else aggregate_status (aggregate_node_degraded m ns))
          else status_of m cs t)
  unfolding cluster_degraded forwarded_degraded
  status_of-degraded cs k ns g t = grind (arith, status_of-set_condition)

  status_of-packages :
      (cs : List Condition) (o : Option Aggregate) (g : ℕ) (t : String)
      → status_of m (cluster_packages m cs o g) t ≡ (
          if condition_packages_ready == t && is_some o
          then some (aggregate_status o)
          else status_of m cs t)
  unfolding cluster_packages
  status_of-packages cs none g t = ground arith
  status_of-packages cs (some a) g t = grind (arith, status_of-set_condition)

  ruleset setters = (
    status_of-ready, status_of-available, status_of-progressing, status_of-degraded,
    status_of-packages, status_of-nil,
  )

  -- The statuses that computeClusterConditions leaves when the survey of the nodes is known.
  pub from_survey_statuses :
      (ns : List Node) (r a : Bool) (k g : ℕ)
      → let cs = from_survey m ns (r, a, k) g in
        (status_of m cs condition_ready ≡ some (if r then yes_status else no_status))
        × (status_of m cs condition_available ≡ some (if a then yes_status else no_status))
        × (status_of m cs condition_progressing ≡ some (if r then no_status else yes_status))
        × (status_of m cs condition_degraded
            ≡ some
                (if ltb 1 k then yes_status else aggregate_status (aggregate_node_degraded m ns)))
        × (status_of m cs condition_packages_ready ≡ (
            if is_some (aggregate_packages_ready m ns)
            then some (aggregate_status (aggregate_packages_ready m ns))
            else none))
  unfolding from_survey
  from_survey_statuses ns r a k g =
      (simp setters, simp setters, simp setters, simp setters, simp setters)
