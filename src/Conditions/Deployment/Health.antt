-- ===== src/Conditions/Deployment/Health.antt =====
-- What the conditions that computeNodeConditions returns say of the Deployment.
use curity_operator.Prelude.{
  refl, ◌⊎◌, Option, none, ◌↔◌, ◌||◌, ℕ, String, ◌≡◌, Bool, some, List, ◌&&◌, if◌then◌else◌, arith,
  ◌==◌,
}
use curity_operator.Prelude.Int.{◌<ℤ◌, ◌≤ℤ◌, ℤ, pos, ltb_ℤ, leb_ℤ}
use curity_operator.Api.{
  condition_degraded, condition_progressing, condition_available, ApiMeta, Condition,
  ConditionStatus, yes_status, no_status, condition_ready,
}
use curity_operator.Conditions.Set.{status_of-nil, status_of, status_of-set_condition}
use curity_operator.Conditions.Deployment.{
  desired_replicas, compute_node_conditions, deployment_degraded, deployment_progressing,
  deployment_available, Deployment, deployment_ready,
}

abbrev when : Bool → ConditionStatus
when b = if b then yes_status else no_status

module _ (m : ApiMeta) where
  open m use {find-set, find-nil}

  status_of-ready :
      (cs : List Condition) (d : Deployment) (desired : ℤ) (g : ℕ) (t : String)
      → status_of m (deployment_ready m cs d desired g) t ≡ (
          if condition_ready == t
          then some (when (leb_ℤ desired d.ready_replicas && ltb_ℤ (pos 0) desired))
          else status_of m cs t)
  unfolding deployment_ready
  status_of-ready cs d desired g t = grind (arith, status_of-set_condition)

  status_of-available :
      (cs : List Condition) (d : Deployment) (desired : ℤ) (g : ℕ) (t : String)
      → status_of m (deployment_available m cs d desired g) t ≡ (
          if condition_available == t
          then some (when (leb_ℤ desired d.available_replicas && ltb_ℤ (pos 0) desired))
          else status_of m cs t)
  unfolding deployment_available
  status_of-available cs d desired g t = grind (arith, status_of-set_condition)

  status_of-progressing :
      (cs : List Condition) (d : Deployment) (desired : ℤ) (g : ℕ) (t : String)
      → status_of m (deployment_progressing m cs d desired g) t ≡ (
          if condition_progressing == t
          then some
              (when (ltb_ℤ d.updated_replicas desired || ltb_ℤ (pos 0) d.unavailable_replicas))
          else status_of m cs t)
  unfolding deployment_progressing
  status_of-progressing cs d desired g t = grind (arith, status_of-set_condition)

  status_of-degraded :
      (cs : List Condition) (d : Deployment) (desired : ℤ) (g : ℕ) (t : String)
      → status_of m (deployment_degraded m cs d desired g) t ≡ (
          if condition_degraded == t
          then some (when (ltb_ℤ d.ready_replicas desired && ltb_ℤ (pos 0) d.available_replicas))
          else status_of m cs t)
  unfolding deployment_degraded
  status_of-degraded cs d desired g t = grind (arith, status_of-set_condition)

  ruleset setters = (
    status_of-ready, status_of-available, status_of-progressing, status_of-degraded, status_of-nil,
  )

  -- The status of each of the four conditions, as the code tests the counts.
  node_statuses :
      (d : Deployment) (g : ℕ)
      → let cs = (compute_node_conditions m (some d) g).0 in
        let want = desired_replicas d.replicas in
        (status_of m cs condition_ready
          ≡ some (when (leb_ℤ want d.ready_replicas && ltb_ℤ (pos 0) want)))
        × (status_of m cs condition_available
            ≡ some (when (leb_ℤ want d.available_replicas && ltb_ℤ (pos 0) want)))
        × (status_of m cs condition_progressing
            ≡ some (when (ltb_ℤ d.updated_replicas want || ltb_ℤ (pos 0) d.unavailable_replicas)))
        × (status_of m cs condition_degraded
            ≡ some (when (ltb_ℤ d.ready_replicas want && ltb_ℤ (pos 0) d.available_replicas)))
  unfolding compute_node_conditions
  node_statuses d g = (simp setters, simp setters, simp setters, simp setters)

  -- The four conditions of a node with a Deployment, against its counts: Ready and Available hold
  -- exactly when at least the desired number of replicas, itself not zero, is ready or available;
  -- Progressing exactly when an update is not complete or a replica is unavailable; Degraded
  -- exactly when too few replicas are ready and some are available.
  pub compute_node_conditions_health :
      (d : Deployment) (g : ℕ)
      → let cs = (compute_node_conditions m (some d) g).0 in
        let want = desired_replicas d.replicas in
        ((status_of m cs condition_ready ≡ some yes_status)
          ↔ ((want ≤ℤ d.ready_replicas) × (pos 0 <ℤ want)))
        × ((status_of m cs condition_available ≡ some yes_status)
            ↔ ((want ≤ℤ d.available_replicas) × (pos 0 <ℤ want)))
        × ((status_of m cs condition_progressing ≡ some yes_status)
            ↔ ((d.updated_replicas <ℤ want) ⊎ (pos 0 <ℤ d.unavailable_replicas)))
        × ((status_of m cs condition_degraded ≡ some yes_status)
            ↔ ((d.ready_replicas <ℤ want) × (pos 0 <ℤ d.available_replicas)))
  compute_node_conditions_health d g = (
    ground (arith, node_statuses d g),
    ground (arith, node_statuses d g),
    ground (arith, node_statuses d g),
    ground (arith, node_statuses d g),
  )

  no_deployment_statuses :
      (g : ℕ)
      → let cs = (compute_node_conditions m none g).0 in
        (status_of m cs condition_ready ≡ some no_status)
        × (status_of m cs condition_available ≡ some no_status)
        × (status_of m cs condition_progressing ≡ some yes_status)
        × (status_of m cs condition_degraded ≡ some no_status)
  unfolding compute_node_conditions
  no_deployment_statuses g = (
    simp status_of-set_condition,
    simp status_of-set_condition,
    simp status_of-set_condition,
    simp status_of-set_condition,
  )

  replicas-eq-desired :
      (d : Deployment) (g : ℕ)
      → (compute_node_conditions m (some d) g).1.replicas ≡ desired_replicas d.replicas
  unfolding compute_node_conditions
  replicas-eq-desired d g = refl

  -- A node that is Ready is not Degraded, and the replica count reported for it is not zero.
  pub ready-excludes-degraded :
      (o : Option Deployment) (g : ℕ)
      → status_of m (compute_node_conditions m o g).0 condition_ready ≡ some yes_status
      → (status_of m (compute_node_conditions m o g).0 condition_degraded ≡ some no_status)
        × (pos 0 <ℤ (compute_node_conditions m o g).1.replicas)
  ready-excludes-degraded none g h = ground (arith, no_deployment_statuses g)
  ready-excludes-degraded (some d) g h = ground (arith, node_statuses d g, replicas-eq-desired d g)
