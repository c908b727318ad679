-- ===== src/Conditions/Deployment.antt =====
-- computeNodeConditions (conditions.go): the conditions of a node from its Deployment.
pub mod Health
use curity_operator.Prelude.{
  ℕ, String, Option, none, some, List, [], ◌∷◌, ◌&&◌, sprint, itoa, if◌then◌else◌,
}
use curity_operator.Prelude.Int.{ℤ, pos, ltb_ℤ, leb_ℤ}
use curity_operator.Api.{
  ApiMeta, Condition, yes_status, no_status, condition_ready, condition_available,
  condition_progressing, condition_degraded,
}
use curity_operator.Conditions.Set.{set_condition}

-- What the code reads of an appsv1.Deployment; the counts are int32.
pub record Deployment : Type 0 where
  pub replicas : Option ℤ
  pub updated_replicas : ℤ
  pub ready_replicas : ℤ
  pub available_replicas : ℤ
  pub unavailable_replicas : ℤ

pub record NodeReplicaStatus : Type 0 where
  pub replicas : ℤ
  pub updated_replicas : ℤ
  pub ready_replicas : ℤ
  pub available_replicas : ℤ
  pub unavailable_replicas : ℤ

abbrev pub no_replicas : NodeReplicaStatus
no_replicas = record {
  replicas = pos 0;
  updated_replicas = pos 0;
  ready_replicas = pos 0;
  available_replicas = pos 0;
  unavailable_replicas = pos 0;
}

-- `desired`
abbrev pub desired_replicas : Option ℤ → ℤ
desired_replicas none = pos 1
desired_replicas (some n) = n

module _ (m : ApiMeta) where
  deployment_ready : List Condition → Deployment → ℤ → ℕ → List Condition
  deployment_ready cs d desired generation =
      if leb_ℤ desired d.ready_replicas && ltb_ℤ (pos 0) desired
      then set_condition m cs condition_ready yes_status "AllReplicasReady" "All replicas are ready"
          generation
      else set_condition m cs condition_ready no_status "ReplicasNotReady"
          "Not all replicas are ready" generation

  deployment_available : List Condition → Deployment → ℤ → ℕ → List Condition
  deployment_available cs d desired generation =
      if leb_ℤ desired d.available_replicas && ltb_ℤ (pos 0) desired
      then set_condition m cs condition_available yes_status "MinimumReplicasAvailable"
          "Deployment has minimum availability" generation
      else if ltb_ℤ (pos 0) d.available_replicas
      then set_condition m cs condition_available no_status "InsufficientReplicas"
          (sprint (itoa d.available_replicas ∷ "/" ∷ itoa desired ∷ " replicas available" ∷ []))
          generation
      else set_condition m cs condition_available no_status "NoReplicaAvailable"
          "No replicas are available" generation

  deployment_progressing : List Condition → Deployment → ℤ → ℕ → List Condition
  deployment_progressing cs d desired generation =
      if ltb_ℤ d.updated_replicas desired
      then set_condition m cs condition_progressing yes_status "RolloutInProgress"
          "Deployment rollout is in progress" generation
      else if ltb_ℤ (pos 0) d.unavailable_replicas
      then set_condition m cs condition_progressing yes_status "ReplicaUnavailable"
          (sprint (itoa d.unavailable_replicas ∷ " replica(s) unavailable" ∷ [])) generation
      else set_condition m cs condition_progressing no_status "RolloutComplete"
          "Deployment rollout is complete" generation

  deployment_degraded : List Condition → Deployment → ℤ → ℕ → List Condition
  deployment_degraded cs d desired generation =
      if ltb_ℤ d.ready_replicas desired && ltb_ℤ (pos 0) d.available_replicas
      then set_condition m cs condition_degraded yes_status "PartiallyAvailable"
          (sprint (
            "Only "
            ∷ itoa d.ready_replicas
            ∷ "/"
            ∷ itoa desired
            ∷ " replicas ready, but serving traffic"
            ∷ []))
          generation
      else set_condition m cs condition_degraded no_status "NotDegraded"
          "No partial-availability degradation detected" generation

  no_deployment : ℕ → List Condition
  no_deployment generation =
      let reason : String = "DeploymentNotFound" in
      let absent : String = "Deployment does not exist yet" in
      let cs = set_condition m [] condition_ready no_status reason absent generation in
      let cs' = set_condition m cs condition_available no_status reason absent generation in
      let cs'' =
        set_condition m cs' condition_progressing yes_status reason
          "Waiting for Deployment to be created" generation in
      set_condition m cs'' condition_degraded no_status reason absent generation

  unfoldable pub compute_node_conditions :
      Option Deployment → ℕ → List Condition × NodeReplicaStatus
  unfolding no_deployment deployment_ready deployment_available deployment_progressing
      deployment_degraded
  compute_node_conditions none generation = (no_deployment generation, no_replicas)
  compute_node_conditions (some d) generation =
      let desired = desired_replicas d.replicas in
      let cs = deployment_ready [] d desired generation in
      let cs' = deployment_available cs d desired generation in
      let cs'' = deployment_progressing cs' d desired generation in
      (
        deployment_degraded cs'' d desired generation,
        record {
          replicas = desired;
          updated_replicas = d.updated_replicas;
          ready_replicas = d.ready_replicas;
          available_replicas = d.available_replicas;
          unavailable_replicas = d.unavailable_replicas;
        },
      )
