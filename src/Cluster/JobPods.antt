-- ===== src/Cluster/JobPods.antt =====
-- identityservercluster_reconciler.go: what the pods of the genclust Job say of why it does not succeed.
pub mod Order
use curity_operator.Prelude.{
  winner_from, String, ◌⊎◌, inl, inr, Bool, not, ◌&&◌, ◌||◌, Option, none, some, List, [], ◌∷◌,
  ◌==◌, ltb, nat_eq, if◌then◌else◌, is_some, any, is_empty, sprint, str_ltb,
}
use curity_operator.Prelude.Int.{eq_ℤ, pos}
use curity_operator.Kube.{Pod, PodCondition, ContainerStatus, Waiting}
use curity_operator.Api.{is_false, Condition, ConditionStatus, no_status}
use curity_operator.Messages.{summarize_termination_message}
use curity_operator.Permanent.{truncate_replica_failure_message}
use curity_operator.Database.{JobEvent}
use curity_operator.Database.Pods.{latest_job_failed_create_message}

-- The result with set=true.
pub record JobPodAdmission : Type 0 where
  pub status : ConditionStatus
  pub reason : String
  pub message : String

abbrev job_failing : String → String → String → Option JobPodAdmission
job_failing reason what message =
    some (record { status = no_status; reason = reason; message = sprint (what ∷ message ∷ []) })

-- The first case of the switch, or the second.
abbrev pub sooner : Pod → Pod → Bool
sooner p winner =
    ltb winner.creation_timestamp p.creation_timestamp
    || (nat_eq p.creation_timestamp winner.creation_timestamp && str_ltb p.name winner.name)

unfoldable pub most_recent_cluster_config_pod : List Pod → Option Pod
most_recent_cluster_config_pod [] = none
most_recent_cluster_config_pod (p ∷ pods) = some (winner_from sooner p pods)

abbrev pub unscheduled : List PodCondition → Option JobPodAdmission
unscheduled [] = none
unscheduled (c ∷ conditions) =
    let rest = unscheduled conditions in
    if c.type == "PodScheduled" && c.status == "False" && c.reason == "Unschedulable"
    then job_failing "JobPodSchedulingFailed" "genclust Pod cannot be scheduled: "
        (truncate_replica_failure_message c.message)
    else rest

unfoldable pub classify_cluster_config_pod_scheduling : Pod → Option JobPodAdmission
classify_cluster_config_pod_scheduling pod =
    if not (pod.phase == "Pending") then none else unscheduled pod.conditions

abbrev pub waiting_cause_of : Option Waiting → Option JobPodAdmission
waiting_cause_of none = none
waiting_cause_of (some w) =
    if any (λ r. w.reason == r) ("ImagePullBackOff" ∷ "ErrImagePull" ∷ "InvalidImageName" ∷ [])
    then job_failing "JobPodImagePullFailed" "genclust image pull failed: "
        (truncate_replica_failure_message w.message)
    else if w.reason == "CreateContainerConfigError"
    then job_failing "JobPodCreateConfigError" "genclust container config error: "
        (truncate_replica_failure_message w.message)
    else none

-- The first container named genclust decides.
abbrev pub genclust_waiting : List ContainerStatus → Option JobPodAdmission
genclust_waiting [] = none
genclust_waiting (cs ∷ statuses) =
    let rest = genclust_waiting statuses in
    if not (cs.name == "genclust") then rest else waiting_cause_of cs.state.waiting

unfoldable pub classify_genclust_container_status : Pod → Option JobPodAdmission
classify_genclust_container_status pod = genclust_waiting pod.container_statuses

abbrev first_set : Option JobPodAdmission → Option JobPodAdmission → Option JobPodAdmission
first_set none later = later
first_set (some a) later = some a

abbrev pub classify_current : Option Pod → Option JobPodAdmission
classify_current none = none
classify_current (some pod) =
    if is_some pod.deletion_timestamp
    then none
    else first_set (classify_cluster_config_pod_scheduling pod)
        (classify_genclust_container_status pod)

unfoldable pub translate_job_pod_admission : List Pod → String → Option JobPodAdmission
translate_job_pod_admission pods failed_create_msg =
    if is_empty pods
    then if not (failed_create_msg == "")
      then job_failing "JobPodAdmissionFailed" "genclust pod admission failed: " failed_create_msg
      else none
    else classify_current (most_recent_cluster_config_pod pods)

abbrev or_reason : String → String → String
or_reason summary reason = if not (summary == "") then summary else reason

abbrev pub genclust_exit : List ContainerStatus → String
genclust_exit [] = ""
genclust_exit (cs ∷ statuses) =
    let rest = genclust_exit statuses in
    if not (cs.name == "genclust") then rest else elim cs.state.terminated [
      | none ↦ rest
      | some t ↦
          if eq_ℤ t.exit_code (pos 0)
          then rest
          else or_reason (summarize_termination_message t.message) t.reason
    ]

abbrev pub pod_exit : Option Pod → String
pod_exit none = ""
pod_exit (some pod) = genclust_exit pod.container_statuses

unfoldable pub extract_genclust_failure_message : List Pod → String
extract_genclust_failure_message pods = pod_exit (most_recent_cluster_config_pod pods)

-- The message that the condition already has, if it says JobFailed.
abbrev pub captured : Option Condition → String
captured none = ""
captured (some c) = if is_false c.status && c.reason == "JobFailed" then c.message else ""

unfoldable pub choose_job_failed_message : String → Option Condition → String → String
choose_job_failed_message pod_cause existing job_cond_message =
    if not (pod_cause == "")
    then sprint ("genclust failed: " ∷ pod_cause ∷ [])
    else if not (captured existing == "")
    then captured existing
    else sprint ("genclust Job failed: " ∷ job_cond_message ∷ [])

-- latestJobFailedCreateMessage of this file, where an error of the List is "".
unfoldable pub cluster_job_failed_create_message : String → String ⊎ List JobEvent → String
cluster_job_failed_create_message uid (inl error) = ""
cluster_job_failed_create_message uid (inr events) =
    truncate_replica_failure_message (latest_job_failed_create_message uid events)
