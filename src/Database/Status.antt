-- ===== src/Database/Status.antt =====
-- identityserverdatabase_reconciler.go: how the outcome of the Job shows in the status
-- (clearPriorOutcome, applyJobStatus, surfacePodStartFailure), with jobCompletionTime of
-- identityservercluster_reconciler.go.
pub mod Phase
use curity_operator.Prelude.{
  ℕ, ◌-◌, String, ◌⊎◌, inl, inr, Bool, true, false, not, ◌&&◌, Option, none, some, List, [], ◌∷◌,
  ◌==◌, if◌then◌else◌, select, is_empty, sprint, quote,
}
use curity_operator.Kube.{Pod, Job, JobCondition, value_of}
use curity_operator.Api.{
  ApiMeta, Condition, ConditionStatus, yes_status, no_status, condition_ready,
  condition_progressing,
}
use curity_operator.Conditions.Set.{set_condition}
use curity_operator.Messages.{truncate_message}
use curity_operator.Database.{
  DatabaseStatus, StoredJob, JobEvent, condition_complete, condition_failed, reason_job_complete,
  reason_job_failed, reason_job_running, reason_job_pod_not_starting,
}
use curity_operator.Database.Pods.{translate_database_init_pod, latest_job_failed_create_message}

abbrev pub job_hash_annotation : String
job_hash_annotation = "curity.io/database-job-hash"

abbrev pub job_complete_time : List JobCondition → Option ℕ
job_complete_time [] = none
job_complete_time (c ∷ conditions) =
    let rest = job_complete_time conditions in
    if c.type == "Complete" && c.status == "True" then some c.last_transition_time else rest

unfoldable pub job_completion_time : Job → Option ℕ
job_completion_time job = job_complete_time job.conditions

abbrev pub failure_text : JobCondition → String
failure_text c =
    if not (c.message == "")
    then sprint ("database-init Job failed: " ∷ c.message ∷ " (" ∷ c.reason ∷ ")" ∷ [])
    else sprint ("database-init Job failed: " ∷ c.reason ∷ [])

abbrev pub failed_condition : List JobCondition → Option String
failed_condition [] = none
failed_condition (c ∷ conditions) =
    let rest = failed_condition conditions in
    if c.type == "Failed" && c.status == "True" then some (failure_text c) else rest

-- `none` where the Job has not failed.
unfoldable pub job_failure_message : Job → Option String
job_failure_message job = failed_condition job.conditions

abbrev pub with_conditions : DatabaseStatus → List Condition → DatabaseStatus
with_conditions s conditions = record {
  conditions = conditions;
  observed_generation = s.observed_generation;
  job_name = s.job_name;
  observed_image = s.observed_image;
  last_completed_hash = s.last_completed_hash;
  completion_time = s.completion_time;
}

-- A type, status, reason and message.
abbrev pub Setting : Type 0
Setting = String × ConditionStatus × String × String

module _ (m : ApiMeta) where
  abbrev pub set_all : List Condition → List Setting → ℕ → List Condition
  set_all conditions [] gen = conditions
  set_all conditions (s ∷ settings) gen =
      set_all (set_condition m conditions s.0 s.1 s.2 s.3 gen) settings gen

  unfoldable pub clear_prior_outcome : DatabaseStatus → DatabaseStatus
  clear_prior_outcome s = record {
    conditions =
        m.remove_status_condition (m.remove_status_condition s.conditions condition_complete)
          condition_failed;
    observed_generation = s.observed_generation;
    job_name = s.job_name;
    observed_image = s.observed_image;
    last_completed_hash = s.last_completed_hash;
    completion_time = none;
  }

  abbrev initialized : String
  initialized = "database schema initialized successfully"

  abbrev pub complete_settings : List Setting
  complete_settings =
      (condition_complete, yes_status, reason_job_complete, initialized)
      ∷ (condition_ready, yes_status, reason_job_complete, initialized)
      ∷ (condition_progressing, no_status, reason_job_complete, "Job complete")
      ∷ (condition_failed, no_status, reason_job_complete, "Job complete")
      ∷ []

  abbrev pub failed_settings : String → List Setting
  failed_settings msg =
      (condition_failed, yes_status, reason_job_failed, msg)
      ∷ (condition_ready, no_status, reason_job_failed, msg)
      ∷ (condition_progressing, no_status, reason_job_failed, "Job failed")
      ∷ []

  abbrev pub running_settings : List Setting
  running_settings =
      (condition_progressing, yes_status, reason_job_running, "database-init Job is running")
      ∷ (condition_ready, no_status, reason_job_running, "database-init Job has not completed")
      ∷ []

  abbrev pub completed : DatabaseStatus → StoredJob → ℕ → ℕ → DatabaseStatus
  completed s job gen time = record {
    conditions = set_all s.conditions complete_settings gen;
    observed_generation = s.observed_generation;
    job_name = s.job_name;
    observed_image = s.observed_image;
    last_completed_hash = value_of job_hash_annotation job.annotations;
    completion_time = some time;
  }

  -- The status, and whether the Job is still running.
  unfoldable pub apply_job_status : DatabaseStatus → StoredJob → ℕ → DatabaseStatus × Bool
  apply_job_status s job gen = elim (job_completion_time job.job) [
    | some time ↦ (completed s job gen time, false)
    | none ↦ elim (job_failure_message job.job) [
      | some msg ↦ (with_conditions s (set_all s.conditions (failed_settings msg) gen), false)
      | none ↦ (with_conditions s (set_all s.conditions running_settings gen), true)
    ]
  ]

  abbrev denial : String → Option String
  denial ev_msg =
      if ev_msg == ""
      then none
      else some (truncate_message (sprint ("pod cannot be created: " ∷ ev_msg ∷ [])) 256)

  -- The cause that is shown, if any, or an error of a List.
  unfoldable pub start_failure :
      (Pod → StoredJob → Bool)
      → StoredJob
      → String ⊎ List Pod
      → String ⊎ List JobEvent
      → String ⊎ Option String
  start_failure is_controlled_by job (inl error) events =
      inl (sprint ("failed to list database-init pods: " ∷ error ∷ []))
  start_failure is_controlled_by job (inr pods) events =
      let owned = select (λ p. is_controlled_by p job) pods in
      elim (translate_database_init_pod owned) [
        | some msg ↦ inr (some msg)
        | none ↦ if not (is_empty owned) then inr none else elim events [
          | inl error ↦ inl (
              sprint
                ("failed to list FailedCreate events for Job " ∷ quote job.uid ∷ ": " ∷ error ∷ []))
          | inr evs ↦ inr (denial (latest_job_failed_create_message job.uid evs))
        ]
      ]

  abbrev pub not_starting : DatabaseStatus → String → ℕ → DatabaseStatus
  not_starting s msg gen = with_conditions s (
      set_all s.conditions
        ((condition_ready, no_status, reason_job_pod_not_starting, msg)
          ∷ (condition_progressing, yes_status, reason_job_pod_not_starting, msg)
          ∷ [])
        gen)

  abbrev pub shown : DatabaseStatus → ℕ → Option String → DatabaseStatus
  shown s gen none = s
  shown s gen (some msg) = not_starting s msg gen
