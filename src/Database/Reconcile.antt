-- ===== src/Database/Reconcile.antt =====
-- Reconcile and createJob of identityserverdatabase_reconciler.go, as a function of what the calls answer.
-- The result is what is reported, the status as it was last set, and what was done, in order.
pub mod Tests
pub mod Creates
pub mod Replaces
use Prim.Native.String
use curity_operator.Prelude.{
  ℕ, ◌+◌, ◌-◌, String, ◌⊎◌, inl, inr, Bool, not, ◌&&◌, Option, none, some, List, [], ◌∷◌, ◌++◌,
  ◌==◌, if◌then◌else◌, is_some, sprint, quote,
}
use curity_operator.Kube.{Job, value_of}
use curity_operator.Api.{ApiMeta, yes_status, no_status, condition_ready, condition_progressing}
use curity_operator.Messages.{truncate_message}
use curity_operator.Permanent.{UpdateAnswer, updated, conflict, update_failed}
use curity_operator.Resources.{IdentityServerCluster}
use curity_operator.Resources.Resolve.{build_image}
use curity_operator.Database.{
  IdentityServerDatabase, DatabaseStatus, StoredJob, World, Externals, ClusterAnswer, cluster_found,
  cluster_missing, cluster_failed, JobAnswer, job_found, job_missing, job_failed, deleted,
  delete_failed, admitted, refused, admission_failed, created, already_exists, create_failed,
  reason_job_created, reason_job_running, reason_job_pod_not_starting,
}
use curity_operator.Database.Connection.{
  CheckResult, resolved, unresolved, broken, check_connection_sources,
  compute_connection_secrets_hash,
}
use curity_operator.Database.Status.{
  job_hash_annotation, job_failure_message, clear_prior_outcome, apply_job_status, start_failure,
  set_all, with_conditions, shown, Setting,
}

abbrev pub connection_hash_annotation : String
connection_hash_annotation = "curity.io/connection-secrets-hash"

pub data ReconcileResult : Type 0 where
  done : ReconcileResult
  requeue_now : ReconcileResult
  requeue_after : (seconds : ℕ) → ReconcileResult

-- What a reconciliation does: the hashes are those that it stamps on the Job.
pub data Action : Type 0 where
  create_job : (image hash connection_hash : String) → Action
  delete_job : Action
  record_event : (reason message : String) → Action
  update_status : Action

pub record DatabaseOutcome : Type 0 where
  pub status : DatabaseStatus
  pub result : ReconcileResult
  pub error : Option String
  pub actions : List Action

abbrev update_error : UpdateAnswer → Option String
update_error updated = none
update_error conflict = none
update_error (update_failed error) =
    some (sprint ("failed to update IdentityServerDatabase status: " ∷ error ∷ []))

-- `return ctrl.Result{}, err`
abbrev pub fail : DatabaseStatus → List Action → String → DatabaseOutcome
fail s actions error = record { status = s; result = done; error = some error; actions = actions }

-- `return result, r.updateStatus(ctx, &db)`
abbrev pub finish : UpdateAnswer → DatabaseStatus → List Action → ReconcileResult → DatabaseOutcome
finish answer s actions result = record {
  status = s;
  result = result;
  error = update_error answer;
  actions = actions ++ update_status ∷ [];
}

module _ {U : Type 0} (m : ApiMeta) (x : Externals U) (db : IdentityServerDatabase U)
    (w : World U) where
  abbrev set_status : DatabaseStatus → List Setting → DatabaseStatus
  set_status s settings = with_conditions s (set_all m s.conditions settings db.generation)

  abbrev name_of_job : String
  name_of_job = String.◌++◌ db.name "-db-init-job"

  abbrev admission_text : String → String
  admission_text error = truncate_message (sprint ("pod admission rejected: " ∷ error ∷ [])) 256

  abbrev pub not_admitted : DatabaseStatus → String → DatabaseOutcome
  not_admitted s error =
      let msg = admission_text error in
      finish w.update_answer
        (set_status (clear_prior_outcome m s) (
          (condition_progressing, yes_status, reason_job_pod_not_starting, msg)
          ∷ (condition_ready, no_status, reason_job_pod_not_starting, msg)
          ∷ []))
        [] (requeue_after 60)

  abbrev pub job_created : DatabaseStatus → String → String → String → DatabaseOutcome
  job_created s image hash conn_hash =
      finish w.update_answer
        (set_status (clear_prior_outcome m s) (
          (condition_progressing, yes_status, reason_job_created, "database-init Job created")
          ∷ (
            condition_ready, no_status, reason_job_running,
            "database-init Job created and not yet complete",
          )
          ∷ []))
        (create_job image hash conn_hash
          ∷ record_event "JobCreated" (
              sprint (
                "created database-init Job "
                ∷ quote name_of_job
                ∷ " (image "
                ∷ quote image
                ∷ ")"
                ∷ []))
          ∷ [])
        done

  unfoldable pub create_database_job : DatabaseStatus → String → String → String → DatabaseOutcome
  create_database_job s image hash conn_hash = elim w.owner_ref_error [
    | some error ↦ fail s [] (sprint ("failed to set owner ref on database Job: " ∷ error ∷ []))
    | none ↦ elim w.admission_answer [
      | refused error ↦ not_admitted s error
      | admission_failed error ↦
          fail s [] (sprint ("pre-flight pod admission check failed: " ∷ error ∷ []))
      | admitted ↦ elim w.create_answer [
        | already_exists ↦ record { status = s; result = requeue_now; error = none; actions = [] }
        | create_failed error ↦ fail s [] (sprint ("failed to create database Job: " ∷ error ∷ []))
        | created ↦ job_created s image hash conn_hash
      ]
    ]
  ]

  -- Deleting the Job to have it created again: `why` is the message of the conditions, `event` that of the
  -- event, `what` the text before an error.
  unfoldable pub recreate : DatabaseStatus → String → String → String → DatabaseOutcome
  recreate s why event what = elim w.delete_answer [
    | delete_failed error ↦ fail s [] (sprint (what ∷ error ∷ []))
    | deleted ↦
        finish w.update_answer
          (set_status (clear_prior_outcome m s) (
            (condition_progressing, yes_status, reason_job_created, why)
            ∷ (condition_ready, no_status, reason_job_created, why)
            ∷ []))
          (delete_job ∷ record_event "JobRecreated" event ∷ []) (requeue_after 2)
  ]

  -- The steady state.
  unfoldable pub reflect : DatabaseStatus → StoredJob → DatabaseOutcome
  reflect s job =
      let (after, running) = apply_job_status m s job db.generation in
      if not running
      then finish w.update_answer after [] done
      else elim (start_failure m x.is_controlled_by job w.pods w.events) [
        | inl error ↦ fail after (update_status ∷ []) error
        | inr cause ↦ finish w.update_answer (shown m after db.generation cause) [] done
      ]

  unfoldable pub handle_job : DatabaseStatus → StoredJob → String → String → DatabaseOutcome
  handle_job s job hash conn_hash =
      if is_some job.job.deletion_timestamp
      then finish w.update_answer
          (set_status s (
            (
              condition_progressing, yes_status, reason_job_created,
              "waiting for the previous Job to be deleted before recreating",
            )
            ∷ []))
          [] (requeue_after 5)
      else if not (value_of job_hash_annotation job.annotations == hash)
      then recreate s "image or spec changed; recreating Job"
          (sprint
            ("recreating database-init Job " ∷ quote name_of_job ∷ " after image/spec change" ∷ []))
          "failed to delete outdated Job: "
      else if is_some (job_failure_message job.job)
          && not (value_of connection_hash_annotation job.annotations == conn_hash)
      then recreate s "connection Secret changed; recreating Job"
          (sprint
            ("connection Secret changed; recreating database-init Job " ∷ quote name_of_job ∷ []))
          "failed to delete failed Job for secret-change recovery: "
      else reflect s job

  -- The schema was set up with this hash, and the Job is gone since.
  abbrev pub already_completed : DatabaseStatus → String → Bool
  already_completed s hash = is_some s.completion_time && s.last_completed_hash == hash

  unfoldable pub on_job : JobAnswer → DatabaseStatus → String → String → String → DatabaseOutcome
  on_job job_missing s image hash conn_hash =
      if already_completed s hash
      then finish w.update_answer s [] done
      else create_database_job s image hash conn_hash
  on_job (job_failed error) s image hash conn_hash =
      fail s [] (sprint ("failed to get Job " ∷ quote name_of_job ∷ ": " ∷ error ∷ []))
  on_job (job_found job) s image hash conn_hash = handle_job s job hash conn_hash

  -- With the name of the Job and the image in the status.
  abbrev pub named_status : DatabaseStatus → String → DatabaseStatus
  named_status s image = record {
    conditions = s.conditions;
    observed_generation = s.observed_generation;
    job_name = name_of_job;
    observed_image = image;
    last_completed_hash = s.last_completed_hash;
    completion_time = s.completion_time;
  }

  unfoldable pub on_hash : String ⊎ String → DatabaseStatus → String → DatabaseOutcome
  on_hash (inl error) s image = fail s [] error
  on_hash (inr conn_hash) s image =
      on_job w.job_answer (named_status s image) image
        (x.job_hash image db.connection db.job_template) conn_hash

  unfoldable pub on_check : CheckResult → DatabaseStatus → String → DatabaseOutcome
  on_check (broken error) s image = fail s [] error
  on_check (unresolved reason message) s image =
      finish w.update_answer (set_status s ((condition_ready, no_status, reason, message) ∷ [])) []
        done
  on_check resolved s image =
      on_hash (compute_connection_secrets_hash x w.reader db.namespace db.connection) s image

  abbrev pub observed_status : DatabaseStatus
  observed_status = record {
    conditions = db.status.conditions;
    observed_generation = db.generation;
    job_name = db.status.job_name;
    observed_image = db.status.observed_image;
    last_completed_hash = db.status.last_completed_hash;
    completion_time = db.status.completion_time;
  }

  unfoldable pub on_cluster : ClusterAnswer U → DatabaseStatus → DatabaseOutcome
  on_cluster cluster_missing s =
      finish w.update_answer
        (set_status s (
          (
            condition_ready,
            no_status,
            "ClusterNotFound",
            sprint ("referenced IdentityServerCluster " ∷ quote db.cluster_ref ∷ " not found" ∷ []),
          )
          ∷ []))
        [] done
  on_cluster (cluster_failed error) s =
      fail s []
        (sprint ("failed to get IdentityServerCluster " ∷ quote db.cluster_ref ∷ ": " ∷ error ∷ []))
  on_cluster (cluster_found cluster) s =
      on_check (check_connection_sources w.reader db.namespace db.connection) s
        (build_image cluster)

  -- The database itself was found.
  unfoldable pub reconcile : DatabaseOutcome
  reconcile = on_cluster w.cluster_answer observed_status
