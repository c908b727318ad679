-- ===== src/Database/Reconcile/Tests.antt =====
-- What a reconciliation of a database (identityserverdatabase_reconciler.go) depends on, as tests of the
-- answers that it gets, and what it does to the Job.
use curity_operator.Prelude.{
  String, ◌⊎◌, inl, inr, Bool, true, false, not, ◌&&◌, ◌||◌, ◌==◌, is_some, any,
}
use curity_operator.Kube.{value_of}
use curity_operator.Database.{
  DatabaseStatus, JobAnswer, job_found, job_missing, job_failed, AdmissionAnswer, admitted, refused,
  admission_failed, CreateAnswer, created, already_exists, create_failed, DeleteAnswer, deleted,
  delete_failed,
}
use curity_operator.Database.Connection.{CheckResult, resolved, unresolved, broken}
use curity_operator.Database.Status.{job_hash_annotation, job_failure_message}
use curity_operator.Database.Reconcile.{
  Action, create_job, delete_job, record_event, update_status, connection_hash_annotation,
  DatabaseOutcome,
}

abbrev pub is_create : Action → Bool
is_create (create_job image hash conn) = true
is_create delete_job = false
is_create (record_event reason message) = false
is_create update_status = false

abbrev pub is_delete : Action → Bool
is_delete (create_job image hash conn) = false
is_delete delete_job = true
is_delete (record_event reason message) = false
is_delete update_status = false

-- A Job is created, or deleted, among the actions.
abbrev pub creates : DatabaseOutcome → Bool
creates o = any is_create o.actions

abbrev pub deletes : DatabaseOutcome → Bool
deletes o = any is_delete o.actions

abbrev pub is_resolved : CheckResult → Bool
is_resolved resolved = true
is_resolved (unresolved reason message) = false
is_resolved (broken error) = false

abbrev pub is_right : String ⊎ String → Bool
is_right (inl error) = false
is_right (inr hash) = true

abbrev pub right_or_empty : String ⊎ String → String
right_or_empty (inl error) = ""
right_or_empty (inr hash) = hash

abbrev pub is_admitted : AdmissionAnswer → Bool
is_admitted admitted = true
is_admitted (refused error) = false
is_admitted (admission_failed error) = false

abbrev pub is_created : CreateAnswer → Bool
is_created created = true
is_created already_exists = false
is_created (create_failed error) = false

abbrev pub is_deleted : DeleteAnswer → Bool
is_deleted deleted = true
is_deleted (delete_failed error) = false

-- There is no Job, and none has completed with the hash.
abbrev pub lacks_job : DatabaseStatus → String → JobAnswer → Bool
lacks_job s hash job_missing = not (is_some s.completion_time && s.last_completed_hash == hash)
lacks_job s hash (job_failed error) = false
lacks_job s hash (job_found job) = false

-- The Job was made for another image or spec, or has failed with other contents of the Secrets.
abbrev pub is_outdated : String → String → JobAnswer → Bool
is_outdated hash conn job_missing = false
is_outdated hash conn (job_failed error) = false
is_outdated hash conn (job_found job) =
    not (is_some job.job.deletion_timestamp)
    && (not (value_of job_hash_annotation job.annotations == hash)
        || (is_some (job_failure_message job.job)
            && not (value_of connection_hash_annotation job.annotations == conn)))
