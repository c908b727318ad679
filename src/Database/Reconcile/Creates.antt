-- ===== src/Database/Reconcile/Creates.antt =====
-- When a reconciliation of a database creates the Job, and when it deletes it
-- (identityserverdatabase_reconciler.go).
use curity_operator.Prelude.{
  String, ◌≡◌, refl, ◌∙◌, ◌⊎◌, inl, inr, Bool, true, false, not, ◌&&◌, ◌||◌, arith, ◌==◌,
  Bool-cases, is_some,
}
use curity_operator.Kube.{value_of}
use curity_operator.Api.{ApiMeta}
use curity_operator.Resources.Resolve.{build_image}
use curity_operator.Database.{
  IdentityServerDatabase, DatabaseStatus, StoredJob, World, Externals, ClusterAnswer, cluster_found,
  cluster_missing, cluster_failed, JobAnswer, job_found, job_missing, job_failed,
}
use curity_operator.Database.Connection.{
  CheckResult, resolved, unresolved, broken, check_connection_sources,
  compute_connection_secrets_hash,
}
use curity_operator.Database.Status.{job_hash_annotation, job_failure_message}
use curity_operator.Database.Reconcile.{
  reconcile, on_cluster, on_check, on_hash, on_job, handle_job, reflect, recreate,
  create_database_job, connection_hash_annotation, DatabaseOutcome, observed_status, named_status,
}
use curity_operator.Database.Reconcile.Tests.{
  creates, deletes, is_resolved, is_right, right_or_empty, is_admitted, is_created, is_deleted,
  lacks_job, is_outdated,
}

module _ {U : Type 0} (m : ApiMeta) (x : Externals U) (db : IdentityServerDatabase U)
    (w : World U) where
  -- The digest of the Secrets, or an error.
  abbrev connection_hash : String ⊎ String
  connection_hash = compute_connection_secrets_hash x w.reader db.namespace db.connection

  abbrev pub connection_hash_now : String
  connection_hash_now = right_or_empty connection_hash

  -- Everything that the Job needs is there: the cluster and the Secrets of the connection.
  abbrev pub is_ready : ClusterAnswer U → Bool
  is_ready (cluster_found cluster) =
      is_resolved (check_connection_sources w.reader db.namespace db.connection)
      && is_right connection_hash
  is_ready cluster_missing = false
  is_ready (cluster_failed error) = false

  abbrev hash_of : String → String
  hash_of image = x.job_hash image db.connection db.job_template

  -- The hash that a Job for the present image and spec has.
  abbrev pub hash_now : ClusterAnswer U → String
  hash_now (cluster_found cluster) = hash_of (build_image cluster)
  hash_now cluster_missing = ""
  hash_now (cluster_failed error) = ""

  creates-create_database_job :
      (s : DatabaseStatus) (image hash conn : String)
      → creates (create_database_job m x db w s image hash conn) ≡ (
          not (is_some w.owner_ref_error)
          && is_admitted w.admission_answer
          && is_created w.create_answer)
  unfolding create_database_job
  creates-create_database_job s image hash conn = ground arith

  pub deletes-create_database_job :
      (s : DatabaseStatus) (image hash conn : String)
      → deletes (create_database_job m x db w s image hash conn) ≡ false
  unfolding create_database_job
  deletes-create_database_job s image hash conn = ground arith

  recreate-actions :
      (s : DatabaseStatus) (why event what : String)
      → (creates (recreate m x db w s why event what) ≡ false)
        × (deletes (recreate m x db w s why event what) ≡ is_deleted w.delete_answer)
  unfolding recreate
  recreate-actions s why event what = (ground arith, ground arith)

  pub reflect-actions :
      (s : DatabaseStatus) (job : StoredJob)
      → (creates (reflect m x db w s job) ≡ false) × (deletes (reflect m x db w s job) ≡ false)
  unfolding reflect
  reflect-actions s job = (ground arith, ground arith)

  handle_job-actions :
      (s : DatabaseStatus) (job : StoredJob) (hash conn : String)
      → (creates (handle_job m x db w s job hash conn) ≡ false)
        × (deletes (handle_job m x db w s job hash conn) ≡ (
            not (is_some job.job.deletion_timestamp)
            && (not (value_of job_hash_annotation job.annotations == hash)
                || (is_some (job_failure_message job.job)
                    && not (value_of connection_hash_annotation job.annotations == conn)))
            && is_deleted w.delete_answer))
  unfolding handle_job
  handle_job-actions s job hash conn = elim (Bool-cases (is_some job.job.deletion_timestamp)) [
    | inl e ↦ rw e (refl, refl)
    | inr e ↦ elim (Bool-cases (value_of job_hash_annotation job.annotations == hash)) [
      | inr h ↦ rw (e, h) (recreate-actions s _ _ _)
      | inl h ↦
          elim (Bool-cases (
            is_some (job_failure_message job.job)
            && not (value_of connection_hash_annotation job.annotations == conn))) [
              | inl f ↦ rw (e, h, f) (recreate-actions s _ _ _)
              | inr f ↦ rw (e, h, f) (reflect-actions s job)
            ]
    ]
  ]

  on_job-actions :
      (a : JobAnswer) (s : DatabaseStatus) (image hash conn : String)
      → (creates (on_job m x db w a s image hash conn) ≡ (
          lacks_job s hash a
          && not (is_some w.owner_ref_error)
          && is_admitted w.admission_answer
          && is_created w.create_answer))
        × (deletes (on_job m x db w a s image hash conn)
            ≡ (is_outdated hash conn a && is_deleted w.delete_answer))
  unfolding on_job
  on_job-actions job_missing s image hash conn =
      elim (Bool-cases (is_some s.completion_time && s.last_completed_hash == hash)) [
        | inl c ↦ rw c (refl, refl)
        | inr c ↦ rw c (
          creates-create_database_job s image hash conn,
          deletes-create_database_job s image hash conn,
        )
      ]
  on_job-actions (job_failed error) s image hash conn = (refl, refl)
  on_job-actions (job_found job) s image hash conn =
      let (c, d) = handle_job-actions s job hash conn in (c, d ∙ ground arith)

  -- The API server takes the Job.
  abbrev pub accepts_job : Bool
  accepts_job =
      not (is_some w.owner_ref_error)
      && is_admitted w.admission_answer
      && is_created w.create_answer

  abbrev CreatesDeletes : DatabaseOutcome → Bool → Bool → Type 0
  CreatesDeletes o c d = (creates o ≡ c) × (deletes o ≡ d)

  lacks_named :
      (image hash : String) (a : JobAnswer)
      → lacks_job (named_status m x db w (observed_status m x db w) image) hash a
        ≡ lacks_job db.status hash a
  lacks_named image hash job_missing = refl
  lacks_named image hash (job_failed error) = refl
  lacks_named image hash (job_found job) = refl

  on_hash-actions :
      (h : String ⊎ String) (image : String)
      → CreatesDeletes
          (on_hash m x db w h (observed_status m x db w) image)
          (is_right h && lacks_job db.status (hash_of image) w.job_answer && accepts_job)
          (is_right h
            && is_outdated (hash_of image) (right_or_empty h) w.job_answer
            && is_deleted w.delete_answer)
  unfolding on_hash
  on_hash-actions (inl error) image = (refl, refl)
  on_hash-actions (inr conn) image =
      let (c, d) =
        on_job-actions w.job_answer (named_status m x db w (observed_status m x db w) image) image
          (hash_of image) conn in
      (c ∙ ground (arith, lacks_named image (hash_of image) w.job_answer), d)

  on_check-actions :
      (c : CheckResult) (image : String)
      → CreatesDeletes
          (on_check m x db w c (observed_status m x db w) image)
          (is_resolved c
            && is_right connection_hash
            && lacks_job db.status (hash_of image) w.job_answer
            && accepts_job)
          (is_resolved c
            && is_right connection_hash
            && is_outdated (hash_of image) connection_hash_now w.job_answer
            && is_deleted w.delete_answer)
  unfolding on_check
  on_check-actions (broken error) image = (refl, refl)
  on_check-actions (unresolved reason message) image = (refl, refl)
  on_check-actions resolved image =
      let (c, d) = on_hash-actions connection_hash image in (c ∙ ground arith, d ∙ ground arith)

  on_cluster-actions :
      (a : ClusterAnswer U)
      → CreatesDeletes
          (on_cluster m x db w a (observed_status m x db w))
          (is_ready a && lacks_job db.status (hash_now a) w.job_answer && accepts_job)
          (is_ready a
            && is_outdated (hash_now a) connection_hash_now w.job_answer
            && is_deleted w.delete_answer)
  unfolding on_cluster
  on_cluster-actions cluster_missing = (refl, refl)
  on_cluster-actions (cluster_failed error) = (refl, refl)
  on_cluster-actions (cluster_found cluster) =
      let (c, d) =
        on_check-actions (check_connection_sources w.reader db.namespace db.connection)
          (build_image cluster) in
      (c ∙ ground arith, d ∙ ground arith)

  -- Exactly where a reconciliation creates the Job: the cluster and the Secrets are there, there is no Job
  -- and none has completed for the present image and spec, and the API server accepts it. And exactly
  -- where it deletes one: the cluster and the Secrets are there, and the Job, which is not being deleted,
  -- is for another image or spec, or has failed with other contents of the Secrets.
  pub reconcile-actions :
      (creates (reconcile m x db w) ≡ (
        is_ready w.cluster_answer
        && lacks_job db.status (hash_now w.cluster_answer) w.job_answer
        && accepts_job))
      × (deletes (reconcile m x db w) ≡ (
          is_ready w.cluster_answer
          && is_outdated (hash_now w.cluster_answer) connection_hash_now w.job_answer
          && is_deleted w.delete_answer))
  unfolding reconcile
  reconcile-actions = on_cluster-actions w.cluster_answer

  pub deletes-is_ready : deletes (reconcile m x db w) ≡ true → is_ready w.cluster_answer ≡ true
  deletes-is_ready h = ground (arith, reconcile-actions.1, h)
