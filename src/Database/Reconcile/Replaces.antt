-- ===== src/Database/Reconcile/Replaces.antt =====
-- An outdated Job of a database is replaced, and the new one stays
-- (identityserverdatabase_reconciler.go).
use curity_operator.Prelude.{
  String, ◌≡◌, refl, sym, ◌∙◌, ◌⊎◌, inl, inr, Bool, true, false, not, ◌&&◌, ◌||◌, arith, ◌==◌,
  eq_iff, if◌then◌else◌, Bool-cases, is_some, any,
}
use curity_operator.Kube.{value_of}
use curity_operator.Api.{ApiMeta}
use curity_operator.Resources.Resolve.{build_image}
use curity_operator.Database.{
  IdentityServerDatabase, DatabaseStatus, StoredJob, World, Externals, ClusterAnswer, cluster_found,
  cluster_missing, cluster_failed, JobAnswer, job_found, job_missing, job_failed,
}
use curity_operator.Database.Connection.{CheckResult, resolved, unresolved, broken}
use curity_operator.Database.Status.{job_hash_annotation, job_failure_message, clear_prior_outcome}
use curity_operator.Permanent.{UpdateAnswer, updated, conflict, update_failed}
use curity_operator.Database.Reconcile.{
  Action, create_job, delete_job, record_event, update_status, reconcile, on_cluster, on_check,
  on_hash, on_job, handle_job, recreate, connection_hash_annotation, DatabaseOutcome,
}
use curity_operator.Database.Reconcile.Creates.{
  is_ready, hash_now, connection_hash_now, accepts_job, reconcile-actions, deletes-is_ready,
  reflect-actions, deletes-create_database_job,
}
use curity_operator.Database.Reconcile.Tests.{creates, deletes}

abbrev is_update : Action → Bool
is_update update_status = true
is_update (create_job image hash conn) = false
is_update delete_job = false
is_update (record_event reason message) = false

-- An outcome that deletes the Job ends with a status update that leaves no completion time.
abbrev cleared : DatabaseOutcome → Bool
cleared o = not (deletes o) || (any is_update o.actions && not (is_some o.status.completion_time))

-- The status that the API server has after a reconciliation: where the status was not written, or the
-- write was not taken, it is the one that was there.
abbrev pub stored_status : UpdateAnswer → DatabaseStatus → DatabaseOutcome → DatabaseStatus
stored_status updated old o = if any is_update o.actions then o.status else old
stored_status conflict old o = old
stored_status (update_failed error) old o = old

module _ {U : Type 0} (m : ApiMeta) (x : Externals U) (db : IdentityServerDatabase U)
    (w : World U) where
  recreate-cleared :
      (s : DatabaseStatus) (why event what : String)
      → cleared (recreate m x db w s why event what) ≡ true
  unfolding recreate clear_prior_outcome
  recreate-cleared s why event what = ground arith

  handle_job-cleared :
      (s : DatabaseStatus) (job : StoredJob) (hash conn : String)
      → cleared (handle_job m x db w s job hash conn) ≡ true
  unfolding handle_job
  handle_job-cleared s job hash conn = elim (Bool-cases (is_some job.job.deletion_timestamp)) [
    | inl e ↦ rw e refl
    | inr e ↦ elim (Bool-cases (value_of job_hash_annotation job.annotations == hash)) [
      | inr h ↦ rw (e, h) (recreate-cleared s _ _ _)
      | inl h ↦
          elim (Bool-cases (
            is_some (job_failure_message job.job)
            && not (value_of connection_hash_annotation job.annotations == conn))) [
              | inl f ↦ rw (e, h, f) (recreate-cleared s _ _ _)
              | inr f ↦ rw (e, h, f) (ground (arith, (reflect-actions m x db w s job).1))
            ]
    ]
  ]

  on_job-cleared :
      (a : JobAnswer) (s : DatabaseStatus) (image hash conn : String)
      → cleared (on_job m x db w a s image hash conn) ≡ true
  unfolding on_job
  on_job-cleared job_missing s image hash conn =
      elim (Bool-cases (is_some s.completion_time && s.last_completed_hash == hash)) [
        | inl c ↦ rw c refl
        | inr c ↦ rw c (ground (arith, deletes-create_database_job m x db w s image hash conn))
      ]
  on_job-cleared (job_failed error) s image hash conn = refl
  on_job-cleared (job_found job) s image hash conn = handle_job-cleared s job hash conn

  on_hash-cleared :
      (h : String ⊎ String) (s : DatabaseStatus) (image : String)
      → cleared (on_hash m x db w h s image) ≡ true
  unfolding on_hash
  on_hash-cleared (inl error) s image = refl
  on_hash-cleared (inr conn) s image = on_job-cleared w.job_answer _ image _ conn

  on_check-cleared :
      (c : CheckResult) (s : DatabaseStatus) (image : String)
      → cleared (on_check m x db w c s image) ≡ true
  unfolding on_check
  on_check-cleared (broken error) s image = refl
  on_check-cleared (unresolved reason message) s image = refl
  on_check-cleared resolved s image = on_hash-cleared _ s image

  on_cluster-cleared :
      (a : ClusterAnswer U) (s : DatabaseStatus) → cleared (on_cluster m x db w a s) ≡ true
  unfolding on_cluster
  on_cluster-cleared cluster_missing s = refl
  on_cluster-cleared (cluster_failed error) s = refl
  on_cluster-cleared (cluster_found cluster) s = on_check-cleared _ s (build_image cluster)

  reconcile-cleared : cleared (reconcile m x db w) ≡ true
  unfolding reconcile
  reconcile-cleared = on_cluster-cleared w.cluster_answer _

  -- The database with a status, and what the API server answers about the Job.
  abbrev pub with_status : DatabaseStatus → IdentityServerDatabase U
  with_status s = record db { status = s }

  -- Later answers of the API server, with the cluster and the Secrets as they were.
  abbrev pub answering : World U → JobAnswer → World U
  answering v a = record v { cluster_answer = w.cluster_answer; reader = w.reader; job_answer = a }

  eq_of : {s t : String} → s ≡ t → (s == t) ≡ true
  eq_of {s} {t} e = (eq_iff s t).1 e

  stored_in_full :
      (o : DatabaseOutcome) (old : DatabaseStatus)
      → deletes o ≡ true
      → cleared o ≡ true
      → not (is_some (if any is_update o.actions then o.status else old).completion_time) ≡ true
  stored_in_full o old d c =
      let writes : any is_update o.actions ≡ true = ground (arith, d, c) in
      rw writes (ground (arith, d, c))

  -- What is stored after a deletion has no completion time.
  stored_cleared :
      (u : UpdateAnswer) (old : DatabaseStatus) (o : DatabaseOutcome)
      → u ≡ updated
      → deletes o ≡ true
      → cleared o ≡ true
      → not (is_some (stored_status u old o).completion_time) ≡ true
  stored_cleared u old o taken d c = rw taken (stored_in_full o old d c)

  all_three :
      (a b c d : Bool) → a ≡ true → not b ≡ true → c ≡ true → (a && not (b && d) && c) ≡ true
  all_three a b c d e f g = ground arith

  kept_false :
      (a b c d e f : Bool)
      → b ≡ true
      → c ≡ true
      → (a && (d && (not b || (f && not c))) && e) ≡ false
  kept_false a b c d e f p q = ground arith

  -- Neither the status nor the other answers change what a Job is made of.
  same_needs :
      (s : DatabaseStatus) (v : World U) (j : JobAnswer) (a : ClusterAnswer U)
      → (is_ready m x (with_status s) (answering v j) a ≡ is_ready m x db w a)
        × (hash_now m x (with_status s) (answering v j) a ≡ hash_now m x db w a)
  same_needs s v j (cluster_found cluster) = (refl, refl)
  same_needs s v j cluster_missing = (refl, refl)
  same_needs s v j (cluster_failed error) = (refl, refl)

  -- After a reconciliation that deletes the Job and whose status update is taken: a reconciliation that
  -- starts from the stored status, finds no Job, and the cluster and the Secrets as they were, creates the
  -- Job if the API server takes it. And a later one, in whatever status, that finds the cluster and the
  -- Secrets as they were, and a Job with the two hashes that they give, does not delete it.
  pub reconcile-replaces :
      (v v' : World U) (job : StoredJob) (later : DatabaseStatus)
      → deletes (reconcile m x db w) ≡ true
      → w.update_answer ≡ updated
      → accepts_job m x db v ≡ true
      → value_of job_hash_annotation job.annotations ≡ hash_now m x db w w.cluster_answer
      → value_of connection_hash_annotation job.annotations ≡ connection_hash_now m x db w
      → (creates (
            reconcile m x
              (with_status (stored_status w.update_answer db.status (reconcile m x db w)))
              (answering v job_missing))
          ≡ true)
        × (deletes (reconcile m x (with_status later) (answering v' (job_found job))) ≡ false)
  reconcile-replaces v v' job later hd taken ha hh hc =
      let after = stored_status w.update_answer db.status (reconcile m x db w) in
      let (made, gone) = reconcile-actions m x (with_status after) (answering v job_missing) in
      let (kept, stays) =
        reconcile-actions m x (with_status later) (answering v' (job_found job)) in
      let ready =
        (same_needs after v job_missing w.cluster_answer).0 ∙ deletes-is_ready m x db w hd in
      let hash = (same_needs later v' (job_found job) w.cluster_answer).1 in
      let no_time =
        stored_cleared w.update_answer db.status (reconcile m x db w) taken hd reconcile-cleared in
      (
        made ∙ all_three _ _ _ _ ready no_time ha,
        stays ∙ kept_false _ _ _ _ _ _ (eq_of (hh ∙ sym hash)) (eq_of hc),
      )
