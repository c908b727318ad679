-- ===== src/Database/Status/Phase.antt =====
-- What the conditions of a database show of its Job, as an abstract life cycle: a Job runs until it is
-- complete or failed, and then stays so. applyJobStatus of identityserverdatabase_reconciler.go follows it.
use curity_operator.Prelude.{
  ℕ, String, ◌≡◌, refl, sym, ap, ◌∙◌, inl, inr, true, false, Option, none, some, List, [], ◌∷◌,
  ◌==◌, if◌then◌else◌, Option-cases,
}
use curity_operator.Api.{
  ApiMeta, Condition, ConditionStatus, yes_status, no_status, condition_ready,
  condition_progressing,
}
use curity_operator.Conditions.Set.{set_condition, status_of, status_of-set_condition}
use curity_operator.Database.{DatabaseStatus, StoredJob, condition_complete, condition_failed}
use curity_operator.Database.Status.{
  apply_job_status, job_completion_time, job_failure_message, set_all, complete_settings,
  failed_settings, running_settings, Setting, with_conditions, completed,
}

pub data Phase : Type 0 where
  running complete failed : Phase

abbrev phase_from : Option ℕ → Option String → Phase
phase_from (some time) failure = complete
phase_from none (some msg) = failed
phase_from none none = running

-- The phase of a Job.
abbrev pub phase_of : StoredJob → Phase
phase_of job = phase_from (job_completion_time job.job) (job_failure_message job.job)

-- A Job that has ended stays as it is.
pub data Step : Phase → Phase → Type 0 where
  ends : (p : Phase) → Step running p
  stays : (p : Phase) → Step p p

-- The statuses of Ready, Progressing, Complete and Failed in a phase.
abbrev pub shown_in :
    Phase
    → Option ConditionStatus
      × Option ConditionStatus
      × Option ConditionStatus
      × Option ConditionStatus
shown_in running = (some no_status, some yes_status, none, none)
shown_in complete = (some yes_status, some no_status, some yes_status, some no_status)
shown_in failed = (some no_status, some no_status, none, some yes_status)

module _ (m : ApiMeta) where
  abbrev pub shown_by :
      List Condition
      → Option ConditionStatus
        × Option ConditionStatus
        × Option ConditionStatus
        × Option ConditionStatus
  shown_by cs = (
    status_of m cs condition_ready,
    status_of m cs condition_progressing,
    status_of m cs condition_complete,
    status_of m cs condition_failed,
  )

  -- The conditions show the phase.
  abbrev pub Shows : DatabaseStatus → Phase → Type 0
  Shows s p = shown_by s.conditions ≡ shown_in p

  -- A Job after another, each as the life cycle allows.
  pub data Run : Phase → List StoredJob → Phase → Type 0 where
    stop : (p : Phase) → Run p [] p
    next :
        {p q : Phase} {job : StoredJob} {jobs : List StoredJob}
        → Step p (phase_of job)
        → Run (phase_of job) jobs q
        → Run p (job ∷ jobs) q

  -- applyJobStatus on one reading of the Job after another.
  abbrev pub follow : DatabaseStatus → ℕ → List StoredJob → DatabaseStatus
  follow s gen [] = s
  follow s gen (job ∷ jobs) = follow (apply_job_status m s job gen).0 gen jobs

  -- What a list of settings leaves of a type.
  abbrev after_settings : List Setting → String → Option ConditionStatus → Option ConditionStatus
  after_settings [] t before = before
  after_settings (s ∷ settings) t before =
      after_settings settings t (if s.0 == t then some s.1 else before)

  status_of-set_all :
      (cs : List Condition) (settings : List Setting) (gen : ℕ) (t : String)
      → status_of m (set_all m cs settings gen) t ≡ after_settings settings t (status_of m cs t)
  status_of-set_all cs [] gen t = refl
  status_of-set_all cs (s ∷ settings) gen t =
      status_of-set_all (set_condition m cs s.0 s.1 s.2 s.3 gen) settings gen t
      ∙ ap (after_settings settings t) (status_of-set_condition m cs s.0 s.1 s.2 s.3 gen t)

  shown_by-set_all :
      (cs : List Condition) (settings : List Setting) (gen : ℕ)
      → shown_by (set_all m cs settings gen) ≡ (
        after_settings settings condition_ready (status_of m cs condition_ready),
        after_settings settings condition_progressing (status_of m cs condition_progressing),
        after_settings settings condition_complete (status_of m cs condition_complete),
        after_settings settings condition_failed (status_of m cs condition_failed),
      )
  shown_by-set_all cs settings gen = λ i. (
    status_of-set_all cs settings gen condition_ready i,
    status_of-set_all cs settings gen condition_progressing i,
    status_of-set_all cs settings gen condition_complete i,
    status_of-set_all cs settings gen condition_failed i,
  )

  complete-Shows :
      (cs : List Condition) (gen : ℕ)
      → shown_by (set_all m cs (complete_settings m) gen) ≡ shown_in complete
  complete-Shows cs gen = shown_by-set_all cs (complete_settings m) gen

  failed-Shows :
      (cs : List Condition) (msg : String) (gen : ℕ)
      → status_of m cs condition_complete ≡ none
      → shown_by (set_all m cs (failed_settings m msg) gen) ≡ shown_in failed
  failed-Shows cs msg gen h = shown_by-set_all cs (failed_settings m msg) gen ∙ λ i.
      (some no_status, some no_status, h i, some yes_status)

  running-Shows :
      (cs : List Condition) (gen : ℕ)
      → status_of m cs condition_complete ≡ none
      → status_of m cs condition_failed ≡ none
      → shown_by (set_all m cs (running_settings m) gen) ≡ shown_in running
  running-Shows cs gen h k = shown_by-set_all cs (running_settings m) gen ∙ λ i.
      (some no_status, some yes_status, h i, k i)

  failed_from : {p : Phase} → Step p failed → (shown_in p).2 ≡ none
  failed_from (ends p) = refl
  failed_from (stays p) = refl

  running_from : {p : Phase} → Step p running → p ≡ running
  running_from (ends p) = refl
  running_from (stays p) = refl

  apply_running :
      (s : DatabaseStatus) (job : StoredJob) (gen : ℕ)
      → job_completion_time job.job ≡ none
      → job_failure_message job.job ≡ none
      → apply_job_status m s job gen
        ≡ (with_conditions s (set_all m s.conditions (running_settings m) gen), true)
  unfolding apply_job_status
  apply_running s job gen c f = rw (apply_job_status, c, f) refl

  apply_failed :
      (s : DatabaseStatus) (job : StoredJob) (gen : ℕ) (msg : String)
      → job_completion_time job.job ≡ none
      → job_failure_message job.job ≡ some msg
      → apply_job_status m s job gen
        ≡ (with_conditions s (set_all m s.conditions (failed_settings m msg) gen), false)
  unfolding apply_job_status
  apply_failed s job gen msg c f = rw (apply_job_status, c, f) refl

  apply_complete :
      (s : DatabaseStatus) (job : StoredJob) (gen time : ℕ)
      → job_completion_time job.job ≡ some time
      → apply_job_status m s job gen ≡ (completed m s job gen time, false)
  unfolding apply_job_status
  apply_complete s job gen time c = rw (apply_job_status, c) refl

  apply_job_status-Shows :
      (s : DatabaseStatus) (job : StoredJob) (gen : ℕ) (p : Phase)
      → Shows s p
      → Step p (phase_of job)
      → Shows (apply_job_status m s job gen).0 (phase_of job)
  unfolding apply_job_status
  apply_job_status-Shows s job gen p h step = elim (Option-cases (job_completion_time job.job)) [
    | inr (time, c) ↦
        ap (λ z. shown_by z.0.conditions) (apply_complete s job gen time c)
        ∙ complete-Shows s.conditions gen
        ∙ sym (λ i. shown_in (phase_from (c i) (job_failure_message job.job)))
    | inl c ↦ elim (Option-cases (job_failure_message job.job)) [
      | inr (msg, f) ↦
          let step' : Step p failed = rw (c, f) at step in
          ap (λ z. shown_by z.0.conditions) (apply_failed s job gen msg c f)
          ∙ failed-Shows s.conditions msg gen (ap (λ z. z.2) h ∙ failed_from step')
          ∙ sym (λ i. shown_in (phase_from (c i) (f i)))
      | inl f ↦
          let step' : Step p running = rw (c, f) at step in
          let h' : Shows s running = rw (running_from step') at h in
          ap (λ z. shown_by z.0.conditions) (apply_running s job gen c f)
          ∙ running-Shows s.conditions gen (ap (λ z. z.2) h') (ap (λ z. z.3) h')
          ∙ sym (λ i. shown_in (phase_from (c i) (f i)))
    ]
  ]

  -- From a status that shows the phase in which a run of the Job begins, applyJobStatus, applied to one
  -- reading of the Job after another, ends in a status that shows the phase in which the run ends.
  pub apply_job_status-Run :
      (s : DatabaseStatus) (gen : ℕ) (jobs : List StoredJob) (p q : Phase)
      → Shows s p
      → Run p jobs q
      → Shows (follow s gen jobs) q
  apply_job_status-Run s gen [] p q h (stop r) = h
  apply_job_status-Run s gen (job ∷ jobs) p q h (next step run) =
      apply_job_status-Run (apply_job_status m s job gen).0 gen jobs (phase_of job) q
        (apply_job_status-Shows s job gen p h step) run
