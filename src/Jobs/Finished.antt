-- ===== src/Jobs/Finished.antt =====
-- internal/server/export_jobs.go: a job that is over, under the actions of `Jobs.World`.
use vmgather.Prelude.{
  ℕ, ◌-◌, ◌≡◌, refl, sym, ap, ◌∙◌, ◌⊎◌, inl, inr, true, false, [], ◌∷◌, Option, none, some, Text,
  text_eq, text_eq→eq, lookup, insert, lookup-insert, leb, Bool-cases, Option-cases, arith,
}
use vmgather.Prelude.Maps.{Separated}
use vmgather.Domain.{ExportConfig}
use vmgather.Jobs.Defs.{
  ExportJob, ExportJobManager, ExportJobState, ExportJobStatus, is_finished, is_resumable,
}
use vmgather.Jobs.Manager.{
  cleanup_locked, is_expired, start_job, resume_job, cancel_job, new_job, resumed,
}
use vmgather.Jobs.Progress.{
  mark_running, mark_completed, mark_failed, mark_canceled, job_finished_locked, update_batch,
  update_adaptive_retry, release_context, finish_job, on_job,
}
use vmgather.Jobs.World.{
  Phase, spawned, exporting, World, Outcome, succeeds, is_canceled, fails, Action, starts, resumes,
  cancels, begins, reports, retries, ends, begin, report, retry, end, finish, step, IsFresh,
}
use vmgather.Jobs.Records.{
  KeysDiffer, state_of, unless_expired, lookup-remove_expired, insert-KeysDiffer,
}
use vmgather.Jobs.Invariant.{matches, IsSound}

-- The record is as it was, or is no longer there.
abbrev pub KeptOrGone : ExportJob → Option ExportJob → Type 0
KeptOrGone job found = (found ≡ some job) ⊎ (found ≡ none)

unless_expired-KeptOrGone :
    (job : ExportJob) (retention now : ℕ) → KeptOrGone job (unless_expired retention now (some job))
unless_expired-KeptOrGone job retention now =
    elim (Bool-cases (is_expired retention now job.status)) [
      | inl t ↦ rw (t) (inr refl)
      | inr t ↦ rw (t) (inl refl)
    ]

not_finished :
    (p : Phase) (s : ExportJobState) → matches (some p) (some s) ≡ true → is_finished s ≡ true → ⊥
not_finished spawned s h k = ground arith
not_finished (exporting b n) s h k = ground arith

module _ (m : ExportJobManager) (unique : Separated KeysDiffer m.jobs) (id : Text) (job : ExportJob)
    (there : lookup id m.jobs ≡ some job) where
  insert_other :
      (k : Text) (other : ExportJob)
      → text_eq k id ≡ false
      → lookup id (insert k other m.jobs) ≡ some job
  insert_other k other h = rw (lookup-insert k id other m.jobs, h) there

  cleanup-KeptOrGone : (now : ℕ) → KeptOrGone job (lookup id (cleanup_locked m now).jobs)
  unfolding cleanup_locked
  cleanup-KeptOrGone now =
      rw (lookup-remove_expired id m.retention now m.jobs unique, there)
        (unless_expired-KeptOrGone job m.retention now)

  on_job-KeptOrGone :
      (k : Text) (change : ExportJob → ExportJob)
      → text_eq k id ≡ false
      → KeptOrGone job (lookup id (on_job m k change).jobs)
  on_job-KeptOrGone k change h = elim (Option-cases (lookup k m.jobs)) [
    | inl e ↦ rw (e, on_job) (inl there)
    | inr (other, e) ↦ rw (e, on_job) (inl (insert_other k (change other) h))
  ]

  -- A job with another verdict is another job.
  differs :
      (k : Text) (other : ExportJob)
      → lookup k m.jobs ≡ some other
      → is_finished job.status.state ≡ true
      → is_finished other.status.state ≡ false
      → text_eq k id ≡ false
  differs k other e over busy = elim (Bool-cases (text_eq k id)) [
    | inr t ↦ t
    | inl t ↦
        let same : lookup k m.jobs ≡ lookup id m.jobs =
          ap (λ i. lookup i m.jobs) (text_eq→eq k id t) in
        let equal : other ≡ job = cc in
        absurd (clash (sym busy ∙ ap (λ (o : ExportJob). is_finished o.status.state) equal ∙ over))
  ]
    where
      clash : false ≡ true → ⊥
      clash h = cc

  cancel-KeptOrGone :
      (k : Text)
      → is_finished job.status.state ≡ true
      → KeptOrGone job (lookup id (cancel_job m k).0.jobs)
  unfolding cancel_job
  cancel-KeptOrGone k over = elim (Option-cases (lookup k m.jobs)) [
    | inl e ↦ rw (e, cancel_job) (inl there)
    | inr (other, e) ↦ elim (Bool-cases (is_finished other.status.state)) [
      | inl t ↦ rw (e, cancel_job) (rw t (inl there))
      | inr t ↦ elim (Bool-cases other.cancel) [
        | inl set ↦
            rw (e, cancel_job) (rw t (rw set (inl (insert_other k _ (differs k other e over t)))))
        | inr unset ↦ rw (e, cancel_job) (rw t (rw unset (inl there)))
      ]
    ]
  ]

  resume-KeptOrGone :
      (k : Text) → text_eq k id ≡ false → KeptOrGone job (lookup id (resume_job m k).0.jobs)
  unfolding resume_job
  resume-KeptOrGone k h = elim (Option-cases (lookup k m.jobs)) [
    | inl e ↦ rw (e, resume_job) (inl there)
    | inr (other, e) ↦ elim (Bool-cases (is_resumable other.status.state)) [
      | inr t ↦ rw (e, resume_job) (rw t (inl there))
      | inl t ↦ elim (Bool-cases (leb m.max_concurrent_jobs m.active_jobs)) [
        | inl full ↦ rw (e, resume_job) (rw t (rw full (inl there)))
        | inr room ↦ rw (e, resume_job) (rw t (rw room (inl (insert_other k (resumed other) h))))
      ]
    ]
  ]

module _ (m : ExportJobManager) (unique : Separated KeysDiffer m.jobs) (id : Text) (job : ExportJob)
    (there : lookup id m.jobs ≡ some job) where
  finish_job-KeptOrGone :
      (k : Text) (now : ℕ) (change : ExportJobStatus → ExportJobStatus)
      → text_eq k id ≡ false
      → KeptOrGone job (lookup id (finish_job m k now change).jobs)
  unfolding job_finished_locked
  finish_job-KeptOrGone k now change h = elim (Option-cases (lookup k m.jobs)) [
    | inl e ↦ rw (e, finish_job) (inl there)
    | inr (other, e) ↦
        let ended = record (release_context other) { status = change other.status } in
        rw (e, finish_job)
          (cleanup-KeptOrGone
            (record m { jobs = insert k ended m.jobs; active_jobs = m.active_jobs - 1 })
            (insert-KeysDiffer k ended m.jobs unique) id job
            (insert_other m unique id job there k ended h) now)
  ]

  start-KeptOrGone :
      (c : ℕ) (s : Text) (config : ExportConfig) (now : ℕ)
      → text_eq (c ∷ s) id ≡ false
      → KeptOrGone job (lookup id (start_job m (c ∷ s) config now).0.jobs)
  unfolding start_job
  start-KeptOrGone c s config now h = elim (Bool-cases (leb m.max_concurrent_jobs m.active_jobs)) [
    | inl full ↦ rw full (cleanup-KeptOrGone m unique id job there now)
    | inr room ↦ rw room (
        rw (lookup-insert (c ∷ s) id (new_job (c ∷ s) config now) (cleanup_locked m now).jobs, h)
          (cleanup-KeptOrGone m unique id job there now))
  ]

  finish-KeptOrGone :
      (k : Text) (outcome : Outcome) (now : ℕ)
      → text_eq k id ≡ false
      → KeptOrGone job (lookup id (finish m k outcome now).jobs)
  unfolding finish mark_completed mark_failed mark_canceled
  finish-KeptOrGone k (succeeds r) now h = finish_job-KeptOrGone k now _ h
  finish-KeptOrGone k (is_canceled t) now h = finish_job-KeptOrGone k now _ h
  finish-KeptOrGone k (fails t) now h = finish_job-KeptOrGone k now _ h

-- The action does not resume the job.
abbrev pub LeavesOver : Text → Action → Type 0
LeavesOver id (resumes k) = text_eq k id ≡ false
LeavesOver id _ = Unit {0}

module _ (w : World) (v : IsSound w.manager w.workers) (id : Text) (job : ExportJob)
    (there : lookup id w.manager.jobs ≡ some job) (over : is_finished job.status.state ≡ true) where
  -- A goroutine is that of another job.
  other_worker : (k : Text) (p : Phase) → lookup k w.workers ≡ some p → text_eq k id ≡ false
  other_worker k p e = elim (Bool-cases (text_eq k id)) [
    | inr t ↦ t
    | inl t ↦
        let worker : lookup id w.workers ≡ some p =
          ap (λ i. lookup i w.workers) (sym (text_eq→eq k id t)) ∙ e in
        let found : matches (some p) (some job.status.state) ≡ true =
          ap (λ q. matches q (some job.status.state)) (sym worker)
          ∙ ap (λ o. matches (lookup id w.workers) (state_of o)) (sym there)
          ∙ v.matched id in
        absurd (not_finished p job.status.state found over)
  ]

  fresh_other : (k : Text) → lookup k w.manager.jobs ≡ none → text_eq k id ≡ false
  fresh_other k e = elim (Bool-cases (text_eq k id)) [
    | inr t ↦ t
    | inl t ↦ absurd (clash (sym e ∙ ap (λ i. lookup i w.manager.jobs) (text_eq→eq k id t) ∙ there))
  ]
    where
      clash : none ≡ some job → ⊥
      clash h = cc

  -- From a sound state, where a job that is started gets a new identifier: a job that is over stays
  -- exactly as it is or is removed, whatever the server does next, unless that is to resume it.
  pub step-KeptOrGone :
      (a : Action)
      → IsFresh w a
      → LeavesOver id a
      → KeptOrGone job (lookup id (step w a).manager.jobs)
  unfolding step mark_running update_batch update_adaptive_retry
  step-KeptOrGone (starts [] config now) fresh h = absurd fresh
  step-KeptOrGone (starts (c ∷ s) config now) fresh h =
      start-KeptOrGone w.manager v.unique id job there c s config now (fresh_other (c ∷ s) fresh)
  step-KeptOrGone (resumes k) fresh h = resume-KeptOrGone w.manager v.unique id job there k h
  step-KeptOrGone (cancels k) fresh h = cancel-KeptOrGone w.manager v.unique id job there k over
  step-KeptOrGone (begins k now) fresh h = elim (Option-cases (lookup k w.workers)) [
    | inl e ↦ rw (e, begin) (inl there)
    | inr (spawned, e) ↦
        rw (e, begin) (on_job-KeptOrGone w.manager v.unique id job there k _ (other_worker k _ e))
    | inr (exporting b n, e) ↦ rw (e, begin) (inl there)
  ]
  step-KeptOrGone (reports k p now) fresh h = elim (Option-cases (lookup k w.workers)) [
    | inl e ↦ rw (e, report) (inl there)
    | inr (spawned, e) ↦ rw (e, report) (inl there)
    | inr (exporting b n, e) ↦
        rw (e, report) (on_job-KeptOrGone w.manager v.unique id job there k _ (other_worker k _ e))
  ]
  step-KeptOrGone (retries k p) fresh h = elim (Option-cases (lookup k w.workers)) [
    | inl e ↦ rw (e, retry) (inl there)
    | inr (spawned, e) ↦ rw (e, retry) (inl there)
    | inr (exporting b n, e) ↦
        rw (e, retry) (on_job-KeptOrGone w.manager v.unique id job there k _ (other_worker k _ e))
  ]
  step-KeptOrGone (ends k outcome now) fresh h = elim (Option-cases (lookup k w.workers)) [
    | inl e ↦ rw (e, end) (inl there)
    | inr (spawned, e) ↦ rw (e, end) (inl there)
    | inr (exporting b n, e) ↦
        rw (e, end)
          (finish-KeptOrGone w.manager v.unique id job there k outcome now (other_worker k _ e))
  ]
