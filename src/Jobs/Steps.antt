-- ===== src/Jobs/Steps.antt =====
-- internal/server/export_jobs.go: the invariant of `Jobs.Invariant` under every action.
use vmgather.Prelude.{
  ℕ, ◌+◌, ◌-◌, ◌≤◌, ◌≡◌, refl, inl, inr, true, List, [], ◌∷◌, none, some, Text, lookup, insert,
  delete, lookup-insert, lookup-delete, leb, Bool-cases, Option-cases, arith, subst,
}
use vmgather.Domain.{ExportConfig}
use vmgather.Jobs.Defs.{
  ExportJob, ExportJobManager, ExportJobState, ExportJobStatus, pending, running, is_finished,
  is_resumable, new_export_job_manager,
}
use vmgather.Jobs.Manager.{cleanup_locked, start_job, resume_job, cancel_job, new_job, resumed}
use vmgather.Jobs.Progress.{
  mark_running, job_finished_locked, update_batch, update_adaptive_retry, BatchProgress,
  AdaptiveRetryProgress, release_context, finish_job, on_job,
}
use vmgather.Jobs.World.{
  Phase, spawned, exporting, World, initial, Outcome, succeeds, is_canceled, fails, Action, starts,
  resumes, cancels, begins, reports, retries, ends, spawn, bases, begin, report, retry, end, finish,
  step, IsFresh, Reach, here, next,
}
use vmgather.Jobs.Records.{
  weight, state_of, count_unfinished, count_unfinished-insert, lookup-remove_expired,
}
use vmgather.Jobs.Invariant.{
  matches, IsSound, cleanup_locked-IsSound, put-IsSound, same_state-IsSound,
}

no_job : (p : Phase) → matches (some p) none ≡ true → ⊥
no_job spawned h = cc
no_job (exporting b n) h = cc

is_pending : (s : ExportJobState) → matches (some spawned) (some s) ≡ true → s ≡ pending
is_pending s h = ground arith

is_running :
    (b n : ℕ) (s : ExportJobState) → matches (some (exporting b n)) (some s) ≡ true → s ≡ running
is_running b n s h = ground arith

module _ (m : ExportJobManager) (ws : List (Text × Phase)) (v : IsSound m ws) where
  start-IsSound :
      (c : ℕ) (s : Text) (config : ExportConfig) (now : ℕ)
      → lookup (c ∷ s) m.jobs ≡ none
      → let (m', reply) = start_job m (c ∷ s) config now in IsSound m' (spawn (c ∷ s) reply ws)
  unfolding start_job
  start-IsSound c s config now fresh =
      let k = c ∷ s in
      let cleaned = cleanup_locked m now in
      let clean : IsSound cleaned ws = cleanup_locked-IsSound m ws now v in
      elim (Bool-cases (leb m.max_concurrent_jobs m.active_jobs)) [
        | inl full ↦ rw full clean
        | inr room ↦ rw room (
            put-IsSound cleaned ws (insert k spawned ws) k (new_job k config now) (some spawned)
              (m.active_jobs + 1) clean (λ id. lookup-insert k id spawned ws) refl
              (rw (lookup-remove_expired k m.retention now m.jobs v.unique, fresh) (omega arith))
              (ground arith))
      ]

  resume-IsSound : (k : Text) → let (m', reply) = resume_job m k in IsSound m' (spawn k reply ws)
  unfolding resume_job
  resume-IsSound k = elim (Option-cases (lookup k m.jobs)) [
    | inl e ↦ rw (e, resume_job) v
    | inr (job, e) ↦ elim (Bool-cases (is_resumable job.status.state)) [
      | inr t ↦ rw (e, resume_job) (rw t v)
      | inl t ↦ elim (Bool-cases (leb m.max_concurrent_jobs m.active_jobs)) [
        | inl full ↦ rw (e, resume_job) (rw t (rw full v))
        | inr room ↦
            rw (e, resume_job)
              (rw t (
                rw room (
                  put-IsSound m ws (insert k spawned ws) k (resumed job) (some spawned)
                    (m.active_jobs + 1) v (λ id. lookup-insert k id spawned ws) refl
                    (rw e (ground arith)) (ground arith))))
      ]
    ]
  ]

  cancel-IsSound : (k : Text) → IsSound (cancel_job m k).0 ws
  unfolding cancel_job
  cancel-IsSound k = elim (Option-cases (lookup k m.jobs)) [
    | inl e ↦ rw (e, cancel_job) v
    | inr (job, e) ↦ elim (Bool-cases (is_finished job.status.state)) [
      | inl t ↦ rw (e, cancel_job) (rw t v)
      | inr t ↦ elim (Bool-cases job.cancel) [
        | inl c ↦
            rw (e, cancel_job)
              (rw t (
                rw c (
                  same_state-IsSound m ws k job
                    (record job { cancel = true; context_canceled = true }) v e refl)))
        | inr c ↦ rw (e, cancel_job) (rw t (rw c v))
      ]
    ]
  ]

  -- A goroutine has a job.
  worker_has_job :
      (k : Text) (p : Phase)
      → lookup k ws ≡ some p
      → (job : ExportJob) × (lookup k m.jobs ≡ some job)
        × (matches (some p) (some job.status.state) ≡ true)
  worker_has_job k p e =
      let h : matches (some p) (state_of (lookup k m.jobs)) ≡ true =
        subst (λ q. matches q (state_of (lookup k m.jobs)) ≡ true) e (v.matched k) in
      elim (Option-cases (lookup k m.jobs)) [
        | inl n ↦ absurd (no_job p (subst (λ o. matches (some p) (state_of o) ≡ true) n h))
        | inr (job, f) ↦ (job, f, subst (λ o. matches (some p) (state_of o) ≡ true) f h)
      ]

  begin-IsSound :
      (k : Text) (now : ℕ)
      → lookup k ws ≡ some spawned
      → IsSound (mark_running m k now) (insert k (bases (lookup k m.jobs)) ws)
  unfolding mark_running
  begin-IsSound k now e =
      let (job, f, h) = worker_has_job k spawned e in
      let waiting = is_pending job.status.state h in
      rw (f, on_job)
        (put-IsSound m ws (insert k (exporting job.resume_from job.base_metrics) ws) k
          (record job { status = record job.status { state = running; started_at = some now } })
          (some (exporting job.resume_from job.base_metrics)) m.active_jobs v
          (λ id. lookup-insert k id _ ws) refl (rw (f, waiting)) v.capped)

  report-IsSound :
      (k : Text) (p : BatchProgress) (b n now : ℕ)
      → lookup k ws ≡ some (exporting b n)
      → IsSound (update_batch m k p b n now) ws
  unfolding update_batch
  report-IsSound k p b n now e =
      let (job, f, h) = worker_has_job k (exporting b n) e in
      rw (f, on_job) (same_state-IsSound m ws k job _ v f refl)

  retry-IsSound :
      (k : Text) (p : AdaptiveRetryProgress) (b n : ℕ)
      → lookup k ws ≡ some (exporting b n)
      → IsSound (update_adaptive_retry m k p) ws
  unfolding update_adaptive_retry
  retry-IsSound k p b n e =
      let (job, f, h) = worker_has_job k (exporting b n) e in
      rw (f, on_job) (same_state-IsSound m ws k job _ v f refl)

  finish_job-IsSound :
      (k : Text) (b n now : ℕ) (change : ExportJobStatus → ExportJobStatus)
      → lookup k ws ≡ some (exporting b n)
      → ((s : ExportJobStatus) → is_finished (change s).state ≡ true)
      → IsSound (finish_job m k now change) (delete k ws)
  unfolding job_finished_locked
  finish_job-IsSound k b n now change e over =
      let (job, f, h) = worker_has_job k (exporting b n) e in
      let busy = is_running b n job.status.state h in
      let job' = record (release_context job) { status = change job.status } in
      let one : weight (lookup k m.jobs) ≡ 1 = rw (f, busy) in
      let zero_left : weight (some job') ≡ 0 = rw (over job.status) in
      let some_left : 1 ≤ m.active_jobs =
        omega (arith, count_unfinished-insert k job' m.jobs, v.counted, one, zero_left) in
      rw (f, finish_job)
        (cleanup_locked-IsSound _ (delete k ws) now (
          put-IsSound m ws (delete k ws) k job' none (m.active_jobs - 1) v
            (λ id. lookup-delete k id ws) (over job.status) (omega (arith, one, zero_left))
            (omega (arith, v.capped))))

  end-IsSound :
      (k : Text) (outcome : Outcome) (b n now : ℕ)
      → lookup k ws ≡ some (exporting b n)
      → IsSound (finish m k outcome now) (delete k ws)
  unfolding finish
  end-IsSound k (succeeds r) b n now e = finish_job-IsSound k b n now _ e (λ s. refl)
  end-IsSound k (is_canceled t) b n now e = finish_job-IsSound k b n now _ e (λ s. refl)
  end-IsSound k (fails t) b n now e = finish_job-IsSound k b n now _ e (λ s. refl)

pub step-IsSound :
    (w : World) (a : Action)
    → IsFresh w a
    → IsSound w.manager w.workers
    → IsSound (step w a).manager (step w a).workers
unfolding step
step-IsSound w (starts [] config now) fresh v = absurd fresh
step-IsSound w (starts (c ∷ s) config now) fresh v =
    start-IsSound w.manager w.workers v c s config now fresh
step-IsSound w (resumes k) fresh v = resume-IsSound w.manager w.workers v k
step-IsSound w (cancels k) fresh v = cancel-IsSound w.manager w.workers v k
step-IsSound w (begins k now) fresh v = elim (Option-cases (lookup k w.workers)) [
  | inl e ↦ rw (e, begin) v
  | inr (spawned, e) ↦ rw (e, begin) (begin-IsSound w.manager w.workers v k now e)
  | inr (exporting b n, e) ↦ rw (e, begin) v
]
step-IsSound w (reports k p now) fresh v = elim (Option-cases (lookup k w.workers)) [
  | inl e ↦ rw (e, report) v
  | inr (spawned, e) ↦ rw (e, report) v
  | inr (exporting b n, e) ↦ rw (e, report) (report-IsSound w.manager w.workers v k p b n now e)
]
step-IsSound w (retries k p) fresh v = elim (Option-cases (lookup k w.workers)) [
  | inl e ↦ rw (e, retry) v
  | inr (spawned, e) ↦ rw (e, retry) v
  | inr (exporting b n, e) ↦ rw (e, retry) (retry-IsSound w.manager w.workers v k p b n e)
]
step-IsSound w (ends k outcome now) fresh v = elim (Option-cases (lookup k w.workers)) [
  | inl e ↦ rw (e, end) v
  | inr (spawned, e) ↦ rw (e, end) v
  | inr (exporting b n, e) ↦ rw (e, end) (end-IsSound w.manager w.workers v k outcome b n now e)
]

initial-IsSound : IsSound initial.manager initial.workers
unfolding initial new_export_job_manager count_unfinished lookup
initial-IsSound = record { unique = tt; matched = λ id. refl; counted = refl; capped = omega arith }

-- In every state that the server reaches, whatever the order of requests and goroutines, where each
-- job that is started gets a new identifier: the number
-- of active jobs is the number of jobs that are pending or running, and is at most the limit; each
-- job has one record; and a job has a goroutine exactly when it is pending (one not yet marked as
-- running) or running (one inside the export).
pub Reach-IsSound : {w : World} → Reach initial w → IsSound w.manager w.workers
Reach-IsSound here = initial-IsSound
Reach-IsSound (next {u = u} r a fresh) = step-IsSound u a fresh (Reach-IsSound r)
