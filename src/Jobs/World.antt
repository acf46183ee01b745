-- ===== src/Jobs/World.antt =====
-- The manager of internal/server/export_jobs.go together with its goroutines (`runJob`). An action is
-- a method call that holds the lock; a list of actions is one interleaving of the handlers and the
-- goroutines. What the export service reports and returns is chosen by the action.
use vmgather.Prelude.{ℕ, List, [], ◌∷◌, Option, none, some, Text, lookup, insert, delete, ◌≡◌}
use vmgather.Domain.{ExportConfig, ExportResult}
use vmgather.Jobs.Defs.{ExportJob, ExportJobManager, new_export_job_manager}
use vmgather.Jobs.Manager.{Reply, accepted, refused, start_job, resume_job, cancel_job}
use vmgather.Jobs.Progress.{
  BatchProgress, AdaptiveRetryProgress, mark_running, mark_failed, mark_completed, mark_canceled,
  update_batch, update_adaptive_retry,
}

-- Where a goroutine stands: before `markRunning`, or inside `ExecuteExport` with its reporter's bases.
pub data Phase : Type 0 where
  spawned : Phase
  exporting : ℕ → ℕ → Phase

pub record World : Type 0 where
  pub manager : ExportJobManager
  pub workers : List (Text × Phase)

unfoldable pub initial : World
unfolding new_export_job_manager
initial = record { manager = new_export_job_manager; workers = [] }

-- What `ExecuteExport` returns: a result, an error that is `context.Canceled`, or another error.
pub data Outcome : Type 0 where
  succeeds : ExportResult → Outcome
  is_canceled fails : Text → Outcome

pub data Action : Type 0 where
  starts : Text → ExportConfig → ℕ → Action
  resumes : Text → Action
  cancels : Text → Action
  begins : Text → ℕ → Action
  reports : Text → BatchProgress → ℕ → Action
  retries : Text → AdaptiveRetryProgress → Action
  ends : Text → Outcome → ℕ → Action

-- A goroutine is started where the call is accepted.
abbrev pub spawn : Text → Reply → List (Text × Phase) → List (Text × Phase)
spawn job_id (accepted s) workers = insert job_id spawned workers
spawn job_id (refused e) workers = workers

-- The start of `runJob`: the bases are read, then the job is marked as running.
abbrev pub bases : Option ExportJob → Phase
bases none = exporting 0 0
bases (some job) = exporting job.resume_from job.base_metrics

unfoldable pub finish : ExportJobManager → Text → Outcome → ℕ → ExportJobManager
unfolding mark_completed mark_failed mark_canceled
finish m job_id (succeeds result) now = mark_completed m job_id result now
finish m job_id (is_canceled message) now = mark_canceled m job_id (some message) now
finish m job_id (fails message) now = mark_failed m job_id message now

abbrev pub begin : World → Text → ℕ → Option Phase → World
begin w job_id now (some spawned) = record w {
  manager = mark_running w.manager job_id now;
  workers = insert job_id (bases (lookup job_id w.manager.jobs)) w.workers;
}
begin w job_id now _ = w

abbrev pub report : World → Text → BatchProgress → ℕ → Option Phase → World
report w job_id p now (some (exporting batches metrics)) = record w {
  manager = update_batch w.manager job_id p batches metrics now;
}
report w job_id p now _ = w

abbrev pub retry : World → Text → AdaptiveRetryProgress → Option Phase → World
retry w job_id p (some (exporting batches metrics)) = record w {
  manager = update_adaptive_retry w.manager job_id p;
}
retry w job_id p _ = w

abbrev pub end : World → Text → Outcome → ℕ → Option Phase → World
end w job_id outcome now (some (exporting batches metrics)) = record w {
  manager = finish w.manager job_id outcome now;
  workers = delete job_id w.workers;
}
end w job_id outcome now _ = w

-- An action of a goroutine that is not there, or not that far, does nothing.
unfoldable pub step : World → Action → World
step w (starts job_id config now) =
    let (m, reply) = start_job w.manager job_id config now in
    record { manager = m; workers = spawn job_id reply w.workers }
step w (resumes job_id) =
    let (m, reply) = resume_job w.manager job_id in
    record { manager = m; workers = spawn job_id reply w.workers }
step w (cancels job_id) = record w { manager = (cancel_job w.manager job_id).0 }
step w (begins job_id now) = begin w job_id now (lookup job_id w.workers)
step w (reports job_id p now) = report w job_id p now (lookup job_id w.workers)
step w (retries job_id p) = retry w job_id p (lookup job_id w.workers)
step w (ends job_id outcome now) = end w job_id outcome now (lookup job_id w.workers)

-- A new job has an identifier, and no other job has it: it is made from the time in nanoseconds.
abbrev pub IsFresh : World → Action → Type 0
IsFresh w (starts [] config now) = ⊥
IsFresh w (starts (c ∷ s) config now) = lookup (c ∷ s) w.manager.jobs ≡ none
IsFresh w _ = Unit {0}

pub data Reach (w : World) : World → Type 0 where
  here : Reach w w
  next : {u : World} → Reach w u → (a : Action) → IsFresh u a → Reach w (step u a)
