-- ===== src/Jobs/Progress.antt =====
-- internal/server/export_jobs.go: what the goroutine of a job does to its record (`runJob`, the
-- `mark...` and `update...` methods, and the reporter).
use vmgather.Prelude.{
  ℕ, ◌+◌, ◌-◌, ◌*◌, ◌/◌, false, ◌&&◌, ◌||◌, Option, none, some, Text, codes, ltb, leb,
  if◌then◌else◌, lookup, insert,
}
use vmgather.Domain.{TimeRange, ExportResult, second}
use vmgather.Jobs.Defs.{
  ExportJobStatus, ExportJob, ExportJobManager, Fraction, running, completed, failed, canceled,
}
use vmgather.Jobs.Manager.{cleanup_locked}

-- services.BatchProgress and services.AdaptiveRetryProgress
pub record BatchProgress : Type 0 where
  pub batch_index : ℕ
  pub total_batches : ℕ
  pub time_range : TimeRange
  pub metrics : ℕ
  pub duration : ℕ

pub record AdaptiveRetryProgress : Type 0 where
  pub retries : ℕ
  pub time_range : TimeRange
  pub error_kind : Text
  pub strategy : Text
  pub step_seconds : ℕ

-- The update of a job that is in the map; a missing one is left alone.
abbrev pub on_job : ExportJobManager → Text → (ExportJob → ExportJob) → ExportJobManager
on_job m job_id change = elim (lookup job_id m.jobs) [
  | none ↦ m
  | some job ↦ record m { jobs = insert job_id (change job) m.jobs }
]

unfoldable pub mark_running : ExportJobManager → Text → ℕ → ExportJobManager
mark_running m job_id now =
    on_job m job_id
      λ job. record job { status = record job.status { state = running; started_at = some now } }

unfoldable pub job_finished_locked : ExportJobManager → ℕ → ExportJobManager
job_finished_locked m now = cleanup_locked (record m { active_jobs = m.active_jobs - 1 }) now

-- `job.cancel()` if it is set, and no cancel function from there on.
abbrev pub release_context : ExportJob → ExportJob
release_context job = record job {
  cancel = false;
  context_canceled = job.context_canceled || job.cancel;
}

-- The record of a job that ends, and its place given back.
abbrev pub finish_job :
    ExportJobManager → Text → ℕ → (ExportJobStatus → ExportJobStatus) → ExportJobManager
finish_job m job_id now change = elim (lookup job_id m.jobs) [
  | none ↦ m
  | some job ↦
      job_finished_locked
        (record m {
          jobs = insert job_id (record (release_context job) { status = change job.status }) m.jobs;
        })
        now
]

abbrev pub failed_status : ℕ → Text → ExportJobStatus → ExportJobStatus
failed_status now message s = record s {
  state = failed;
  completed_at = some now;
  error = message;
  current_range = none;
}

unfoldable pub mark_failed : ExportJobManager → Text → Text → ℕ → ExportJobManager
unfolding job_finished_locked
mark_failed m job_id message now = finish_job m job_id now (failed_status now message)

abbrev pub completed_status : ℕ → ExportResult → ExportJobStatus → ExportJobStatus
completed_status now result s = record s {
  state = completed;
  completed_at = some now;
  progress = record { numerator = 1; denominator = 1 };
  result = some result;
  current_range = none;
  eta = none;
}

unfoldable pub mark_completed : ExportJobManager → Text → ExportResult → ℕ → ExportJobManager
unfolding job_finished_locked
mark_completed m job_id result now = finish_job m job_id now (completed_status now result)

abbrev pub message_or_canceled : Option Text → Text
message_or_canceled none = codes "canceled"
message_or_canceled (some message) = message

abbrev pub canceled_status : ℕ → Option Text → ExportJobStatus → ExportJobStatus
canceled_status now message s = record s {
  state = canceled;
  completed_at = some now;
  error = message_or_canceled message;
  eta = none;
  current_range = none;
}

unfoldable pub mark_canceled : ExportJobManager → Text → Option Text → ℕ → ExportJobManager
unfolding job_finished_locked
mark_canceled m job_id message now = finish_job m job_id now (canceled_status now message)

-- float64(CompletedBatches) / float64(TotalBatches), at most 1.
abbrev pub progress_of : ℕ → ℕ → Fraction → Fraction
progress_of done total old =
    if ltb 0 total
    then (if ltb total done
        then record { numerator = 1; denominator = 1 }
        else record { numerator = done; denominator = total })
    else old

-- The batches that the current run has observed.
abbrev pub observed_batches : ℕ → ℕ → ℕ
observed_batches done base = if leb done base then done else done - base

-- `time.Duration(avg * float64(remaining)) * time.Second`, the average in seconds.
abbrev pub eta_of : ℕ → Fraction → ℕ → Option ℕ
eta_of now avg remaining =
    if ltb 0 remaining && ltb 0 avg.numerator
    then some (now + avg.numerator * remaining / (avg.denominator * second) * second)
    else none

unfoldable pub batch_status : ℕ → ExportJob → BatchProgress → ℕ → ℕ → ExportJobStatus
batch_status now job p base_batches base_metrics =
    let s = job.status in
    let total = if ltb 0 p.total_batches then p.total_batches else s.total_batches in
    let done =
      if ltb s.completed_batches p.batch_index then p.batch_index else s.completed_batches in
    let metrics =
      if ltb 0 base_metrics && ltb s.metrics_processed base_metrics
      then base_metrics
      else s.metrics_processed in
    let observed = observed_batches done base_batches in
    let avg : Fraction = record {
      numerator = job.duration_total + p.duration;
      denominator = observed;
    } in
    record s {
      total_batches = total;
      completed_batches = done;
      progress = progress_of done total s.progress;
      metrics_processed = metrics + p.metrics;
      last_batch_duration = p.duration;
      average_batch = if ltb 0 done then avg else s.average_batch;
      eta = if ltb 0 done then eta_of now avg (total - done) else s.eta;
      current_range = some p.time_range;
    }

unfoldable pub update_batch : ExportJobManager → Text → BatchProgress → ℕ → ℕ → ℕ → ExportJobManager
unfolding batch_status
update_batch m job_id p base_batches base_metrics now = on_job m job_id λ job. record job {
  duration_total = job.duration_total + p.duration;
  status = batch_status now job p base_batches base_metrics;
}

unfoldable pub update_adaptive_retry :
    ExportJobManager → Text → AdaptiveRetryProgress → ExportJobManager
update_adaptive_retry m job_id p = on_job m job_id λ job. record job {
  status = record job.status {
    adaptive_retries = p.retries;
    last_error_kind = p.error_kind;
    current_strategy = p.strategy;
    current_step_seconds = p.step_seconds;
    current_range = some p.time_range;
  };
}
