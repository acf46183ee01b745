-- ===== src/Jobs/Manager.antt =====
-- internal/server/export_jobs.go: what the HTTP handlers call. A call returns the new manager with
-- its answer; the current time is an argument. A job that is started or resumed has a goroutine
-- started for it, which Jobs/Progress has the steps of.
use vmgather.Prelude.{
  ℕ, ℤ, ◌+◌, ◌-◌, Bool, true, false, not, ◌&&◌, List, [], ◌∷◌, ◌++◌, Option, none, some, Text,
  codes, pos, ltb, leb, ◌==◌, if◌then◌else◌, text_eq, lookup, insert, length,
}
use vmgather.Prelude.Decimal.{format}
use vmgather.Domain.{TimeRange, ExportConfig, duration_seconds, sub_time}
use vmgather.Batching.{calculate_batch_windows}
use vmgather.Jobs.Defs.{
  ExportJobStatus, ExportJob, ExportJobManager, pending, is_finished, is_resumable,
}

-- `now.Sub(*CompletedAt) > m.retention`, for a job that is over.
abbrev pub is_expired : ℕ → ℕ → ExportJobStatus → Bool
is_expired retention now s =
    is_finished s.state
    && (elim s.completed_at [ none ↦ false | some at ↦ ltb retention (now - at) ])

unfoldable pub remove_expired : ℕ → ℕ → List (Text × ExportJob) → List (Text × ExportJob)
remove_expired retention now [] = []
remove_expired retention now ((id, job) ∷ jobs) =
    let rest = remove_expired retention now jobs in
    if is_expired retention now job.status then rest else (id, job) ∷ rest

unfoldable pub cleanup_locked : ExportJobManager → ℕ → ExportJobManager
unfolding remove_expired
cleanup_locked m now = record m { jobs = remove_expired m.retention now m.jobs }

pub data JobError : Type 0 where
  too_many : ℕ → JobError
  not_found not_resumable already_finished : Text → JobError

pub data Reply : Type 0 where
  accepted : ExportJobStatus → Reply
  refused : JobError → Reply

-- The length of the first window, in seconds.
abbrev pub first_window_seconds : List TimeRange → ℤ
first_window_seconds [] = pos 0
first_window_seconds (w ∷ ws) = duration_seconds (sub_time w.end w.start)

unfoldable pub new_status : Text → ExportConfig → ℕ → ExportJobStatus
new_status job_id config now =
    let windows = calculate_batch_windows config.time_range config.batching in
    record {
      id = job_id;
      state = pending;
      created_at = now;
      started_at = none;
      completed_at = none;
      total_batches = (let total = length windows in if total == 0 then 1 else total);
      completed_batches = 0;
      progress = record { numerator = 0; denominator = 1 };
      metrics_processed = 0;
      batch_window_seconds = first_window_seconds windows;
      average_batch = record { numerator = 0; denominator = 1 };
      last_batch_duration = 0;
      eta = none;
      staging_path = config.staging_file;
      obfuscation_enabled = config.obfuscation.enabled;
      adaptive_retries = 0;
      last_error_kind = [];
      current_strategy = [];
      current_step_seconds = 0;
      result = none;
      error = [];
      current_range = none;
    }

unfoldable pub new_job : Text → ExportConfig → ℕ → ExportJob
unfolding new_status
new_job job_id config now = record {
  status = new_status job_id config now;
  duration_total = 0;
  cancel = true;
  context_canceled = false;
  config = config;
  resume_from = 0;
  base_metrics = 0;
}

-- fmt.Sprintf("job-%d", time.Now().UnixNano()) when no identifier is given.
abbrev pub or_generated : Text → ℕ → Text
or_generated [] now = codes "job-" ++ format now
or_generated (c ∷ s) now = c ∷ s

unfoldable pub start_job : ExportJobManager → Text → ExportConfig → ℕ → ExportJobManager × Reply
unfolding new_job cleanup_locked
start_job m given config now =
    let job_id = or_generated given now in
    let job = new_job job_id config now in
    let cleaned = cleanup_locked m now in
    if leb cleaned.max_concurrent_jobs cleaned.active_jobs
    then (cleaned, refused (too_many cleaned.max_concurrent_jobs))
    else (
      record cleaned {
        jobs = insert job_id job cleaned.jobs;
        active_jobs = cleaned.active_jobs + 1;
      },
      accepted job.status,
    )

unfoldable pub get_status : ExportJobManager → Text → Option ExportJobStatus
get_status m job_id = elim (lookup job_id m.jobs) [ none ↦ none | some job ↦ some job.status ]

abbrev pub resume_config : ExportJob → ExportConfig
resume_config job = record job.config {
  resume_from_batch = pos job.status.completed_batches;
  staging_file =
      if text_eq job.status.staging_path []
      then job.config.staging_file
      else job.status.staging_path;
}

-- The job that `ResumeJob` leaves behind.
unfoldable pub resumed : ExportJob → ExportJob
resumed job = record job {
  cancel = true;
  context_canceled = false;
  config = resume_config job;
  resume_from = job.status.completed_batches;
  base_metrics = job.status.metrics_processed;
  duration_total = 0;
  status = record job.status {
    staging_path = (resume_config job).staging_file;
    state = pending;
    error = [];
    result = none;
    completed_at = none;
    eta = none;
    adaptive_retries = 0;
    last_error_kind = [];
    current_strategy = [];
    current_step_seconds = 0;
  };
}

unfoldable pub resume_job : ExportJobManager → Text → ExportJobManager × Reply
unfolding resumed
resume_job m job_id = elim (lookup job_id m.jobs) [
  | none ↦ (m, refused (not_found job_id))
  | some job ↦
      if not (is_resumable job.status.state)
      then (m, refused (not_resumable job_id))
      else if leb m.max_concurrent_jobs m.active_jobs
      then (m, refused (too_many m.max_concurrent_jobs))
      else (
        record m { jobs = insert job_id (resumed job) m.jobs; active_jobs = m.active_jobs + 1 },
        accepted (resumed job).status,
      )
]

-- `none` is a nil error.
unfoldable pub cancel_job : ExportJobManager → Text → ExportJobManager × Option JobError
cancel_job m job_id = elim (lookup job_id m.jobs) [
  | none ↦ (m, some (not_found job_id))
  | some job ↦
      if is_finished job.status.state
      then (m, some (already_finished job_id))
      else if job.cancel
      then (record m { jobs = insert job_id (record job { context_canceled = true }) m.jobs }, none)
      else (m, none)
]
