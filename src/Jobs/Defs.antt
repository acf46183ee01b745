-- ===== src/Jobs/Defs.antt =====
-- internal/server/export_jobs.go: the records. A `float64` that the code gets by dividing is kept as
-- the fraction; an unset pointer is `none`. The service and the lock have no state here: every method
-- holds the lock from end to end, so it is one step.
use vmgather.Prelude.{ℤ, ℕ, ◌*◌, Bool, true, false, List, [], Option, Text}
use vmgather.Domain.{TimeRange, ExportConfig, ExportResult, second}

pub data ExportJobState : Type 0 where
  pending running completed failed canceled : ExportJobState

abbrev pub default_max_concurrent_jobs : ℕ
default_max_concurrent_jobs = 3

abbrev pub default_job_retention : ℕ
default_job_retention = 30 * 60 * second

-- numerator / denominator
pub record Fraction : Type 0 where
  pub numerator : ℕ
  pub denominator : ℕ

pub record ExportJobStatus : Type 0 where
  pub id : Text
  pub state : ExportJobState
  pub created_at : ℕ
  pub started_at : Option ℕ
  pub completed_at : Option ℕ
  pub total_batches : ℕ
  pub completed_batches : ℕ
  pub progress : Fraction
  pub metrics_processed : ℕ
  pub batch_window_seconds : ℤ
  -- In nanoseconds, for each batch observed.
  pub average_batch : Fraction
  pub last_batch_duration : ℕ
  pub eta : Option ℕ
  pub staging_path : Text
  pub obfuscation_enabled : Bool
  pub adaptive_retries : ℕ
  pub last_error_kind : Text
  pub current_strategy : Text
  pub current_step_seconds : ℕ
  pub result : Option ExportResult
  pub error : Text
  pub current_range : Option TimeRange

-- `cancel` says whether the cancel function is set, `context_canceled` whether it was called.
pub record ExportJob : Type 0 where
  pub status : ExportJobStatus
  pub duration_total : ℕ
  pub cancel : Bool
  pub context_canceled : Bool
  pub config : ExportConfig
  pub resume_from : ℕ
  pub base_metrics : ℕ

pub record ExportJobManager : Type 0 where
  pub jobs : List (Text × ExportJob)
  pub max_concurrent_jobs : ℕ
  pub retention : ℕ
  pub active_jobs : ℕ

unfoldable pub new_export_job_manager : ExportJobManager
new_export_job_manager = record {
  jobs = [];
  max_concurrent_jobs = default_max_concurrent_jobs;
  retention = default_job_retention;
  active_jobs = 0;
}

-- The states in which a job is over.
abbrev pub is_finished : ExportJobState → Bool
is_finished completed = true
is_finished failed = true
is_finished canceled = true
is_finished _ = false

-- The states that a job can be resumed from.
abbrev pub is_resumable : ExportJobState → Bool
is_resumable failed = true
is_resumable canceled = true
is_resumable _ = false
