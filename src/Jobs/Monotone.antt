-- ===== src/Jobs/Monotone.antt =====
-- internal/server/export_jobs.go: the status of a job under `updateBatch`.
use vmgather.Prelude.{ℕ, ◌+◌, ◌≤◌, ◌<◌, arith}
use vmgather.Jobs.Defs.{ExportJob, Fraction}
use vmgather.Jobs.Progress.{BatchProgress, batch_status}

-- A fraction between 0 and 1.
abbrev pub IsProper : Fraction → Type 0
IsProper f = (0 < f.denominator) × (f.numerator ≤ f.denominator)

-- A report never takes back batches or metrics, counts the batch it is about and its metrics, and
-- leaves a progress between 0 and 1
-- where that was so before.
pub batch_status_mono :
    (now : ℕ) (job : ExportJob) (p : BatchProgress) (base_batches base_metrics : ℕ)
    → IsProper job.status.progress
    → (job.status.completed_batches
        ≤ (batch_status now job p base_batches base_metrics).completed_batches)
      × (p.batch_index ≤ (batch_status now job p base_batches base_metrics).completed_batches)
      × (job.status.metrics_processed + p.metrics
          ≤ (batch_status now job p base_batches base_metrics).metrics_processed)
      × IsProper (batch_status now job p base_batches base_metrics).progress
unfolding batch_status
batch_status_mono now job p base_batches base_metrics h =
    (ground arith, ground arith, ground arith, ground (arith, h))
