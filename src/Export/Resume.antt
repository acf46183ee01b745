-- ===== src/Export/Resume.antt =====
-- A job resumed by export_jobs.go and the start of its export in export_service.go.
use vmgather.Prelude.{ℕ, ◌<◌, ◌≡◌, ◌⊎◌, inl, inr, pos, arith, ltb_ℤ, ltb, some, Bool-cases}
use vmgather.Jobs.Defs.{ExportJob}
use vmgather.Jobs.Manager.{resumed}
use vmgather.Export.Adaptive.{Lines}
use vmgather.Export.Service.{start_index, initialize_staging_file}

-- The export of a resumed job starts after the batches that were completed and keeps what the staging
-- file holds, where some but not all batches were completed; with none completed it starts over with
-- an empty file.
pub resumed-start_index :
    (job : ExportJob) (n : ℕ) (lines : Lines)
    → job.status.completed_batches < n
    → (start_index (resumed job).config.resume_from_batch n ≡ job.status.completed_batches)
      × ((initialize_staging_file
              (some lines)
              (ltb_ℤ (pos 0) (resumed job).config.resume_from_batch)
            ≡ lines)
          ⊎ (job.status.completed_batches ≡ 0))
unfolding resumed start_index initialize_staging_file
resumed-start_index job n lines h = elim (Bool-cases (ltb 0 job.status.completed_batches)) [
  | inl e ↦ (ground (arith, h), inl (ground (arith, e)))
  | inr e ↦ (ground (arith, h), inr (ground (arith, e)))
]
