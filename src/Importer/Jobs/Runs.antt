-- ===== src/Importer/Jobs/Runs.antt =====
-- server.go of the importer: how the run of a job ends.
use vmgather.Prelude.{
  ℕ, ◌≡◌, refl, ap, ◌∙◌, ◌⊎◌, inl, inr, true, false, List, [], ◌∷◌, Option, none, some, Text,
  if-both,
}
use vmgather.Vm.Errors.{GoError}
use vmgather.Importer.Defs.{UploadConfig, BundleInfo}
use vmgather.Importer.Import.{Imported}
use vmgather.Importer.Endpoints.{Outcome, done, failed}
use vmgather.Importer.Bundles.{prepare_bundle}
use vmgather.Importer.JobDefs.{job_completed, job_failed}
use vmgather.Importer.Jobs.{
  World, Run, update_job, fail_job, chunk_done, report_chunks, after_stream, stream_of, with_bundle,
  run_import_job, remove_file,
}

-- What the reports of chunks leave alone.
abbrev pub SameRun : Run → Run → Type 0
SameRun r q =
    (r.job.bundle_path ≡ q.job.bundle_path)
    × (r.job.import_url ≡ q.job.import_url)
    × (r.job.query_url ≡ q.job.query_url)
    × (r.job.config ≡ q.job.config)
    × (r.posted ≡ q.posted)
    × (r.removed ≡ q.removed)

pub report_chunks-SameRun :
    (world : World) (ns : List ℕ) (r : Run) → SameRun (report_chunks world ns r) r
unfolding report_chunks update_job chunk_done
report_chunks-SameRun world [] r = (refl, refl, refl, refl, refl, refl)
report_chunks-SameRun world (n ∷ ns) r = report_chunks-SameRun world ns _

-- The job is completed, and cannot be resumed.
abbrev pub Completed : Run → Type 0
Completed r =
    (r.job.state ≡ job_completed)
    × (r.job.resume_ready ≡ false)
    × (r.job.resume_offset ≡ 0)
    × (r.job.bundle_path ≡ [])

-- The job failed and can be resumed, and its files are those of the run before.
abbrev pub Resumable : Run → Run → Type 0
Resumable before r =
    (r.job.state ≡ job_failed) × (r.job.resume_ready ≡ true) × (r.removed ≡ before.removed)

-- The job failed before anything was sent, and the uploaded file is gone.
abbrev pub Unprepared : Text → Run → Run → Type 0
Unprepared temp_path before r =
    (r.job.state ≡ job_failed)
    × (r.job.resume_ready ≡ false)
    × (r.posted ≡ before.posted)
    × (r.removed ≡ temp_path ∷ before.removed)

abbrev pub Over : Text → Run → Run → Type 0
Over temp_path before r = Completed r ⊎ (Resumable before r ⊎ Unprepared temp_path before r)

module _ (world : World) (cfg : UploadConfig) (temp_path import_url query_url : Text) where
  after_stream-Over :
      (bundle : BundleInfo) (imported : Imported) (o : Option GoError) (before r : Run)
      → r.removed ≡ before.removed
      → Over temp_path before
          (after_stream world cfg temp_path import_url query_url bundle imported o r)
  unfolding update_job
  after_stream-Over bundle imported (some e) before r h = inr (inl (refl, refl, h))
  after_stream-Over bundle imported none before r h = inl (
      if-both (λ (q : Run). Completed (remove_file temp_path q)) bundle.is_staged _ _
        (refl, refl, refl, refl) (refl, refl, refl, refl))

  with_bundle-Over :
      (start_offset : ℕ) (o : Outcome BundleInfo) (before r : Run)
      → r.removed ≡ before.removed
      → r.posted ≡ before.posted
      → r.job.resume_ready ≡ false
      → Over temp_path before
          (with_bundle world cfg temp_path import_url query_url start_offset o r)
  unfolding fail_job update_job
  with_bundle-Over start_offset (failed e) before r h p q =
      inr (inr (refl, q, p, ap (λ t. temp_path ∷ t) h))
  with_bundle-Over start_offset (done bundle) before r h p q =
      after_stream-Over bundle (stream_of world cfg import_url start_offset bundle)
        (stream_of world cfg import_url start_offset bundle).error before _
        ((report_chunks-SameRun world (stream_of world cfg import_url start_offset bundle).reported
            _).5
          ∙ h)

-- The run of a job, whatever the files, the target and the time do, ends: the job is completed and
-- cannot be resumed; or it failed and can be resumed, and no file was removed; or it failed and cannot be
-- resumed, nothing was sent, and the uploaded file was removed.
pub run_import_job-Over :
    (world : World) (cfg : UploadConfig) (temp_path original_name import_url query_url : Text)
    (start_offset : ℕ) (r : Run)
    → Over temp_path r
        (run_import_job world cfg temp_path original_name import_url query_url start_offset r)
unfolding run_import_job update_job
run_import_job-Over world cfg temp_path original_name import_url query_url start_offset r =
    with_bundle-Over world cfg temp_path import_url query_url start_offset
      (prepare_bundle world.files temp_path original_name r.job.source_bytes) r _ refl refl refl
