-- ===== src/Importer/Jobs/Resumed.antt =====
-- server.go of the importer: a job whose import fails half way, and is resumed.
use vmgather.Prelude.{
  ℕ, ◌≡◌, sym, ap, subst, ◌∙◌, true, false, ◌++◌, append_assoc, Text, codes, text_eq, to_lower,
  drop,
}
use vmgather.Prelude.Search.{has_suffix}
use vmgather.Importer.Defs.{UploadConfig, ImportSummary, BundleInfo, Codec}
use vmgather.Importer.Scanner.{scan_lines}
use vmgather.Importer.Scanner.Offsets.{NoReturn}
use vmgather.Importer.Lines.{Settings}
use vmgather.Importer.Lines.Payload.{payload}
use vmgather.Importer.Stream.Progress.{concatenated}
use vmgather.Importer.Import.{Imported}
use vmgather.Importer.Import.Resume.{Ran, stream_import-Ran, runs_joined}
use vmgather.Importer.Endpoints.{done}
use vmgather.Importer.Bundles.{prepare_bundle}
use vmgather.Importer.JobDefs.{job_completed}
use vmgather.Importer.Jobs.{World, Run, stream_of, run_settings, target_of, run_import_job}
use vmgather.Importer.Jobs.Handlers.{requeued, resume_job}
use vmgather.Importer.Jobs.Left.{
  concatenated-append, Left, Finishing, run_import_job-Finishing, run_import_job-Left,
}

-- A run that finishes a job, from the offset of the first one.
Finishing-joined :
    (w v : World) (cfg dfg : UploadConfig) (import_url again_url path : Text) (offset : ℕ)
    (bundle : BundleInfo) (z : ImportSummary) (r first second : Run)
    → v.codec ≡ w.codec
    → v.contents bundle.metrics_path ≡ w.contents bundle.metrics_path
    → run_settings v cfg ≡ run_settings w cfg
    → dfg ≡ cfg
    → path ≡ bundle.metrics_path
    → offset ≡ (stream_of w cfg import_url 0 bundle).summary.processed_bytes
    → NoReturn (w.contents bundle.metrics_path)
    → first.posted ≡ r.posted ++ (stream_of w cfg import_url 0 bundle).posted
    → Finishing v dfg path again_url offset first second
    → concatenated second.posted
      ≡ concatenated r.posted
        ++ payload w.codec (run_settings w cfg) z (scan_lines (w.contents bundle.metrics_path))
Finishing-joined w v cfg dfg import_url again_url path offset bundle z r first second ec ef es ed ep
      eo h p (again, ea, succeeded, q) =
    ap concatenated (
      q
      ∙ ap (λ t. t ++ (stream_of v dfg again_url offset again).posted) p
      ∙ append_assoc r.posted _ _)
    ∙ concatenated-append r.posted _
    ∙ ap (λ t. concatenated r.posted ++ t)
        (concatenated-append (stream_of w cfg import_url 0 bundle).posted _
          ∙ runs_joined w.codec (run_settings w cfg) z (w.contents bundle.metrics_path)
              (stream_of w cfg import_url 0 bundle) (stream_of v dfg again_url offset again) h
              (stream_import-Ran w.codec (run_settings w cfg) bundle
                (target_of w cfg import_url bundle.metrics_path) import_url
                (w.contents bundle.metrics_path) z 0)
              (moved (stream_of v dfg again_url offset again) ec (ap (run_settings v) ed ∙ es) eo
                (ap v.contents (ea ∙ ep) ∙ ef)
                (stream_import-Ran v.codec (run_settings v dfg) again
                  (target_of v dfg again_url again.metrics_path) again_url
                  (v.contents again.metrics_path) z offset))
              succeeded)
  where
    moved :
        {c d : Codec} {s t : Settings} {m n : ℕ} {f g : Text} (x : Imported)
        → c ≡ d
        → s ≡ t
        → m ≡ n
        → f ≡ g
        → Ran c s z m x (scan_lines (drop m f))
        → Ran d t z n x (scan_lines (drop n g))
    moved x a b c d k = rw (← a, ← b, ← c, ← d) k

-- A job is run with a bundle whose metrics file has no carriage returns and no name of an archive; it
-- fails and can be resumed. It is resumed and completed, with the same codec, the same file, and the same
-- cutoff, shift and limit, but whatever answers of the target before and after. Then the bodies that the
-- target has accepted in both runs hold what the lines of the file give, each once and in their order.
pub resume_job-completed :
    (w v : World) (cfg : UploadConfig) (temp_path original_name import_url query_url : Text)
    (base : Text → Text) (bundle : BundleInfo) (z : ImportSummary) (r first second : Run)
    → prepare_bundle w.files temp_path original_name r.job.source_bytes ≡ done bundle
    → first ≡ run_import_job w cfg temp_path original_name import_url query_url 0 r
    → first.job.resume_ready ≡ true
    → second ≡ resume_job v base first
    → second.job.state ≡ job_completed
    → v.codec ≡ w.codec
    → v.contents bundle.metrics_path ≡ w.contents bundle.metrics_path
    → run_settings v cfg ≡ run_settings w cfg
    → has_suffix (to_lower bundle.metrics_path) (codes ".zip") ≡ false
    → text_eq (to_lower (v.files.ext (base bundle.metrics_path))) (codes ".zip") ≡ false
    → NoReturn (w.contents bundle.metrics_path)
    → concatenated second.posted
      ≡ concatenated r.posted
        ++ payload w.codec (run_settings w cfg) z (scan_lines (w.contents bundle.metrics_path))
unfolding resume_job requeued
resume_job-completed w v cfg temp_path original_name import_url query_url base bundle z r first
      second prepared e1 ready e2 over ec ef es zip1 zip2 h =
    Finishing-joined w v cfg first.job.config import_url first.job.import_url first.job.bundle_path
      first.job.resume_offset bundle z r first second ec ef es left.2 left.0 left.3 h left.4
      (subst
        (λ (s : Run).
          Finishing v first.job.config first.job.bundle_path first.job.import_url
            first.job.resume_offset first s)
        (sym e2)
        (run_import_job-Finishing v first.job.config first.job.bundle_path
          (base first.job.bundle_path) first.job.import_url first.job.query_url
          first.job.resume_offset (record first { job = requeued first.job })
          (subst (λ p. has_suffix (to_lower p) (codes ".zip") ≡ false) (sym left.0) zip1)
          (subst (λ p. text_eq (to_lower (v.files.ext (base p))) (codes ".zip") ≡ false)
            (sym left.0) zip2)
          (subst (λ (s : Run). s.job.state ≡ job_completed) e2 over)))
  where
    left :
        Left w cfg temp_path import_url query_url
          (stream_of w cfg import_url 0 bundle)
          bundle
          r
          first
    left =
        subst
          (λ (s : Run).
            Left w cfg temp_path import_url query_url (stream_of w cfg import_url 0 bundle) bundle r
              s)
          (sym e1)
          (run_import_job-Left w cfg temp_path original_name import_url query_url 0 bundle r
            prepared (subst (λ (s : Run). s.job.resume_ready ≡ true) e1 ready))
