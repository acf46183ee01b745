-- ===== src/Importer/Jobs/Left.antt =====
-- server.go of the importer: what a run leaves for another one, and what a last run has sent.
use vmgather.Prelude.{
  ℕ, ◌≡◌, refl, sym, ap, ◌∙◌, Bool, true, false, ◌||◌, List, [], ◌∷◌, ◌++◌, append_assoc, Option,
  none, some, Text, codes, text_eq, to_lower, if-both, if◌then◌else◌,
}
use vmgather.Prelude.Search.{has_suffix}
use vmgather.Vm.Errors.{GoError}
use vmgather.Importer.Defs.{UploadConfig, BundleInfo}
use vmgather.Importer.Stream.Progress.{concatenated}
use vmgather.Importer.Import.{Imported}
use vmgather.Importer.Endpoints.{Outcome, done, failed}
use vmgather.Importer.Bundles.{Files, sized_bundle, plain_bundle, prepare_bundle}
use vmgather.Importer.JobDefs.{job_completed}
use vmgather.Importer.Jobs.{
  World, Run, update_job, fail_job, after_stream, stream_of, with_bundle, extracting,
  run_import_job,
}
use vmgather.Importer.Jobs.Runs.{report_chunks-SameRun}

pub concatenated-append :
    (xs ys : List Text) → concatenated (xs ++ ys) ≡ concatenated xs ++ concatenated ys
unfolding concatenated
concatenated-append [] ys = refl
concatenated-append (x ∷ xs) ys =
    ap (λ t. x ++ t) (concatenated-append xs ys) ∙ sym (append_assoc x _ _)

module _ (world : World) (cfg : UploadConfig) (temp_path import_url query_url : Text) where
  -- What a failure of the stream leaves in the job for another run.
  abbrev pub Left : Imported → BundleInfo → Run → Run → Type 0
  Left imported bundle before r =
      (r.job.bundle_path ≡ bundle.metrics_path)
      × (r.job.import_url ≡ import_url)
      × (r.job.config ≡ cfg)
      × (r.job.resume_offset ≡ imported.summary.processed_bytes)
      × (r.posted ≡ before.posted ++ imported.posted)

  after_stream-Left :
      (bundle : BundleInfo) (imported : Imported) (o : Option GoError) (before r : Run)
      → r.job.bundle_path ≡ bundle.metrics_path
      → r.job.import_url ≡ import_url
      → r.job.config ≡ cfg
      → r.posted ≡ before.posted ++ imported.posted
      → (after_stream world cfg temp_path import_url query_url bundle imported o r).job.resume_ready
        ≡ true
      → Left imported bundle before
          (after_stream world cfg temp_path import_url query_url bundle imported o r)
  unfolding update_job
  after_stream-Left bundle imported (some e) before r a b c d h = (a, b, c, refl, d)
  after_stream-Left bundle imported none before r a b c d h = absurd (
      not_both (if-both (λ (q : Run). q.job.resume_ready ≡ false) bundle.is_staged _ _ refl refl) h)
    where
      not_both : {b : Bool} → b ≡ false → b ≡ true → ⊥
      not_both k l = cc

  -- A run that completes the job had no error, and its bodies are those of the stream.
  after_stream-completed :
      (bundle : BundleInfo) (imported : Imported) (o : Option GoError) (r : Run)
      → (after_stream world cfg temp_path import_url query_url bundle imported o r).job.state
        ≡ job_completed
      → (o ≡ none)
        × ((after_stream world cfg temp_path import_url query_url bundle imported o r).posted
            ≡ r.posted)
  unfolding update_job
  after_stream-completed bundle imported (some e) r h = cc
  after_stream-completed bundle imported none r h =
      (refl, if-both (λ (q : Run). q.posted ≡ r.posted) bundle.is_staged _ _ refl refl)

  with_bundle-Left :
      (start_offset : ℕ) (bundle : BundleInfo) (before r : Run)
      → r.job.import_url ≡ import_url
      → r.job.config ≡ cfg
      → r.posted ≡ before.posted
      → (with_bundle world cfg temp_path import_url query_url start_offset
          (done bundle)
          r).job.resume_ready
        ≡ true
      → Left
          (stream_of world cfg import_url start_offset bundle)
          bundle
          before
          (with_bundle world cfg temp_path import_url query_url start_offset (done bundle) r)
  unfolding update_job
  with_bundle-Left start_offset bundle before r b c d h =
      let same =
        report_chunks-SameRun world (stream_of world cfg import_url start_offset bundle).reported
          _ in
      after_stream-Left bundle (stream_of world cfg import_url start_offset bundle)
        (stream_of world cfg import_url start_offset bundle).error before _ same.0 (same.1 ∙ b)
        (same.3 ∙ c)
        (same.4 ∙ ap (λ t. t ++ (stream_of world cfg import_url start_offset bundle).posted) d) h

  with_bundle-completed :
      (start_offset : ℕ) (bundle : BundleInfo) (r : Run)
      → (with_bundle world cfg temp_path import_url query_url start_offset
          (done bundle)
          r).job.state
        ≡ job_completed
      → ((stream_of world cfg import_url start_offset bundle).error ≡ none)
        × ((with_bundle world cfg temp_path import_url query_url start_offset
              (done bundle)
              r).posted
            ≡ r.posted ++ (stream_of world cfg import_url start_offset bundle).posted)
  unfolding update_job
  with_bundle-completed start_offset bundle r h =
      let same =
        report_chunks-SameRun world (stream_of world cfg import_url start_offset bundle).reported
          _ in
      let over =
        after_stream-completed bundle (stream_of world cfg import_url start_offset bundle)
          (stream_of world cfg import_url start_offset bundle).error _ h in
      (over.0, over.1 ∙ same.4)

-- A bundle that is no archive is its own metrics file.
prepare_bundle-plain :
    (files : Files) (path name : Text) (uploaded : ℕ)
    → has_suffix (to_lower path) (codes ".zip") ≡ false
    → text_eq (to_lower (files.ext name)) (codes ".zip") ≡ false
    → prepare_bundle files path name uploaded ≡ plain_bundle files path uploaded
unfolding prepare_bundle
prepare_bundle-plain files path name uploaded h k =
    rw (k, h)
      (same
        (text_eq (to_lower (files.ext name)) (codes ".jsonl")
          || text_eq (to_lower (files.ext name)) (codes ".json"))
        (plain_bundle files path uploaded))
  where
    same : (t : Bool) (x : Outcome BundleInfo) → (if t then x else x) ≡ x
    same true x = refl
    same false x = refl

-- What a run that completes a job with a bundle that is no archive has sent.
abbrev pub Finishing : World → UploadConfig → Text → Text → ℕ → Run → Run → Type 0
Finishing world cfg path import_url start_offset before r =
    (bundle : BundleInfo) × (bundle.metrics_path ≡ path)
    × ((stream_of world cfg import_url start_offset bundle).error ≡ none)
    × (r.posted ≡ before.posted ++ (stream_of world cfg import_url start_offset bundle).posted)

with_bundle-Finishing :
    (world : World) (cfg : UploadConfig) (path import_url query_url : Text)
    (start_offset uploaded : ℕ) (size : Outcome ℕ) (r : Run)
    → (with_bundle world cfg path import_url query_url start_offset
        (sized_bundle path uploaded size)
        r).job.state
      ≡ job_completed
    → Finishing world cfg path import_url start_offset r (
        with_bundle world cfg path import_url query_url start_offset
          (sized_bundle path uploaded size)
          r)
unfolding fail_job update_job
with_bundle-Finishing world cfg path import_url query_url start_offset uploaded (failed e) r h = cc
with_bundle-Finishing world cfg path import_url query_url start_offset uploaded (done n) r h =
    let over = with_bundle-completed world cfg path import_url query_url start_offset _ r h in
    (_, refl, over.0, over.1)

pub run_import_job-Finishing :
    (world : World) (cfg : UploadConfig) (path name import_url query_url : Text) (start_offset : ℕ)
    (r : Run)
    → has_suffix (to_lower path) (codes ".zip") ≡ false
    → text_eq (to_lower (world.files.ext name)) (codes ".zip") ≡ false
    → (run_import_job world cfg path name import_url query_url start_offset r).job.state
      ≡ job_completed
    → Finishing world cfg path import_url start_offset r
        (run_import_job world cfg path name import_url query_url start_offset r)
unfolding run_import_job update_job
run_import_job-Finishing world cfg path name import_url query_url start_offset r h k =
    rw (prepare_bundle-plain world.files path name r.job.source_bytes h k) (
      with_bundle-Finishing world cfg path import_url query_url start_offset r.job.source_bytes
        (world.files.size path)
        (update_job world (extracting cfg path import_url query_url start_offset) r))

pub run_import_job-Left :
    (world : World) (cfg : UploadConfig) (path name import_url query_url : Text) (start_offset : ℕ)
    (bundle : BundleInfo) (r : Run)
    → prepare_bundle world.files path name r.job.source_bytes ≡ done bundle
    → (run_import_job world cfg path name import_url query_url start_offset r).job.resume_ready
      ≡ true
    → Left world cfg path import_url query_url
        (stream_of world cfg import_url start_offset bundle)
        bundle
        r
        (run_import_job world cfg path name import_url query_url start_offset r)
unfolding run_import_job update_job
run_import_job-Left world cfg path name import_url query_url start_offset bundle r e = rw (e) (
    with_bundle-Left world cfg path import_url query_url start_offset bundle r
      (update_job world (extracting cfg path import_url query_url start_offset) r) refl refl refl)
