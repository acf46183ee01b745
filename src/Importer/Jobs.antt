-- ===== src/Importer/Jobs.antt =====
-- internal/importer/server/server.go: the run of an import job. A run of a job holds the job as it is, and every
-- state of it that a request for its status may have seen.
pub mod Handlers
pub mod Runs
pub mod Percents
pub mod Left
pub mod Resumed
use vmgather.Prelude.{
  ℕ, zero, suc, ◌+◌, ◌-◌, ◌*◌, ◌/◌, Bool, true, false, List, [], ◌∷◌, ◌++◌, Option, none, some,
  Text, codes, ℤ, pos, if◌then◌else◌, ltb, length,
}
use vmgather.Prelude.Decimal.{format}
use vmgather.Vm.Errors.{GoError, error_text}
use vmgather.Importer.Defs.{UploadConfig, ImportSummary, BundleInfo, Codec}
use vmgather.Importer.Lines.{Settings}
use vmgather.Importer.Stream.{Answer, accepted, refused, Target, max_import_chunk_bytes}
use vmgather.Importer.Import.{Imported, settings_of, stream_import}
use vmgather.Importer.Endpoints.{Outcome, done, failed, Client, post_import_chunk}
use vmgather.Importer.Retention.{Probe, retention_cutoff, resolve_max_labels_limit}
use vmgather.Importer.Bundles.{Files, prepare_bundle}
use vmgather.Importer.Verify.{VerificationResult, Formats, ellipsis, verify_import}
use vmgather.Importer.JobDefs.{
  ImportJob, JobState, Percent, job_completed, job_failed, job_queued, job_running, max_percent,
  new_job, no_config, started, streaming, whole,
}

-- What the run of a job uses: the parsers, the file system, the target with the queries about it, and
-- the time of each update.
pub record World : Type 0 where
  pub codec : Codec
  pub files : Files
  pub contents : Text → Text
  pub open_file : Text → Option GoError
  pub seek_file : Text → ℕ → Option GoError
  -- Reading a file fails when so many lines of it are left.
  pub read_error : Text → ℕ → Option GoError
  pub probe : Probe
  pub formats : Formats
  pub clock : ℕ → ℤ

-- `posted` and `removed` are the bodies that the target has accepted and the files that were removed.
pub record Run : Type 0 where
  pub job : ImportJob
  pub seen : List ImportJob
  pub posted : List Text
  pub removed : List Text

-- `updateJob`: the change is seen as a whole, with its time.
unfoldable pub update_job : World → (ImportJob → ImportJob) → Run → Run
update_job world change r =
    let job = record (change r.job) { updated_at = world.clock (length r.seen) } in
    record r { job = job; seen = job ∷ r.seen }

-- What a failure writes into a job.
abbrev pub failed_with : GoError → ImportJob → ImportJob
failed_with e j = record j {
  state = job_failed;
  stage = codes "failed";
  message = error_text e;
  error = error_text e;
  percent = whole 100;
}

unfoldable pub fail_job : World → GoError → Run → Run
unfolding update_job error_text
fail_job world e r = update_job world (failed_with e) r

abbrev pub remove_file : Text → Run → Run
remove_file path r = record r { removed = path ∷ r.removed }

unfoldable pub estimate_chunk_count : ℕ → ℕ
estimate_chunk_count size = (size + max_import_chunk_bytes - 1) / max_import_chunk_bytes

-- The first update of a run.
abbrev pub extracting : UploadConfig → Text → Text → Text → ℕ → ImportJob → ImportJob
extracting cfg temp_path import_url query_url start_offset j = record j {
  state = job_running;
  stage = codes "extracting";
  message = codes "Extracting bundle" ++ ellipsis;
  percent = whole 2;
  import_url = import_url;
  query_url = query_url;
  bundle_path = temp_path;
  resume_offset = start_offset;
  resume_ready = false;
  config = cfg;
}

abbrev pub importing : BundleInfo → ImportJob → ImportJob
importing bundle j = record j {
  source_bytes = bundle.original_bytes;
  inflated_bytes = bundle.extracted_bytes;
  chunks_total = estimate_chunk_count bundle.extracted_bytes;
  stage = codes "importing";
  message = codes "Streaming JSONL chunks" ++ ellipsis;
  percent = whole 5;
}

-- The callback of the stream.
unfoldable pub chunk_done : ℕ → ImportJob → ImportJob
chunk_done n j =
    let total = if ltb j.chunks_total n then n else j.chunks_total in
    let known =
      codes "Streaming chunk " ++ (format n ++ (codes "/" ++ (format total ++ ellipsis))) in
    record j {
      chunks_completed = n;
      chunks_total = total;
      percent = if ltb 0 total then streaming n total else j.percent;
      message = if ltb 0 total then known else codes "Streaming chunk " ++ (format n ++ ellipsis);
    }

unfoldable pub report_chunks : World → List ℕ → Run → Run
unfolding update_job chunk_done
report_chunks world [] r = r
report_chunks world (n ∷ ns) r = report_chunks world ns (update_job world (chunk_done n) r)

abbrev pub chunk_answer : Outcome (ℕ × Text) → Answer
chunk_answer (failed e) = refused e
chunk_answer (done (status, message)) = accepted status message

-- The requests of a run are numbered: the settings of the target take 0 to 2, the chunks follow.
abbrev pub target_of : World → UploadConfig → Text → Text → Target
target_of world cfg import_url path = record {
  open_file = world.open_file path;
  seek = world.seek_file path;
  read_error = world.read_error path;
  post_import_chunk =
      λ n body. chunk_answer (post_import_chunk world.probe.client cfg import_url (3 + n) body);
}

abbrev pub run_settings : World → UploadConfig → Settings
run_settings world cfg =
    settings_of cfg (retention_cutoff world.probe cfg 0) cfg.time_shift_ms
      (resolve_max_labels_limit world.probe cfg 2).1

abbrev pub resumable : GoError → ImportSummary → ImportJob → ImportJob
resumable e summary j = record (failed_with e j) {
  resume_offset = summary.processed_bytes;
  resume_ready = true;
  summary = some summary;
}

abbrev pub verifying : Text → ImportJob → ImportJob
verifying import_url j = record j {
  stage = codes "verifying";
  message = codes "Verifying imported metrics" ++ ellipsis;
  percent = max_percent j.percent 92;
  remote_path = import_url;
}

abbrev pub completed : ImportSummary → VerificationResult → ImportJob → ImportJob
completed summary verification j = record j {
  state = job_completed;
  stage = codes "completed";
  message = codes "Import completed";
  percent = whole 100;
  summary = some summary;
  verification = some verification;
  resume_ready = false;
  resume_offset = 0;
  bundle_path = [];
}

abbrev pub final_summary : BundleInfo → ImportSummary → ImportSummary
final_summary bundle summary = record summary {
  source_bytes = bundle.original_bytes;
  inflated_bytes = bundle.extracted_bytes;
  chunk_bytes = max_import_chunk_bytes;
}

-- After the stream: a failure leaves the files for another run, a success removes them.
abbrev pub after_stream :
    World → UploadConfig → Text → Text → Text → BundleInfo → Imported → Option GoError → Run → Run
after_stream world cfg temp_path import_url query_url bundle imported (some e) r =
    update_job world (resumable e imported.summary) r
after_stream world cfg temp_path import_url query_url bundle imported none r =
    let summary = final_summary bundle imported.summary in
    let sent = 3 + length imported.posted in
    let verification = verify_import world.formats world.probe.client cfg summary query_url sent in
    let over =
      update_job world (completed summary verification)
        (update_job world (verifying import_url) r) in
    remove_file temp_path (if bundle.is_staged then remove_file bundle.metrics_path over else over)

abbrev pub streamed : Imported → Run → Run
streamed imported r = record r { posted = r.posted ++ imported.posted }

abbrev pub stream_of : World → UploadConfig → Text → ℕ → BundleInfo → Imported
stream_of world cfg import_url start_offset bundle =
    stream_import world.codec (target_of world cfg import_url bundle.metrics_path) import_url bundle
      (run_settings world cfg) (world.contents bundle.metrics_path) start_offset

abbrev pub with_bundle :
    World → UploadConfig → Text → Text → Text → ℕ → Outcome BundleInfo → Run → Run
with_bundle world cfg temp_path import_url query_url start_offset (failed e) r =
    remove_file temp_path (fail_job world e r)
with_bundle world cfg temp_path import_url query_url start_offset (done bundle) r =
    let imported = stream_of world cfg import_url start_offset bundle in
    let placed = update_job world (λ j. record j { bundle_path = bundle.metrics_path }) r in
    after_stream world cfg temp_path import_url query_url bundle imported imported.error (
      report_chunks world imported.reported
        (streamed imported (update_job world (importing bundle) placed)))

unfoldable pub run_import_job : World → UploadConfig → Text → Text → Text → Text → ℕ → Run → Run
unfolding update_job prepare_bundle fail_job report_chunks stream_import verify_import
run_import_job world cfg temp_path original_name import_url query_url start_offset r =
    with_bundle world cfg temp_path import_url query_url start_offset
      (prepare_bundle world.files temp_path original_name r.job.source_bytes)
      (update_job world (extracting cfg temp_path import_url query_url start_offset) r)
