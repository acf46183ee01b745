-- ===== src/Export/Service.antt =====
-- export_service.go: `ExecuteExport`. The staging file is the list of its lines, or
-- `none` where there is no such file.
use vmgather.Prelude.{
  ℕ, suc, ◌+◌, Bool, false, ◌&&◌, ◌||◌, List, [], ◌∷◌, ◌++◌, Option, none, some, Text, codes, ℤ,
  pos, pos_part, ltb_ℤ, leb_ℤ, eq_ℤ, if◌then◌else◌, text_eq, length, drop,
}
use vmgather.Domain.{TimeRange, ExportConfig, ExportResult}
use vmgather.Batching.{calculate_batch_windows}
use vmgather.Defaults.{apply_export_service_defaults}
use vmgather.Jobs.Progress.{BatchProgress}
use vmgather.Obfuscation.{Obfuscator, new_obfuscator, get_mappings}
use vmgather.Vm.Errors.{GoError, wrap}
use vmgather.Export.Split.{unique_strings}
use vmgather.Export.Backend.{Backend, Result, ok, fail}
use vmgather.Export.Process.{RunState, AdaptiveExportStats, Decision, new_export_attempt}
use vmgather.Export.Adaptive.{
  Lines, Run, Outcome, done, failed, out_of_fuel, export_window_adaptive,
}

-- archive.ArchiveMetadata
pub record ArchiveMetadata : Type 0 where
  pub export_id : Text
  pub export_date : ℕ
  pub time_range : TimeRange
  pub components : List Text
  pub jobs : List Text
  pub metrics_count : ℕ
  pub obfuscated : Bool
  pub instance_map : List (Text × Text)
  pub job_map : List (Text × Text)
  pub adaptive_mode : Text
  pub metric_step_seconds : ℤ
  pub max_metric_step_seconds : ℤ
  pub sampled : Bool
  pub adaptive_decisions : List Decision
  pub vmgather_version : Text

-- What the export asks of the operating system, of its context and of the archive writer.
pub record Host : Type 0 where
  pub generate_export_id : Text
  pub output_dir : Text
  pub vmgather_version : Text
  pub now : ℕ
  pub join_path : Text → Text → Text
  pub base_name : Text → Text
  pub make_dir : Text → Option GoError
  pub open_staging : Text → Option GoError
  pub open_source : Text → Option GoError
  -- `ctx.Done()` before a batch, and the time that the batch took
  pub context_done : ℕ → Option GoError
  pub batch_duration : ℕ → ℕ
  pub create_archive : Text → Lines → ArchiveMetadata → Result (Text × Text)
  pub get_archive_size : Text → Result ℕ
  -- Whether os.Remove removes the file.
  pub removes : Text → Bool

-- `initializeStagingFile`, where the file opens: its content is kept or dropped.
unfoldable pub initialize_staging_file : Option Lines → Bool → Lines
initialize_staging_file none preserve = []
initialize_staging_file (some lines) preserve = if preserve then lines else []

unfoldable pub start_index : ℤ → ℕ → ℕ
start_index resume_from_batch windows =
    if ltb_ℤ resume_from_batch (pos 0) || leb_ℤ (pos windows) resume_from_batch
    then 0
    else pos_part resume_from_batch

-- What the loop over the batches leaves: the staging file, the state, the progress reported, and how
-- it ended.
pub record BatchRun : Type 0 where
  pub staging : Lines
  pub state : RunState
  pub progress : List BatchProgress
  pub outcome : Outcome

abbrev pub ended : Lines → RunState → Outcome → BatchRun
ended main st o = record { staging = main; state = st; progress = []; outcome = o }

abbrev pub report : BatchProgress → BatchRun → BatchRun
report p r = record r { progress = p ∷ r.progress }

abbrev pub batch_progress : Host → List TimeRange → TimeRange → ℕ → ℕ → BatchProgress
batch_progress host windows window index count = record {
  batch_index = index + 1;
  total_batches = length windows;
  time_range = window;
  metrics = count;
  duration = host.batch_duration index;
}

-- The end of a round: the progress is reported and the loop goes on, or the error is passed up.
abbrev pub after_batch :
    (ℕ → BatchProgress) → (Lines → RunState → ℕ → BatchRun) → ℕ → Run → BatchRun
after_batch progress rest total (st, main, done count) =
    report (progress count) (rest main st (total + count))
after_batch progress rest total (st, main, failed e) =
    ended main st (failed (wrap (codes "metrics processing failed") e))
after_batch progress rest total (st, main, out_of_fuel) = ended main st out_of_fuel

-- A round is not started once the context is done.
abbrev pub unless_done : Lines → RunState → Option GoError → BatchRun → BatchRun
unless_done main st (some e) r = ended main st (failed e)
unless_done main st none r = r

module _ (host : Host) (b : Backend) (config : ExportConfig) (fuel : ℕ)
    (windows : List TimeRange) where
  -- The rounds of `ExecuteExport` from the batch `index` on, where `left` are the windows from there.
  unfoldable pub run_batches : List TimeRange → ℕ → Lines → RunState → ℕ → BatchRun
  unfolding new_export_attempt export_window_adaptive
  run_batches [] index main st total = ended main st (done total)
  run_batches (window ∷ left) index main st total = unless_done main st (host.context_done index) (
      after_batch (batch_progress host windows window index) (run_batches left (suc index)) total (
        export_window_adaptive b config fuel (new_export_attempt config window) main
          (record st { retry_count = 0 })))

abbrev pub first_state : ExportConfig → RunState
first_state config = record {
  calls = 0;
  obfuscator = if config.obfuscation.enabled then some new_obfuscator else none;
  retry_count = 0;
  stats = record {
    mode = config.safety.mode;
    max_step_seconds_used = config.metric_step_seconds;
    sampled = false;
    decisions = [];
  };
  reported = [];
}

-- The maps of an obfuscator that was used; the metadata of an export without one holds none.
abbrev pub mappings : Option Obfuscator → List (Text × Text) × List (Text × Text)
mappings none = ([], [])
mappings (some o) = get_mappings o

unfoldable pub build_archive_metadata :
    Host → Text → ExportConfig → ℕ → Option Obfuscator → AdaptiveExportStats → ArchiveMetadata
unfolding unique_strings
build_archive_metadata host export_id config count o stats = record {
  export_id = export_id;
  export_date = host.now;
  time_range = config.time_range;
  components = unique_strings config.components;
  jobs = unique_strings config.jobs;
  metrics_count = count;
  obfuscated = config.obfuscation.enabled;
  instance_map = (mappings o).0;
  job_map = (mappings o).1;
  adaptive_mode = stats.mode;
  metric_step_seconds = if stats.sampled then stats.max_step_seconds_used else pos 0;
  max_metric_step_seconds = config.safety.max_step_seconds;
  sampled = stats.sampled;
  adaptive_decisions = stats.decisions;
  vmgather_version = host.vmgather_version;
}

-- The result, or the error; without enough fuel neither.
pub data Finish : Type 0 where
  exported_as : ExportResult → Finish
  rejected : GoError → Finish
  unfinished : Finish

-- The end of an export: the staging file it leaves, the progress reported, and the result.
pub record Export : Type 0 where
  pub staging_file : Option Lines
  pub progress : List BatchProgress
  pub finish : Finish

abbrev pub stop : Option Lines → GoError → Export
stop file e = record { staging_file = file; progress = []; finish = rejected e }

abbrev pub sized : Text → ExportConfig → ℕ → Text → Text → Host → Result ℕ → Finish
sized export_id config count path sum host (ok size) = exported_as (record {
  export_id = export_id;
  archive_path = path;
  archive_name = host.base_name path;
  archive_size_bytes = size;
  metrics_exported = count;
  time_range = config.time_range;
  obfuscation_applied = config.obfuscation.enabled;
  sha256 = sum;
})
sized export_id config count path sum host (fail e) =
    rejected (wrap (codes "failed to get archive size") e)

abbrev pub archived : Text → ExportConfig → ℕ → Host → Result (Text × Text) → Finish
archived export_id config count host (ok (path, sum)) =
    sized export_id config count path sum host (host.get_archive_size path)
archived export_id config count host (fail e) = rejected (wrap (codes "archive creation failed") e)

-- Steps 3 and 4: the archive, made of what the staging file holds.
abbrev pub archive_opened : Host → Text → ExportConfig → BatchRun → ℕ → Option GoError → Finish
archive_opened host export_id config r count (some e) =
    rejected (wrap (codes "failed to open staging file for archive") e)
archive_opened host export_id config r count none = archived export_id config count host (
    host.create_archive export_id r.staging
      (build_archive_metadata host export_id config count r.state.obfuscator r.state.stats))

-- A fresh export removes the staging file once the archive is there.
abbrev pub kept_file : Host → ExportConfig → Lines → Finish → Option Lines
kept_file host config main (exported_as result) =
    if eq_ℤ config.resume_from_batch (pos 0) && host.removes config.staging_file
    then none
    else some main
kept_file host config main (rejected e) = some main
kept_file host config main unfinished = some main

abbrev pub close_export : Host → Text → ExportConfig → BatchRun → Outcome → Export
close_export host export_id config r (done count) =
    let finish =
      archive_opened host export_id config r count (host.open_source config.staging_file) in
    record {
      staging_file = kept_file host config r.staging finish;
      progress = r.progress;
      finish = finish;
    }
close_export host export_id config r (failed e) = record {
  staging_file = some r.staging;
  progress = r.progress;
  finish = rejected e;
}
close_export host export_id config r out_of_fuel = record {
  staging_file = some r.staging;
  progress = r.progress;
  finish = unfinished;
}

-- The staging directory and file that the configuration names, or the default ones.
abbrev pub staging_dir_of : Host → ExportConfig → Text
staging_dir_of host config =
    if text_eq config.staging_dir []
    then host.join_path host.output_dir (codes "staging")
    else config.staging_dir

abbrev pub with_staging_file : Host → ExportConfig → ExportConfig
with_staging_file host config =
    if text_eq config.staging_file []
    then record config {
      staging_file =
          host.join_path (staging_dir_of host config)
            (host.generate_export_id ++ codes ".partial.jsonl");
    }
    else config

abbrev pub batches_from : Host → Backend → ExportConfig → ℕ → List TimeRange → Lines → BatchRun
batches_from host b config fuel windows main =
    let first = start_index config.resume_from_batch (length windows) in
    run_batches host b config fuel windows (drop first windows) first main (first_state config) 0

abbrev pub run_export : Host → Backend → ExportConfig → ℕ → Option Lines → Export
run_export host b config fuel stored =
    let r =
      batches_from host b config fuel (calculate_batch_windows config.time_range config.batching)
        (initialize_staging_file stored (ltb_ℤ (pos 0) config.resume_from_batch)) in
    close_export host host.generate_export_id config r r.outcome

abbrev pub open_export : Host → Backend → ExportConfig → ℕ → Option Lines → Option GoError → Export
open_export host b config fuel stored (some e) =
    stop stored (wrap (codes "failed to initialize staging file") e)
open_export host b config fuel stored none = run_export host b config fuel stored

abbrev pub make_export : Host → Backend → ExportConfig → ℕ → Option Lines → Option GoError → Export
make_export host b config fuel stored (some e) =
    stop stored (wrap (codes "failed to prepare staging directory") e)
make_export host b config fuel stored none =
    open_export host b config fuel stored (host.open_staging config.staging_file)

-- `ExecuteExport`, where `stored` is what the staging file holds before. The fuel is for each window.
unfoldable pub execute_export : Host → Backend → ExportConfig → ℕ → Option Lines → Export
unfolding apply_export_service_defaults calculate_batch_windows run_batches start_index
    initialize_staging_file build_archive_metadata
execute_export host b config fuel stored =
    let c = with_staging_file host (apply_export_service_defaults config) in
    make_export host b c fuel stored (host.make_dir (staging_dir_of host c))
