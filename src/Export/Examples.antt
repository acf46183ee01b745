-- ===== src/Export/Examples.antt =====
-- The theorems on the export at a concrete server, whose first answers to a window are timeouts.
use vmgather.Prelude.{
  ℕ, sym, ap, ◌∙◌, length, ◌*◌, ◌≡◌, ◌⊎◌, inl, refl, true, false, List, [], ◌∷◌, ◌++◌, none, some,
  Text, codes, pos, text_eq, if◌then◌else◌, leb, ltb_ℤ, arith, mul_int64,
}
use vmgather.Domain.{
  ExportConfig, TimeRange, ObfuscationConfig, second, mode_cluster, no_obfuscation, sub_time,
}
use vmgather.Batching.{calculate_batch_windows, batch_windows, select_batch_interval}
use vmgather.Defaults.{apply_export_service_defaults, apply_export_defaults}
use vmgather.Jobs.Defs.{ExportJob}
use vmgather.Jobs.Manager.{new_job, resumed}
use vmgather.Obfuscation.{new_obfuscator}
use vmgather.Vm.Errors.{error_kind_of, api_kind, api, query_timeout}
use vmgather.Export.Metric.{Labels, ExportedMetric, drop_labels}
use vmgather.Export.Split.{determine_query_range_step, split_time_range}
use vmgather.Export.Backend.{
  query_chunks, export_series, export_points, export_point, Backend, Result, ok, fail, Series,
  number, text, whole, AppendsWhole,
}
use vmgather.Export.Process.{
  fetch_and_process_attempt, fetch_attempt_reader, export_via_query_range, process_metrics,
  ExportAttempt, RunState, by_query_range,
}
use vmgather.Export.Adaptive.{Outcome, export_window_adaptive}
use vmgather.Export.Service.{
  Host, execute_export, run_batches, start_index, first_state, with_staging_file,
  initialize_staging_file,
}
use vmgather.Export.Atomic.{Committed, export_window_adaptive-Committed}
use vmgather.Export.Fuel.{Ends, export_window_adaptive-Ends}
use vmgather.Export.Batches.{Reported, run_batches-Reported}
use vmgather.Export.Archive.{ArchivedAs, kept_lines, execute_export-ArchivedAs}
use vmgather.Export.Finish.{enough_fuel, IsFinished, execute_export-IsFinished}
use vmgather.Export.Halves.{IsHalved, split_time_range-IsHalved}
use vmgather.Export.Again.{ReportsAll, windows_of, execute_export-again}
use vmgather.Export.Failures.{decisions_of, failures}
use vmgather.Export.Labels.{AllCleaned, process_metrics-AllCleaned}
use vmgather.Export.Retries.{Recorded, export_window_adaptive-Recorded}
use vmgather.Export.Plans.{plan_for, timeout_plan}
use vmgather.Export.Adaptive.{
  run_split_attempts_atomically, run_children, respond, note_retry, done,
}
use vmgather.Export.Resume.{resumed-start_index}

abbrev series : List Series
series =
    record {
      metric = (codes "__name__", codes "up") ∷ (codes "job", codes "shop") ∷ [];
      values = (number (pos 1000) ∷ text (codes "1") ∷ []) ∷ [];
    }
    ∷ []

-- Where one of the first three calls is a query, it times out.
abbrev answer : ℕ → Result (List Series)
answer n = if leb n 2 then fail (api 422 (codes "query timeout") query_timeout) else ok series

abbrev server : Backend
server = record {
  export = λ n selector tr. fail (api 422 (codes "query timeout") query_timeout);
  query_range = λ n selector tr step. answer n;
  parse_float = λ s. some s;
  create_file = λ n. none;
  write_metric = λ n. none;
  context_error = λ n. none;
  close_reader = λ n. none;
  flush_file = λ n. none;
  close_file = λ n. none;
  append_file = λ n. whole;
  sha256 = λ s. s;
}

server-AppendsWhole : AppendsWhole server
server-AppendsWhole n = inl refl

abbrev host : Host
host = record {
  generate_export_id = codes "export-1";
  output_dir = codes "out";
  vmgather_version = codes "dev";
  now = 0;
  join_path = λ a b. a ++ (codes "/" ++ b);
  base_name = λ s. s;
  make_dir = λ s. none;
  open_staging = λ s. none;
  open_source = λ s. none;
  context_done = λ n. none;
  batch_duration = λ n. second;
  create_archive = λ id lines meta. ok (codes "out/export-1.zip", id);
  get_archive_size = λ path. ok 10;
  removes = λ s. true;
}

abbrev window : TimeRange
window = record { start = 0; end = 60 * second }

abbrev config : ExportConfig
config = record {
  connection = record {
    url = codes "http://vm:8428";
    api_base_path = [];
    tenant_id = [];
    is_multitenant = false;
    full_api_url = [];
    auth = record {
      auth_type = codes "none";
      username = [];
      password = [];
      token = [];
      header_name = [];
      header_value = [];
    };
    skip_tls_verify = false;
    debug = false;
  };
  time_range = window;
  components = [];
  jobs = codes "shop" ∷ [];
  mode = mode_cluster;
  query_type = [];
  query = [];
  obfuscation = no_obfuscation [];
  batching = record { enabled = true; strategy = codes "custom"; custom_interval_secs = pos 30 };
  safety = record {
    mode = codes "autopilot";
    auto_split = true;
    split_by_job = true;
    split_by_metric_name = false;
    min_window_seconds = pos 5;
    max_split_depth = pos 8;
    max_step_seconds = pos 300;
    step_ladder_seconds = pos 30 ∷ pos 60 ∷ [];
  };
  staging_dir = [];
  staging_file = codes "out/a.partial.jsonl";
  resume_from_batch = pos 2;
  metric_step_seconds = pos 30;
  output_settings = record { format = []; compression = []; archive_name = [] };
}

abbrev attempt : ExportAttempt
attempt = record {
  selector = codes "{job=\"shop\"}";
  time_range = window;
  use_query_range = true;
  depth = 0;
  jobs = codes "shop" ∷ [];
  strategy = by_query_range;
  step_seconds = pos 30;
}

abbrev line : ExportedMetric
line = record { metric = []; values = codes "2" ∷ []; timestamps = pos 5 ∷ [] }

abbrev state : RunState
state = first_state config

abbrev fuel : ℕ
fuel = 5000

export_window_adaptive-Committed_example :
    Committed (line ∷ []) (export_window_adaptive server config fuel attempt (line ∷ []) state)
export_window_adaptive-Committed_example =
    export_window_adaptive-Committed server server-AppendsWhole config fuel attempt (line ∷ [])
      state

export_window_adaptive-Ends_example :
    Ends (export_window_adaptive server config fuel attempt (line ∷ []) state).2
export_window_adaptive-Ends_example =
    export_window_adaptive-Ends server config fuel attempt (line ∷ []) state (omega arith)

export_window_adaptive-Recorded_example :
    Recorded state
      (decisions_of config (failures server config fuel attempt (line ∷ []) state))
      (export_window_adaptive server config fuel attempt (line ∷ []) state).0
export_window_adaptive-Recorded_example =
    export_window_adaptive-Recorded server config fuel attempt (line ∷ []) state

abbrev split_run : Outcome
split_run = (export_window_adaptive server config 9 attempt (line ∷ []) state).2

-- The first query of the window times out; its halves give a line each.
split_run_lem : split_run ≡ done 2
unfolding export_window_adaptive run_split_attempts_atomically run_children respond plan_for
    timeout_plan fetch_and_process_attempt fetch_attempt_reader export_via_query_range query_chunks
    export_series export_points export_point process_metrics drop_labels split_time_range sub_time
    mul_int64 error_kind_of api_kind note_retry determine_query_range_step
split_run_lem = refl

abbrev windows : List TimeRange
windows =
    record { start = 0; end = 30 * second } ∷ record { start = 30 * second; end = 60 * second } ∷ []

run_batches-Reported_example :
    Reported windows 0
      (line ∷ [])
      0
      (run_batches host server config fuel windows windows 0 (line ∷ []) state 0)
run_batches-Reported_example =
    run_batches-Reported host windows server server-AppendsWhole config fuel windows 0 (line ∷ [])
      state 0

execute_export-ArchivedAs_example :
    ArchivedAs host
      (kept_lines config (some (line ∷ [])))
      (execute_export host server config fuel (some (line ∷ []))).finish
execute_export-ArchivedAs_example =
    execute_export-ArchivedAs host server server-AppendsWhole fuel (some (line ∷ [])) config

execute_export-IsFinished_example :
    IsFinished
      (execute_export host server config
        (enough_fuel (with_staging_file host (apply_export_service_defaults config)))
        (some (line ∷ []))).finish
execute_export-IsFinished_example =
    execute_export-IsFinished host server
      (enough_fuel (with_staging_file host (apply_export_service_defaults config)))
      (some (line ∷ [])) config (omega arith)

-- The defaults leave the windows of this configuration alone.
two_windows : calculate_batch_windows config.time_range config.batching ≡ windows
unfolding calculate_batch_windows batch_windows select_batch_interval mul_int64 text_eq
two_windows = refl

same_batching :
    (with_staging_file host (apply_export_service_defaults config)).batching ≡ config.batching
unfolding apply_export_service_defaults apply_export_defaults text_eq
same_batching = refl

same_range : (with_staging_file host (apply_export_service_defaults config)).time_range ≡ window
unfolding apply_export_service_defaults apply_export_defaults text_eq
same_range = refl

windows_lem : windows_of host config ≡ windows
windows_lem =
    ap
      (λ tr.
        calculate_batch_windows tr
          (with_staging_file host (apply_export_service_defaults config)).batching)
      same_range
    ∙ ap (calculate_batch_windows window) same_batching
    ∙ two_windows

execute_export-again_example :
    let x = execute_export host server config fuel (some (line ∷ [])) in
    ReportsAll 0 (windows_of host config) x.progress x.finish × ArchivedAs host (line ∷ []) x.finish
execute_export-again_example =
    execute_export-again host server fuel (line ∷ []) config server-AppendsWhole
      (sym (ap (λ ws. pos (length ws)) windows_lem))

split_time_range-IsHalved_example : IsHalved window (pos 5) (split_time_range window (pos 5))
split_time_range-IsHalved_example = split_time_range-IsHalved window (pos 5) (omega arith)

abbrev names : List Text
names = codes "b" ∷ [] ∷ codes "a" ∷ codes "b" ∷ []

abbrev labels : Labels
labels =
    (codes "__name__", codes "up") ∷ (codes "job", codes "shop") ∷ (codes "pod", codes "p") ∷ []

abbrev hidden : ObfuscationConfig
hidden = record {
  enabled = true;
  obfuscate_instance = true;
  obfuscate_job = true;
  preserve_structure = true;
  custom_labels = codes "pod" ∷ [];
  drop_labels = codes "instance" ∷ [];
}

abbrev shop : ExportedMetric
shop = record { metric = labels; values = codes "2" ∷ []; timestamps = pos 5 ∷ [] }

process_metrics-AllCleaned_example :
    AllCleaned hidden
      (shop ∷ [])
      (process_metrics server.sha256 hidden new_obfuscator (shop ∷ [])).1
process_metrics-AllCleaned_example =
    process_metrics-AllCleaned server.sha256 hidden new_obfuscator (shop ∷ [])

-- A job that was stopped after the first of its two batches.
abbrev stopped : ExportJob
stopped =
    let job = new_job (codes "job-1") config 5 in
    record job { status = record job.status { completed_batches = 1 } }

resumed-start_index_example :
    (start_index (resumed stopped).config.resume_from_batch 2 ≡ stopped.status.completed_batches)
    × ((initialize_staging_file
            (some (line ∷ []))
            (ltb_ℤ (pos 0) (resumed stopped).config.resume_from_batch)
          ≡ line ∷ [])
        ⊎ (stopped.status.completed_batches ≡ 0))
unfolding new_job
resumed-start_index_example = resumed-start_index stopped 2 (line ∷ []) (omega arith)
