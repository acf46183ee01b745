-- ===== src/Jobs/Examples.antt =====
-- The theorems on jobs at a concrete run of the server.
use vmgather.Prelude.{◌≤◌, ◌+◌, ◌*◌, refl, true, false, [], ◌∷◌, Text, codes, pos, lookup, arith}
use vmgather.Domain.{ExportConfig, second, mode_cluster, no_obfuscation}
use vmgather.Jobs.Defs.{new_export_job_manager}
use vmgather.Jobs.Manager.{new_job}
use vmgather.Jobs.Progress.{BatchProgress, batch_status}
use vmgather.Jobs.World.{World, initial, starts, begins, step, here, next}
use vmgather.Jobs.Invariant.{IsSound}
use vmgather.Jobs.Steps.{Reach-IsSound}
use vmgather.Jobs.Records.{count_unfinished}
use vmgather.Jobs.Defs.{ExportJob, failed}
use vmgather.Prelude.{text_eq}
use vmgather.Jobs.Finished.{KeptOrGone, step-KeptOrGone}
use vmgather.Jobs.Monotone.{IsProper, batch_status_mono}

abbrev request : ExportConfig
request = record {
  connection = record {
    url = codes "http://vm:8428";
    api_base_path = [];
    tenant_id = [];
    is_multitenant = false;
    full_api_url = [];
    auth = record {
      auth_type = codes "none";
      username = [];
      password = [];
      token = [];
      header_name = [];
      header_value = [];
    };
    skip_tls_verify = false;
    debug = false;
  };
  time_range = record { start = 0; end = 7200 * second };
  components = [];
  jobs = codes "vmstorage" ∷ [];
  mode = mode_cluster;
  query_type = [];
  query = [];
  obfuscation = no_obfuscation [];
  batching = record { enabled = true; strategy = codes "custom"; custom_interval_secs = pos 3600 };
  safety = record {
    mode = codes "off";
    auto_split = false;
    split_by_job = false;
    split_by_metric_name = false;
    min_window_seconds = pos 5;
    max_split_depth = pos 8;
    max_step_seconds = pos 300;
    step_ladder_seconds = pos 30 ∷ [];
  };
  staging_dir = [];
  staging_file = [];
  resume_from_batch = pos 0;
  metric_step_seconds = pos 30;
  output_settings = record { format = []; compression = []; archive_name = [] };
}

abbrev name : Text
name = codes "job-1"

abbrev started : World
started = step initial (starts name request 5)

abbrev working : World
working = step started (begins name 6)

Reach-IsSound_example : IsSound working.manager working.workers
unfolding initial new_export_job_manager lookup
Reach-IsSound_example =
    Reach-IsSound {w = working} (next (next here (starts name request 5) refl) (begins name 6) tt)

abbrev first_report : BatchProgress
first_report = record {
  batch_index = 1;
  total_batches = 2;
  time_range = record { start = 0; end = 3600 * second };
  metrics = 10;
  duration = 4;
}

batch_status_mono_example :
    ((new_job name request 5).status.completed_batches
      ≤ (batch_status 9 (new_job name request 5) first_report 0 0).completed_batches)
    × (1 ≤ (batch_status 9 (new_job name request 5) first_report 0 0).completed_batches)
    × ((new_job name request 5).status.metrics_processed + 10
        ≤ (batch_status 9 (new_job name request 5) first_report 0 0).metrics_processed)
    × IsProper (batch_status 9 (new_job name request 5) first_report 0 0).progress
unfolding new_job
batch_status_mono_example =
    batch_status_mono 9 (new_job name request 5) first_report 0 0 (omega arith, omega arith)

-- A job that failed, in a server without goroutines.
abbrev failed_job : ExportJob
failed_job =
    let job = new_job name request 5 in record job { status = record job.status { state = failed } }

abbrev idle : World
idle = record {
  manager = record {
    jobs = (name, failed_job) ∷ [];
    max_concurrent_jobs = 3;
    retention = 100;
    active_jobs = 0;
  };
  workers = [];
}

idle-IsSound : IsSound idle.manager idle.workers
unfolding new_job lookup count_unfinished
idle-IsSound = record {
  unique = (tt, tt);
  matched = λ id. ground arith;
  counted = refl;
  capped = omega arith;
}

step-KeptOrGone_example :
    KeptOrGone failed_job (lookup name (step idle (starts (codes "job-2") request 9)).manager.jobs)
unfolding new_job lookup text_eq
step-KeptOrGone_example =
    step-KeptOrGone idle idle-IsSound name failed_job refl refl (starts (codes "job-2") request 9)
      refl tt
