-- ===== src/Defaults/Examples.antt =====
-- The theorems on the defaults at a concrete request.
use vmgather.Prelude.{
  ◌*◌, ◌≡◌, refl, true, false, not, ◌&&◌, List, [], ◌∷◌, codes, ℤ, pos, negsuc, ◌≤ℤ◌, if◌then◌else◌,
  eq_ℤ,
}
use vmgather.Domain.{ExportSafetyConfig, ExportConfig, no_obfuscation, mode_cluster, second}
use vmgather.Defaults.{
  apply_export_defaults, normalize_step_ladder, seen_step, is_out_of_range,
  default_autopilot_step_ladder_seconds, or_default, collect_steps, sort_steps, sift,
}
use vmgather.Defaults.Ladder.{IsAscending}
use vmgather.Defaults.Steps.{
  normalize_step_ladder-IsAscending, seen_step-normalize_step_ladder, has_step_in_range,
}
use vmgather.Defaults.Bounds.{IsValidBatching, IsValidSafety, apply_export_defaults-IsValid}
use vmgather.Defaults.Idempotent.{apply_export_defaults_twice}

abbrev ladder : List ℤ
ladder = pos 120 ∷ pos 30 ∷ pos 120 ∷ pos 900 ∷ negsuc 4 ∷ []

abbrev safety : ExportSafetyConfig
safety = record {
  mode = codes "autopilot";
  auto_split = false;
  split_by_job = false;
  split_by_metric_name = false;
  min_window_seconds = pos 0;
  max_split_depth = pos 0;
  max_step_seconds = pos 200;
  step_ladder_seconds = ladder;
}

abbrev request : ExportConfig
request = record {
  connection = record {
    url = codes "http://vm:8428";
    api_base_path = [];
    tenant_id = [];
    is_multitenant = false;
    full_api_url = [];
    auth = record {
      auth_type = codes "none";
      username = [];
      password = [];
      token = [];
      header_name = [];
      header_value = [];
    };
    skip_tls_verify = false;
    debug = false;
  };
  time_range = record { start = 1000 * second; end = 8210 * second };
  components = [];
  jobs = codes "vmstorage" ∷ [];
  mode = mode_cluster;
  query_type = [];
  query = [];
  obfuscation = no_obfuscation [];
  batching = record { enabled = true; strategy = []; custom_interval_secs = pos 7 };
  safety = safety;
  staging_dir = [];
  staging_file = [];
  resume_from_batch = pos 0;
  metric_step_seconds = pos 0;
  output_settings = record { format = []; compression = []; archive_name = [] };
}

apply_export_defaults-IsValid_example :
    IsValidBatching (apply_export_defaults request).batching
    × IsValidSafety (apply_export_defaults request).safety
    × (pos 1 ≤ℤ (apply_export_defaults request).metric_step_seconds)
    × ((apply_export_defaults request).metric_step_seconds
        ≤ℤ (apply_export_defaults request).safety.max_step_seconds)
apply_export_defaults-IsValid_example = apply_export_defaults-IsValid request

apply_export_defaults_twice_example :
    apply_export_defaults (apply_export_defaults request) ≡ apply_export_defaults request
apply_export_defaults_twice_example = apply_export_defaults_twice request

normalize_step_ladder-IsAscending_example : IsAscending (normalize_step_ladder ladder (pos 200))
normalize_step_ladder-IsAscending_example = normalize_step_ladder-IsAscending ladder (pos 200)

seen_step-normalize_step_ladder_example :
    seen_step (pos 120) (normalize_step_ladder ladder (pos 200)) ≡ (
      if has_step_in_range (or_default default_autopilot_step_ladder_seconds ladder) (pos 200)
      then seen_step (pos 120) (or_default default_autopilot_step_ladder_seconds ladder)
        && not (is_out_of_range (pos 120) (pos 200))
      else eq_ℤ (pos 200) (pos 120))
seen_step-normalize_step_ladder_example = seen_step-normalize_step_ladder ladder (pos 200) (pos 120)

small_ladder : normalize_step_ladder ladder (pos 200) ≡ pos 30 ∷ pos 120 ∷ []
unfolding normalize_step_ladder collect_steps sort_steps sift seen_step
small_ladder = refl
