-- ===== src/Domain.antt =====
-- internal/domain/types.go: the values that the services pass around. A `time.Time` is a count of
-- nanoseconds from Go's zero time, a `time.Duration` and an `int` are integers, a string is its bytes.
use vmgather.Prelude.{
  ℕ, zero, ◌-◌, ◌+◌, ◌/◌, ◌^◌, suc, min, Bool, false, List, Text, codes, ℤ, pos, negsuc, leb,
  if◌then◌else◌,
}

pub record TimeRange : Type 0 where
  pub start : ℕ
  pub end : ℕ

abbrev pub mode_cluster : Text
mode_cluster = codes "cluster"

abbrev pub mode_custom : Text
mode_custom = codes "custom"

abbrev pub query_selector : Text
query_selector = codes "selector"

abbrev pub query_metrics_ql : Text
query_metrics_ql = codes "metricsql"

abbrev pub adaptivity_off : Text
adaptivity_off = codes "off"

abbrev pub adaptivity_autopilot : Text
adaptivity_autopilot = codes "autopilot"

pub record AuthConfig : Type 0 where
  pub auth_type : Text
  pub username : Text
  pub password : Text
  pub token : Text
  pub header_name : Text
  pub header_value : Text

pub record VmConnection : Type 0 where
  pub url : Text
  pub api_base_path : Text
  pub tenant_id : Text
  pub is_multitenant : Bool
  pub full_api_url : Text
  pub auth : AuthConfig
  pub skip_tls_verify : Bool
  pub debug : Bool

pub record BatchSettings : Type 0 where
  pub enabled : Bool
  pub strategy : Text
  pub custom_interval_secs : ℤ

pub record ExportSafetyConfig : Type 0 where
  pub mode : Text
  pub auto_split : Bool
  pub split_by_job : Bool
  pub split_by_metric_name : Bool
  pub min_window_seconds : ℤ
  pub max_split_depth : ℤ
  pub max_step_seconds : ℤ
  pub step_ladder_seconds : List ℤ

pub record ObfuscationConfig : Type 0 where
  pub enabled : Bool
  pub obfuscate_instance : Bool
  pub obfuscate_job : Bool
  pub preserve_structure : Bool
  pub custom_labels : List Text
  pub drop_labels : List Text

pub record OutputSettings : Type 0 where
  pub format : Text
  pub compression : Text
  pub archive_name : Text

pub record ExportConfig : Type 0 where
  pub connection : VmConnection
  pub time_range : TimeRange
  pub components : List Text
  pub jobs : List Text
  pub mode : Text
  pub query_type : Text
  pub query : Text
  pub obfuscation : ObfuscationConfig
  pub batching : BatchSettings
  pub safety : ExportSafetyConfig
  pub staging_dir : Text
  pub staging_file : Text
  pub resume_from_batch : ℤ
  pub metric_step_seconds : ℤ
  pub output_settings : OutputSettings

pub record ExportResult : Type 0 where
  pub export_id : Text
  pub archive_path : Text
  pub archive_name : Text
  pub archive_size_bytes : ℕ
  pub metrics_exported : ℕ
  pub time_range : TimeRange
  pub obfuscation_applied : Bool
  pub sha256 : Text

-- Nanoseconds in a second.
abbrev pub second : ℕ
second = 1000000000

-- `time.Time.Sub`: the difference, held within the range of a Duration.
unfoldable pub sub_time : ℕ → ℕ → ℤ
sub_time t u = if leb u t then pos (min (t - u) (2 ^ 63 - 1)) else negsuc (min (u - t) (2 ^ 63) - 1)

-- `time.Time.Add`
abbrev pub add_time : ℕ → ℤ → ℕ
add_time t (pos d) = t + d
add_time t (negsuc d) = t - suc d

-- `int(d.Seconds())`: whole seconds, towards zero.
abbrev pub duration_seconds : ℤ → ℤ
duration_seconds (pos d) = pos (d / second)
duration_seconds (negsuc d) = let s = suc d / second in elim s [ zero ↦ pos 0 | suc k ↦ negsuc k ]

-- The settings that Go's zero values give.
abbrev pub no_obfuscation : List Text → ObfuscationConfig
no_obfuscation dropped = record {
  enabled = false;
  obfuscate_instance = false;
  obfuscate_job = false;
  preserve_structure = false;
  custom_labels = List.[];
  drop_labels = dropped;
}
