-- ===== src/Importer/Defs.antt =====
-- internal/importer/server/server.go: the records of the importer. A point in time is a count of
-- milliseconds from the Unix epoch; `none` is Go's zero time. A `float64` is the text that it is
-- parsed from.
use vmgather.Prelude.{ℕ, Bool, List, Option, Text, ℤ}
use vmgather.Export.Metric.{Labels}

pub record UploadConfig : Type 0 where
  pub endpoint : Text
  pub tenant_id : Text
  pub auth_type : Text
  pub username : Text
  pub password : Text
  pub custom_header_name : Text
  pub custom_header_value : Text
  pub skip_tls_verify : Bool
  pub metric_step_seconds : ℤ
  pub batch_window_secs : ℤ
  pub drop_old : Bool
  pub time_shift_ms : ℤ
  pub max_labels_override : ℤ
  pub drop_labels : List Text

-- A value of a line: what stands in a json.RawMessage.
pub data RawValue : Type 0 where
  number_value string_value : Text → RawValue
  bool_value : Bool → RawValue
  null_value other_value : RawValue

-- `has_labels` says that the map of the labels is not nil.
pub record MetricLine : Type 0 where
  pub has_labels : Bool
  pub metric : Labels
  pub values : List RawValue
  pub timestamps : List ℤ

pub record LabelStat : Type 0 where
  pub name : Text
  pub count : ℕ

pub record ImportSummary : Type 0 where
  pub metric_name : Text
  pub labels : Labels
  pub start : Option ℤ
  pub end : Option ℤ
  pub total_points : ℕ
  pub points : ℕ
  pub bytes : ℕ
  pub source_bytes : ℕ
  pub inflated_bytes : ℕ
  pub chunks : ℕ
  pub chunk_bytes : ℕ
  pub examples : List Labels
  pub skipped_lines : ℕ
  pub dropped_old : ℕ
  pub processed_bytes : ℕ
  pub normalized_ts : Bool
  pub analyzed_lines : ℕ
  pub scanned_lines : ℕ
  pub sample_limit : ℕ
  pub sample_cut : Bool
  pub max_labels_seen : ℕ
  pub over_label_limit : ℕ
  pub over_limit_pts : ℕ
  pub max_labels_limit : ℤ
  pub total_labels : ℕ
  pub label_stats : List LabelStat
  pub label_universe : List Text
  pub label_counts : List ℕ
  pub point_counts : List ℕ
  pub sim_series : ℕ
  pub sim_series_cut : Bool
  pub range_pinned : Bool

-- `metadata_start` and `metadata_end` are those ends of the metadata's time range that can be parsed.
-- `is_staged` says that there is a `Cleanup`, which removes the metrics file.
pub record BundleInfo : Type 0 where
  pub metrics_path : Text
  pub metadata_start : Option ℤ
  pub metadata_end : Option ℤ
  pub original_bytes : ℕ
  pub extracted_bytes : ℕ
  pub is_staged : Bool

-- encoding/json and strconv: a line of the file, a number, and a line for the server, which fails on a
-- number that JSON cannot express.
pub record Codec : Type 0 where
  pub decode_line : Text → Option MetricLine
  pub parse_float : Text → Option Text
  pub encode_line : Labels → List Text → List ℤ → Option Text
