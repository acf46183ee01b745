-- ===== src/Importer/JobDefs.antt =====
-- internal/importer/server/server.go: an import job and its progress.
use vmgather.Prelude.{
  ℕ, ◌+◌, ◌*◌, Bool, false, [], ◌++◌, Option, none, Text, codes, ℤ, pos, if◌then◌else◌, ltb,
}
use vmgather.Importer.Defs.{UploadConfig, ImportSummary}
use vmgather.Importer.Stream.{max_import_chunk_bytes}
use vmgather.Importer.Verify.{VerificationResult, ellipsis}

pub data JobState : Type 0 where
  job_queued job_running job_completed job_failed : JobState

-- A `float64` between 0 and 100: a whole number, or `5 + done / total * 80`.
pub data Percent : Type 0 where
  whole : ℕ → Percent
  streaming : ℕ → ℕ → Percent

pub record ImportJob : Type 0 where
  pub id : Text
  pub state : JobState
  pub stage : Text
  pub message : Text
  pub percent : Percent
  pub source_bytes : ℕ
  pub inflated_bytes : ℕ
  pub chunks_completed : ℕ
  pub chunks_total : ℕ
  pub chunk_size : ℕ
  pub summary : Option ImportSummary
  pub verification : Option VerificationResult
  pub remote_path : Text
  pub error : Text
  pub created_at : ℤ
  pub updated_at : ℤ
  pub import_url : Text
  pub query_url : Text
  pub bundle_path : Text
  pub resume_offset : ℕ
  pub resume_ready : Bool
  pub config : UploadConfig

-- math.Max
unfoldable pub max_percent : Percent → ℕ → Percent
max_percent (whole n) m = if ltb n m then whole m else whole n
max_percent (streaming d t) m = if ltb (5 * t + 80 * d) (m * t) then whole m else streaming d t

abbrev pub started : Text
started = codes "Waiting to start import" ++ ellipsis

-- The zero value of a configuration.
abbrev pub no_config : UploadConfig
no_config = record {
  endpoint = [];
  tenant_id = [];
  auth_type = [];
  username = [];
  password = [];
  custom_header_name = [];
  custom_header_value = [];
  skip_tls_verify = false;
  metric_step_seconds = pos 0;
  batch_window_secs = pos 0;
  drop_old = false;
  time_shift_ms = pos 0;
  max_labels_override = pos 0;
  drop_labels = [];
}

unfoldable pub new_job : Text → ℤ → ℕ → ImportJob
new_job id now uploaded_bytes = record {
  id = id;
  state = job_queued;
  stage = codes "queued";
  message = started;
  percent = whole 0;
  source_bytes = uploaded_bytes;
  inflated_bytes = 0;
  chunks_completed = 0;
  chunks_total = 0;
  chunk_size = max_import_chunk_bytes;
  summary = none;
  verification = none;
  remote_path = [];
  error = [];
  created_at = now;
  updated_at = now;
  import_url = [];
  query_url = [];
  bundle_path = [];
  resume_offset = 0;
  resume_ready = false;
  config = no_config;
}
