-- ===== src/Importer/Requests.antt =====
-- internal/importer/server/server.go: the requests for an upload, an analysis, a check of the endpoint, and
-- the recent profiles.
use vmgather.Prelude.{
  ℕ, Bool, not, List, [], ◌++◌, Option, none, some, Text, codes, ℤ, text_eq, if◌then◌else◌,
}
use vmgather.Vm.Errors.{GoError, error_text}
use vmgather.Importer.Defs.{UploadConfig}
use vmgather.Importer.DropLabels.{sanitize_drop_labels}
use vmgather.Importer.Endpoints.{
  Outcome, done, failed, Method, Client, resolve_endpoints, ping_endpoint,
}
use vmgather.Importer.Profiles.{
  RecentProfile, Storage, sanitize_max_labels_override, save_recent_profile, parse_bool_form_value,
}
use vmgather.Importer.JobDefs.{ImportJob, new_job}
use vmgather.Importer.Jobs.Handlers.{JobTable, store_job, is_get, is_post}
use vmgather.Importer.Analysis.{sample_limit_of}

pub record Server : Type 0 where
  pub jobs : JobTable
  pub profiles : List RecentProfile

-- A form as net/http reads it, with encoding/json on its configuration: `bundle_name` is none without
-- a file. `persisted` is what writing the file to a temporary one gives: its path and size.
pub record Form : Type 0 where
  pub form_error : Option GoError
  pub config_raw : Text
  pub config : Outcome UploadConfig
  pub full_collection : Text
  pub bundle_name : Option Text
  pub persisted : Outcome (Text × ℕ)

-- The goroutine that a request starts.
pub record Launch : Type 0 where
  pub job : ImportJob
  pub config : UploadConfig
  pub temp_path : Text
  pub original_name : Text
  pub import_url : Text
  pub query_url : Text

pub data Answer : Type 0 where
  refusal : ℕ → Text → Answer
  job_started : ImportJob → Answer
  analysis_of : UploadConfig → Text → Text → ℕ → ℕ → Answer
  checked : Answer
  profile_list : List RecentProfile → Answer

abbrev pub bad_form : GoError → Answer
bad_form e = refusal 400 (codes "failed to parse form: " ++ error_text e)

-- The configuration of a form, with what `handleUpload` and `handleAnalyze` put in order.
unfoldable pub sanitized_config : UploadConfig → UploadConfig
unfolding sanitize_drop_labels sanitize_max_labels_override
sanitized_config cfg = record cfg {
  drop_labels = sanitize_drop_labels cfg.drop_labels;
  max_labels_override = sanitize_max_labels_override cfg.max_labels_override;
}

-- The checks that come first: the configuration, or the refusal.
unfoldable pub read_form : Method → Form → Answer × Option UploadConfig
unfolding sanitized_config error_text text_eq
read_form method form = elim form.form_error [
  | some e ↦ (if is_post method then bad_form e else refusal 405 (codes "method not allowed"), none)
  | none ↦ elim form.config [
    | failed e ↦ (
      if not (is_post method)
          then refusal 405 (codes "method not allowed")
          else if text_eq form.config_raw []
          then refusal 400 (codes "missing config payload")
          else refusal 400 (codes "invalid config: " ++ error_text e),
      none,
    )
    | done cfg ↦
        if not (is_post method)
        then (refusal 405 (codes "method not allowed"), none)
        else if text_eq form.config_raw []
        then (refusal 400 (codes "missing config payload"), none)
        else (checked, some (sanitized_config cfg))
  ]
]

abbrev pub start_job :
    Text
    → ℤ
    → UploadConfig
    → Text
    → Text
    → ℕ
    → Server
    → Outcome (Text × Text)
    → Answer × Server × Option Launch
start_job id now cfg name temp_path uploaded s (failed e) = (refusal 400 (error_text e), s, none)
start_job id now cfg name temp_path uploaded s (done (import_url, query_url)) =
    let job = new_job id now uploaded in
    (
      job_started job,
      record s { jobs = store_job job s.jobs },
      some (record {
        job = job;
        config = cfg;
        temp_path = temp_path;
        original_name = name;
        import_url = import_url;
        query_url = query_url;
      }),
    )

abbrev pub with_upload :
    Storage
    → Text
    → UploadConfig
    → Text
    → Server
    → Outcome (Text × ℕ)
    → Answer × Server × Option Launch
with_upload storage id cfg name s (failed e) =
    (refusal 500 (codes "failed to persist bundle: " ++ error_text e), s, none)
with_upload storage id cfg name s (done (temp_path, uploaded)) =
    start_job id storage.now cfg name temp_path uploaded s (resolve_endpoints storage.urls cfg)

abbrev pub remember : Storage → UploadConfig → Server → Server
remember storage cfg s = record s { profiles = save_recent_profile storage cfg s.profiles }

abbrev pub upload_of :
    Storage
    → Text
    → Form
    → Server
    → Answer × Option UploadConfig
    → Option Text
    → Answer × Server × Option Launch
upload_of storage id form s (answer, none) name = (answer, s, none)
upload_of storage id form s (answer, some cfg) none =
    (refusal 400 (codes "bundle file is required"), s, none)
upload_of storage id form s (answer, some cfg) (some name) =
    with_upload storage id cfg name (remember storage cfg s) form.persisted

-- `id` is the identifier from the clock. The profile is kept before the endpoint is looked at.
unfoldable pub handle_upload :
    Storage → Text → Method → Form → Server → Answer × Server × Option Launch
unfolding read_form save_recent_profile resolve_endpoints new_job store_job error_text
handle_upload storage id method form s =
    upload_of storage id form s (read_form method form) form.bundle_name

abbrev pub analysis_for : UploadConfig → Bool → Text → Outcome (Text × ℕ) → Answer
analysis_for cfg full name (failed e) =
    refusal 500 (codes "failed to persist bundle: " ++ error_text e)
analysis_for cfg full name (done (temp_path, uploaded)) =
    analysis_of cfg temp_path name uploaded (sample_limit_of full)

abbrev pub analyze_form :
    Storage → Form → Server → Answer × Option UploadConfig → Option Text → Answer × Server
analyze_form storage form s (answer, none) name = (answer, s)
analyze_form storage form s (answer, some cfg) none =
    (refusal 400 (codes "bundle file is required"), remember storage cfg s)
analyze_form storage form s (answer, some cfg) (some name) = (
  analysis_for cfg (parse_bool_form_value form.full_collection) name form.persisted,
  remember storage cfg s,
)

-- Up to the preparation of the bundle: what is to be analyzed.
unfoldable pub handle_analyze : Storage → Method → Form → Server → Answer × Server
unfolding read_form save_recent_profile parse_bool_form_value error_text
handle_analyze storage method form s =
    analyze_form storage form s (read_form method form) form.bundle_name

abbrev pub pinged : Storage → UploadConfig → Server → Option GoError → Answer × Server
pinged storage cfg s (some e) = (refusal 502 (error_text e), s)
pinged storage cfg s none = (checked, remember storage cfg s)

unfoldable pub handle_check_endpoint :
    Storage → Client → Method → Outcome UploadConfig → Server → Answer × Server
unfolding ping_endpoint save_recent_profile error_text
handle_check_endpoint storage client method config s = elim config [
  | failed e ↦ (
    if is_post method
        then refusal 400 (codes "invalid request: " ++ error_text e)
        else refusal 405 (codes "method not allowed"),
    s,
  )
  | done cfg ↦
      if is_post method
      then pinged storage cfg s (ping_endpoint storage.urls client cfg 0)
      else (refusal 405 (codes "method not allowed"), s)
]

unfoldable pub handle_recent_profiles : Method → Server → Answer
handle_recent_profiles method s =
    if is_get method then profile_list s.profiles else refusal 405 (codes "method not allowed")
