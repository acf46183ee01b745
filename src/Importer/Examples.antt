-- ===== src/Importer/Examples.antt =====
-- The theorems on the importer at a concrete bundle: three lines, of which one is blank, and a target that
-- refuses the first import and accepts the second.
use vmgather.Prelude.{
  ◌≡◌, refl, true, false, ◌&&◌, List, [], ◌∷◌, ◌++◌, Option, none, some, Text, text_eq, codes, ℤ,
  pos, lookup, if◌then◌else◌, arith, drop,
}
use vmgather.Vm.Errors.{plain}
use vmgather.Export.Metric.{Labels}
use vmgather.Export.Split.{seen_text}
use vmgather.Importer.Defs.{
  UploadConfig, number_value, MetricLine, ImportSummary, BundleInfo, Codec,
}
use vmgather.Importer.Timestamps.{normalize_timestamps}
use vmgather.Importer.Timestamps.Units.{normalize_timestamps_twice}
use vmgather.Importer.DropLabels.{sanitize_drop_labels, drop_labels_set, filter_metric_labels}
use vmgather.Importer.DropLabels.Kept.{
  asked, may_drop, IsRising, filter_metric_labels-drop_labels_set, sanitize_drop_labels-IsRising,
}
use vmgather.Importer.Scanner.{scan_lines}
use vmgather.Importer.Scanner.Offsets.{NoReturn}
use vmgather.Importer.Lines.{Settings}
use vmgather.Importer.Lines.Payload.{payload}
use vmgather.Importer.Stream.{accepted, refused, Target}
use vmgather.Importer.Stream.Progress.{concatenated}
use vmgather.Importer.Import.{initial_summary, stream_import, settings_of}
use vmgather.Importer.Import.Resume.{Ran, stream_import-Ran, stream_import_resumed}
use vmgather.Importer.Import.Counts.{ImportCounted, stream_import-Counted}
use vmgather.Importer.Import.Flags.{DecodesInt64, stream_import-normalized_ts}
use vmgather.Importer.Endpoints.{post_import_chunk, done, failed, Urls, Client}
use vmgather.Importer.Retention.{
  retention_cutoff, resolve_max_labels_limit, Probe, parse_retention_duration,
}
use vmgather.Importer.Retention.Durations.{
  weeks, hours, written, duration_ns, parse_retention_duration-written,
}
use vmgather.Importer.Bundles.{prepare_bundle}
use vmgather.Importer.JobDefs.{no_config, new_job}
use vmgather.Importer.Jobs.{World, Run, run_settings, run_import_job}
use vmgather.Importer.Jobs.Handlers.{resume_job}
use vmgather.Importer.Jobs.Runs.{Over, run_import_job-Over}
use vmgather.Importer.Jobs.Resumed.{resume_job-completed}
use vmgather.Importer.Analysis.{analysis_settings, analyze_bundle}
use vmgather.Importer.Analysis.Points.{CountsPoints, analyze_bundle-CountsPoints}
use vmgather.Importer.Profiles.{Storage, build_recent_profile, save_recent_profile}
use vmgather.Importer.Profiles.Recent.{
  recent, save_recent_profile-recent, IsRecent, save_recent_profile-IsRecent,
}
use vmgather.Importer.Analysis.OldSamples.{analyze_bundle-dropped_old}

abbrev decoded_line : Text → Option MetricLine
decoded_line [] = none
decoded_line (c ∷ line) = some (record {
  has_labels = true;
  metric = (codes "__name__", c ∷ line) ∷ [];
  values = number_value (codes "1") ∷ [];
  timestamps = pos 1700000000 ∷ [];
})

abbrev encoded_line : Labels → List Text → List ℤ → Option Text
encoded_line [] values ts = none
encoded_line ((k, v) ∷ labels) values ts = some v

abbrev a_codec : Codec
a_codec = record {
  decode_line = decoded_line;
  parse_float = λ s. some s;
  encode_line = encoded_line;
}

abbrev a_file : Text
a_file = 97 ∷ 10 ∷ 10 ∷ 98 ∷ 10 ∷ []

abbrev a_bundle : BundleInfo
a_bundle = record {
  metrics_path = codes "/tmp/metrics";
  metadata_start = none;
  metadata_end = none;
  original_bytes = 5;
  extracted_bytes = 5;
  is_staged = false;
}

abbrev some_settings : Settings
some_settings = settings_of no_config (pos 0) (pos 0) (pos 0)

abbrev refusing : Target
refusing = record {
  open_file = none;
  seek = λ offset. none;
  read_error = λ n. none;
  post_import_chunk = λ n body. refused (plain (codes "refused"));
}

abbrev accepting : Target
accepting = record {
  open_file = none;
  seek = λ offset. none;
  read_error = λ n. none;
  post_import_chunk = λ n body. accepted 204 [];
}

abbrev zero_summary : ImportSummary
zero_summary = initial_summary a_bundle some_settings 0

a_file-NoReturn : NoReturn a_file
a_file-NoReturn = (refl, (refl, (refl, (refl, (refl, tt)))))

-- The second import sends the two lines that the first one could not.
sent_test :
    (stream_import a_codec accepting [] a_bundle some_settings a_file
      (stream_import a_codec refusing [] a_bundle some_settings a_file
        0).summary.processed_bytes).posted
    ≡ (97 ∷ 10 ∷ 98 ∷ 10 ∷ []) ∷ []
unfolding stream_import text_eq
sent_test = refl

stream_import_resumed_example :
    concatenated (stream_import a_codec refusing [] a_bundle some_settings a_file 0).posted
      ++ concatenated
          (stream_import a_codec accepting [] a_bundle some_settings a_file
            (stream_import a_codec refusing [] a_bundle some_settings a_file
              0).summary.processed_bytes).posted
    ≡ payload a_codec some_settings zero_summary (scan_lines a_file)
unfolding stream_import text_eq
stream_import_resumed_example =
    stream_import_resumed a_codec some_settings a_bundle a_bundle refusing accepting [] a_file
      zero_summary a_file-NoReturn refl

stream_import-Ran_example :
    Ran a_codec some_settings zero_summary 2
      (stream_import a_codec accepting [] a_bundle some_settings a_file 2)
      (scan_lines (drop 2 a_file))
stream_import-Ran_example =
    stream_import-Ran a_codec some_settings a_bundle accepting [] a_file zero_summary 2

stream_import-Counted_example :
    ImportCounted (stream_import a_codec accepting [] a_bundle some_settings a_file 0)
stream_import-Counted_example =
    stream_import-Counted a_codec accepting [] a_bundle some_settings a_file 0

decoded_line-Int64 : (line : Text) → DecodesInt64 (decoded_line line)
decoded_line-Int64 [] = tt
decoded_line-Int64 (c ∷ line) = (omega arith, omega arith)

stream_import-normalized_ts_example :
    (stream_import a_codec accepting [] a_bundle some_settings a_file 0).summary.normalized_ts
    ≡ false
stream_import-normalized_ts_example =
    stream_import-normalized_ts a_codec accepting [] a_bundle some_settings a_file 0
      decoded_line-Int64 refl

some_timestamps : List ℤ
some_timestamps = pos 1700000000 ∷ pos 1700000060 ∷ []

normalize_timestamps_twice_example :
    normalize_timestamps (normalize_timestamps some_timestamps).0
    ≡ ((normalize_timestamps some_timestamps).0, false)
unfolding some_timestamps
normalize_timestamps_twice_example =
    normalize_timestamps_twice some_timestamps (omega arith, omega arith)

filter_metric_labels-drop_labels_set_example :
    lookup (codes "pod") (
      filter_metric_labels
        ((codes "job", codes "a") ∷ (codes "pod", codes "b") ∷ [])
        (drop_labels_set (codes " pod" ∷ codes "job" ∷ [])))
    ≡ (if asked (codes "pod") (codes " pod" ∷ codes "job" ∷ []) && may_drop (codes "pod")
        then none
        else lookup (codes "pod") ((codes "job", codes "a") ∷ (codes "pod", codes "b") ∷ []))
filter_metric_labels-drop_labels_set_example =
    filter_metric_labels-drop_labels_set (codes "pod")
      ((codes "job", codes "a") ∷ (codes "pod", codes "b") ∷ []) (codes " pod" ∷ codes "job" ∷ [])

sanitize_drop_labels-IsRising_example :
    IsRising (sanitize_drop_labels (codes "pod" ∷ codes "az" ∷ codes "job" ∷ []))
    × ((v : Text)
        → seen_text v (sanitize_drop_labels (codes "pod" ∷ codes "az" ∷ codes "job" ∷ []))
          ≡ (asked v (codes "pod" ∷ codes "az" ∷ codes "job" ∷ []) && may_drop v))
sanitize_drop_labels-IsRising_example =
    sanitize_drop_labels-IsRising (codes "pod" ∷ codes "az" ∷ codes "job" ∷ [])

parse_retention_duration-written_example :
    parse_retention_duration (written ((2, weeks) ∷ (12, hours) ∷ []))
    ≡ done (pos (duration_ns ((2, weeks) ∷ (12, hours) ∷ [])))
unfolding duration_ns
parse_retention_duration-written_example =
    parse_retention_duration-written ((2, weeks) ∷ (12, hours) ∷ []) (omega arith) (omega arith)

abbrev no_urls : Urls
no_urls = record { parse_url = λ s. none; url_text = λ u. u.path; parse_error = λ s. plain s }

abbrev storage : Storage
storage = record { urls = no_urls; fnv = λ s. s; now = pos 0 }

abbrev a_config : UploadConfig
a_config = record no_config { endpoint = codes "localhost" }

save_recent_profile-recent_example :
    save_recent_profile storage a_config [] ≡ recent [] (build_recent_profile storage a_config)
save_recent_profile-recent_example = save_recent_profile-recent storage a_config []

save_recent_profile-IsRecent_example : IsRecent (save_recent_profile storage a_config [])
save_recent_profile-IsRecent_example =
    save_recent_profile-IsRecent storage a_config [] (tt, omega arith)

analyze_bundle-CountsPoints_example :
    CountsPoints 0
      (analyze_bundle a_codec (λ bytes. bytes) none a_bundle some_settings a_file 2).summary
analyze_bundle-CountsPoints_example =
    analyze_bundle-CountsPoints a_codec (λ bytes. bytes) none a_bundle some_settings a_file 2

abbrev no_content : Client
no_content = record {
  send = λ n req. done (record { code = 204; status = codes "204 No Content"; body = [] });
}

abbrev unreachable : Client
unreachable = record { send = λ n req. failed (plain (codes "connection refused")) }

abbrev probe : Client → Probe
probe client = record { urls = no_urls; client = client; now = 0; retention_time = λ s. none }

abbrev world : Client → World
world client = record {
  codec = a_codec;
  files = record {
    ext = λ path. codes ".jsonl";
    open_zip = λ path. done [];
    decode_metadata = λ s. done (none, none);
    object_keys = λ s. none;
    stage = λ s. done [];
    size = λ path. done 5;
  };
  contents = λ path. a_file;
  open_file = λ path. none;
  seek_file = λ path n. none;
  read_error = λ path n. none;
  probe = probe client;
  formats = record {
    encode_query = λ params. [];
    rfc3339 = λ t. [];
    quoted = λ s. s;
    decode_series = λ s. done (codes "success", 1);
  };
  clock = λ n. pos n;
}

abbrev queued : Run
queued = record { job = new_job (codes "job-1") (pos 0) 5; seen = []; posted = []; removed = [] }

abbrev failed_run : Run
failed_run =
    run_import_job (world unreachable) a_config (codes "/tmp/metrics") (codes "m.jsonl") [] [] 0
      queued

abbrev last_run : Run
last_run = resume_job (world no_content) (λ path. path) failed_run

run_import_job-Over_example : Over (codes "/tmp/metrics") queued failed_run
run_import_job-Over_example =
    run_import_job-Over (world unreachable) a_config (codes "/tmp/metrics") (codes "m.jsonl") [] []
      0 queued

analyze_bundle-dropped_old_example :
    (analyze_bundle a_codec
      (λ bytes. bytes)
      none
      a_bundle
      (analysis_settings (probe no_content) a_config)
      a_file
      2).summary.dropped_old
    ≡ 0
analyze_bundle-dropped_old_example =
    analyze_bundle-dropped_old (probe no_content) a_config a_codec (λ bytes. bytes) none a_bundle
      a_file 2 refl

resume_job-completed_example :
    concatenated last_run.posted
    ≡ concatenated queued.posted
      ++ payload a_codec
          (run_settings (world unreachable) a_config)
          zero_summary
          (scan_lines a_file)
unfolding run_import_job resume_job new_job retention_cutoff resolve_max_labels_limit prepare_bundle
    post_import_chunk
resume_job-completed_example =
    resume_job-completed (world unreachable) (world no_content) a_config (codes "/tmp/metrics")
      (codes "m.jsonl") [] [] (λ path. path) a_bundle zero_summary queued failed_run last_run refl
      refl refl refl refl refl refl refl refl refl a_file-NoReturn
