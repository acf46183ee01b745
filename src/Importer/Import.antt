-- ===== src/Importer/Import.antt =====
-- internal/importer/server/server.go: `streamImport`, from the opening of the file to its result.
pub mod Resume
pub mod Counts
pub mod Flags
use vmgather.Prelude.{
  ℕ, zero, suc, Bool, true, false, List, [], Option, none, some, Text, codes, ℤ, ◌==◌,
  if◌then◌else◌, drop,
}
use vmgather.Vm.Errors.{GoError, wrap}
use vmgather.Importer.Defs.{UploadConfig, ImportSummary, BundleInfo, Codec}
use vmgather.Importer.DropLabels.{drop_labels_set}
use vmgather.Importer.Scanner.{scan_lines}
use vmgather.Importer.Lines.{Settings}
use vmgather.Importer.Stream.{max_import_chunk_bytes, Target, Stream, empty_chunk, stream_lines}

pub record UploadResult : Type 0 where
  pub bytes_sent : ℕ
  pub remote_path : Text
  pub status_code : ℕ
  pub message : Text
  pub content_type : Text

-- What `streamImport` returns, with the bodies that the server accepted and the calls of `progress`.
pub record Imported : Type 0 where
  pub result : Option UploadResult
  pub summary : ImportSummary
  pub error : Option GoError
  pub posted : List Text
  pub reported : List ℕ

abbrev pub both_set : Option ℤ → Option ℤ → Bool
both_set (some a) (some b) = true
both_set _ _ = false

abbrev pub initial_summary : BundleInfo → Settings → ℕ → ImportSummary
initial_summary bundle settings start_offset = record {
  metric_name = [];
  labels = [];
  start = bundle.metadata_start;
  end = bundle.metadata_end;
  total_points = 0;
  points = 0;
  bytes = 0;
  source_bytes = bundle.original_bytes;
  inflated_bytes = bundle.extracted_bytes;
  chunks = 0;
  chunk_bytes = max_import_chunk_bytes;
  examples = [];
  skipped_lines = 0;
  dropped_old = 0;
  processed_bytes = start_offset;
  normalized_ts = false;
  analyzed_lines = 0;
  scanned_lines = 0;
  sample_limit = 0;
  sample_cut = false;
  max_labels_seen = 0;
  over_label_limit = 0;
  over_limit_pts = 0;
  max_labels_limit = settings.max_labels_limit;
  total_labels = 0;
  label_stats = [];
  label_universe = [];
  label_counts = [];
  point_counts = [];
  sim_series = 0;
  sim_series_cut = false;
  range_pinned = both_set bundle.metadata_start bundle.metadata_end;
}

abbrev pub initial_stream : ImportSummary → ℕ → Stream
initial_stream summary start_offset = record {
  summary = summary;
  current_offset = start_offset;
  committed_offset = start_offset;
  chunk = empty_chunk 0;
  last_status = 0;
  last_message = [];
  posted = [];
  reported = [];
}

abbrev pub not_started : ImportSummary → GoError → Imported
not_started summary e = record {
  result = none;
  summary = summary;
  error = some e;
  posted = [];
  reported = [];
}

abbrev pub finished : Text → Stream × Option GoError → Imported
finished import_url (s, some e) = record {
  result = none;
  summary = s.summary;
  error = some e;
  posted = s.posted;
  reported = s.reported;
}
finished import_url (s, none) =
    let inflated = s.summary.inflated_bytes in
    record {
      result = some (record {
        bytes_sent = s.summary.bytes;
        remote_path = import_url;
        status_code = s.last_status;
        message = s.last_message;
        content_type = codes "application/jsonl";
      });
      summary = record s.summary {
        inflated_bytes = if inflated == 0 then s.summary.bytes else inflated;
      };
      error = none;
      posted = s.posted;
      reported = s.reported;
    }

-- A seek past the end of the file succeeds, and nothing is read there.
abbrev pub after_seek :
    Codec → Settings → Target → Text → Text → ℕ → ImportSummary → Option GoError → Imported
after_seek codec settings target import_url file start_offset summary (some e) =
    not_started summary (wrap (codes "failed to seek for resume") e)
after_seek codec settings target import_url file start_offset summary none = finished import_url (
    stream_lines codec settings target (scan_lines (drop start_offset file))
      (initial_stream summary start_offset))

abbrev pub after_open :
    Codec → Settings → Target → Text → Text → ℕ → ImportSummary → Option GoError → Imported
after_open codec settings target import_url file start_offset summary (some e) =
    not_started summary (wrap (codes "failed to open metrics for import") e)
after_open codec settings target import_url file start_offset summary none =
    after_seek codec settings target import_url file start_offset summary
      (elim start_offset [ zero ↦ none | suc n ↦ target.seek (suc n) ])

-- `file` is what the metrics file holds.
unfoldable pub stream_import : Codec → Target → Text → BundleInfo → Settings → Text → ℕ → Imported
unfolding stream_lines scan_lines
stream_import codec target import_url bundle settings file start_offset =
    after_open codec settings target import_url file start_offset
      (initial_summary bundle settings start_offset) target.open_file

-- What the caller hands to the loop.
abbrev pub settings_of : UploadConfig → ℤ → ℤ → ℤ → Settings
settings_of cfg retention_cutoff_ms shift_ms max_labels_limit = record {
  drop_set = drop_labels_set cfg.drop_labels;
  retention_cutoff_ms = retention_cutoff_ms;
  shift_ms = shift_ms;
  max_labels_limit = max_labels_limit;
}
