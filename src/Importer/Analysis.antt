-- ===== src/Importer/Analysis.antt =====
-- internal/importer/server/server.go: the whole of `analyzeBundle`, and what `handleAnalyze` asks it for.
pub mod OldSamples
pub mod Points
pub mod Warnings
use vmgather.Prelude.{
  ℕ, zero, suc, ◌+◌, ◌-◌, ◌*◌, ◌/◌, ◌%◌, ◌^◌, Bool, true, false, ◌&&◌, List, [], ◌∷◌, Option, none,
  some, Text, codes, ℤ, pos, negsuc, if◌then◌else◌, ◌==◌, length, map, text_eq, ltb_ℤ,
}
use vmgather.Vm.Errors.{GoError, wrap}
use vmgather.Importer.Defs.{UploadConfig, ImportSummary, BundleInfo, Codec}
use vmgather.Importer.Timestamps.{add_int64}
use vmgather.Importer.DropLabels.{drop_labels_set}
use vmgather.Importer.Scanner.{scan_lines}
use vmgather.Importer.Lines.{Settings}
use vmgather.Importer.Import.{initial_summary}
use vmgather.Importer.Retention.{Probe, retention_cutoff, or_else, resolve_max_labels_limit}
use vmgather.Importer.Analyze.{Analysis, analyze_lines, build_label_stats, label_names}

-- The place of a name; of two places the last.
unfoldable pub index_of : ℕ → Text → List Text → Option ℕ
unfolding text_eq
index_of idx name [] = none
index_of idx name (n ∷ ns) =
    or_else (index_of (idx + 1) name ns) (if text_eq n name then some idx else none)

unfoldable pub zero_bytes : ℕ → List ℕ
zero_bytes zero = []
zero_bytes (suc n) = 0 ∷ zero_bytes n

-- `b | 1 << bit`
unfoldable pub with_bit : ℕ → ℕ → ℕ
with_bit bit b = if b / 2 ^ bit % 2 == 0 then b + 2 ^ bit else b

unfoldable pub change_at : ℕ → (ℕ → ℕ) → List ℕ → List ℕ
change_at n f [] = []
change_at zero f (b ∷ bs) = f b ∷ bs
change_at (suc n) f (b ∷ bs) = b ∷ change_at n f bs

abbrev pub set_index : Option ℕ → List ℕ → List ℕ
set_index none bytes = bytes
set_index (some idx) bytes = change_at (idx / 8) (with_bit (idx % 8)) bytes

unfoldable pub set_labels : List Text → List Text → List ℕ → List ℕ
unfolding index_of change_at with_bit
set_labels universe [] bytes = bytes
set_labels universe (name ∷ labels) bytes =
    set_labels universe labels (set_index (index_of 0 name universe) bytes)

-- The bytes of one series, a bit for each label of the universe.
unfoldable pub label_bitset : List Text → List Text → List ℕ
unfolding set_labels zero_bytes
label_bitset universe labels = set_labels universe labels (zero_bytes ((length universe + 7) / 8))

-- `base64` is base64.RawStdEncoding.
unfoldable pub encode_series_label_bitsets :
    (List ℕ → Text) → List (List Text) → List Text → List Text
unfolding label_bitset
encode_series_label_bitsets base64 series [] = []
encode_series_label_bitsets base64 series (n ∷ ns) =
    map (λ labels. base64 (label_bitset (n ∷ ns) labels)) series

-- The summary with its bit sets.
pub record Analyzed : Type 0 where
  pub summary : ImportSummary
  pub label_bitsets : List Text
  pub error : Option GoError

abbrev pub no_range : BundleInfo → BundleInfo
no_range bundle = record bundle { metadata_start = none; metadata_end = none }

abbrev pub initial_analysis : BundleInfo → Settings → ℕ → Analysis
initial_analysis bundle settings sample_limit = record {
  summary = record (initial_summary (no_range bundle) settings 0) { sample_limit = sample_limit };
  label_counts = [];
  series_labels = [];
  series_label_counts = [];
  series_point_counts = [];
  lines_scanned = 0;
}

abbrev pub analyzed : (List ℕ → Text) → Analysis × Option GoError → Analyzed
analyzed base64 (a, some e) = record { summary = a.summary; label_bitsets = []; error = some e }
analyzed base64 (a, none) =
    let inflated = a.summary.inflated_bytes in
    let stats = build_label_stats a.label_counts 0 in
    let universe = label_names stats in
    record {
      summary = record a.summary {
        scanned_lines = a.lines_scanned;
        inflated_bytes = if inflated == 0 then a.summary.processed_bytes else inflated;
        total_labels = length a.label_counts;
        label_stats = stats;
        label_universe = universe;
        label_counts = a.series_label_counts;
        point_counts = a.series_point_counts;
        sim_series = length a.series_label_counts;
      };
      label_bitsets = encode_series_label_bitsets base64 a.series_labels universe;
      error = none;
    }

-- `opened` is what opening the file fails with.
unfoldable pub analyze_bundle :
    Codec → (List ℕ → Text) → Option GoError → BundleInfo → Settings → Text → ℕ → Analyzed
unfolding analyze_lines scan_lines build_label_stats label_names encode_series_label_bitsets
analyze_bundle codec base64 (some e) bundle settings file sample_limit = record {
  summary = (initial_analysis bundle settings sample_limit).summary;
  label_bitsets = [];
  error = some (wrap (codes "failed to open bundle") e);
}
analyze_bundle codec base64 none bundle settings file sample_limit = analyzed base64 (
    analyze_lines codec settings sample_limit (scan_lines file)
      (initial_analysis bundle settings sample_limit))

abbrev pub default_analyze_sample_lines : ℕ
default_analyze_sample_lines = 2000

abbrev pub sample_limit_of : Bool → ℕ
sample_limit_of full_collection = if full_collection then 0 else default_analyze_sample_lines

-- The settings that `handleAnalyze` passes on: without `drop_old`, no cutoff.
unfoldable pub analysis_settings : Probe → UploadConfig → Settings
unfolding retention_cutoff resolve_max_labels_limit
analysis_settings probe cfg = record {
  drop_set = drop_labels_set cfg.drop_labels;
  retention_cutoff_ms = if cfg.drop_old then retention_cutoff probe cfg 0 else pos 0;
  shift_ms = cfg.time_shift_ms;
  max_labels_limit = (resolve_max_labels_limit probe cfg 2).1;
}

-- The shift that the page suggests, an hour more than brings the first sample behind the cutoff.
unfoldable pub suggested_shift_ms : ℤ → Option ℤ → ℤ
suggested_shift_ms cutoff none = pos 0
suggested_shift_ms cutoff (some start) =
    if ltb_ℤ (pos 0) cutoff && ltb_ℤ start cutoff
    then add_int64 (add_int64 cutoff (elim start [ pos n ↦ minus n | negsuc n ↦ pos (suc n) ]))
        (pos 3600000)
    else pos 0
  where
    minus : ℕ → ℤ
    minus zero = pos 0
    minus (suc n) = negsuc n
