-- ===== src/Importer/Analyze.antt =====
-- internal/importer/server/server.go: `analyzeBundle`, which looks at the lines of a bundle before an import.
use vmgather.Prelude.{
  ℕ, ◌+◌, Bool, true, not, ◌&&◌, ◌||◌, List, [], ◌∷◌, ◌++◌, Option, none, some, Text, codes, ℤ, pos,
  ltb, leb, eq_ℤ, ◌==◌, if◌then◌else◌, text_eq, length, lookup, insert, take, map,
}
use vmgather.Vm.Errors.{GoError}
use vmgather.Export.Metric.{Labels}
use vmgather.Importer.Defs.{MetricLine, LabelStat, ImportSummary, Codec}
use vmgather.Importer.Timestamps.{
  normalize_timestamps, filter_timestamps_and_values, normalize_values,
}
use vmgather.Importer.DropLabels.{
  text_ltb, filter_metric_labels, subset_of, or_public, select_label_subset,
}
use vmgather.Importer.Scanner.{max_token_bytes}
use vmgather.Importer.Lines.{Settings, shift_all, skip_line, note_labels}
use vmgather.Importer.Stream.{token_too_long, earlier, later}

abbrev pub max_simulation_series : ℕ
max_simulation_series = 5000

-- The counts of a label, as a Go map.
abbrev pub Counts : Type 0
Counts = List (Text × ℕ)

abbrev pub count_or_zero : Option ℕ → ℕ
count_or_zero none = 0
count_or_zero (some n) = n

unfoldable pub count_labels : Labels → Counts → Counts
unfolding lookup insert
count_labels [] counts = counts
count_labels ((label, value) ∷ metric) counts =
    count_labels metric (insert label (count_or_zero (lookup label counts) + 1) counts)

-- The state of the loop over the lines.
pub record Analysis : Type 0 where
  pub summary : ImportSummary
  pub label_counts : Counts
  pub series_labels : List (List Text)
  pub series_label_counts : List ℕ
  pub series_point_counts : List ℕ
  pub lines_scanned : ℕ

-- The labels that an example shows.
abbrev pub example_of : Labels → Labels
example_of labels =
    or_public 4
      (subset_of
        (codes "__name__"
          ∷ codes "job"
          ∷ codes "instance"
          ∷ codes "service"
          ∷ codes "namespace"
          ∷ codes "pod"
          ∷ codes "cluster"
          ∷ [])
        labels)
      labels

unfoldable pub record_example : Labels → ImportSummary → ImportSummary
unfolding subset_of
record_example labels s =
    let example = example_of labels in
    if leb 5 (length s.examples) || length example == 0
    then s
    else record s { examples = s.examples ++ (example ∷ []) }

unfoldable pub widen_start : List ℤ → Option ℤ → Option ℤ
widen_start [] start = start
widen_start (t ∷ ts) start = widen_start ts (earlier start t)

unfoldable pub widen_end : List ℤ → Option ℤ → Option ℤ
widen_end [] end = end
widen_end (t ∷ ts) end = widen_end ts (later end t)

abbrev pub name_or : Text → Option Text → Text
name_or old none = old
name_or old (some name) = name

-- `consumeMetric`, where the labels are not nil.
unfoldable pub consume_metric : Labels → List ℤ → ImportSummary → ImportSummary
unfolding record_example widen_start widen_end select_label_subset lookup text_eq
consume_metric labels ts s =
    let unnamed = text_eq s.metric_name [] in
    record_example labels (record s {
      metric_name =
          if unnamed
          then name_or s.metric_name (lookup (codes "__name__") labels)
          else s.metric_name;
      labels = if unnamed then select_label_subset labels else s.labels;
      start = if s.range_pinned then s.start else widen_start ts s.start;
      end = if s.range_pinned then s.end else widen_end ts s.end;
      points = s.points + length ts;
    })

abbrev pub skip_series : Analysis → ImportSummary → Analysis
skip_series a s = record a { summary = skip_line s }

-- The labels of a series that is to be simulated, up to a number of series.
unfoldable pub keep_series : List Text → ℕ → Analysis → Analysis
keep_series raw_labels points a =
    let kept = record a {
      series_labels = a.series_labels ++ (raw_labels ∷ []);
      series_label_counts = a.series_label_counts ++ (length raw_labels ∷ []);
      series_point_counts = a.series_point_counts ++ (points ∷ []);
    } in
    if ltb (length a.series_labels) max_simulation_series
    then kept
    else record a { summary = record a.summary { sim_series_cut = true } }

-- A line that would be sent.
abbrev pub encodable : MetricLine → List Text → List ℤ → Analysis → Option Text → Analysis
encodable parsed raw_labels ts a none = skip_series a a.summary
encodable parsed raw_labels ts a (some line) =
    let kept = keep_series raw_labels (length ts) a in
    if parsed.has_labels
    then record kept { summary = consume_metric parsed.metric ts kept.summary }
    else skip_series kept kept.summary

abbrev pub analyze_samples :
    Codec → Settings → MetricLine → List Text → List ℤ × List Text × ℕ → Analysis → Analysis
analyze_samples codec settings parsed raw_labels (kept, values, dropped) a =
    let noted = record a.summary { dropped_old = a.summary.dropped_old + dropped } in
    let (ts, scaled) = normalize_timestamps kept in
    let shifted = if eq_ℤ settings.shift_ms (pos 0) then ts else shift_all settings.shift_ms ts in
    let flagged = record noted { normalized_ts = noted.normalized_ts || scaled } in
    if length kept == 0 || not (length kept == length values)
    then skip_series a noted
    else encodable parsed raw_labels shifted (record a { summary = flagged })
        (codec.encode_line parsed.metric values shifted)

abbrev pub analyze_values :
    Codec → Settings → MetricLine → List Text → Analysis → Option (List Text) → Analysis
analyze_values codec settings parsed raw_labels a none = skip_series a a.summary
analyze_values codec settings parsed raw_labels a (some values) =
    analyze_samples codec settings parsed raw_labels
      (filter_timestamps_and_values parsed.timestamps values settings.retention_cutoff_ms)
      (record a {
        summary = record a.summary {
          total_points = a.summary.total_points + length parsed.timestamps;
        };
      })

abbrev pub analyze_decoded : Codec → Settings → Analysis → Option MetricLine → Analysis
analyze_decoded codec settings a none = skip_series a a.summary
analyze_decoded codec settings a (some raw) =
    let parsed = record raw { metric = filter_metric_labels raw.metric settings.drop_set } in
    analyze_values codec settings parsed (map (λ (e : Text × Text). e.0) raw.metric)
      (record a {
        summary = note_labels settings parsed a.summary;
        label_counts = count_labels raw.metric a.label_counts;
      })
      (normalize_values codec parsed.values)

-- The body of the loop. The cutoff is compared with the timestamps as they stand in the file.
unfoldable pub analyze_line : Codec → Settings → Analysis → Text → Analysis
unfolding normalize_timestamps shift_all filter_timestamps_and_values normalize_values
    filter_metric_labels count_labels note_labels keep_series consume_metric
analyze_line codec settings a line =
    analyze_decoded codec settings
      (record a {
        lines_scanned = a.lines_scanned + 1;
        summary = record a.summary {
          processed_bytes = a.summary.processed_bytes + (length line + 1);
        };
      })
      (codec.decode_line line)

-- The loop; a limit of 0 is none.
unfoldable pub analyze_lines :
    Codec → Settings → ℕ → List Text → Analysis → Analysis × Option GoError
unfolding analyze_line
analyze_lines codec settings sample_limit [] a = (a, none)
analyze_lines codec settings sample_limit (line ∷ lines) a =
    let rest =
      analyze_lines codec settings sample_limit lines (analyze_line codec settings a line) in
    if leb max_token_bytes (length line)
    then (a, some token_too_long)
    else if ltb 0 sample_limit && leb sample_limit a.lines_scanned
    then (record a { summary = record a.summary { sample_cut = true } }, none)
    else rest

-- More often, and for as often in the order of the names.
abbrev pub stat_before : LabelStat → LabelStat → Bool
stat_before a b = if a.count == b.count then text_ltb a.name b.name else ltb b.count a.count

unfoldable pub insert_stat : LabelStat → List LabelStat → List LabelStat
unfolding text_ltb
insert_stat x [] = x ∷ []
insert_stat x (y ∷ ys) =
    let after = y ∷ insert_stat x ys in if stat_before y x then after else x ∷ y ∷ ys

unfoldable pub sort_stats : List LabelStat → List LabelStat
unfolding insert_stat
sort_stats [] = []
sort_stats (x ∷ xs) = insert_stat x (sort_stats xs)

unfoldable pub build_label_stats : Counts → ℕ → List LabelStat
unfolding sort_stats
build_label_stats counts limit =
    let stats = sort_stats (map (λ (e : Text × ℕ). record { name = e.0; count = e.1 }) counts) in
    if ltb 0 limit && ltb limit (length stats) then take limit stats else stats

unfoldable pub label_names : List LabelStat → List Text
label_names [] = []
label_names (item ∷ stats) =
    let rest = label_names stats in if text_eq item.name [] then rest else item.name ∷ rest
