-- ===== src/Importer/Analysis/Points.antt =====
-- server.go of the importer: the samples that `analyzeBundle` counts.
use vmgather.Prelude.{
  ℕ, suc, ◌+◌, ◌≤◌, ◌≡◌, refl, ap, ◌∙◌, not, ◌&&◌, ◌||◌, List, [], ◌∷◌, Option, none, some, Text, ℤ,
  pos, ltb, leb, leb_ℤ, ltb_ℤ, eq_ℤ, ◌==◌, if◌then◌else◌, length, if-both, arith,
}
use vmgather.Vm.Errors.{GoError}
use vmgather.Export.Metric.{Labels}
use vmgather.Importer.Defs.{MetricLine, ImportSummary, BundleInfo, Codec}
use vmgather.Importer.Timestamps.{
  TimestampUnit, seconds, milliseconds, microseconds, nanoseconds, detect_timestamp_unit, median,
  in_milliseconds, normalize_timestamps, drop_old, filter_timestamps_and_values, normalize_values,
}
use vmgather.Importer.Timestamps.Units.{length-times_1000, length-divided_by}
use vmgather.Importer.DropLabels.{filter_metric_labels}
use vmgather.Importer.Scanner.{scan_lines, max_token_bytes}
use vmgather.Importer.Lines.{Settings, shift_all, note_labels}
use vmgather.Importer.Analyze.{
  Analysis, record_example, example_of, consume_metric, keep_series, encodable, analyze_samples,
  analyze_values, analyze_decoded, analyze_line, analyze_lines, max_simulation_series,
}
use vmgather.Importer.Analysis.{analyzed, initial_analysis, analyze_bundle}

length-in_milliseconds :
    (u : TimestampUnit) (ts : List ℤ) → length (in_milliseconds u ts).0 ≡ length ts
length-in_milliseconds seconds ts = length-times_1000 ts
length-in_milliseconds milliseconds ts = refl
length-in_milliseconds microseconds ts = length-divided_by 1000 ts
length-in_milliseconds nanoseconds ts = length-divided_by 1000000 ts

length-normalize_timestamps : (ts : List ℤ) → length (normalize_timestamps ts).0 ≡ length ts
unfolding normalize_timestamps
length-normalize_timestamps [] = refl
length-normalize_timestamps (t ∷ ts) =
    length-in_milliseconds (detect_timestamp_unit (median (t ∷ ts))) (t ∷ ts)

length-shift_all : (shift : ℤ) (ts : List ℤ) → length (shift_all shift ts) ≡ length ts
unfolding shift_all
length-shift_all shift [] = refl
length-shift_all shift (t ∷ ts) = ap suc (length-shift_all shift ts)

-- A filter divides the samples into those kept and those dropped.
drop_old-length :
    (ts : List ℤ) (vs : List Text) (cutoff : ℤ)
    → length (drop_old ts vs cutoff).0 + (drop_old ts vs cutoff).2 ≤ length ts
unfolding drop_old
drop_old-length [] [] cutoff = omega arith
drop_old-length [] (v ∷ vs) cutoff = omega arith
drop_old-length (t ∷ ts) [] cutoff = omega arith
drop_old-length (t ∷ ts) (v ∷ vs) cutoff =
    let ih = drop_old-length ts vs cutoff in
    if-both (λ (r : List ℤ × List Text × ℕ). length r.0 + r.2 ≤ suc (length ts)) (ltb_ℤ t cutoff) _
      _ (omega (arith, ih)) (omega (arith, ih))

filter-length :
    (ts : List ℤ) (vs : List Text) (cutoff : ℤ)
    → length (filter_timestamps_and_values ts vs cutoff).0
        + (filter_timestamps_and_values ts vs cutoff).2
      ≤ length ts
unfolding filter_timestamps_and_values
filter-length ts vs cutoff =
    if-both (λ (r : List ℤ × List Text × ℕ). length r.0 + r.2 ≤ length ts) (leb_ℤ cutoff (pos 0)) _
      _ (omega arith)
      (if-both (λ (r : List ℤ × List Text × ℕ). length r.0 + r.2 ≤ length ts)
        (length ts == length vs) _ _ (drop_old-length ts vs cutoff) (omega arith))

-- With `n` more samples to come, the summary counts at most as many kept or dropped as there were.
abbrev pub CountsPoints : ℕ → ImportSummary → Type 0
CountsPoints n s = s.points + s.dropped_old + n ≤ s.total_points

consume_metric-CountsPoints :
    (labels : Labels) (ts : List ℤ) (s : ImportSummary)
    → CountsPoints (length ts) s
    → CountsPoints 0 (consume_metric labels ts s)
unfolding consume_metric record_example
consume_metric-CountsPoints labels ts s h =
    if-both (CountsPoints 0) (leb 5 (length s.examples) || length (example_of labels) == 0) _ _
      (omega (arith, h)) (omega (arith, h))

keep_series-CountsPoints :
    (raw : List Text) (points n : ℕ) (a : Analysis)
    → CountsPoints n a.summary
    → CountsPoints n (keep_series raw points a).summary
unfolding keep_series
keep_series-CountsPoints raw points n a h =
    if-both (λ (b : Analysis). CountsPoints n b.summary)
      (ltb (length a.series_labels) max_simulation_series) _ _ h h

fewer : (n : ℕ) (s : ImportSummary) → CountsPoints n s → CountsPoints 0 s
fewer n s h = omega (arith, h)

encodable-CountsPoints :
    (parsed : MetricLine) (raw : List Text) (ts : List ℤ) (a : Analysis) (o : Option Text)
    → CountsPoints (length ts) a.summary
    → CountsPoints 0 (encodable parsed raw ts a o).summary
encodable-CountsPoints parsed raw ts a none h = fewer (length ts) a.summary h
encodable-CountsPoints parsed raw ts a (some line) h =
    let kept = keep_series-CountsPoints raw (length ts) (length ts) a h in
    if-both (λ (b : Analysis). CountsPoints 0 b.summary) parsed.has_labels _ _
      (consume_metric-CountsPoints parsed.metric ts (keep_series raw (length ts) a).summary kept)
      (fewer (length ts) (keep_series raw (length ts) a).summary kept)

module _ (codec : Codec) (settings : Settings) where
  analyze_samples-CountsPoints :
      (parsed : MetricLine) (raw : List Text) (r : List ℤ × List Text × ℕ) (a : Analysis) (n : ℕ)
      → length r.0 + r.2 ≤ n
      → CountsPoints n a.summary
      → CountsPoints 0 (analyze_samples codec settings parsed raw r a).summary
  analyze_samples-CountsPoints parsed raw (kept, values, dropped) a n e h =
      if-both (λ (b : Analysis). CountsPoints 0 b.summary)
        (length kept == 0 || not (length kept == length values)) _ _ (omega (arith, e, h))
        (encodable-CountsPoints parsed raw _ _ (codec.encode_line parsed.metric values _)
          (omega (arith, e, h, same)))
    where
      same :
          length (
            if eq_ℤ settings.shift_ms (pos 0)
            then (normalize_timestamps kept).0
            else shift_all settings.shift_ms (normalize_timestamps kept).0)
          ≡ length kept
      same =
          if-both (λ (ts : List ℤ). length ts ≡ length kept) (eq_ℤ settings.shift_ms (pos 0)) _ _
            (length-normalize_timestamps kept)
            (length-shift_all settings.shift_ms (normalize_timestamps kept).0
              ∙ length-normalize_timestamps kept)

  analyze_values-CountsPoints :
      (parsed : MetricLine) (raw : List Text) (a : Analysis) (o : Option (List Text))
      → CountsPoints 0 a.summary
      → CountsPoints 0 (analyze_values codec settings parsed raw a o).summary
  analyze_values-CountsPoints parsed raw a none h = h
  analyze_values-CountsPoints parsed raw a (some values) h =
      analyze_samples-CountsPoints parsed raw
        (filter_timestamps_and_values parsed.timestamps values settings.retention_cutoff_ms) _
        (length parsed.timestamps)
        (filter-length parsed.timestamps values settings.retention_cutoff_ms) (omega (arith, h))

  analyze_decoded-CountsPoints :
      (a : Analysis) (o : Option MetricLine)
      → CountsPoints 0 a.summary
      → CountsPoints 0 (analyze_decoded codec settings a o).summary
  unfolding note_labels
  analyze_decoded-CountsPoints a none h = h
  analyze_decoded-CountsPoints a (some raw) h =
      analyze_values-CountsPoints
        (record raw { metric = filter_metric_labels raw.metric settings.drop_set }) _ _
        (normalize_values codec raw.values) h

  analyze_lines-CountsPoints :
      (sample_limit : ℕ) (lines : List Text) (a : Analysis)
      → CountsPoints 0 a.summary
      → CountsPoints 0 (analyze_lines codec settings sample_limit lines a).0.summary
  unfolding analyze_lines analyze_line
  analyze_lines-CountsPoints sample_limit [] a h = h
  analyze_lines-CountsPoints sample_limit (line ∷ lines) a h =
      let rest =
        analyze_lines-CountsPoints sample_limit lines (analyze_line codec settings a line)
          (analyze_decoded-CountsPoints _ (codec.decode_line line) h) in
      if-both (λ (r : Analysis × Option GoError). CountsPoints 0 r.0.summary)
        (leb max_token_bytes (length line)) _ _ h
        (if-both (λ (r : Analysis × Option GoError). CountsPoints 0 r.0.summary)
          (ltb 0 sample_limit && leb sample_limit a.lines_scanned) _ _ h rest)

-- Whatever a file holds, the analysis counts no sample twice: those it takes and those it drops as too
-- old are together at most the samples of the lines whose values can be read.
pub analyze_bundle-CountsPoints :
    (codec : Codec) (base64 : List ℕ → Text) (opened : Option GoError) (bundle : BundleInfo)
    (settings : Settings) (file : Text) (sample_limit : ℕ)
    → CountsPoints 0 (analyze_bundle codec base64 opened bundle settings file sample_limit).summary
unfolding analyze_bundle
analyze_bundle-CountsPoints codec base64 (some e) bundle settings file sample_limit = omega arith
analyze_bundle-CountsPoints codec base64 none bundle settings file sample_limit =
    kept
      (analyze_lines codec settings sample_limit (scan_lines file)
        (initial_analysis bundle settings sample_limit))
      (analyze_lines-CountsPoints codec settings sample_limit (scan_lines file)
        (initial_analysis bundle settings sample_limit) (omega arith))
  where
    kept :
        (r : Analysis × Option GoError)
        → CountsPoints 0 r.0.summary
        → CountsPoints 0 (analyzed base64 r).summary
    kept (a, none) h = h
    kept (a, some e) h = h
