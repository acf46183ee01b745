-- ===== src/Importer/Analysis/OldSamples.antt =====
-- server.go of the importer: the old samples in an analysis, as `handleAnalyze` asks for it.
use vmgather.Prelude.{
  ℕ, ◌≡◌, refl, false, not, ◌&&◌, ◌||◌, List, [], ◌∷◌, Option, none, some, Text, ℤ, pos, ltb, leb,
  ◌==◌, length, if-both, arith,
}
use vmgather.Vm.Errors.{GoError}
use vmgather.Export.Metric.{Labels}
use vmgather.Importer.Defs.{UploadConfig, MetricLine, ImportSummary, BundleInfo, Codec}
use vmgather.Importer.Timestamps.{filter_timestamps_and_values, normalize_values}
use vmgather.Importer.DropLabels.{filter_metric_labels}
use vmgather.Importer.Scanner.{scan_lines, max_token_bytes}
use vmgather.Importer.Lines.{Settings, note_labels}
use vmgather.Importer.Retention.{Probe}
use vmgather.Importer.Analyze.{
  Analysis, record_example, example_of, consume_metric, keep_series, encodable, analyze_samples,
  analyze_values, analyze_decoded, analyze_line, analyze_lines, max_simulation_series,
}
use vmgather.Importer.Analysis.{analyzed, initial_analysis, analyze_bundle, analysis_settings}

abbrev KeepsOld : ImportSummary → Type 0
KeepsOld s = s.dropped_old ≡ 0

consume_metric-KeepsOld :
    (labels : Labels) (ts : List ℤ) (s : ImportSummary)
    → KeepsOld s
    → KeepsOld (consume_metric labels ts s)
unfolding consume_metric record_example
consume_metric-KeepsOld labels ts s h =
    if-both KeepsOld (leb 5 (length s.examples) || length (example_of labels) == 0) _ _ h h

keep_series-KeepsOld :
    (raw : List Text) (points : ℕ) (a : Analysis)
    → KeepsOld a.summary
    → KeepsOld (keep_series raw points a).summary
unfolding keep_series
keep_series-KeepsOld raw points a h =
    if-both (λ (b : Analysis). KeepsOld b.summary)
      (ltb (length a.series_labels) max_simulation_series) _ _ h h

encodable-KeepsOld :
    (parsed : MetricLine) (raw : List Text) (ts : List ℤ) (a : Analysis) (o : Option Text)
    → KeepsOld a.summary
    → KeepsOld (encodable parsed raw ts a o).summary
encodable-KeepsOld parsed raw ts a none h = h
encodable-KeepsOld parsed raw ts a (some line) h =
    let kept = keep_series-KeepsOld raw (length ts) a h in
    if-both (λ (b : Analysis). KeepsOld b.summary) parsed.has_labels _ _
      (consume_metric-KeepsOld parsed.metric ts (keep_series raw (length ts) a).summary kept) kept

-- Without a cutoff the filter drops nothing.
filter_none :
    (ts : List ℤ) (vs : List Text) (cutoff : ℤ)
    → cutoff ≡ pos 0
    → (filter_timestamps_and_values ts vs cutoff).2 ≡ 0
unfolding filter_timestamps_and_values
filter_none ts vs cutoff e = rw (e) refl

module _ (codec : Codec) (settings : Settings)
    (no_cutoff : settings.retention_cutoff_ms ≡ pos 0) where
  analyze_samples-KeepsOld :
      (parsed : MetricLine) (raw : List Text) (r : List ℤ × List Text × ℕ) (a : Analysis)
      → r.2 ≡ 0
      → KeepsOld a.summary
      → KeepsOld (analyze_samples codec settings parsed raw r a).summary
  analyze_samples-KeepsOld parsed raw (kept, values, dropped) a e h =
      if-both (λ (b : Analysis). KeepsOld b.summary)
        (length kept == 0 || not (length kept == length values)) _ _ (omega (arith, e, h))
        (encodable-KeepsOld parsed raw _ _ (codec.encode_line parsed.metric values _)
          (omega (arith, e, h)))

  analyze_values-KeepsOld :
      (parsed : MetricLine) (raw : List Text) (a : Analysis) (o : Option (List Text))
      → KeepsOld a.summary
      → KeepsOld (analyze_values codec settings parsed raw a o).summary
  analyze_values-KeepsOld parsed raw a none h = h
  analyze_values-KeepsOld parsed raw a (some values) h =
      analyze_samples-KeepsOld parsed raw
        (filter_timestamps_and_values parsed.timestamps values settings.retention_cutoff_ms) _
        (filter_none parsed.timestamps values settings.retention_cutoff_ms no_cutoff) h

  analyze_decoded-KeepsOld :
      (a : Analysis) (o : Option MetricLine)
      → KeepsOld a.summary
      → KeepsOld (analyze_decoded codec settings a o).summary
  unfolding note_labels
  analyze_decoded-KeepsOld a none h = h
  analyze_decoded-KeepsOld a (some raw) h =
      analyze_values-KeepsOld
        (record raw { metric = filter_metric_labels raw.metric settings.drop_set }) _ _
        (normalize_values codec raw.values) h

  analyze_lines-KeepsOld :
      (sample_limit : ℕ) (lines : List Text) (a : Analysis)
      → KeepsOld a.summary
      → KeepsOld (analyze_lines codec settings sample_limit lines a).0.summary
  unfolding analyze_lines analyze_line
  analyze_lines-KeepsOld sample_limit [] a h = h
  analyze_lines-KeepsOld sample_limit (line ∷ lines) a h =
      let rest =
        analyze_lines-KeepsOld sample_limit lines (analyze_line codec settings a line)
          (analyze_decoded-KeepsOld _ (codec.decode_line line) h) in
      if-both (λ (r : Analysis × Option GoError). KeepsOld r.0.summary)
        (leb max_token_bytes (length line)) _ _ h
        (if-both (λ (r : Analysis × Option GoError). KeepsOld r.0.summary)
          (ltb 0 sample_limit && leb sample_limit a.lines_scanned) _ _ h rest)

analyzed-KeepsOld :
    (base64 : List ℕ → Text) (r : Analysis × Option GoError)
    → KeepsOld r.0.summary
    → KeepsOld (analyzed base64 r).summary
analyzed-KeepsOld base64 (a, none) h = h
analyzed-KeepsOld base64 (a, some e) h = h

no_cutoff_lem :
    (probe : Probe) (cfg : UploadConfig)
    → cfg.drop_old ≡ false
    → (analysis_settings probe cfg).retention_cutoff_ms ≡ pos 0
unfolding analysis_settings
no_cutoff_lem probe cfg h = rw (h) refl

-- Where the configuration does not ask for old samples to be dropped, the analysis that is asked for
-- counts no sample as dropped: whatever the target answers and at what time, whatever the file holds,
-- also where it stops early.
pub analyze_bundle-dropped_old :
    (probe : Probe) (cfg : UploadConfig) (codec : Codec) (base64 : List ℕ → Text)
    (opened : Option GoError) (bundle : BundleInfo) (file : Text) (sample_limit : ℕ)
    → cfg.drop_old ≡ false
    → (analyze_bundle codec base64 opened bundle
        (analysis_settings probe cfg)
        file
        sample_limit).summary.dropped_old
      ≡ 0
unfolding analyze_bundle
analyze_bundle-dropped_old probe cfg codec base64 (some e) bundle file sample_limit h = refl
analyze_bundle-dropped_old probe cfg codec base64 none bundle file sample_limit h =
    let settings = analysis_settings probe cfg in
    analyzed-KeepsOld base64
      (analyze_lines codec settings sample_limit (scan_lines file)
        (initial_analysis bundle settings sample_limit))
      (analyze_lines-KeepsOld codec settings (no_cutoff_lem probe cfg h) sample_limit
        (scan_lines file) (initial_analysis bundle settings sample_limit) refl)
