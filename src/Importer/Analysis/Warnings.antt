-- ===== src/Importer/Analysis/Warnings.antt =====
-- internal/importer/server/server.go: `buildAnalysisWarnings`. A warning is what its text is made of.
use vmgather.Prelude.{
  ℕ, ◌+◌, ◌*◌, ◌^◌, Bool, ◌&&◌, List, [], ◌∷◌, ◌++◌, Option, none, some, ℤ, pos, pos_part, neg_part,
  ltb, ltb_ℤ, eq_ℤ, if◌then◌else◌,
}
use vmgather.Importer.Defs.{ImportSummary}

pub data Warning : Type 0 where
  -- The start, the cutoff, and the samples dropped of all.
  starts_before_cutoff : ℤ → ℤ → ℕ → ℕ → Warning
  -- The start and the end, the cutoff and the time.
  exceeds_retention : ℤ → ℤ → ℤ → ℕ → Warning
  skipped_some_lines dropped_some_samples : ℕ → Warning
  scaled_timestamps : Warning
  -- The series over the limit, those analyzed, the limit, the most labels and the samples.
  over_limit : ℕ → ℕ → ℤ → ℕ → ℕ → Warning
  limit_unknown sampled_first : ℕ → Warning

abbrev when : Bool → Warning → List Warning
when t w = if t then w ∷ [] else []

-- `end - start > now - cutoff`, of milliseconds and a time in nanoseconds.
unfoldable pub exceeds_window : ℤ → ℤ → ℤ → ℕ → Bool
exceeds_window start end cutoff now =
    ltb (now + (pos_part start + neg_part end + neg_part cutoff) * 10 ^ 6)
      ((pos_part end + pos_part cutoff + neg_part start) * 10 ^ 6)

abbrev window_warnings : ℤ → ℤ → ℕ → Option ℤ → List Warning
window_warnings start cutoff now none = []
window_warnings start cutoff now (some end) =
    when (exceeds_window start end cutoff now) (exceeds_retention start end cutoff now)

abbrev cutoff_warnings : ImportSummary → ℤ → ℕ → Option ℤ → List Warning
cutoff_warnings s cutoff now none = []
cutoff_warnings s cutoff now (some start) =
    if ltb_ℤ (pos 0) cutoff
    then when (ltb_ℤ start cutoff)
        (starts_before_cutoff start cutoff s.dropped_old (s.points + s.dropped_old))
      ++ window_warnings start cutoff now s.end
    else []

unfoldable pub build_analysis_warnings : ImportSummary → ℤ → ℤ → ℕ → List Warning
unfolding exceeds_window
build_analysis_warnings s cutoff max_labels_limit now =
    cutoff_warnings s cutoff now s.start
    ++ (when (ltb 0 s.skipped_lines) (skipped_some_lines s.skipped_lines)
        ++ (when (ltb 0 s.dropped_old) (dropped_some_samples s.dropped_old)
            ++ (when s.normalized_ts scaled_timestamps
                ++ (when (ltb_ℤ (pos 0) max_labels_limit && ltb 0 s.over_label_limit) (
                      over_limit s.over_label_limit s.analyzed_lines max_labels_limit
                        s.max_labels_seen s.over_limit_pts)
                    ++ (when (eq_ℤ max_labels_limit (pos 0) && ltb 40 s.max_labels_seen)
                          (limit_unknown s.max_labels_seen)
                        ++ when (s.sample_cut && ltb 0 s.sample_limit)
                            (sampled_first s.sample_limit))))))
