-- ===== src/Importer/Lines.antt =====
-- internal/importer/server/server.go: the loop of `streamImport` up to the writing of a line into the
-- chunk.
pub mod Payload
use vmgather.Prelude.{
  ℕ, ◌+◌, not, ◌&&◌, ◌||◌, List, [], ◌∷◌, Option, none, some, Text, ℤ, pos, ltb, ltb_ℤ, eq_ℤ, ◌==◌,
  if◌then◌else◌, length,
}
use vmgather.Export.Metric.{Labels}
use vmgather.Importer.Defs.{MetricLine, ImportSummary, Codec}
use vmgather.Importer.Timestamps.{
  add_int64, normalize_timestamps, filter_timestamps_and_values, normalize_values,
}
use vmgather.Importer.DropLabels.{filter_metric_labels}

-- What the loop is told: the labels to drop, the cutoff, the shift and the limit of labels.
pub record Settings : Type 0 where
  pub drop_set : List Text
  pub retention_cutoff_ms : ℤ
  pub shift_ms : ℤ
  pub max_labels_limit : ℤ

-- A line that goes into a chunk.
pub record Ready : Type 0 where
  pub line : Text
  pub labels : Labels
  pub timestamps : List ℤ

unfoldable pub shift_all : ℤ → List ℤ → List ℤ
unfolding add_int64
shift_all shift [] = []
shift_all shift (t ∷ ts) = add_int64 t shift ∷ shift_all shift ts

abbrev pub skip_line : ImportSummary → ImportSummary
skip_line s = record s { skipped_lines = s.skipped_lines + 1 }

-- What a line that can be decoded adds to the summary, before its samples are looked at.
unfoldable pub note_labels : Settings → MetricLine → ImportSummary → ImportSummary
note_labels settings parsed s =
    let count = length parsed.metric in
    let over =
      ltb_ℤ (pos 0) settings.max_labels_limit && ltb_ℤ settings.max_labels_limit (pos count) in
    record s {
      analyzed_lines = s.analyzed_lines + 1;
      max_labels_seen = if ltb s.max_labels_seen count then count else s.max_labels_seen;
      over_label_limit = if over then s.over_label_limit + 1 else s.over_label_limit;
      over_limit_pts =
          if over then s.over_limit_pts + length parsed.timestamps else s.over_limit_pts;
    }

abbrev pub encoded : Labels → List ℤ → ImportSummary → Option Text → ImportSummary × Option Ready
encoded labels ts s none = (skip_line s, none)
encoded labels ts s (some line) =
    (s, some (record { line = line; labels = labels; timestamps = ts }))

-- The samples that are left after the cutoff are put in milliseconds, shifted and encoded.
unfoldable pub finish_line :
    Codec
    → Settings
    → Labels
    → List ℤ × List Text × ℕ
    → ImportSummary
    → ImportSummary × Option Ready
unfolding normalize_timestamps shift_all
finish_line codec settings labels (kept, values, dropped) s =
    let noted = record s { dropped_old = s.dropped_old + dropped } in
    let (ts, scaled) = normalize_timestamps kept in
    let shifted = if eq_ℤ settings.shift_ms (pos 0) then ts else shift_all settings.shift_ms ts in
    let flagged = record noted { normalized_ts = noted.normalized_ts || scaled } in
    if length kept == 0 || not (length kept == length values)
    then (skip_line noted, none)
    else encoded labels shifted flagged (codec.encode_line labels values shifted)

abbrev pub with_values :
    Codec
    → Settings
    → Labels
    → List ℤ
    → ImportSummary
    → Option (List Text)
    → ImportSummary × Option Ready
with_values codec settings labels ts s none = (skip_line s, none)
with_values codec settings labels ts s (some values) =
    finish_line codec settings labels
      (filter_timestamps_and_values ts values settings.retention_cutoff_ms) s

abbrev pub decoded :
    Codec → Settings → ImportSummary → Option MetricLine → ImportSummary × Option Ready
decoded codec settings s none = (skip_line s, none)
decoded codec settings s (some raw) =
    let parsed = record raw { metric = filter_metric_labels raw.metric settings.drop_set } in
    with_values codec settings parsed.metric (normalize_timestamps parsed.timestamps).0
      (note_labels settings parsed s) (normalize_values codec parsed.values)

-- The body of the loop up to the writing into the chunk.
unfoldable pub prepare_line : Codec → Settings → ImportSummary → Text → ImportSummary × Option Ready
unfolding finish_line note_labels normalize_timestamps filter_timestamps_and_values normalize_values
    filter_metric_labels
prepare_line codec settings s line = decoded codec settings s (codec.decode_line line)
