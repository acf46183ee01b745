-- ===== src/Importer/Import/Flags.antt =====
-- server.go of the importer: the flag for timestamps that were put in milliseconds.
use vmgather.Prelude.{
  ℕ, zero, suc, ◌≡◌, refl, ap, Bool, true, false, not, ◌||◌, List, Option, none, some, Text, ℤ, pos,
  leb_ℤ, ◌==◌, drop, length, if-both,
}
use vmgather.Vm.Errors.{GoError}
use vmgather.Export.Metric.{Labels}
use vmgather.Importer.Defs.{MetricLine, ImportSummary, BundleInfo, Codec}
use vmgather.Importer.Timestamps.{
  median, normalize_timestamps, filter_timestamps_and_values, normalize_values,
}
use vmgather.Importer.Timestamps.Units.{IsInt64, normalize_timestamps_twice}
use vmgather.Importer.DropLabels.{filter_metric_labels}
use vmgather.Importer.Scanner.{scan_lines}
use vmgather.Importer.Lines.{
  Settings, Ready, note_labels, encoded, finish_line, with_values, decoded, prepare_line,
}
use vmgather.Importer.Stream.{
  Answer, accepted, refused, Target, Stream, commit_summary, answered, store_line, take_line,
  stream_lines,
}
use vmgather.Importer.Stream.Rounds.{commit_chunk_keeps}
use vmgather.Importer.Stream.Loop.{stream_lines_keeps}
use vmgather.Importer.Import.{
  initial_summary, initial_stream, finished, after_seek, after_open, stream_import,
}

-- encoding/json reads timestamps into an int64.
abbrev pub DecodesInt64 : Option MetricLine → Type 0
DecodesInt64 none = Unit
DecodesInt64 (some line) = IsInt64 (median line.timestamps)

abbrev Unflagged : Stream → Type 0
Unflagged s = s.summary.normalized_ts ≡ false

or_false : (a b : Bool) → a ≡ false → b ≡ false → (a || b) ≡ false
or_false a b h k = rw (h, k) refl

encoded-Unflagged :
    (labels : Labels) (ts : List ℤ) (s : ImportSummary) (o : Option Text)
    → s.normalized_ts ≡ false
    → (encoded labels ts s o).0.normalized_ts ≡ false
encoded-Unflagged labels ts s none h = h
encoded-Unflagged labels ts s (some line) h = h

module _ (codec : Codec) (settings : Settings) where
  finish_line-Unflagged :
      (labels : Labels) (kept : List ℤ) (values : List Text) (dropped : ℕ) (s : ImportSummary)
      → (normalize_timestamps kept).1 ≡ false
      → s.normalized_ts ≡ false
      → (finish_line codec settings labels (kept, values, dropped) s).0.normalized_ts ≡ false
  unfolding finish_line
  finish_line-Unflagged labels kept values dropped s e h =
      if-both (λ (r : ImportSummary × Option Ready). r.0.normalized_ts ≡ false)
        (length kept == 0 || not (length kept == length values)) _ _ h
        (encoded-Unflagged labels _ _ (codec.encode_line labels values _)
          (or_false s.normalized_ts (normalize_timestamps kept).1 h e))

  module _ (no_cutoff : leb_ℤ settings.retention_cutoff_ms (pos 0) ≡ true) where
    with_values-Unflagged :
        (labels : Labels) (raw : List ℤ) (s : ImportSummary) (o : Option (List Text))
        → IsInt64 (median raw)
        → s.normalized_ts ≡ false
        → (with_values codec settings labels (normalize_timestamps raw).0 s o).0.normalized_ts
          ≡ false
    unfolding filter_timestamps_and_values
    with_values-Unflagged labels raw s none b h = h
    with_values-Unflagged labels raw s (some values) b h = rw (no_cutoff) (
        finish_line-Unflagged labels (normalize_timestamps raw).0 values 0 s
          (ap (λ (r : List ℤ × Bool). r.1) (normalize_timestamps_twice raw b)) h)

    decoded-Unflagged :
        (s : ImportSummary) (o : Option MetricLine)
        → DecodesInt64 o
        → s.normalized_ts ≡ false
        → (decoded codec settings s o).0.normalized_ts ≡ false
    unfolding note_labels
    decoded-Unflagged s none b h = h
    decoded-Unflagged s (some raw) b h =
        with_values-Unflagged _ raw.timestamps
          (note_labels settings
            (record raw { metric = filter_metric_labels raw.metric settings.drop_set }) s)
          (normalize_values codec raw.values) b h

store_line-Unflagged :
    (s : Stream) (summary : ImportSummary) (prepared : Option Ready) (offset : ℕ)
    → summary.normalized_ts ≡ false
    → Unflagged (store_line (record s { current_offset = offset }) (summary, prepared))
store_line-Unflagged s summary none offset h = h
store_line-Unflagged s summary (some ready) offset h = h

answered-Unflagged :
    (s : Stream) (body : Text) (a : Answer) → Unflagged s → Unflagged (answered s body a).0
unfolding commit_summary
answered-Unflagged s body (refused e) h = h
answered-Unflagged s body (accepted status message) h = h

finished-Unflagged :
    (import_url : Text) (r : Stream × Option GoError)
    → Unflagged r.0
    → (finished import_url r).summary.normalized_ts ≡ false
finished-Unflagged import_url (s, none) h = h
finished-Unflagged import_url (s, some e) h = h

module _ (codec : Codec) (settings : Settings)
    (int64 : (line : Text) → DecodesInt64 (codec.decode_line line))
    (no_cutoff : leb_ℤ settings.retention_cutoff_ms (pos 0) ≡ true) where
  take_line-Unflagged :
      (s : Stream) (line : Text) → Unflagged s → Unflagged (take_line codec settings s line)
  unfolding take_line prepare_line
  take_line-Unflagged s line h =
      store_line-Unflagged s _ (decoded codec settings s.summary (codec.decode_line line)).1 _ (
        decoded-Unflagged codec settings no_cutoff s.summary (codec.decode_line line) (int64 line)
          h)

  after_seek-Unflagged :
      (target : Target) (import_url file : Text) (start_offset : ℕ) (s : ImportSummary)
      (o : Option GoError)
      → s.normalized_ts ≡ false
      → (after_seek codec settings target import_url file start_offset s o).summary.normalized_ts
        ≡ false
  after_seek-Unflagged target import_url file start_offset s (some e) h = h
  after_seek-Unflagged target import_url file start_offset s none h =
      finished-Unflagged import_url
        (stream_lines codec settings target (scan_lines (drop start_offset file))
          (initial_stream s start_offset))
        (stream_lines_keeps Unflagged codec settings target take_line-Unflagged
          (λ s. commit_chunk_keeps Unflagged target s (answered-Unflagged s))
          (scan_lines (drop start_offset file)) (initial_stream s start_offset) h)

  after_open-Unflagged :
      (target : Target) (import_url file : Text) (start_offset : ℕ) (s : ImportSummary)
      (o : Option GoError)
      → s.normalized_ts ≡ false
      → (after_open codec settings target import_url file start_offset s o).summary.normalized_ts
        ≡ false
  after_open-Unflagged target import_url file start_offset s (some e) h = h
  after_open-Unflagged target import_url file start_offset s none h =
      after_seek-Unflagged target import_url file start_offset s
        (elim start_offset [ zero ↦ none | suc n ↦ target.seek (suc n) ]) h

-- Where the timestamps of each line of the file are int64 and the cutoff is not positive, the summary of an
-- import never says that timestamps were put in milliseconds, whatever their unit is: the loop has done
-- this to them before the place where it sets the flag.
pub stream_import-normalized_ts :
    (codec : Codec) (target : Target) (import_url : Text) (bundle : BundleInfo)
    (settings : Settings) (file : Text) (start_offset : ℕ)
    → ((line : Text) → DecodesInt64 (codec.decode_line line))
    → leb_ℤ settings.retention_cutoff_ms (pos 0) ≡ true
    → (stream_import codec target import_url bundle settings file
        start_offset).summary.normalized_ts
      ≡ false
unfolding stream_import
stream_import-normalized_ts codec target import_url bundle settings file start_offset int64
      no_cutoff =
    after_open-Unflagged codec settings int64 no_cutoff target import_url file start_offset
      (initial_summary bundle settings start_offset) target.open_file refl
