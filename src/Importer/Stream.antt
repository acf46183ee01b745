-- ===== src/Importer/Stream.antt =====
-- internal/importer/server/server.go: `streamImport`, which sends the lines of a bundle in chunks. The
-- answer of the server to a chunk depends on the number of chunks before it.
pub mod Progress
pub mod Rounds
pub mod Loop
use vmgather.Prelude.{
  ℕ, suc, ◌+◌, ◌*◌, ◌-◌, ◌||◌, List, [], ◌∷◌, ◌++◌, Option, none, some, Text, codes, ℤ, pos, ltb,
  leb, ltb_ℤ, eq_ℤ, ◌==◌, if◌then◌else◌, text_eq, length, lookup, take, head_or,
}
use vmgather.Vm.Errors.{GoError, plain}
use vmgather.Export.Metric.{Labels}
use vmgather.Importer.Defs.{ImportSummary, Codec}
use vmgather.Importer.DropLabels.{select_label_subset}
use vmgather.Importer.Lines.{Settings, Ready, prepare_line}
use vmgather.Importer.Scanner.{newline, max_token_bytes}

abbrev pub max_import_chunk_bytes : ℕ
max_import_chunk_bytes = 512 * 1024

-- What the answer to a chunk is: a status with the text of the body, or an error.
pub data Answer : Type 0 where
  accepted : ℕ → Text → Answer
  refused : GoError → Answer

-- `os.Open` and `Seek` of the metrics file, and `postImportChunk`.
pub record Target : Type 0 where
  pub open_file : Option GoError
  pub seek : ℕ → Option GoError
  -- Reading the file fails when so many lines of it are left; a line is read as a whole.
  pub read_error : ℕ → Option GoError
  pub post_import_chunk : ℕ → Text → Answer

-- The chunk that is being filled: its lines with their newlines. A zero timestamp is an unset one.
pub record Chunk : Type 0 where
  pub lines : List Text
  pub points : ℕ
  pub labels : List Labels
  pub metric : Text
  pub min_ts : ℤ
  pub max_ts : ℤ
  pub end_offset : ℕ

unfoldable pub joined : List Text → Text
joined [] = []
joined (l ∷ ls) = l ++ (newline ∷ joined ls)

abbrev pub empty_chunk : ℕ → Chunk
empty_chunk end_offset = record {
  lines = [];
  points = 0;
  labels = [];
  metric = [];
  min_ts = pos 0;
  max_ts = pos 0;
  end_offset = end_offset;
}

-- `parsed.Metric["__name__"]`
abbrev pub text_or_empty : Option Text → Text
text_or_empty none = []
text_or_empty (some s) = s

unfoldable pub last_or : ℤ → List ℤ → ℤ
last_or d [] = d
last_or d (t ∷ ts) = last_or t ts

-- A line that is ready goes into the chunk, which then ends at the offset reached.
unfoldable pub add_to_chunk : Chunk → Ready → ℕ → Chunk
unfolding last_or select_label_subset
add_to_chunk chunk ready offset =
    let first = head_or (pos 0) ready.timestamps in
    let last = last_or (pos 0) ready.timestamps in
    record {
      lines = chunk.lines ++ (ready.line ∷ []);
      points = chunk.points + length ready.timestamps;
      labels =
          if ltb (length chunk.labels) 5
          then chunk.labels ++ (select_label_subset ready.labels ∷ [])
          else chunk.labels;
      metric =
          if text_eq chunk.metric []
          then text_or_empty (lookup (codes "__name__") ready.labels)
          else chunk.metric;
      min_ts =
          if eq_ℤ chunk.min_ts (pos 0) || ltb_ℤ first chunk.min_ts then first else chunk.min_ts;
      max_ts = if ltb_ℤ chunk.max_ts last then last else chunk.max_ts;
      end_offset = offset;
    }

-- The state of the loop. `posted` holds the bodies that the server accepted, and `reported` the calls
-- of `progress`.
pub record Stream : Type 0 where
  pub summary : ImportSummary
  pub current_offset : ℕ
  pub committed_offset : ℕ
  pub chunk : Chunk
  pub last_status : ℕ
  pub last_message : Text
  pub posted : List Text
  pub reported : List ℕ

abbrev pub earlier : Option ℤ → ℤ → Option ℤ
earlier none t = some t
earlier (some s) t = some (if ltb_ℤ t s then t else s)

abbrev pub later : Option ℤ → ℤ → Option ℤ
later none t = some t
later (some s) t = some (if ltb_ℤ s t then t else s)

-- The summary after a chunk was accepted.
unfoldable pub commit_summary : ImportSummary → Chunk → ℕ → ImportSummary
commit_summary s chunk size = record s {
  bytes = s.bytes + size;
  points = s.points + chunk.points;
  chunks = s.chunks + 1;
  processed_bytes = chunk.end_offset;
  start = if ltb_ℤ (pos 0) chunk.min_ts then earlier s.start chunk.min_ts else s.start;
  end = if ltb_ℤ (pos 0) chunk.max_ts then later s.end chunk.max_ts else s.end;
  metric_name = if text_eq s.metric_name [] then chunk.metric else s.metric_name;
  labels = if length s.labels == 0 then head_or [] chunk.labels else s.labels;
  examples = s.examples ++ take (3 - length s.examples) chunk.labels;
}

abbrev pub answered : Stream → Text → Answer → Stream × Option GoError
answered s body (refused e) =
    (record s { summary = record s.summary { processed_bytes = s.committed_offset } }, some e)
answered s body (accepted status message) =
    let summary = commit_summary s.summary s.chunk (length body) in
    (
      record s {
        summary = summary;
        committed_offset = s.chunk.end_offset;
        chunk = empty_chunk s.chunk.end_offset;
        last_status = status;
        last_message = message;
        posted = s.posted ++ (body ∷ []);
        reported = s.reported ++ (summary.chunks ∷ []);
      },
      none,
    )

-- `commitChunk`
unfoldable pub commit_chunk : Target → Stream → Stream × Option GoError
unfolding joined commit_summary
commit_chunk target s = elim s.chunk.lines [
  | [] ↦ (s, none)
  | l ∷ ls ↦
      let body = joined s.chunk.lines in
      answered s body (target.post_import_chunk s.summary.chunks body)
]

abbrev pub store_line : Stream → ImportSummary × Option Ready → Stream
store_line s (summary, none) = record s { summary = summary }
store_line s (summary, some ready) = record s {
  summary = summary;
  chunk = add_to_chunk s.chunk ready s.current_offset;
}

-- A round of the loop before the test for a full chunk.
unfoldable pub take_line : Codec → Settings → Stream → Text → Stream
unfolding prepare_line add_to_chunk
take_line codec settings s line =
    store_line (record s { current_offset = s.current_offset + (length line + 1) })
      (prepare_line codec settings s.summary line)

-- The test stands at the end of a round, which a skipped line does not reach; but then the chunk is
-- not full.
unfoldable pub commit_if_full : Target → Stream → Stream × Option GoError
unfolding commit_chunk joined
commit_if_full target s =
    if leb max_import_chunk_bytes (length (joined s.chunk.lines))
    then commit_chunk target s
    else (s, none)

abbrev pub go_on :
    (Stream → Stream × Option GoError) → Stream × Option GoError → Stream × Option GoError
go_on rest (s, none) = rest s
go_on rest (s, some e) = (s, some e)

abbrev pub token_too_long : GoError
token_too_long = plain (codes "bufio.Scanner: token too long")

-- The loop ends at an error of reading, without a commit.
abbrev pub unless_unread :
    Option GoError → Stream → Stream × Option GoError → Stream × Option GoError
unless_unread none s r = r
unless_unread (some e) s r = (s, some e)

-- The loop over the lines, and the last commit.
unfoldable pub stream_lines :
    Codec → Settings → Target → List Text → Stream → Stream × Option GoError
unfolding take_line commit_if_full commit_chunk
stream_lines codec settings target [] s =
    unless_unread (target.read_error 0) s (commit_chunk target s)
stream_lines codec settings target (line ∷ lines) s =
    let round =
      go_on (stream_lines codec settings target lines)
        (commit_if_full target (take_line codec settings s line)) in
    unless_unread (target.read_error (suc (length lines))) s
      (if leb max_token_bytes (length line) then (s, some token_too_long) else round)
