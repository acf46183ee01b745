-- ===== src/Importer/Import/Counts.antt =====
-- server.go of the importer: the counts of the summary of an import.
use vmgather.Prelude.{
  ℕ, zero, suc, ◌+◌, ◌≡◌, refl, sym, ◌∙◌, List, [], ◌∷◌, ◌++◌, Option, none, some, Text, drop,
  length, length-append, arith,
}
use vmgather.Vm.Errors.{GoError}
use vmgather.Importer.Defs.{ImportSummary, BundleInfo, Codec}
use vmgather.Importer.Scanner.{scan_lines}
use vmgather.Importer.Lines.{Settings, Ready, prepare_line}
use vmgather.Importer.Lines.Payload.{SameProgress, prepare_line-SameProgress}
use vmgather.Importer.Stream.{
  Answer, accepted, refused, Target, Stream, commit_summary, answered, store_line, take_line,
  stream_lines,
}
use vmgather.Importer.Stream.Progress.{concatenated, concatenated-snoc}
use vmgather.Importer.Stream.Rounds.{commit_chunk_keeps}
use vmgather.Importer.Stream.Loop.{stream_lines_keeps}
use vmgather.Importer.Import.{
  Imported, initial_summary, initial_stream, finished, after_seek, after_open, stream_import,
}

-- 1, 2, …, n
unfoldable pub counted_to : ℕ → List ℕ
counted_to zero = []
counted_to (suc n) = counted_to n ++ (suc n ∷ [])

-- The summary counts the accepted bodies and their bytes, and each commit was reported with its number.
abbrev pub Counted : ImportSummary → List Text → List ℕ → Type 0
Counted s posted reported =
    (s.bytes ≡ length (concatenated posted))
    × (s.chunks ≡ length posted)
    × (reported ≡ counted_to (length posted))

abbrev StreamCounted : Stream → Type 0
StreamCounted s = Counted s.summary s.posted s.reported

one_more : (n : ℕ) → n + 1 ≡ suc n
one_more n = omega arith

answered-Counted :
    (s : Stream) (body : Text) (a : Answer) → StreamCounted s → StreamCounted (answered s body a).0
unfolding commit_summary counted_to
answered-Counted s body (refused e) h = h
answered-Counted s body (accepted status message) (b, c, r) = (
  rw (b, concatenated-snoc s.posted body) (sym (length-append (concatenated s.posted) body)),
  rw (c) (sym (length-append s.posted (body ∷ []))),
  rw
      (
        length-append s.posted (body ∷ []),
        one_more (length s.posted),
        one_more s.summary.chunks,
        c,
        r,
      )
      refl,
)

store_line-Counted :
    (s : Stream) (summary : ImportSummary) (prepared : Option Ready) (offset : ℕ)
    → SameProgress summary s.summary
    → StreamCounted s
    → StreamCounted (store_line (record s { current_offset = offset }) (summary, prepared))
store_line-Counted s summary none offset h (b, c, r) = (h.1 ∙ b, h.2 ∙ c, r)
store_line-Counted s summary (some ready) offset h (b, c, r) = (h.1 ∙ b, h.2 ∙ c, r)

take_line-Counted :
    (codec : Codec) (settings : Settings) (s : Stream) (line : Text)
    → StreamCounted s
    → StreamCounted (take_line codec settings s line)
unfolding take_line
take_line-Counted codec settings s line h =
    store_line-Counted s _ (prepare_line codec settings s.summary line).1 _
      (prepare_line-SameProgress codec settings s.summary line) h

abbrev pub ImportCounted : Imported → Type 0
ImportCounted r = Counted r.summary r.posted r.reported

finished-Counted :
    (import_url : Text) (r : Stream × Option GoError)
    → StreamCounted r.0
    → ImportCounted (finished import_url r)
finished-Counted import_url (s, none) h = h
finished-Counted import_url (s, some e) h = h

-- An import of a file, whatever the server answers and whether it fails or not: the summary's chunks
-- are the bodies that were accepted, its bytes are their lengths added up, and the progress was reported
-- once for each, as 1, 2, and so on.
pub stream_import-Counted :
    (codec : Codec) (target : Target) (import_url : Text) (bundle : BundleInfo)
    (settings : Settings) (file : Text) (start_offset : ℕ)
    → ImportCounted (stream_import codec target import_url bundle settings file start_offset)
unfolding stream_import concatenated counted_to
stream_import-Counted codec target import_url bundle settings file start_offset =
    opened target.open_file
  where
    sought :
        (o : Option GoError)
        → ImportCounted (
            after_seek codec settings target import_url file start_offset
              (initial_summary bundle settings start_offset)
              o)
    sought (some e) = (refl, refl, refl)
    sought none =
        finished-Counted import_url
          (stream_lines codec settings target (scan_lines (drop start_offset file))
            (initial_stream (initial_summary bundle settings start_offset) start_offset))
          (stream_lines_keeps StreamCounted codec settings target (take_line-Counted codec settings)
            (λ s. commit_chunk_keeps StreamCounted target s (answered-Counted s))
            (scan_lines (drop start_offset file))
            (initial_stream (initial_summary bundle settings start_offset) start_offset)
            (refl, refl, refl))

    opened :
        (o : Option GoError)
        → ImportCounted (
            after_open codec settings target import_url file start_offset
              (initial_summary bundle settings start_offset)
              o)
    opened (some e) = (refl, refl, refl)
    opened none = sought (elim start_offset [ zero ↦ none | suc n ↦ target.seek (suc n) ])
