-- ===== src/Importer/Import/Resume.antt =====
-- server.go of the importer: an import that is resumed at the offset that a failed one has committed.
use vmgather.Prelude.{
  ℕ, ◌+◌, ◌≡◌, refl, sym, ap, subst, ◌∙◌, inl, List, [], ◌++◌, append_assoc, append-nil, Option,
  none, some, Text, drop, arith, codes,
}
use vmgather.Vm.Errors.{GoError, wrap}
use vmgather.Importer.Defs.{ImportSummary, BundleInfo, Codec}
use vmgather.Importer.Scanner.{scan_lines}
use vmgather.Importer.Scanner.Offsets.{span, NoReturn, scan_lines-drop}
use vmgather.Importer.Lines.{Settings}
use vmgather.Importer.Lines.Payload.{payload, payload-append}
use vmgather.Importer.Stream.{Target, Stream, joined}
use vmgather.Importer.Stream.Progress.{concatenated, Accounted}
use vmgather.Importer.Stream.Loop.{Ended, stream_lines-Ended}
use vmgather.Importer.Import.{
  Imported, initial_summary, initial_stream, not_started, finished, after_seek, after_open,
  stream_import,
}

module _ (codec : Codec) (settings : Settings) (z : ImportSummary) (origin : ℕ) where
  -- Lines give nothing to send, where there is no error.
  abbrev pub Sent : Option GoError → List Text → Type 0
  Sent none rest = payload codec settings z rest ≡ []
  Sent (some e) rest = Unit

  -- An import of lines has sent exactly some first ones of them, and its summary has their offset; if
  -- it does not fail, it has sent all.
  abbrev pub Ran : Imported → List Text → Type 0
  Ran r lines =
      (done : List Text) × (rest : List Text) × (lines ≡ done ++ rest)
      × (concatenated r.posted ≡ payload codec settings z done)
      × (r.summary.processed_bytes ≡ origin + span done)
      × Sent r.error rest

  finished-Ran :
      (import_url : Text) (r : Stream × Option GoError) (lines : List Text)
      → Ended codec settings z origin r lines
      → Ran (finished import_url r) lines
  unfolding joined
  finished-Ran import_url (s, some err) lines
        (read, unread, e, (done, pending, e_read, (p, c, b), waiting), complete) =
      (
        done,
        pending ++ unread,
        e ∙ ap (λ t. t ++ unread) e_read ∙ append_assoc done pending unread,
        p,
        b ∙ c,
        tt,
      )
  finished-Ran import_url (s, none) lines
        (
          read,
          unread,
          e,
          (done, pending, e_read, (p, c, b), (held, silent, eh, j, q, o, off)),
          (eu, ec),
        ) =
      (
        done,
        pending ++ unread,
        e ∙ ap (λ t. t ++ unread) e_read ∙ append_assoc done pending unread,
        p,
        b ∙ c,
        rw (eu, append-nil pending, eh, payload-append codec settings z held silent, q, sym j, ec)
            refl,
      )

  initial_stream-Accounted :
      (s : ImportSummary)
      → s.processed_bytes ≡ origin
      → Accounted codec settings z origin (initial_stream s origin) []
  unfolding concatenated payload joined span
  initial_stream-Accounted s e =
      ([], [], refl, (refl, omega arith, e), ([], [], refl, refl, refl, inl refl, omega arith))

  not_started-Ran :
      (s : ImportSummary) (e : GoError) (lines : List Text)
      → s.processed_bytes ≡ origin
      → Ran (not_started s e) lines
  unfolding concatenated payload span
  not_started-Ran s e lines h = ([], lines, refl, refl, h ∙ omega arith, tt)

  module _ (target : Target) (import_url file : Text) (s : ImportSummary)
      (h : s.processed_bytes ≡ origin) where
    after_seek-Ran :
        (o : Option GoError)
        → Ran
            (after_seek codec settings target import_url file origin s o)
            (scan_lines (drop origin file))
    after_seek-Ran (some e) = not_started-Ran s (wrap (codes "failed to seek for resume") e) _ h
    after_seek-Ran none = finished-Ran import_url _ _ (
        stream_lines-Ended codec settings z origin target (scan_lines (drop origin file))
          (initial_stream s origin) [] (initial_stream-Accounted s h))

    after_open-Ran :
        (o : Option GoError)
        → Ran
            (after_open codec settings target import_url file origin s o)
            (scan_lines (drop origin file))
    after_open-Ran (some e) =
        not_started-Ran s (wrap (codes "failed to open metrics for import") e) _ h
    after_open-Ran none = after_seek-Ran _

-- An import from an offset, whatever the server answers, has sent what some first lines behind the
-- offset give, each of them once and in their order, and reports the offset behind these lines; where it
-- reports no error, the other lines give nothing.
pub stream_import-Ran :
    (codec : Codec) (settings : Settings) (bundle : BundleInfo) (target : Target)
    (import_url file : Text) (z : ImportSummary) (start_offset : ℕ)
    → Ran codec settings z start_offset
        (stream_import codec target import_url bundle settings file start_offset)
        (scan_lines (drop start_offset file))
unfolding stream_import
stream_import-Ran codec settings bundle target import_url file z start_offset =
    after_open-Ran codec settings z start_offset target import_url file
      (initial_summary bundle settings start_offset) refl target.open_file

rest_sent :
    (codec : Codec) (settings : Settings) (z : ImportSummary) (origin : ℕ) (r : Imported)
    (lines : List Text)
    → Ran codec settings z origin r lines
    → r.error ≡ none
    → concatenated r.posted ≡ payload codec settings z lines
rest_sent codec settings z origin r lines (done, rest, e, p, b, sent) h =
    p
    ∙ sym (append-nil _)
    ∙ ap (λ t. payload codec settings z done ++ t)
        (sym (subst (λ o. Sent codec settings z origin o rest) h sent))
    ∙ sym (payload-append codec settings z done rest)
    ∙ ap (payload codec settings z) (sym e)

-- Two imports one after the other, of a file without carriage returns.
pub runs_joined :
    (codec : Codec) (settings : Settings) (z : ImportSummary) (file : Text)
    (first second : Imported)
    → NoReturn file
    → Ran codec settings z 0 first (scan_lines file)
    → Ran codec settings z first.summary.processed_bytes second
        (scan_lines (drop first.summary.processed_bytes file))
    → second.error ≡ none
    → concatenated first.posted ++ concatenated second.posted
      ≡ payload codec settings z (scan_lines file)
runs_joined codec settings z file first second h (done, rest, e, p, b, sent) k succeeded =
    rw
      (
        p,
        rest_sent codec settings z offset second (scan_lines (drop offset file)) k succeeded,
        at_offset,
        scan_lines-drop file done rest h e,
        e,
      )
      (sym (payload-append codec settings z done rest))
  where
    offset : ℕ
    offset = first.summary.processed_bytes

    at_offset : offset ≡ span done
    at_offset = omega (arith, b)

-- In a file without carriage returns, an import from its start, and a second one from the offset that
-- the first one reports, with whatever answers of the servers and records of the bundle: where the second one reports no error,
-- the bodies that were accepted in the two hold what the lines of the file give, each once.
pub stream_import_resumed :
    (codec : Codec) (settings : Settings) (bundle again_bundle : BundleInfo) (first second : Target)
    (import_url file : Text) (z : ImportSummary)
    → NoReturn file
    → (stream_import codec second import_url again_bundle settings file
        (stream_import codec first import_url bundle settings file 0).summary.processed_bytes).error
      ≡ none
    → concatenated (stream_import codec first import_url bundle settings file 0).posted
        ++ concatenated
            (stream_import codec second import_url again_bundle settings file
              (stream_import codec first import_url bundle settings file
                0).summary.processed_bytes).posted
      ≡ payload codec settings z (scan_lines file)
stream_import_resumed codec settings bundle again_bundle first second import_url file z h =
    runs_joined codec settings z file (stream_import codec first import_url bundle settings file 0)
      (stream_import codec second import_url again_bundle settings file
        (stream_import codec first import_url bundle settings file 0).summary.processed_bytes)
      h (stream_import-Ran codec settings bundle first import_url file z 0)
      (stream_import-Ran codec settings again_bundle second import_url file z _)
