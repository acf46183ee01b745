-- ===== src/Importer/Stream/Loop.antt =====
-- server.go of the importer: the loop of `streamImport` accounts for all its lines.
use vmgather.Prelude.{
  ℕ, suc, ◌≡◌, refl, sym, subst, List, [], ◌∷◌, ◌++◌, append_assoc, Option, none, some, Text,
  length, leb, if-both,
}
use vmgather.Vm.Errors.{GoError}
use vmgather.Importer.Defs.{ImportSummary, Codec}
use vmgather.Importer.Lines.{Settings}
use vmgather.Importer.Scanner.{max_token_bytes}
use vmgather.Importer.Stream.{
  max_import_chunk_bytes, Answer, accepted, refused, Target, joined, Stream, answered, commit_chunk,
  take_line, commit_if_full, go_on, token_too_long, stream_lines, unless_unread,
}
use vmgather.Importer.Stream.Progress.{Accounted}
use vmgather.Importer.Stream.Rounds.{
  commit_nothing, commit_lines, take_line-Accounted, commit_chunk-Accounted,
  commit_if_full-Accounted,
}

module _ (codec : Codec) (settings : Settings) (z : ImportSummary) (origin : ℕ) where
  -- The loop over `unread`, after the lines `lines`: a run that is not cut short reads them all, and
  -- leaves no chunk.
  abbrev Complete : Option GoError → Stream → List Text → Type 0
  Complete none s unread = (unread ≡ []) × (s.chunk.lines ≡ [])
  Complete (some e) s unread = Unit

  abbrev pub Ended : Stream × Option GoError → List Text → Type 0
  Ended r lines =
      (read : List Text) × (unread : List Text) × (lines ≡ read ++ unread)
      × Accounted codec settings z origin r.0 read
      × Complete r.1 r.0 unread

  answered-Complete :
      (s : Stream) (body : Text) (a : Answer)
      → Complete (answered s body a).1 (answered s body a).0 []
  answered-Complete s body (accepted status message) = (refl, refl)
  answered-Complete s body (refused e) = tt

  commit_chunk-Complete :
      (target : Target) (s : Stream)
      → Complete (commit_chunk target s).1 (commit_chunk target s).0 []
  commit_chunk-Complete target s = cases s.chunk.lines refl
    where
      cases :
          (ls : List Text)
          → s.chunk.lines ≡ ls
          → Complete (commit_chunk target s).1 (commit_chunk target s).0 []
      cases [] e = subst (λ r. Complete r.1 r.0 []) (sym (commit_nothing target s e)) (refl, e)
      cases (l ∷ ls) e =
          subst (λ r. Complete r.1 r.0 []) (sym (commit_lines target s l ls e))
            (answered-Complete s _
              (target.post_import_chunk s.summary.chunks (joined s.chunk.lines)))

  go_on-Ended :
      (rest : Stream → Stream × Option GoError) (r : Stream × Option GoError)
      (lines unread : List Text)
      → Accounted codec settings z origin r.0 lines
      → ((s : Stream)
          → Accounted codec settings z origin s lines
          → Ended (rest s) (lines ++ unread))
      → Ended (go_on rest r) (lines ++ unread)
  go_on-Ended rest (s, none) lines unread h k = k s h
  go_on-Ended rest (s, some e) lines unread h k = (lines, unread, refl, h, tt)

  read_on-Ended :
      (e : Option GoError) (s : Stream) (r : Stream × Option GoError) (lines unread : List Text)
      → Accounted codec settings z origin s lines
      → Ended r (lines ++ unread)
      → Ended (unless_unread e s r) (lines ++ unread)
  read_on-Ended none s r lines unread h k = k
  read_on-Ended (some e) s r lines unread h k = (lines, unread, refl, h, tt)

  pub stream_lines-Ended :
      (target : Target) (unread : List Text) (s : Stream) (lines : List Text)
      → Accounted codec settings z origin s lines
      → Ended (stream_lines codec settings target unread s) (lines ++ unread)
  unfolding stream_lines
  stream_lines-Ended target [] s lines h =
      read_on-Ended (target.read_error 0) s (commit_chunk target s) lines [] h (
        lines,
        [],
        refl,
        commit_chunk-Accounted codec settings z origin target s lines h,
        commit_chunk-Complete target s,
      )
  stream_lines-Ended target (line ∷ unread) s lines h =
      read_on-Ended (target.read_error (suc (length unread))) s _ lines (line ∷ unread) h (
        if-both (λ r. Ended r (lines ++ (line ∷ unread))) (leb max_token_bytes (length line))
          (s, some token_too_long) _ (lines, line ∷ unread, refl, h, tt)
          (subst (λ t. Ended (go_on (stream_lines codec settings target unread) round) t)
            (append_assoc lines (line ∷ []) unread)
            (go_on-Ended (stream_lines codec settings target unread) round (lines ++ (line ∷ []))
              unread
              (commit_if_full-Accounted codec settings z origin target
                (take_line codec settings s line) (lines ++ (line ∷ []))
                (take_line-Accounted codec settings z origin s line lines h))
              (λ s k. stream_lines-Ended target unread s (lines ++ (line ∷ [])) k))))
    where
      round : Stream × Option GoError
      round = commit_if_full target (take_line codec settings s line)

-- What the body of the loop and a commit keep, the loop keeps.
module _ (P : Stream → Type 0) (codec : Codec) (settings : Settings) (target : Target)
    (keep_line : (s : Stream) (line : Text) → P s → P (take_line codec settings s line))
    (keep_commit : (s : Stream) → P s → P (commit_chunk target s).0) where
  go_on_keeps :
      (rest : Stream → Stream × Option GoError) (r : Stream × Option GoError)
      → ((s : Stream) → P s → P (rest s).0)
      → P r.0
      → P (go_on rest r).0
  go_on_keeps rest (s, none) k h = k s h
  go_on_keeps rest (s, some e) k h = h

  commit_if_full_keeps : (s : Stream) → P s → P (commit_if_full target s).0
  unfolding commit_if_full
  commit_if_full_keeps s h =
      if-both (λ (r : Stream × Option GoError). P r.0)
        (leb max_import_chunk_bytes (length (joined s.chunk.lines))) (commit_chunk target s)
        (s, none) (keep_commit s h) h

  read_on_keeps :
      (e : Option GoError) (s : Stream) (r : Stream × Option GoError)
      → P s
      → P r.0
      → P (unless_unread e s r).0
  read_on_keeps none s r h k = k
  read_on_keeps (some e) s r h k = h

  pub stream_lines_keeps :
      (lines : List Text) (s : Stream) → P s → P (stream_lines codec settings target lines s).0
  unfolding stream_lines
  stream_lines_keeps [] s h =
      read_on_keeps (target.read_error 0) s (commit_chunk target s) h (keep_commit s h)
  stream_lines_keeps (line ∷ lines) s h =
      read_on_keeps (target.read_error (suc (length lines))) s _ h (
        if-both (λ (r : Stream × Option GoError). P r.0) (leb max_token_bytes (length line))
          (s, some token_too_long) _ h
          (go_on_keeps (stream_lines codec settings target lines) _ (stream_lines_keeps lines)
            (commit_if_full_keeps (take_line codec settings s line) (keep_line s line h))))
