-- ===== src/Importer/Stream/Rounds.antt =====
-- server.go of the importer: each step of the loop of `streamImport` keeps account of the lines read.
use vmgather.Prelude.{
  ℕ, ◌+◌, ◌≡◌, ◌≢◌, refl, sym, ap, subst, ◌∙◌, ◌⊎◌, inl, inr, List, [], ◌∷◌, ◌++◌, append_assoc,
  append-nil, Option, none, some, Text, length, leb, arith, if-both,
}
use vmgather.Importer.Defs.{ImportSummary, Codec}
use vmgather.Importer.Lines.{Settings, Ready, prepare_line}
use vmgather.Importer.Lines.Payload.{
  prepare_line-SameProgress, ready_text, payload, payload-append, payload-snoc,
}
use vmgather.Importer.Scanner.Offsets.{span, span-append}
use vmgather.Importer.Stream.{
  max_import_chunk_bytes, Answer, accepted, refused, Target, joined, add_to_chunk, Stream,
  commit_summary, answered, commit_chunk, store_line, take_line, commit_if_full,
}
use vmgather.Importer.Stream.Progress.{
  concatenated-snoc, joined-snoc, Committed, Waiting, Accounted,
}

pub commit_nothing :
    (target : Target) (s : Stream) → s.chunk.lines ≡ [] → commit_chunk target s ≡ (s, none)
unfolding commit_chunk
commit_nothing target s e = rw (e) refl

pub commit_lines :
    (target : Target) (s : Stream) (l : Text) (ls : List Text)
    → s.chunk.lines ≡ l ∷ ls
    → commit_chunk target s
      ≡ answered s
          (joined s.chunk.lines)
          (target.post_import_chunk s.summary.chunks (joined s.chunk.lines))
unfolding commit_chunk
commit_lines target s l ls e = rw (e) refl

-- What an answer keeps, a commit keeps.
pub commit_chunk_keeps :
    (P : Stream → Type 0) (target : Target) (s : Stream)
    → ((body : Text) (a : Answer) → P s → P (answered s body a).0)
    → P s
    → P (commit_chunk target s).0
commit_chunk_keeps P target s k h = cases s.chunk.lines refl
  where
    cases : (ls : List Text) → s.chunk.lines ≡ ls → P (commit_chunk target s).0
    cases [] e = subst (λ r. P r.0) (sym (commit_nothing target s e)) h
    cases (l ∷ ls) e =
        subst (λ r. P r.0) (sym (commit_lines target s l ls e))
          (k _ (target.post_import_chunk s.summary.chunks (joined s.chunk.lines)) h)

module _ (codec : Codec) (settings : Settings) (z : ImportSummary) (origin : ℕ) where
  span-line :
      (offset : ℕ) (done pending : List Text) (line : Text)
      → offset ≡ origin + span (done ++ pending)
      → offset + (length line + 1) ≡ origin + span (done ++ (pending ++ (line ∷ [])))
  unfolding span
  span-line offset done pending line e =
      rw (sym (append_assoc done pending (line ∷ [])), span-append (done ++ pending) (line ∷ []))
        (omega (arith, e))

  -- `prepared` is what becomes of the line, from any summary.
  store_line-Waiting :
      (s : Stream) (summary : ImportSummary) (prepared : Option Ready) (line : Text)
      (done pending : List Text)
      → ((xs : List Text)
          → payload codec settings z (xs ++ (line ∷ []))
            ≡ payload codec settings z xs ++ ready_text prepared)
      → Waiting codec settings z origin s done pending
      → Waiting codec settings z origin
          (store_line
            (record s { current_offset = s.current_offset + (length line + 1) })
            (summary, prepared))
          done
          (pending ++ (line ∷ []))
  unfolding add_to_chunk payload
  store_line-Waiting s summary none line done pending h (held, silent, e, j, q, o, c) = (
    held,
    silent ++ (line ∷ []),
    ap (λ t. t ++ (line ∷ [])) e ∙ append_assoc held silent (line ∷ []),
    j,
    h silent ∙ append-nil _ ∙ q,
    o,
    span-line s.current_offset done pending line c,
  )
  store_line-Waiting s summary (some ready) line done pending h (held, silent, e, j, q, o, c) = (
    pending ++ (line ∷ []),
    [],
    sym (append-nil _),
    joined-snoc s.chunk.lines ready.line
        ∙ ap (λ t. t ++ ready_text (some ready))
            (j
              ∙ sym (
                  ap (payload codec settings z) e
                  ∙ payload-append codec settings z held silent
                  ∙ ap (λ t. payload codec settings z held ++ t) q
                  ∙ append-nil _))
        ∙ sym (h pending),
    refl,
    inr (span-line s.current_offset done pending line c),
    span-line s.current_offset done pending line c,
  )

  take_line-Waiting :
      (s : Stream) (line : Text) (done pending : List Text)
      → Waiting codec settings z origin s done pending
      → Waiting codec settings z origin
          (take_line codec settings s line)
          done
          (pending ++ (line ∷ []))
  unfolding take_line
  take_line-Waiting s line done pending h =
      store_line-Waiting s (prepare_line codec settings s.summary line).0
        (prepare_line codec settings s.summary line).1 line done pending
        (λ xs. payload-snoc codec settings z s.summary xs line) h

  store_line-Committed :
      (s : Stream) (summary : ImportSummary) (prepared : Option Ready) (offset : ℕ)
      (done : List Text)
      → summary.processed_bytes ≡ s.summary.processed_bytes
      → Committed codec settings z origin s done
      → Committed codec settings z origin
          (store_line (record s { current_offset = offset }) (summary, prepared))
          done
  store_line-Committed s summary none offset done h (a, b, c) = (a, b, h ∙ c)
  store_line-Committed s summary (some ready) offset done h (a, b, c) = (a, b, h ∙ c)

  take_line-Committed :
      (s : Stream) (line : Text) (done : List Text)
      → Committed codec settings z origin s done
      → Committed codec settings z origin (take_line codec settings s line) done
  unfolding take_line
  take_line-Committed s line done h =
      store_line-Committed s _ (prepare_line codec settings s.summary line).1 _ done
        (prepare_line-SameProgress codec settings s.summary line).0 h

  pub take_line-Accounted :
      (s : Stream) (line : Text) (lines : List Text)
      → Accounted codec settings z origin s lines
      → Accounted codec settings z origin (take_line codec settings s line) (lines ++ (line ∷ []))
  take_line-Accounted s line lines (done, pending, e, committed, waiting) = (
    done,
    pending ++ (line ∷ []),
    ap (λ t. t ++ (line ∷ [])) e ∙ append_assoc done pending (line ∷ []),
    take_line-Committed s line done committed,
    take_line-Waiting s line done pending waiting,
  )

  end_of_chunk :
      (s : Stream) (offset : ℕ)
      → s.chunk.lines ≢ []
      → (s.chunk.lines ≡ []) ⊎ (s.chunk.end_offset ≡ offset)
      → s.chunk.end_offset ≡ offset
  end_of_chunk s offset h (inl e) = elim (h e) [ ]
  end_of_chunk s offset h (inr e) = e

  answered-Accounted :
      (s : Stream) (body : Text) (a : Answer) (lines : List Text)
      → body ≡ joined s.chunk.lines
      → s.chunk.lines ≢ []
      → Accounted codec settings z origin s lines
      → Accounted codec settings z origin (answered s body a).0 lines
  unfolding commit_summary payload joined
  answered-Accounted s body (refused err) lines eb h (done, pending, e, (p, c, b), waiting) =
      (done, pending, e, (p, c, refl), waiting)
  answered-Accounted s body (accepted status message) lines eb h
        (done, pending, e, (p, c, b), (held, silent, eh, j, q, o, off)) =
      (
        done ++ held,
        silent,
        e ∙ regrouped,
        (
          concatenated-snoc s.posted body
              ∙ rw (p, eb, j) (sym (payload-append codec settings z done held)),
          end_of_chunk s _ h o,
          refl,
        ),
        ([], silent, refl, refl, q, inl refl, off ∙ ap (λ t. origin + span t) regrouped),
      )
    where
      regrouped : done ++ pending ≡ (done ++ held) ++ silent
      regrouped = ap (λ t. done ++ t) eh ∙ sym (append_assoc done held silent)

  pub commit_chunk-Accounted :
      (target : Target) (s : Stream) (lines : List Text)
      → Accounted codec settings z origin s lines
      → Accounted codec settings z origin (commit_chunk target s).0 lines
  commit_chunk-Accounted target s lines h = cases s.chunk.lines refl
    where
      cases :
          (ls : List Text)
          → s.chunk.lines ≡ ls
          → Accounted codec settings z origin (commit_chunk target s).0 lines
      cases [] e =
          subst (λ r. Accounted codec settings z origin r.0 lines) (sym (commit_nothing target s e))
            h
      cases (l ∷ ls) e =
          subst (λ r. Accounted codec settings z origin r.0 lines)
            (sym (commit_lines target s l ls e))
            (answered-Accounted s _
              (target.post_import_chunk s.summary.chunks (joined s.chunk.lines)) lines refl
              (subst (λ t. t ≢ []) (sym e) (λ k. cc)) h)

  pub commit_if_full-Accounted :
      (target : Target) (s : Stream) (lines : List Text)
      → Accounted codec settings z origin s lines
      → Accounted codec settings z origin (commit_if_full target s).0 lines
  unfolding commit_if_full
  commit_if_full-Accounted target s lines h =
      if-both (λ r. Accounted codec settings z origin r.0 lines)
        (leb max_import_chunk_bytes (length (joined s.chunk.lines))) (commit_chunk target s)
        (s, none) (commit_chunk-Accounted target s lines h) h
