-- ===== src/Importer/Stream/Progress.antt =====
-- server.go of the importer: what the loop of `streamImport` has sent, and the offset it has committed.
use vmgather.Prelude.{
  ℕ, ◌+◌, ◌≡◌, refl, sym, ap, ◌∙◌, ◌⊎◌, List, [], ◌∷◌, ◌++◌, append_assoc, append-nil, Text,
}
use vmgather.Importer.Defs.{ImportSummary, Codec}
use vmgather.Importer.Lines.{Settings}
use vmgather.Importer.Lines.Payload.{payload}
use vmgather.Importer.Scanner.{newline}
use vmgather.Importer.Scanner.Offsets.{span}
use vmgather.Importer.Stream.{joined, Stream}

-- The bodies one after the other.
unfoldable pub concatenated : List Text → Text
concatenated [] = []
concatenated (b ∷ bs) = b ++ concatenated bs

pub concatenated-snoc :
    (bs : List Text) (b : Text) → concatenated (bs ++ (b ∷ [])) ≡ concatenated bs ++ b
unfolding concatenated
concatenated-snoc [] b = append-nil b
concatenated-snoc (x ∷ bs) b = ap (λ t. x ++ t) (concatenated-snoc bs b) ∙ sym (append_assoc x _ b)

pub joined-snoc :
    (ls : List Text) (l : Text) → joined (ls ++ (l ∷ [])) ≡ joined ls ++ (l ++ (newline ∷ []))
unfolding joined
joined-snoc [] l = refl
joined-snoc (x ∷ ls) l =
    ap (λ t. x ++ (newline ∷ t)) (joined-snoc ls l) ∙ sym (append_assoc x (newline ∷ joined ls) _)

module _ (codec : Codec) (settings : Settings) (z : ImportSummary) (origin : ℕ) where
  -- The lines that the server has, and the offset behind them.
  abbrev pub Committed : Stream → List Text → Type 0
  Committed s done =
      (concatenated s.posted ≡ payload codec settings z done)
      × (s.committed_offset ≡ origin + span done)
      × (s.summary.processed_bytes ≡ s.committed_offset)

  -- The lines read since then: the chunk holds what the first of them gave and ends behind them, and
  -- the others gave nothing.
  abbrev pub Waiting : Stream → List Text → List Text → Type 0
  Waiting s done pending =
      (held : List Text) × (silent : List Text) × (pending ≡ held ++ silent)
      × (joined s.chunk.lines ≡ payload codec settings z held)
      × (payload codec settings z silent ≡ [])
      × ((s.chunk.lines ≡ []) ⊎ (s.chunk.end_offset ≡ origin + span (done ++ held)))
      × (s.current_offset ≡ origin + span (done ++ pending))

  -- Lines that were read: what the server has of them, and what is waiting.
  abbrev pub Accounted : Stream → List Text → Type 0
  Accounted s lines =
      (done : List Text) × (pending : List Text) × (lines ≡ done ++ pending)
      × Committed s done
      × Waiting s done pending
