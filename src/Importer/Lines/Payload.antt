-- ===== src/Importer/Lines/Payload.antt =====
-- server.go of the importer: what the lines of a file become, whatever the summary of the import is.
use vmgather.Prelude.{
  ℕ, ◌≡◌, refl, sym, ap, ◌∙◌, Bool, true, false, not, ◌||◌, List, [], ◌∷◌, ◌++◌, append_assoc,
  append-nil, Option, none, some, Text, ℤ, ◌==◌, if◌then◌else◌, length,
}
use vmgather.Export.Metric.{Labels}
use vmgather.Importer.Defs.{MetricLine, ImportSummary, Codec}
use vmgather.Importer.Timestamps.{normalize_values}
use vmgather.Importer.Lines.{
  Settings, Ready, note_labels, encoded, finish_line, with_values, decoded, prepare_line,
}
use vmgather.Importer.Scanner.{newline}

-- The counts that only an accepted chunk changes.
abbrev pub SameProgress : ImportSummary → ImportSummary → Type 0
SameProgress s z =
    (s.processed_bytes ≡ z.processed_bytes)
    × (s.bytes ≡ z.bytes)
    × (s.chunks ≡ z.chunks)
    × (s.points ≡ z.points)

-- The outcome of a line from a summary: the progress stays, and the line is the one that any other
-- summary gives.
abbrev Follows :
    ImportSummary → ImportSummary × Option Ready → ImportSummary × Option Ready → Type 0
Follows s p q = SameProgress p.0 s × (p.1 ≡ q.1)

Follows-if :
    (s : ImportSummary) (t : Bool) (a b c d : ImportSummary × Option Ready)
    → Follows s a b
    → Follows s c d
    → Follows s (if t then a else c) (if t then b else d)
Follows-if s true a b c d h k = h
Follows-if s false a b c d h k = k

encoded-Follows :
    (labels : Labels) (ts : List ℤ) (s w z : ImportSummary) (o : Option Text)
    → SameProgress w s
    → Follows s (encoded labels ts w o) (encoded labels ts z o)
encoded-Follows labels ts s w z none h = (h, refl)
encoded-Follows labels ts s w z (some line) h = (h, refl)

module _ (codec : Codec) (settings : Settings) where
  finish_line-Follows :
      (labels : Labels) (r : List ℤ × List Text × ℕ) (s w z : ImportSummary)
      → SameProgress w s
      → Follows s (finish_line codec settings labels r w) (finish_line codec settings labels r z)
  unfolding finish_line
  finish_line-Follows labels (kept, values, dropped) s w z h =
      Follows-if s (length kept == 0 || not (length kept == length values)) _ _ _ _ (h, refl)
        (encoded-Follows labels _ s _ _ _ h)

  with_values-Follows :
      (labels : Labels) (ts : List ℤ) (s w z : ImportSummary) (o : Option (List Text))
      → SameProgress w s
      → Follows s
          (with_values codec settings labels ts w o)
          (with_values codec settings labels ts z o)
  with_values-Follows labels ts s w z none h = (h, refl)
  with_values-Follows labels ts s w z (some values) h = finish_line-Follows labels _ s w z h

  decoded-Follows :
      (s z : ImportSummary) (o : Option MetricLine)
      → Follows s (decoded codec settings s o) (decoded codec settings z o)
  unfolding note_labels
  decoded-Follows s z none = ((refl, refl, refl, refl), refl)
  decoded-Follows s z (some raw) =
      with_values-Follows _ _ s _ _ (normalize_values codec raw.values) (refl, refl, refl, refl)

  pub prepare_line-SameProgress :
      (s : ImportSummary) (line : Text) → SameProgress (prepare_line codec settings s line).0 s
  unfolding prepare_line
  prepare_line-SameProgress s line = (decoded-Follows s s (codec.decode_line line)).0

  -- Whether and how a line is sent does not depend on the lines before it.
  pub prepare_line_same :
      (s z : ImportSummary) (line : Text)
      → (prepare_line codec settings s line).1 ≡ (prepare_line codec settings z line).1
  unfolding prepare_line
  prepare_line_same s z line = (decoded-Follows s z (codec.decode_line line)).1

-- What a line adds to the body of a chunk.
abbrev pub ready_text : Option Ready → Text
ready_text none = []
ready_text (some ready) = ready.line ++ (newline ∷ [])

-- What lines add up to, each prepared from the same summary.
unfoldable pub payload : Codec → Settings → ImportSummary → List Text → Text
unfolding prepare_line
payload codec settings z [] = []
payload codec settings z (l ∷ ls) =
    ready_text (prepare_line codec settings z l).1 ++ payload codec settings z ls

module _ (codec : Codec) (settings : Settings) (z : ImportSummary) where
  pub payload-append :
      (xs ys : List Text)
      → payload codec settings z (xs ++ ys)
        ≡ payload codec settings z xs ++ payload codec settings z ys
  unfolding payload
  payload-append [] ys = refl
  payload-append (x ∷ xs) ys =
      ap (λ t. ready_text (prepare_line codec settings z x).1 ++ t) (payload-append xs ys)
      ∙ sym (append_assoc (ready_text (prepare_line codec settings z x).1) _ _)

  -- One line more, as another summary prepares it.
  pub payload-snoc :
      (s : ImportSummary) (xs : List Text) (x : Text)
      → payload codec settings z (xs ++ (x ∷ []))
        ≡ payload codec settings z xs ++ ready_text (prepare_line codec settings s x).1
  unfolding payload
  payload-snoc s xs x =
      payload-append xs (x ∷ [])
      ∙ ap (λ t. payload codec settings z xs ++ t)
          (append-nil _ ∙ ap ready_text (prepare_line_same codec settings z s x))
