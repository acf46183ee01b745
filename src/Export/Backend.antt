-- ===== src/Export/Backend.antt =====
-- What the export asks of VictoriaMetrics and of the file system. The answer to a call depends on the
-- number of calls before it, so that a server may answer the same question differently every time.
use vmgather.Prelude.{
  ℕ, zero, suc, ◌+◌, ◌*◌, List, [], ◌∷◌, ◌++◌, Option, none, some, Text, codes, ℤ, ltb,
  if◌then◌else◌, ◌≡◌, ◌⊎◌,
}
use vmgather.Domain.{TimeRange, second}
use vmgather.Vm.Errors.{GoError, wrap}
use vmgather.Export.Metric.{ExportedMetric, Labels}

pub data Result {ℓ} (A : Type ℓ) : Type ℓ where
  ok : A → Result A
  fail : GoError → Result A

-- A body that is read line by line: the metrics decoded, then the end (`none`) or an error.
pub record Stream : Type 0 where
  pub metrics : List ExportedMetric
  pub ending : Option GoError

-- A value of a JSON array in an answer of query_range; a number is given in milliseconds, as
-- `int64(timestamp * 1000)` makes it.
pub data JsonValue : Type 0 where
  number : ℤ → JsonValue
  text : Text → JsonValue
  other : JsonValue

-- vm.Result
pub record Series : Type 0 where
  pub metric : Labels
  pub values : List (List JsonValue)

pub data Appended : Type 0 where
  whole : Appended
  -- An error in opening either file, so nothing is copied; one after so many lines were copied; one in
  -- closing the file that all lines were copied to.
  unopened_source unopened_destination : GoError → Appended
  torn : ℕ → GoError → Appended
  unclosed : GoError → Appended

pub record Backend : Type 0 where
  -- client.Export
  pub export : ℕ → Text → TimeRange → Result Stream
  -- client.QueryRange, with the step in nanoseconds
  pub query_range : ℕ → Text → TimeRange → ℤ → Result (List Series)
  -- strconv.ParseFloat and the JSON encoding of what it gives
  pub parse_float : Text → Option Text
  -- `ctx.Err()` before a chunk, and closing the body of an answer
  pub context_error : ℕ → Option GoError
  pub close_reader : ℕ → Option GoError
  -- Creating an attempt file or a split file; flushing, then closing an attempt file;
  -- appending one file to another
  pub create_file : ℕ → Option GoError
  -- The metric, by its place, that cannot be encoded or written to an attempt file, with the error
  pub write_metric : ℕ → Option (ℕ × GoError)
  pub flush_file : ℕ → Option GoError
  pub close_file : ℕ → Option GoError
  pub append_file : ℕ → Appended
  pub sha256 : Text → Text

-- An append that fails fails in opening a file, never in the middle.
abbrev pub AppendsWhole : Backend → Type 0
AppendsWhole b =
    (n : ℕ)
    → (b.append_file n ≡ whole)
      ⊎ ((e : GoError) × ((b.append_file n ≡ unopened_source e)
            ⊎ (b.append_file n ≡ unopened_destination e)))

module _ (b : Backend) where
  -- One point of a series; what is malformed is skipped.
  unfoldable pub export_point : Labels → List JsonValue → List ExportedMetric
  export_point labels (number ms ∷ text value ∷ more) = elim (b.parse_float value) [
    | none ↦ []
    | some v ↦ record { metric = labels; values = v ∷ []; timestamps = ms ∷ [] } ∷ []
  ]
  export_point labels _ = []

  unfoldable pub export_points : Labels → List (List JsonValue) → List ExportedMetric
  unfolding export_point
  export_points labels [] = []
  export_points labels (v ∷ vs) = export_point labels v ++ export_points labels vs

  unfoldable pub export_series : List Series → List ExportedMetric
  unfolding export_points
  export_series [] = []
  export_series (s ∷ ss) = export_points s.metric s.values ++ export_series ss

  abbrev pub chunk_nanoseconds : ℕ
  chunk_nanoseconds = 60 * 60 * second

  abbrev pub chunk_end : ℕ → ℕ → ℕ
  chunk_end current stop =
      if ltb stop (current + chunk_nanoseconds) then stop else current + chunk_nanoseconds

  -- What a chunk puts in front of the rest of the stream; an error ends the stream. The rest is given
  -- with the number of calls made.
  abbrev pub chunk_stream : Result (List Series) → ℕ × Stream → ℕ → ℕ × Stream
  chunk_stream (ok series) (calls, rest) n =
      (calls, record rest { metrics = export_series series ++ rest.metrics })
  chunk_stream (fail e) rest n =
      (suc n, record { metrics = []; ending = some (wrap (codes "query_range chunk failed") e) })

  -- A chunk is not asked for once the context is done.
  abbrev pub unless_canceled : Option GoError → ℕ → ℕ × Stream → ℕ × Stream
  unless_canceled (some e) n rest = (n, record { metrics = []; ending = some e })
  unless_canceled none n rest = rest

  -- The loop of `exportViaQueryRange` over chunks of an hour; fuel for every nanosecond left.
  unfoldable pub query_chunks : ℕ → ℕ → Text → ℕ → ℕ → ℤ → ℕ × Stream
  unfolding export_series
  query_chunks zero n selector current stop step = (n, record { metrics = []; ending = none })
  query_chunks (suc fuel) n selector current stop step =
      let next = chunk_end current stop in
      let result = b.query_range n selector (record { start = current; end = next }) step in
      let whole_rest = chunk_stream result (query_chunks fuel (suc n) selector next stop step) n in
      if ltb current stop
      then unless_canceled (b.context_error n) n whole_rest
      else (n, record { metrics = []; ending = none })
