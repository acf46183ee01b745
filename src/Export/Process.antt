-- ===== src/Export/Process.antt =====
-- export_service.go: an attempt to fetch a window, and the processing of what comes back.
use vmgather.Prelude.{
  ltb, length, take, ℕ, suc, ◌-◌, Bool, true, false, List, [], ◌∷◌, Option, none, some, Text, codes,
  ℤ, ltb_ℤ, if◌then◌else◌,
}
use vmgather.Domain.{TimeRange, ObfuscationConfig, ExportConfig}
use vmgather.Obfuscation.{Obfuscator, new_obfuscator}
use vmgather.Vm.Errors.{ErrorKind, GoError, wrap}
use vmgather.Export.Metric.{ExportedMetric, drop_labels, apply_obfuscation, or_else}
use vmgather.Export.Split.{unique_strings, determine_query_range_step}
use vmgather.Export.Selector.{build_export_query}
use vmgather.Export.Backend.{Backend, Result, ok, fail, Stream, query_chunks}

pub data Strategy : Type 0 where
  by_export by_query_range : Strategy

pub record ExportAttempt : Type 0 where
  pub selector : Text
  pub time_range : TimeRange
  pub use_query_range : Bool
  pub depth : ℕ
  pub jobs : List Text
  pub strategy : Strategy
  pub step_seconds : ℤ

-- archive.AdaptiveDecision, and the progress event that it is made from
pub data RetryStrategy : Type 0 where
  query_range_fallback split_by_job split_by_time increase_step : RetryStrategy

pub record Decision : Type 0 where
  pub strategy : RetryStrategy
  pub error_kind : ErrorKind
  pub time_range : TimeRange
  pub step_seconds : ℤ

pub record AdaptiveExportStats : Type 0 where
  pub mode : Text
  pub max_step_seconds_used : ℤ
  pub sampled : Bool
  pub decisions : List Decision

-- What an export carries along: the number of calls made to the backend, the obfuscator (a nil one is
-- `none`), the retry counter of the batch, the statistics, and the retries reported so far.
pub record RunState : Type 0 where
  pub calls : ℕ
  pub obfuscator : Option Obfuscator
  pub retry_count : ℕ
  pub stats : AdaptiveExportStats
  pub reported : List (ℕ × Decision)

abbrev pub strategy_of : Bool → Strategy
strategy_of true = by_query_range
strategy_of false = by_export

unfoldable pub new_export_attempt : ExportConfig → TimeRange → ExportAttempt
new_export_attempt config tr =
    let (selector, use_query_range) = build_export_query config in
    record {
      selector = selector;
      time_range = tr;
      use_query_range = use_query_range;
      depth = 0;
      jobs = unique_strings config.jobs;
      strategy = strategy_of use_query_range;
      step_seconds = config.metric_step_seconds;
    }

-- `processMetricsIntoWriter` on the metrics that were decoded: the state of the obfuscator, the lines
-- written, and their number. Without an obfuscator at hand the code makes one that it then drops.
abbrev pub process_metric :
    (Text → Text) → ObfuscationConfig → Obfuscator → ExportedMetric → Obfuscator × ExportedMetric
process_metric sha256 config o m =
    let kept = drop_labels config.drop_labels m.metric in
    let (o', labels) =
      if config.enabled then apply_obfuscation sha256 config o kept else (o, kept) in
    (o', record m { metric = labels })

unfoldable pub process_metrics :
    (Text → Text)
    → ObfuscationConfig
    → Obfuscator
    → List ExportedMetric
    → Obfuscator × List ExportedMetric × ℕ
process_metrics sha256 config o [] = (o, [], 0)
process_metrics sha256 config o (m ∷ ms) =
    let (o', line) = process_metric sha256 config o m in
    let (o'', lines, count) = process_metrics sha256 config o' ms in (o'', line ∷ lines, suc count)

abbrev pub keep_obfuscator : Option Obfuscator → Obfuscator → Option Obfuscator
keep_obfuscator none o = none
keep_obfuscator (some old) o = some o

abbrev pub decode_error : Option GoError → Option GoError
decode_error none = none
decode_error (some e) = some (wrap (codes "decode error") e)

-- The metrics of a stream that are processed, and the error that ends this: one of encoding or writing
-- the last of them, or else the one that the stream ends with.
abbrev pub taken : Option (ℕ × GoError) → Stream → List ExportedMetric × Option GoError
taken none s = (s.metrics, decode_error s.ending)
taken (some (k, e)) s =
    if ltb k (length s.metrics)
    then (take (suc k) s.metrics, some e)
    else (s.metrics, decode_error s.ending)

abbrev pub written :
    Option GoError
    → Option GoError
    → Option GoError
    → Option GoError
    → List ExportedMetric × ℕ
    → Result (List ExportedMetric × ℕ)
written (some e) reader flush file out = fail e
written none (some e) flush file out = fail e
written none none (some e) file out = fail (wrap (codes "failed to flush attempt file") e)
written none none none (some e) out = fail (wrap (codes "failed to close attempt file") e)
written none none none none out = ok out

-- `recordAttemptSuccess`
unfoldable pub record_attempt_success : AdaptiveExportStats → ExportAttempt → AdaptiveExportStats
record_attempt_success s a = record s {
  sampled = if a.use_query_range then true else s.sampled;
  max_step_seconds_used =
      if ltb_ℤ s.max_step_seconds_used a.step_seconds
      then a.step_seconds
      else s.max_step_seconds_used;
}

abbrev pub note_success :
    ExportAttempt
    → RunState × Result (List ExportedMetric × ℕ)
    → RunState × Result (List ExportedMetric × ℕ)
note_success a (st, ok out) = (record st { stats = record_attempt_success st.stats a }, ok out)
note_success a (st, fail e) = (st, fail e)

module _ (b : Backend) where
  -- `exportViaQueryRange`
  unfoldable pub export_via_query_range : ℕ → Text → TimeRange → ℤ → ℕ × Stream
  unfolding query_chunks
  export_via_query_range n selector tr step_seconds =
      query_chunks b (tr.end - tr.start) n selector tr.start tr.end
        (determine_query_range_step tr step_seconds)

  abbrev pub exported : Result Stream → Result Stream
  exported (ok s) = ok s
  exported (fail e) = fail (wrap (codes "export failed") e)

  -- `fetchAttemptReader`
  unfoldable pub fetch_attempt_reader : ℕ → ExportAttempt → ℕ × Result Stream
  unfolding export_via_query_range
  fetch_attempt_reader n a =
      if a.use_query_range
      then (let (n', s) = export_via_query_range n a.selector a.time_range a.step_seconds in
          (n', ok s))
      else (suc n, exported (b.export n a.selector a.time_range))

  -- The lines that a fetched stream gives, with the obfuscator's state; what was decoded before an
  -- error has gone through the obfuscator too.
  abbrev pub process_stream :
      ExportConfig → RunState → ℕ → Result Stream → RunState × Result (List ExportedMetric × ℕ)
  process_stream config st n (fail e) = (record st { calls = n }, fail e)
  process_stream config st n (ok stream) =
      let (metrics, failure) = taken (b.write_metric n) stream in
      let (o, lines, count) =
        process_metrics b.sha256 config.obfuscation (or_else st.obfuscator new_obfuscator)
          metrics in
      (
        record st { calls = suc n; obfuscator = keep_obfuscator st.obfuscator o },
        written failure (b.close_reader n) (b.flush_file n) (b.close_file n) (lines, count),
      )

  abbrev pub fetch_created :
      ExportConfig
      → ExportAttempt
      → RunState
      → Option GoError
      → RunState × Result (List ExportedMetric × ℕ)
  fetch_created config a st (some e) =
      (record st { calls = suc st.calls }, fail (wrap (codes "failed to create attempt file") e))
  fetch_created config a st none =
      let (n, r) = fetch_attempt_reader (suc st.calls) a in process_stream config st n r

  -- `fetchAndProcessAttempt`
  unfoldable pub fetch_and_process_attempt :
      ExportConfig → ExportAttempt → RunState → RunState × Result (List ExportedMetric × ℕ)
  unfolding record_attempt_success
  fetch_and_process_attempt config a st =
      note_success a (fetch_created config a st (b.create_file st.calls))
