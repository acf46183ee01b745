-- ===== src/Export/Writer.antt =====
-- export_service.go: `ExportToWriter`, which gives the lines of all windows to one writer.
use vmgather.Prelude.{
  ℕ, suc, ◌+◌, Bool, true, false, List, [], ◌∷◌, ◌++◌, Option, none, some, Text, codes, ℤ,
}
use vmgather.Domain.{TimeRange, ExportConfig}
use vmgather.Batching.{calculate_batch_windows}
use vmgather.Defaults.{apply_export_service_defaults}
use vmgather.Obfuscation.{Obfuscator, new_obfuscator}
use vmgather.Vm.Errors.{wrap, error_kind_of, missing_route}
use vmgather.Export.Metric.{or_else}
use vmgather.Export.Selector.{build_export_query}
use vmgather.Export.Backend.{Backend, Result, ok, fail, Stream}
use vmgather.Export.Process.{process_metrics, keep_obfuscator, export_via_query_range}
use vmgather.Export.Adaptive.{Lines}
use vmgather.Export.Service.{first_state}

module _ (b : Backend) where
  -- `fetchBatch`
  abbrev pub fallen_back : Text → TimeRange → ℤ → ℕ → Result Stream → ℕ × Result Stream
  fallen_back selector tr step n (ok s) = (n, ok s)
  fallen_back selector tr step n (fail e) = elim (error_kind_of e) [
    | missing_route ↦ let (n', s) = export_via_query_range b n selector tr step in (n', ok s)
    | _ ↦ (n, fail (wrap (codes "export failed") e))
  ]

  unfoldable pub fetch_batch : ℕ → Text → TimeRange → ℤ → Bool → ℕ × Result Stream
  unfolding export_via_query_range
  fetch_batch n selector tr step true =
      let (n', s) = export_via_query_range b n selector tr step in (n', ok s)
  fetch_batch n selector tr step false =
      fallen_back selector tr step (suc n) (b.export n selector tr)

  abbrev pub plus_count : ℕ → Result ℕ → Result ℕ
  plus_count n (ok total) = ok (n + total)
  plus_count n (fail e) = fail e

  -- The rounds of `exportToWriter`: the lines given to the buffer, and the count or the first error.
  abbrev pub writer_round :
      ExportConfig
      → (ℕ → Option Obfuscator → Lines × Result ℕ)
      → Option Obfuscator
      → ℕ × Result Stream
      → Lines × Result ℕ
  writer_round config rest o (n, fail e) = ([], fail e)
  writer_round config rest o (n, ok s) =
      let (o', lines, count) =
        process_metrics b.sha256 config.obfuscation (or_else o new_obfuscator) s.metrics in
      elim s.ending [
        | some e ↦ (lines, fail (wrap (codes "decode error") e))
        | none ↦ elim (b.close_reader n) [
          | some e ↦ (lines, fail e)
          | none ↦
              let (more, r) = rest n (keep_obfuscator o o') in (lines ++ more, plus_count count r)
        ]
      ]

  unfoldable pub writer_rounds :
      ExportConfig → Text → Bool → List TimeRange → ℕ → Option Obfuscator → Lines × Result ℕ
  unfolding fetch_batch process_metrics
  writer_rounds config selector use_query_range [] n o = ([], ok 0)
  writer_rounds config selector use_query_range (w ∷ ws) n o =
      writer_round config (writer_rounds config selector use_query_range ws) o
        (fetch_batch n selector w config.metric_step_seconds use_query_range)

  -- `exportToWriter`, to a writer that takes all it is given.
  unfoldable pub export_to_writer : ExportConfig → Lines × Result ℕ
  unfolding writer_rounds apply_export_service_defaults calculate_batch_windows build_export_query
  export_to_writer config =
      let c = apply_export_service_defaults config in
      let (selector, use_query_range) = build_export_query c in
      writer_rounds c selector use_query_range (calculate_batch_windows c.time_range c.batching) 0
        (first_state c).obfuscator
