-- ===== src/Export/Archive.antt =====
-- export_service.go: what `ExecuteExport` gives to the archive writer.
use vmgather.Prelude.{
  ℕ, ◌≡◌, refl, sym, ap, ◌∙◌, List, [], ◌++◌, Option, none, some, pos, length, subst, arith, Text,
  ltb_ℤ, if-both, text_eq, drop,
}
use vmgather.Domain.{TimeRange, ExportConfig}
use vmgather.Batching.{calculate_batch_windows}
use vmgather.Defaults.{apply_export_service_defaults, apply_export_defaults}
use vmgather.Vm.Errors.{GoError}
use vmgather.Export.Backend.{Backend, Result, ok, fail, AppendsWhole}
use vmgather.Export.Adaptive.{Lines, Outcome, done, failed, out_of_fuel}
use vmgather.Export.Service.{
  Host, BatchRun, batches_from, Finish, exported_as, rejected, unfinished, sized, archived,
  archive_opened, close_export, run_export, open_export, make_export, initialize_staging_file,
  with_staging_file, execute_export, ArchiveMetadata, build_archive_metadata, staging_dir_of,
  start_index, first_state,
}
use vmgather.Export.Batches.{total_metrics, Accounts, run_batches-Reported}

-- What is in the archive of an export that succeeds, where the staging file held `kept` at the start.
abbrev pub ArchivedAs : Host → Lines → Finish → Type 0
ArchivedAs host kept (exported_as result) =
    (out : Lines) × (meta : ArchiveMetadata) × (host.create_archive result.export_id (kept ++ out)
        meta
      ≡ ok (result.archive_path, result.sha256))
    × (length out ≡ result.metrics_exported)
    × (meta.metrics_count ≡ result.metrics_exported)
ArchivedAs host kept (rejected e) = Unit {0}
ArchivedAs host kept unfinished = Unit {0}

module _ (host : Host) (kept out : Lines) (export_id : Text) (config : ExportConfig) (count : ℕ)
    (meta : ArchiveMetadata) (counted : length out ≡ count)
    (known : meta.metrics_count ≡ count) where
  sized-ArchivedAs :
      (path sum : Text) (r : Result ℕ)
      → host.create_archive export_id (kept ++ out) meta ≡ ok (path, sum)
      → ArchivedAs host kept (sized export_id config count path sum host r)
  sized-ArchivedAs path sum (ok size) e = (out, meta, e, counted, known)
  sized-ArchivedAs path sum (fail x) e = tt

  archived-ArchivedAs :
      (r : Result (Text × Text))
      → host.create_archive export_id (kept ++ out) meta ≡ r
      → ArchivedAs host kept (archived export_id config count host r)
  archived-ArchivedAs (ok (path, sum)) e = sized-ArchivedAs path sum (host.get_archive_size path) e
  archived-ArchivedAs (fail x) e = tt

metadata_lem :
    (host : Host) (export_id : Text) (config : ExportConfig) (count : ℕ) (r : BatchRun)
    → (build_archive_metadata host export_id config count r.state.obfuscator
        r.state.stats).metrics_count
      ≡ count
unfolding build_archive_metadata
metadata_lem host export_id config count r = refl

archive_opened-ArchivedAs :
    (host : Host) (export_id : Text) (config : ExportConfig) (r : BatchRun) (count : ℕ)
    (kept out : Lines) (e : Option GoError)
    → r.staging ≡ kept ++ out
    → length out ≡ count
    → ArchivedAs host kept (archive_opened host export_id config r count e)
archive_opened-ArchivedAs host export_id config r count kept out (some x) s c = tt
archive_opened-ArchivedAs host export_id config r count kept out none s c =
    let meta =
      build_archive_metadata host export_id config count r.state.obfuscator r.state.stats in
    archived-ArchivedAs host kept out export_id config count meta c
      (metadata_lem host export_id config count r) (host.create_archive export_id r.staging meta)
      (ap (λ l. host.create_archive export_id l meta) (sym s))

close_export-ArchivedAs :
    (host : Host) (export_id : Text) (config : ExportConfig) (ws : List TimeRange) (index : ℕ)
    (kept : Lines) (r : BatchRun) (o : Outcome)
    → (out : Lines) × (r.staging ≡ kept ++ out) × (length out ≡ total_metrics r.progress)
    → Accounts ws 0 r.progress o
    → ArchivedAs host kept (close_export host export_id config r o).finish
close_export-ArchivedAs host export_id config ws index kept r (done count) (out, s, c) a =
    archive_opened-ArchivedAs host export_id config r count kept out
      (host.open_source config.staging_file) s (omega (arith, c, a.1))
close_export-ArchivedAs host export_id config ws index kept r (failed x) h a = tt
close_export-ArchivedAs host export_id config ws index kept r out_of_fuel h a = tt

-- What the staging file holds when the batches start.
abbrev pub kept_lines : ExportConfig → Option Lines → Lines
kept_lines config stored = initialize_staging_file stored (ltb_ℤ (pos 0) config.resume_from_batch)

pub apply_export_service_defaults_resume :
    (config : ExportConfig)
    → (apply_export_service_defaults config).resume_from_batch ≡ config.resume_from_batch
unfolding apply_export_service_defaults apply_export_defaults
apply_export_service_defaults_resume config =
    if-both (λ c. c.resume_from_batch ≡ config.resume_from_batch) _
      (record (apply_export_defaults config) { batching = config.batching })
      (apply_export_defaults config) refl refl

pub with_staging_file_resume :
    (host : Host) (config : ExportConfig)
    → (with_staging_file host config).resume_from_batch ≡ config.resume_from_batch
with_staging_file_resume host config =
    if-both (λ c. c.resume_from_batch ≡ config.resume_from_batch) (text_eq config.staging_file []) _
      config refl refl

module _ (host : Host) (b : Backend) (quiet : AppendsWhole b) (fuel : ℕ)
    (stored : Option Lines) where
  run_export-ArchivedAs :
      (config : ExportConfig)
      → ArchivedAs host (kept_lines config stored) (run_export host b config fuel stored).finish
  run_export-ArchivedAs config =
      let ws = calculate_batch_windows config.time_range config.batching in
      let first = start_index config.resume_from_batch (length ws) in
      let main = kept_lines config stored in
      let h =
        run_batches-Reported host ws b quiet config fuel (drop first ws) first main
          (first_state config) 0 in
      let r = batches_from host b config fuel ws main in
      close_export-ArchivedAs host host.generate_export_id config (drop first ws) first main r
        r.outcome h.0 h.2

  open_export-ArchivedAs :
      (config : ExportConfig) (e : Option GoError)
      → ArchivedAs host (kept_lines config stored) (open_export host b config fuel stored e).finish
  open_export-ArchivedAs config (some x) = tt
  open_export-ArchivedAs config none = run_export-ArchivedAs config

  make_export-ArchivedAs :
      (config : ExportConfig) (e : Option GoError)
      → ArchivedAs host (kept_lines config stored) (make_export host b config fuel stored e).finish
  make_export-ArchivedAs config (some x) = tt
  make_export-ArchivedAs config none =
      open_export-ArchivedAs config (host.open_staging config.staging_file)

  -- Where an append that fails fails in opening a file, an export that succeeds has made its archive of what the staging
  -- file held at the start (nothing, for an export that does not resume) and of as many new lines as
  -- its result and the archive's metadata count.
  pub execute_export-ArchivedAs :
      (config : ExportConfig)
      → ArchivedAs host (kept_lines config stored) (execute_export host b config fuel stored).finish
  unfolding execute_export
  execute_export-ArchivedAs config =
      let c = with_staging_file host (apply_export_service_defaults config) in
      subst
        (λ n.
          ArchivedAs host (initialize_staging_file stored (ltb_ℤ (pos 0) n))
            (make_export host b c fuel stored (host.make_dir (staging_dir_of host c))).finish)
        (with_staging_file_resume host (apply_export_service_defaults config)
          ∙ apply_export_service_defaults_resume config)
        (make_export-ArchivedAs c (host.make_dir (staging_dir_of host c)))
