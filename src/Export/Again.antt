-- ===== src/Export/Again.antt =====
-- export_service.go: an export that is resumed after its last batch.
use vmgather.Prelude.{ℕ, ◌≡◌, ◌∙◌, List, Option, none, some, pos, length, subst, arith, Text, drop}
use vmgather.Domain.{TimeRange, ExportConfig}
use vmgather.Batching.{calculate_batch_windows}
use vmgather.Batching.Count.{calculate_batch_windows_pos}
use vmgather.Defaults.{apply_export_service_defaults}
use vmgather.Jobs.Progress.{BatchProgress}
use vmgather.Vm.Errors.{GoError}
use vmgather.Export.Backend.{Backend, Result, ok, fail, AppendsWhole}
use vmgather.Export.Adaptive.{Lines, Outcome, done, failed, out_of_fuel}
use vmgather.Export.Service.{
  Host, BatchRun, batches_from, Finish, exported_as, rejected, unfinished, sized, archived,
  archive_opened, close_export, run_export, open_export, make_export, with_staging_file,
  execute_export, staging_dir_of, start_index, first_state,
}
use vmgather.Export.Batches.{total_metrics, Follows, Accounts, run_batches-Reported}
use vmgather.Export.Archive.{
  ArchivedAs, kept_lines, apply_export_service_defaults_resume, with_staging_file_resume,
  execute_export-ArchivedAs,
}
use vmgather.Export.Finish.{after_last_lem, kept_lem}

-- An export that succeeds has reported each of the windows, numbered from `index + 1`, and its result
-- counts what the reports do.
abbrev pub ReportsAll : ℕ → List TimeRange → List BatchProgress → Finish → Type 0
ReportsAll index ws ps (exported_as result) =
    (length ps ≡ length ws) × Follows index ws ps × (result.metrics_exported ≡ total_metrics ps)
ReportsAll index ws ps (rejected e) = Unit {0}
ReportsAll index ws ps unfinished = Unit {0}

module _ (host : Host) (export_id : Text) (config : ExportConfig) (index : ℕ)
    (ws : List TimeRange) where
  module _ (count : ℕ) (ps : List BatchProgress) (all : length ps ≡ length ws)
      (follows : Follows index ws ps) (counted : count ≡ total_metrics ps) where
    sized-ReportsAll :
        (path sum : Text) (r : Result ℕ)
        → ReportsAll index ws ps (sized export_id config count path sum host r)
    sized-ReportsAll path sum (ok size) = (all, follows, counted)
    sized-ReportsAll path sum (fail e) = tt

    archived-ReportsAll :
        (r : Result (Text × Text)) → ReportsAll index ws ps (archived export_id config count host r)
    archived-ReportsAll (ok (path, sum)) = sized-ReportsAll path sum (host.get_archive_size path)
    archived-ReportsAll (fail e) = tt

  opened-ReportsAll :
      (r : BatchRun) (count : ℕ) (e : Option GoError)
      → Follows index ws r.progress
      → Accounts ws 0 r.progress (done count)
      → ReportsAll index ws r.progress (archive_opened host export_id config r count e)
  opened-ReportsAll r count (some e) f a = tt
  opened-ReportsAll r count none f a =
      archived-ReportsAll count r.progress a.0 f (omega (arith, a.1)) (host.create_archive _ _ _)

  close_export-ReportsAll :
      (r : BatchRun) (o : Outcome)
      → Follows index ws r.progress
      → Accounts ws 0 r.progress o
      → let x = close_export host export_id config r o in ReportsAll index ws x.progress x.finish
  close_export-ReportsAll r (done count) f a =
      opened-ReportsAll r count (host.open_source config.staging_file) f a
  close_export-ReportsAll r (failed e) f a = tt
  close_export-ReportsAll r out_of_fuel f a = tt

-- The windows of an export, with the defaults of its configuration.
abbrev pub windows_of : Host → ExportConfig → List TimeRange
windows_of host config =
    let c = with_staging_file host (apply_export_service_defaults config) in
    calculate_batch_windows c.time_range c.batching

module _ (host : Host) (b : Backend) (quiet : AppendsWhole b) (fuel : ℕ)
    (stored : Option Lines) where
  abbrev first_of : ExportConfig → ℕ
  first_of c =
      start_index c.resume_from_batch (length (calculate_batch_windows c.time_range c.batching))

  abbrev left_of : ExportConfig → List TimeRange
  left_of c = drop (first_of c) (calculate_batch_windows c.time_range c.batching)

  run_export-ReportsAll :
      (c : ExportConfig)
      → let x = run_export host b c fuel stored in
        ReportsAll (first_of c) (left_of c) x.progress x.finish
  run_export-ReportsAll c =
      let ws = calculate_batch_windows c.time_range c.batching in
      let h =
        run_batches-Reported host ws b quiet c fuel (left_of c) (first_of c) (kept_lines c stored)
          (first_state c) 0 in
      let r = batches_from host b c fuel ws (kept_lines c stored) in
      close_export-ReportsAll host host.generate_export_id c (first_of c) (left_of c) r r.outcome
        h.1 h.2

  open_export-ReportsAll :
      (c : ExportConfig) (e : Option GoError)
      → let x = open_export host b c fuel stored e in
        ReportsAll (first_of c) (left_of c) x.progress x.finish
  open_export-ReportsAll c (some e) = tt
  open_export-ReportsAll c none = run_export-ReportsAll c

  make_export-ReportsAll :
      (c : ExportConfig) (e : Option GoError)
      → let x = make_export host b c fuel stored e in
        ReportsAll (first_of c) (left_of c) x.progress x.finish
  make_export-ReportsAll c (some e) = tt
  make_export-ReportsAll c none = open_export-ReportsAll c (host.open_staging c.staging_file)

-- Where an append that fails fails in opening a file: an export that is resumed after its last batch and
-- succeeds has reported every window again from the first on, and its archive is made of the lines that
-- were in the staging file, followed by as many new ones as these reports count.
pub execute_export-again :
    (host : Host) (b : Backend) (fuel : ℕ) (lines : Lines) (config : ExportConfig)
    → AppendsWhole b
    → config.resume_from_batch ≡ pos (length (windows_of host config))
    → let x = execute_export host b config fuel (some lines) in
      ReportsAll 0 (windows_of host config) x.progress x.finish × ArchivedAs host lines x.finish
unfolding execute_export
execute_export-again host b fuel lines config quiet resumes =
    let c = with_staging_file host (apply_export_service_defaults config) in
    let x = execute_export host b config fuel (some lines) in
    let ws = windows_of host config in
    let same =
      with_staging_file_resume host (apply_export_service_defaults config)
      ∙ apply_export_service_defaults_resume config
      ∙ resumes in
    (
      subst (λ n. ReportsAll n (drop n ws) x.progress x.finish)
          (after_last_lem c.resume_from_batch (length ws) same)
          (make_export-ReportsAll host b quiet fuel (some lines) c
            (host.make_dir (staging_dir_of host c))),
      subst (λ kept. ArchivedAs host kept x.finish)
          (kept_lem config.resume_from_batch lines ws
            (calculate_batch_windows_pos c.time_range c.batching) resumes)
          (execute_export-ArchivedAs host b quiet fuel (some lines) config),
    )
