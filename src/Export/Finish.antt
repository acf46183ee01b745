-- ===== src/Export/Finish.antt =====
-- export_service.go: the end of `ExecuteExport`, and the window that its loop starts at.
use vmgather.Prelude.{
  ℕ, suc, ◌+◌, ◌<◌, ◌≤◌, ◌≡◌, ◌⊎◌, inl, inr, List, [], ◌∷◌, Option, none, some, ℤ, pos, negsuc,
  length, arith, drop, ltb_ℤ, Text, ◌≤ℤ◌, Bool-cases, leb, ap,
}
use vmgather.Domain.{TimeRange, BatchSettings, ExportConfig}
use vmgather.Batching.{calculate_batch_windows}
use vmgather.Batching.Count.{calculate_batch_windows_pos}
use vmgather.Defaults.Ladder.{◌<ℤ◌}
use vmgather.Defaults.{apply_export_service_defaults}
use vmgather.Jobs.Progress.{BatchProgress}
use vmgather.Vm.Errors.{GoError}
use vmgather.Export.Backend.{Backend, Result, ok, fail}
use vmgather.Export.Process.{RunState, new_export_attempt}
use vmgather.Export.Adaptive.{Lines, Run, Outcome, done, failed, out_of_fuel}
use vmgather.Export.Archive.{kept_lines}
use vmgather.Export.Rounds.{rounds_left}
use vmgather.Export.Fuel.{Ends, export_window_adaptive-Ends}
use vmgather.Export.Service.{
  Host, BatchRun, unless_done, batch_progress, after_batch, run_batches, batches_from, Finish,
  exported_as, rejected, unfinished, sized, archived, archive_opened, close_export, open_export,
  make_export, initialize_staging_file, with_staging_file, execute_export, staging_dir_of,
  start_index, first_state,
}

unless_done-Ends :
    (main : Lines) (st : RunState) (e : Option GoError) (r : BatchRun)
    → Ends r.outcome
    → Ends (unless_done main st e r).outcome
unless_done-Ends main st (some x) r h = tt
unless_done-Ends main st none r h = h

after_batch-Ends :
    (progress : ℕ → BatchProgress) (rest : Lines → RunState → ℕ → BatchRun) (total : ℕ) (r : Run)
    → ((m : Lines) (st : RunState) (n : ℕ) → Ends (rest m st n).outcome)
    → Ends r.2
    → Ends (after_batch progress rest total r).outcome
after_batch-Ends progress rest total (st, main, done n) ih h = ih main st (total + n)
after_batch-Ends progress rest total (st, main, failed e) ih h = tt
after_batch-Ends progress rest total (st, main, out_of_fuel) ih h = h

-- The fuel that a window needs; it is the same for every window.
unfoldable pub enough_fuel : ExportConfig → ℕ
enough_fuel config = suc (rounds_left config.safety (new_export_attempt config config.time_range))

module _ (host : Host) (b : Backend) (config : ExportConfig) (fuel : ℕ)
    (enough : enough_fuel config ≤ fuel) (windows : List TimeRange) where
  window_lem : (w : TimeRange) → rounds_left config.safety (new_export_attempt config w) < fuel
  unfolding enough_fuel new_export_attempt
  window_lem w = omega (arith, enough)

  run_batches-Ends :
      (left : List TimeRange) (index : ℕ) (main : Lines) (st : RunState) (total : ℕ)
      → Ends (run_batches host b config fuel windows left index main st total).outcome
  unfolding run_batches
  run_batches-Ends [] index main st total = tt
  run_batches-Ends (w ∷ left) index main st total =
      unless_done-Ends main st (host.context_done index) _ (
        after_batch-Ends (batch_progress host windows w index)
          (run_batches host b config fuel windows left (suc index)) total _
          (λ m s n. run_batches-Ends left (suc index) m s n)
          (export_window_adaptive-Ends b config fuel (new_export_attempt config w) main
            (record st { retry_count = 0 }) (window_lem w)))

abbrev pub IsFinished : Finish → Type 0
IsFinished (exported_as result) = Unit
IsFinished (rejected e) = Unit
IsFinished unfinished = ⊥

sized-IsFinished :
    (host : Host) (id : Text) (config : ExportConfig) (n : ℕ) (path sum : Text) (r : Result ℕ)
    → IsFinished (sized id config n path sum host r)
sized-IsFinished host id config n path sum (ok size) = tt
sized-IsFinished host id config n path sum (fail e) = tt

archived-IsFinished :
    (host : Host) (id : Text) (config : ExportConfig) (n : ℕ) (r : Result (Text × Text))
    → IsFinished (archived id config n host r)
archived-IsFinished host id config n (ok (path, sum)) =
    sized-IsFinished host id config n path sum (host.get_archive_size path)
archived-IsFinished host id config n (fail e) = tt

archive_opened-IsFinished :
    (host : Host) (id : Text) (config : ExportConfig) (r : BatchRun) (n : ℕ) (e : Option GoError)
    → IsFinished (archive_opened host id config r n e)
archive_opened-IsFinished host id config r n (some x) = tt
archive_opened-IsFinished host id config r n none = archived-IsFinished host id config n _

close_export-IsFinished :
    (host : Host) (id : Text) (config : ExportConfig) (r : BatchRun) (o : Outcome)
    → Ends o
    → IsFinished (close_export host id config r o).finish
close_export-IsFinished host id config r (done n) h =
    archive_opened-IsFinished host id config r n (host.open_source config.staging_file)
close_export-IsFinished host id config r (failed e) h = tt
close_export-IsFinished host id config r out_of_fuel h = elim h [ ]

module _ (host : Host) (b : Backend) (fuel : ℕ) (stored : Option Lines) where
  open_export-IsFinished :
      (config : ExportConfig) (e : Option GoError)
      → enough_fuel config ≤ fuel
      → IsFinished (open_export host b config fuel stored e).finish
  open_export-IsFinished config (some x) h = tt
  open_export-IsFinished config none h =
      let ws = calculate_batch_windows config.time_range config.batching in
      close_export-IsFinished host host.generate_export_id config
        (batches_from host b config fuel ws (kept_lines config stored)) _
        (run_batches-Ends host b config fuel h ws
          (drop (start_index config.resume_from_batch (length ws)) ws)
          (start_index config.resume_from_batch (length ws)) _ (first_state config) 0)

  make_export-IsFinished :
      (config : ExportConfig) (e : Option GoError)
      → enough_fuel config ≤ fuel
      → IsFinished (make_export host b config fuel stored e).finish
  make_export-IsFinished config (some x) h = tt
  make_export-IsFinished config none h =
      open_export-IsFinished config (host.open_staging config.staging_file) h

  -- An export ends with a result or an error, whatever the server, the file system and the archive
  -- writer answer, where each window has enough fuel.
  pub execute_export-IsFinished :
      (config : ExportConfig)
      → enough_fuel (with_staging_file host (apply_export_service_defaults config)) ≤ fuel
      → IsFinished (execute_export host b config fuel stored).finish
  unfolding execute_export
  execute_export-IsFinished config h =
      let c = with_staging_file host (apply_export_service_defaults config) in
      make_export-IsFinished c (host.make_dir (staging_dir_of host c)) h

start_index-cases :
    (resume : ℤ) (n : ℕ)
    → 0 < n
    → (start_index resume n < n)
      × ((resume ≡ pos (start_index resume n))
          ⊎ ((start_index resume n ≡ 0) × ((resume <ℤ pos 0) ⊎ (pos n ≤ℤ resume))))
unfolding start_index
start_index-cases (pos k) n h = elim (Bool-cases (leb n k)) [
  | inl e ↦ (ground arith, inr (ground arith, inr (ground arith)))
  | inr e ↦ (ground arith, inl (ap pos (ground arith)))
]
start_index-cases (negsuc k) n h = (ground arith, inr (ground arith, inl (omega arith)))

pub after_last_lem : (r : ℤ) (n : ℕ) → r ≡ pos n → start_index r n ≡ 0
unfolding start_index
after_last_lem r n e = rw (e) ground arith

-- The loop starts at a window of the export: at the one to resume from where that is a window, and at
-- the first where it is negative or after the last.
pub start_index-calculate_batch_windows :
    (resume : ℤ) (tr : TimeRange) (s : BatchSettings)
    → (start_index resume (length (calculate_batch_windows tr s))
        < length (calculate_batch_windows tr s))
      × ((resume ≡ pos (start_index resume (length (calculate_batch_windows tr s))))
          ⊎ ((start_index resume (length (calculate_batch_windows tr s)) ≡ 0)
              × ((resume <ℤ pos 0) ⊎ (pos (length (calculate_batch_windows tr s)) ≤ℤ resume))))
start_index-calculate_batch_windows resume tr s =
    start_index-cases resume (length (calculate_batch_windows tr s))
      (calculate_batch_windows_pos tr s)

pub kept_lem :
    (r : ℤ) (lines : Lines) (ws : List TimeRange)
    → 0 < length ws
    → r ≡ pos (length ws)
    → initialize_staging_file (some lines) (ltb_ℤ (pos 0) r) ≡ lines
unfolding initialize_staging_file
kept_lem r lines ws h e = rw (e) ground arith
