-- ===== src/Export/Adaptive.antt =====
-- export_service.go: the adaptive export of a window. The staging file is the list of its lines; an
-- attempt file and a split file have names of their own, made from the time, so they are values here.
-- The recursion takes fuel.
use vmgather.Prelude.{
  ℕ, zero, suc, ◌+◌, Bool, true, false, List, [], ◌∷◌, ◌++◌, Option, none, some, codes, pos, ltb_ℤ,
  if◌then◌else◌, take,
}
use vmgather.Domain.{ExportConfig}
use vmgather.Vm.Errors.{GoError, wrap, error_kind_of}
use vmgather.Export.Metric.{ExportedMetric}
use vmgather.Export.Backend.{
  Backend, Result, ok, fail, Appended, whole, torn, unopened_source, unopened_destination, unclosed,
}
use vmgather.Export.Process.{
  ExportAttempt, by_query_range, RetryStrategy, query_range_fallback, split_by_job, split_by_time,
  increase_step, Decision, AdaptiveExportStats, RunState, fetch_and_process_attempt,
}
use vmgather.Export.Plans.{
  Plan, fall_back, split_jobs, give_up, split_time, raise_step, plan_for, job_children, time_child,
  enrich_adaptive_error,
}

-- `recordAdaptiveDecision`
abbrev pub is_increase_step : RetryStrategy → Bool
is_increase_step increase_step = true
is_increase_step _ = false

unfoldable pub record_adaptive_decision : AdaptiveExportStats → Decision → AdaptiveExportStats
record_adaptive_decision s d = record s {
  decisions = s.decisions ++ (d ∷ []);
  max_step_seconds_used =
      if ltb_ℤ s.max_step_seconds_used d.step_seconds
      then d.step_seconds
      else s.max_step_seconds_used;
  sampled = if is_increase_step d.strategy then true else s.sampled;
}

-- A retry is counted, reported with the new count, and recorded.
unfoldable pub note_retry : RunState → Decision → RunState
unfolding record_adaptive_decision
note_retry st d = record st {
  retry_count = st.retry_count + 1;
  reported = st.reported ++ ((st.retry_count + 1, d) ∷ []);
  stats = record_adaptive_decision st.stats d;
}

abbrev pub Lines : Type 0
Lines = List ExportedMetric

-- How a call ends: with a count, with an error, or without the fuel to end.
pub data Outcome : Type 0 where
  done : ℕ → Outcome
  failed : GoError → Outcome
  out_of_fuel : Outcome

-- The state, the staging file and the count or error that a call ends with.
abbrev pub Run : Type 0
Run = RunState × Lines × Outcome

-- `appendFile`: what it leaves of the destination, and its error.
abbrev pub append_file : Lines → Lines → Appended → ℕ → Lines × Outcome
append_file main source whole count = (main ++ source, done count)
append_file main source (unopened_source e) count =
    (main, failed (wrap (codes "failed to open attempt file") e))
append_file main source (unopened_destination e) count =
    (main, failed (wrap (codes "failed to append staging file") e))
append_file main source (torn n e) count =
    (main ++ take n source, failed (wrap (codes "failed to append attempt output") e))
append_file main source (unclosed e) count =
    (main ++ source, failed (wrap (codes "failed to close staging file after append") e))

abbrev pub appended : Backend → RunState → Lines → Lines → ℕ → Run
appended b st main source count =
    let (main', r) = append_file main source (b.append_file st.calls) count in
    (record st { calls = suc st.calls }, main', r)

-- The loop of `runSplitAttemptsAtomically` over the children, each writing to the split file.
abbrev pub next_child : ℕ → (Lines → RunState → ℕ → Run) → Run → Run
next_child total rest (st, split, done count) = rest split st (total + count)
next_child total rest (st, split, failed e) = (st, split, failed e)
next_child total rest (st, split, out_of_fuel) = (st, split, out_of_fuel)

unfoldable pub run_children :
    (ExportAttempt → Lines → RunState → Run) → List ExportAttempt → Lines → RunState → ℕ → Run
run_children again [] split st total = (st, split, done total)
run_children again (c ∷ cs) split st total =
    next_child total (run_children again cs) (again c split st)

abbrev pub join_split : Backend → Lines → Run → Run
join_split b main (st, split, done total) = appended b st main split total
join_split b main (st, split, failed e) = (st, main, failed e)
join_split b main (st, split, out_of_fuel) = (st, main, out_of_fuel)

abbrev pub run_created :
    Backend
    → (ExportAttempt → Lines → RunState → Run)
    → List ExportAttempt
    → Lines
    → RunState
    → Option GoError
    → Run
run_created b again children main st (some e) =
    (st, main, failed (wrap (codes "failed to initialize split staging file") e))
run_created b again children main st none = join_split b main (run_children again children [] st 0)

-- `runSplitAttemptsAtomically`
unfoldable pub run_split_attempts_atomically :
    Backend → (ExportAttempt → Lines → RunState → Run) → List ExportAttempt → Lines → RunState → Run
unfolding run_children
run_split_attempts_atomically b again children main st =
    run_created b again children main (record st { calls = suc st.calls }) (b.create_file st.calls)

abbrev pub run_job_children :
    Backend
    → (ExportAttempt → Lines → RunState → Run)
    → Lines
    → RunState
    → GoError
    → Option (List ExportAttempt)
    → Run
run_job_children b again main st e none = (st, main, failed e)
run_job_children b again main st e (some children) =
    run_split_attempts_atomically b again children main st

-- The branches of the `switch`; `again` is the recursive call.
unfoldable pub respond :
    Backend
    → ExportConfig
    → (ExportAttempt → Lines → RunState → Run)
    → ExportAttempt
    → Lines
    → RunState
    → GoError
    → Plan
    → Run
unfolding note_retry run_split_attempts_atomically enrich_adaptive_error job_children
respond b config again a main st e fall_back =
    again (record a { use_query_range = true; depth = a.depth + 1; strategy = by_query_range }) main
      (note_retry st (record {
        strategy = query_range_fallback;
        error_kind = error_kind_of e;
        time_range = a.time_range;
        step_seconds = pos 0;
      }))
respond b config again a main st e split_jobs =
    run_job_children b again main
      (note_retry st (record {
        strategy = split_by_job;
        error_kind = error_kind_of e;
        time_range = a.time_range;
        step_seconds = pos 0;
      }))
      (enrich_adaptive_error (error_kind_of e) e a config.safety.min_window_seconds)
      (job_children config a a.jobs)
respond b config again a main st e (split_time left right) =
    run_split_attempts_atomically b again (time_child a left ∷ time_child a right ∷ []) main (
      note_retry st (record {
        strategy = split_by_time;
        error_kind = error_kind_of e;
        time_range = a.time_range;
        step_seconds = a.step_seconds;
      }))
respond b config again a main st e (raise_step step) =
    again (record a { step_seconds = step; depth = 0; strategy = by_query_range }) main
      (note_retry st (record {
        strategy = increase_step;
        error_kind = error_kind_of e;
        time_range = a.time_range;
        step_seconds = step;
      }))
respond b config again a main st e give_up = (
  st,
  main,
  failed (enrich_adaptive_error (error_kind_of e) e a config.safety.min_window_seconds),
)

abbrev pub after_attempt :
    Backend
    → ExportConfig
    → (ExportAttempt → Lines → RunState → Run)
    → ExportAttempt
    → Lines
    → RunState × Result (Lines × ℕ)
    → Run
after_attempt b config again a main (st, ok (lines, count)) = appended b st main lines count
after_attempt b config again a main (st, fail e) =
    respond b config again a main st e (plan_for config.safety a (error_kind_of e))

-- `exportWindowAdaptive`
unfoldable pub export_window_adaptive :
    Backend → ExportConfig → ℕ → ExportAttempt → Lines → RunState → Run
unfolding respond plan_for fetch_and_process_attempt
export_window_adaptive b config zero a main st = (st, main, out_of_fuel)
export_window_adaptive b config (suc fuel) a main st =
    after_attempt b config (export_window_adaptive b config fuel) a main
      (fetch_and_process_attempt b config a st)
