-- ===== src/Export/Fuel.antt =====
-- export_service.go: the fuel of the recursion of `exportWindowAdaptive`.
use vmgather.Prelude.{ℕ, zero, suc, ◌+◌, ◌<◌, ◌≤◌, List, [], ◌∷◌, Option, none, some, arith, All}
use vmgather.Domain.{ExportConfig, ExportSafetyConfig}
use vmgather.Vm.Errors.{GoError, error_kind_of}
use vmgather.Export.Backend.{
  Backend, Result, ok, fail, Appended, whole, unopened_source, unopened_destination, torn, unclosed,
}
use vmgather.Export.Process.{ExportAttempt, RunState, split_by_time, fetch_and_process_attempt}
use vmgather.Export.Plans.{
  Plan, fall_back, split_jobs, split_time, raise_step, give_up, time_child, plan_for, job_children,
}
use vmgather.Export.Adaptive.{
  Lines, Run, Outcome, done, failed, out_of_fuel, note_retry, append_file, appended, next_child,
  run_children, join_split, run_created, run_split_attempts_atomically, run_job_children, respond,
  after_attempt, export_window_adaptive,
}
use vmgather.Export.Rounds.{
  rounds_left, Allowed, plan_for-Allowed, fall_back_lem, raise_step_lem, AllOption, AllOption-map,
  job_children-AreShorter,
}

abbrev pub Ends : Outcome → Type 0
Ends (done n) = Unit
Ends (failed e) = Unit
Ends out_of_fuel = ⊥

append_file-Ends :
    (main source : Lines) (a : Appended) (count : ℕ) → Ends (append_file main source a count).1
append_file-Ends main source whole count = tt
append_file-Ends main source (unopened_source e) count = tt
append_file-Ends main source (unopened_destination e) count = tt
append_file-Ends main source (torn n e) count = tt
append_file-Ends main source (unclosed e) count = tt

appended-Ends :
    (b : Backend) (st : RunState) (main source : Lines) (count : ℕ)
    → Ends (appended b st main source count).2
appended-Ends b st main source count = append_file-Ends main source (b.append_file st.calls) count

next_child-Ends :
    (total : ℕ) (rest : Lines → RunState → ℕ → Run) (r : Run)
    → ((s : Lines) (st : RunState) (n : ℕ) → Ends (rest s st n).2)
    → Ends r.2
    → Ends (next_child total rest r).2
next_child-Ends total rest (st, s, done n) f h = f s st (total + n)
next_child-Ends total rest (st, s, failed e) f h = tt
next_child-Ends total rest (st, s, out_of_fuel) f h = elim h [ ]

module _ (b : Backend) (again : ExportAttempt → Lines → RunState → Run) where
  join_split-Ends : (main : Lines) (r : Run) → Ends r.2 → Ends (join_split b main r).2
  join_split-Ends main (st, s, done n) h = appended-Ends b st main s n
  join_split-Ends main (st, s, failed e) h = tt
  join_split-Ends main (st, s, out_of_fuel) h = elim h [ ]

  module _ (safety : ExportSafetyConfig) (n : ℕ)
      (ends : (a : ExportAttempt) (main : Lines) (st : RunState)
        → rounds_left safety a < n
        → Ends (again a main st).2) where
    run_children-Ends :
        (cs : List ExportAttempt) (split : Lines) (st : RunState) (total : ℕ)
        → All (λ c. rounds_left safety c < n) cs
        → Ends (run_children again cs split st total).2
    unfolding run_children
    run_children-Ends [] split st total h = tt
    run_children-Ends (c ∷ cs) split st total h =
        next_child-Ends total (run_children again cs) (again c split st)
          (λ s u k. run_children-Ends cs s u k h.1) (ends c split st h.0)

    run_created-Ends :
        (cs : List ExportAttempt) (main : Lines) (st : RunState) (e : Option GoError)
        → All (λ c. rounds_left safety c < n) cs
        → Ends (run_created b again cs main st e).2
    run_created-Ends cs main st (some e) h = tt
    run_created-Ends cs main st none h =
        join_split-Ends main (run_children again cs [] st 0) (run_children-Ends cs [] st 0 h)

    run_split_attempts_atomically-Ends :
        (cs : List ExportAttempt) (main : Lines) (st : RunState)
        → All (λ c. rounds_left safety c < n) cs
        → Ends (run_split_attempts_atomically b again cs main st).2
    unfolding run_split_attempts_atomically
    run_split_attempts_atomically-Ends cs main st h =
        run_created-Ends cs main (record st { calls = suc st.calls }) (b.create_file st.calls) h

    run_job_children-Ends :
        (main : Lines) (st : RunState) (e : GoError) (cs : Option (List ExportAttempt))
        → AllOption (λ c. rounds_left safety c < n) cs
        → Ends (run_job_children b again main st e cs).2
    run_job_children-Ends main st e none h = tt
    run_job_children-Ends main st e (some cs) h = run_split_attempts_atomically-Ends cs main st h

module _ (b : Backend) (config : ExportConfig) (again : ExportAttempt → Lines → RunState → Run)
    (n : ℕ)
    (ends : (a : ExportAttempt) (main : Lines) (st : RunState)
      → rounds_left config.safety a < n
      → Ends (again a main st).2) where
  respond-Ends :
      (a : ExportAttempt) (main : Lines) (st : RunState) (e : GoError) (p : Plan)
      → Allowed config.safety a p
      → rounds_left config.safety a ≤ n
      → Ends (respond b config again a main st e p).2
  unfolding respond
  respond-Ends a main st e fall_back h k = ends _ main _ (fall_back_lem config.safety a h k)
  respond-Ends a main st e split_jobs h k =
      run_job_children-Ends b again config.safety n ends main _ _ (job_children config a a.jobs) (
        AllOption-map _ _ (job_children config a a.jobs) (λ c s. omega (arith, s, k))
          (job_children-AreShorter config a h a.jobs))
  respond-Ends a main st e (split_time left right) h k =
      run_split_attempts_atomically-Ends b again config.safety n ends
        (time_child a left ∷ time_child a right ∷ []) main
        (note_retry st (record {
          strategy = split_by_time;
          error_kind = error_kind_of e;
          time_range = a.time_range;
          step_seconds = a.step_seconds;
        }))
        (omega (arith, h, k), (omega (arith, h, k), tt))
  respond-Ends a main st e (raise_step step) h k =
      ends _ main _ (raise_step_lem config.safety a step h k)
  respond-Ends a main st e give_up h k = tt

  after_attempt-Ends :
      (a : ExportAttempt) (main : Lines) (r : RunState × Result (Lines × ℕ))
      → rounds_left config.safety a ≤ n
      → Ends (after_attempt b config again a main r).2
  after_attempt-Ends a main (st, ok (lines, count)) k = appended-Ends b st main lines count
  after_attempt-Ends a main (st, fail e) k =
      respond-Ends a main st e (plan_for config.safety a (error_kind_of e))
        (plan_for-Allowed config.safety a (error_kind_of e)) k

-- The adaptive export of a window ends with a count or an error, whatever the server and the file
-- system answer, where it has more fuel than the rounds that its attempt has left.
pub export_window_adaptive-Ends :
    (b : Backend) (config : ExportConfig) (fuel : ℕ) (a : ExportAttempt) (main : Lines)
    (st : RunState)
    → rounds_left config.safety a < fuel
    → Ends (export_window_adaptive b config fuel a main st).2
unfolding export_window_adaptive
export_window_adaptive-Ends b config zero a main st h = omega (arith, h)
export_window_adaptive-Ends b config (suc fuel) a main st h =
    after_attempt-Ends b config (export_window_adaptive b config fuel) fuel
      (λ c m s k. export_window_adaptive-Ends b config fuel c m s k) a main
      (fetch_and_process_attempt b config a st) (omega (arith, h))
