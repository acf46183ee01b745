-- ===== src/Export/Failures.antt =====
-- export_service.go: the attempts of `exportWindowAdaptive` that fail, and what is told of each that is
-- tried again.
use vmgather.Prelude.{
  length, ◌≡◌, refl, ap, ◌∙◌, arith, ℕ, zero, suc, true, ◌+◌, List, [], ◌∷◌, ◌++◌, Option, none,
  some, pos,
}
use vmgather.Domain.{ExportConfig}
use vmgather.Vm.Errors.{GoError, error_kind_of}
use vmgather.Export.Backend.{Backend, Result, ok, fail}
use vmgather.Export.Process.{
  ExportAttempt, RunState, Decision, fetch_and_process_attempt, split_by_job, split_by_time,
  by_query_range, query_range_fallback, increase_step,
}
use vmgather.Export.Plans.{
  Plan, fall_back, split_jobs, split_time, raise_step, give_up, time_child, job_children, plan_for,
}
use vmgather.Export.Adaptive.{
  Lines, Run, done, failed, out_of_fuel, note_retry, export_window_adaptive,
}

-- An attempt and what it failed with.
abbrev pub Failure : Type 0
Failure = ExportAttempt × GoError

-- What is told of an attempt that failed and is answered by a plan; nothing where it is given up.
abbrev pub decision_of : ExportAttempt → GoError → Plan → Option Decision
decision_of a e fall_back = some (record {
  strategy = query_range_fallback;
  error_kind = error_kind_of e;
  time_range = a.time_range;
  step_seconds = pos 0;
})
decision_of a e split_jobs = some (record {
  strategy = split_by_job;
  error_kind = error_kind_of e;
  time_range = a.time_range;
  step_seconds = pos 0;
})
decision_of a e (split_time left right) = some (record {
  strategy = split_by_time;
  error_kind = error_kind_of e;
  time_range = a.time_range;
  step_seconds = a.step_seconds;
})
decision_of a e (raise_step step) = some (record {
  strategy = increase_step;
  error_kind = error_kind_of e;
  time_range = a.time_range;
  step_seconds = step;
})
decision_of a e give_up = none

abbrev pub and_decision : Option Decision → List Decision → List Decision
and_decision none ds = ds
and_decision (some d) ds = d ∷ ds

-- What is told of failures, in their order.
unfoldable pub decisions_of : ExportConfig → List Failure → List Decision
unfolding plan_for
decisions_of config [] = []
decisions_of config ((a, e) ∷ fs) =
    and_decision (decision_of a e (plan_for config.safety a (error_kind_of e)))
      (decisions_of config fs)

-- The reports of decisions, numbered on from `n`.
unfoldable pub numbered : ℕ → List Decision → List (ℕ × Decision)
numbered n [] = []
numbered n (d ∷ ds) = (n + 1, d) ∷ numbered (n + 1) ds

pub numbered-append :
    (n : ℕ) (xs ys : List Decision)
    → numbered n (xs ++ ys) ≡ numbered n xs ++ numbered (n + length xs) ys
unfolding numbered
numbered-append n [] ys = ap (λ k. numbered k ys) (omega arith)
numbered-append n (x ∷ xs) ys =
    ap (λ zs. (n + 1, x) ∷ zs)
      (numbered-append (n + 1) xs ys ∙ ap (λ k. numbered (n + 1) xs ++ numbered k ys) (omega arith))

and_decision-append :
    (d : Option Decision) (ds xs ys : List Decision)
    → ds ≡ xs ++ ys
    → and_decision d ds ≡ and_decision d xs ++ ys
and_decision-append none ds xs ys h = h
and_decision-append (some d) ds xs ys h = ap (λ zs. d ∷ zs) h

pub decisions_of-append :
    (config : ExportConfig) (xs ys : List Failure)
    → decisions_of config (xs ++ ys) ≡ decisions_of config xs ++ decisions_of config ys
unfolding decisions_of
decisions_of-append config [] ys = refl
decisions_of-append config ((a, e) ∷ xs) ys =
    and_decision-append (decision_of a e (plan_for config.safety a (error_kind_of e)))
      (decisions_of config (xs ++ ys)) (decisions_of config xs) (decisions_of config ys)
      (decisions_of-append config xs ys)

abbrev pub told : RunState → Option Decision → RunState
told st none = st
told st (some d) = note_retry st d

module _ (b : Backend) (config : ExportConfig) where
  module _ (again : ExportAttempt → Lines → RunState → Run)
      (fails : ExportAttempt → Lines → RunState → List Failure) where
    abbrev pub after_child : (Lines → RunState → List Failure) → Run → List Failure
    after_child rest (st, split, done n) = rest split st
    after_child rest (st, split, failed e) = []
    after_child rest (st, split, out_of_fuel) = []

    -- Those of the children of a split: a child comes after one that did not fail.
    unfoldable pub child_failures : List ExportAttempt → Lines → RunState → List Failure
    child_failures [] split st = []
    child_failures (c ∷ cs) split st =
        fails c split st ++ after_child (child_failures cs) (again c split st)

    abbrev pub created_failures : List ExportAttempt → RunState → Option GoError → List Failure
    created_failures cs st (some e) = []
    created_failures cs st none = child_failures cs [] st

    abbrev pub split_failures : List ExportAttempt → RunState → List Failure
    split_failures cs st =
        created_failures cs (record st { calls = suc st.calls }) (b.create_file st.calls)

    abbrev pub job_failures : RunState → Option (List ExportAttempt) → List Failure
    job_failures st none = []
    job_failures st (some cs) = split_failures cs st

    -- Those after an attempt that failed, by its plan.
    unfoldable pub later_failures : ExportAttempt → Lines → RunState → Plan → List Failure
    unfolding child_failures job_children
    later_failures a main st fall_back =
        fails (record a { use_query_range = true; depth = a.depth + 1; strategy = by_query_range })
          main st
    later_failures a main st split_jobs = job_failures st (job_children config a a.jobs)
    later_failures a main st (split_time left right) =
        split_failures (time_child a left ∷ time_child a right ∷ []) st
    later_failures a main st (raise_step step) =
        fails (record a { step_seconds = step; depth = 0; strategy = by_query_range }) main st
    later_failures a main st give_up = []

    abbrev pub attempt_failures :
        ExportAttempt → Lines → RunState × Result (Lines × ℕ) → List Failure
    attempt_failures a main (st, ok out) = []
    attempt_failures a main (st, fail e) =
        let p = plan_for config.safety a (error_kind_of e) in
        (a, e) ∷ later_failures a main (told st (decision_of a e p)) p

  -- The failed attempts of the export of a window, in their order.
  unfoldable pub failures : ℕ → ExportAttempt → Lines → RunState → List Failure
  unfolding later_failures note_retry export_window_adaptive fetch_and_process_attempt plan_for
  failures zero a main st = []
  failures (suc fuel) a main st =
      attempt_failures (export_window_adaptive b config fuel) (failures fuel) a main
        (fetch_and_process_attempt b config a st)
