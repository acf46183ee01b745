-- ===== src/Export/Retries.antt =====
-- export_service.go: the retries that `exportWindowAdaptive` counts, reports and records.
use vmgather.Prelude.{
  ℕ, zero, suc, ◌+◌, ◌≡◌, refl, ap, sym, ◌∙◌, List, [], ◌∷◌, ◌++◌, Option, none, some, length,
  length-append, append_assoc, append-nil, arith,
}
use vmgather.Domain.{ExportConfig}
use vmgather.Vm.Errors.{GoError, error_kind_of}
use vmgather.Export.Backend.{Backend, Result, ok, fail, Stream}
use vmgather.Export.Process.{
  ExportAttempt, RunState, Decision, record_attempt_success, note_success, process_stream,
  fetch_created, fetch_attempt_reader, fetch_and_process_attempt,
}
use vmgather.Export.Plans.{
  Plan, fall_back, split_jobs, split_time, raise_step, give_up, time_child, job_children, plan_for,
}
use vmgather.Export.Failures.{
  numbered-append, decisions_of-append, Failure, decision_of, and_decision, decisions_of, numbered,
  told, after_child, child_failures, created_failures, split_failures, job_failures, later_failures,
  attempt_failures, failures,
}
use vmgather.Export.Adaptive.{
  Lines, Run, done, failed, out_of_fuel, record_adaptive_decision, note_retry, next_child,
  run_children, join_split, run_created, run_split_attempts_atomically, run_job_children, respond,
  after_attempt, export_window_adaptive,
}

-- From one state to another just these retries were counted, reported with their numbers, and recorded
-- for the archive.
abbrev pub Recorded : RunState → List Decision → RunState → Type 0
Recorded a ds b =
    (b.retry_count ≡ a.retry_count + length ds)
    × (b.reported ≡ a.reported ++ numbered a.retry_count ds)
    × (b.stats.decisions ≡ a.stats.decisions ++ ds)

Recorded-none :
    (a b : RunState)
    → b.retry_count ≡ a.retry_count
    → b.reported ≡ a.reported
    → b.stats.decisions ≡ a.stats.decisions
    → Recorded a [] b
unfolding numbered
Recorded-none a b p q r =
    (omega (arith, p), q ∙ sym (append-nil a.reported), r ∙ sym (append-nil a.stats.decisions))

Recorded-refl : (a : RunState) → Recorded a [] a
Recorded-refl a = Recorded-none a a refl refl refl

Recorded-trans :
    (a b c : RunState) (xs ys : List Decision)
    → Recorded a xs b
    → Recorded b ys c
    → Recorded a (xs ++ ys) c
Recorded-trans a b c xs ys (p, q, r) (s, t, u) = (
  omega (arith, p, s, length-append {0} xs ys),
  t
      ∙ ap (λ zs. zs ++ numbered b.retry_count ys) q
      ∙ append_assoc a.reported (numbered a.retry_count xs) (numbered b.retry_count ys)
      ∙ ap (λ n. a.reported ++ (numbered a.retry_count xs ++ numbered n ys)) p
      ∙ ap (λ zs. a.reported ++ zs) (sym (numbered-append a.retry_count xs ys)),
  u ∙ ap (λ zs. zs ++ ys) r ∙ append_assoc a.stats.decisions xs ys,
)

note_retry-Recorded : (st : RunState) (d : Decision) → Recorded st (d ∷ []) (note_retry st d)
unfolding note_retry record_adaptive_decision numbered
note_retry-Recorded st d = (omega arith, refl, refl)

after_retry :
    (st : RunState) (d : Decision) (ds : List Decision) (u : RunState)
    → Recorded (note_retry st d) ds u
    → Recorded st (d ∷ ds) u
after_retry st d ds u h =
    Recorded-trans st (note_retry st d) u (d ∷ []) ds (note_retry-Recorded st d) h

note_success-Recorded :
    (a : ExportAttempt) (st : RunState) (r : RunState × Result (Lines × ℕ))
    → Recorded st [] r.0
    → Recorded st [] (note_success a r).0
unfolding record_attempt_success
note_success-Recorded a st (s, ok out) h = h
note_success-Recorded a st (s, fail e) h = h

module _ (b : Backend) (config : ExportConfig) where
  process_stream-Recorded :
      (st : RunState) (n : ℕ) (r : Result Stream)
      → Recorded st [] (process_stream b config st n r).0
  unfolding numbered
  process_stream-Recorded st n (ok s) = Recorded-refl st
  process_stream-Recorded st n (fail e) = Recorded-refl st

  fetch_created-Recorded :
      (a : ExportAttempt) (st : RunState) (e : Option GoError)
      → Recorded st [] (fetch_created b config a st e).0
  fetch_created-Recorded a st (some e) = Recorded-refl st
  fetch_created-Recorded a st none =
      let (n, r) = fetch_attempt_reader b (suc st.calls) a in process_stream-Recorded st n r

  fetch-Recorded :
      (a : ExportAttempt) (st : RunState)
      → Recorded st [] (fetch_and_process_attempt b config a st).0
  unfolding fetch_and_process_attempt
  fetch-Recorded a st =
      note_success-Recorded a st (fetch_created b config a st (b.create_file st.calls))
        (fetch_created-Recorded a st (b.create_file st.calls))

  module _ (again : ExportAttempt → Lines → RunState → Run)
      (fails : ExportAttempt → Lines → RunState → List Failure)
      (records : (a : ExportAttempt) (main : Lines) (st : RunState)
        → Recorded st (decisions_of config (fails a main st)) (again a main st).0) where
    next_child-Recorded :
        (st : RunState) (fs : List Failure) (total : ℕ) (cs : List ExportAttempt) (r : Run)
        → ((s : Lines) (u : RunState) (n : ℕ)
            → Recorded u
                (decisions_of config (child_failures b config again fails cs s u))
                (run_children again cs s u n).0)
        → Recorded st (decisions_of config fs) r.0
        → Recorded st
            (decisions_of config
              (fs ++ after_child b config again fails (child_failures b config again fails cs) r))
            (next_child total (run_children again cs) r).0
    next_child-Recorded st fs total cs (u, s, done n) f h =
        rw (decisions_of-append config fs (child_failures b config again fails cs s u)) (
          Recorded-trans st u (run_children again cs s u (total + n)).0 (decisions_of config fs)
            (decisions_of config (child_failures b config again fails cs s u)) h
            (f s u (total + n)))
    next_child-Recorded st fs total cs (u, s, failed e) f h = rw (append-nil fs) h
    next_child-Recorded st fs total cs (u, s, out_of_fuel) f h = rw (append-nil fs) h

    run_children-Recorded :
        (cs : List ExportAttempt) (split : Lines) (st : RunState) (total : ℕ)
        → Recorded st
            (decisions_of config (child_failures b config again fails cs split st))
            (run_children again cs split st total).0
    unfolding run_children child_failures decisions_of
    run_children-Recorded [] split st total = Recorded-refl st
    run_children-Recorded (c ∷ cs) split st total =
        next_child-Recorded st (fails c split st) total cs (again c split st)
          (λ s u n. run_children-Recorded cs s u n) (records c split st)

    join_split-Recorded :
        (st : RunState) (ds : List Decision) (main : Lines) (r : Run)
        → Recorded st ds r.0
        → Recorded st ds (join_split b main r).0
    join_split-Recorded st ds main (u, s, done n) h = h
    join_split-Recorded st ds main (u, s, failed e) h = h
    join_split-Recorded st ds main (u, s, out_of_fuel) h = h

    run_created-Recorded :
        (cs : List ExportAttempt) (main : Lines) (st : RunState) (e : Option GoError)
        → Recorded st
            (decisions_of config (created_failures b config again fails cs st e))
            (run_created b again cs main st e).0
    unfolding decisions_of
    run_created-Recorded cs main st (some e) = Recorded-refl st
    run_created-Recorded cs main st none =
        join_split-Recorded st _ main (run_children again cs [] st 0)
          (run_children-Recorded cs [] st 0)

    split-Recorded :
        (cs : List ExportAttempt) (main : Lines) (st : RunState)
        → Recorded st
            (decisions_of config (split_failures b config again fails cs st))
            (run_split_attempts_atomically b again cs main st).0
    unfolding run_split_attempts_atomically
    split-Recorded cs main st =
        run_created-Recorded cs main (record st { calls = suc st.calls }) (b.create_file st.calls)

    job_split-Recorded :
        (main : Lines) (st : RunState) (e : GoError) (cs : Option (List ExportAttempt))
        → Recorded st
            (decisions_of config (job_failures b config again fails st cs))
            (run_job_children b again main st e cs).0
    unfolding decisions_of
    job_split-Recorded main st e none = Recorded-refl st
    job_split-Recorded main st e (some cs) = split-Recorded cs main st

    respond-Recorded :
        (a : ExportAttempt) (main : Lines) (st : RunState) (e : GoError) (p : Plan)
        → Recorded st
            (and_decision (decision_of a e p) (
              decisions_of config
                (later_failures b config again fails a main (told st (decision_of a e p)) p)))
            (respond b config again a main st e p).0
    unfolding respond later_failures decisions_of
    respond-Recorded a main st e fall_back =
        after_retry st _ _ (respond b config again a main st e fall_back).0
          (records _ main (told st (decision_of a e fall_back)))
    respond-Recorded a main st e split_jobs =
        after_retry st _ _ (respond b config again a main st e split_jobs).0 (
          job_split-Recorded main (told st (decision_of a e split_jobs)) _
            (job_children config a a.jobs))
    respond-Recorded a main st e (split_time left right) =
        after_retry st _ _ (respond b config again a main st e (split_time left right)).0 (
          split-Recorded (time_child a left ∷ time_child a right ∷ []) main
            (told st (decision_of a e (split_time left right))))
    respond-Recorded a main st e (raise_step step) =
        after_retry st _ _ (respond b config again a main st e (raise_step step)).0
          (records _ main (told st (decision_of a e (raise_step step))))
    respond-Recorded a main st e give_up = Recorded-refl st

    after_attempt-Recorded :
        (a : ExportAttempt) (main : Lines) (st : RunState) (r : RunState × Result (Lines × ℕ))
        → Recorded st [] r.0
        → Recorded st
            (decisions_of config (attempt_failures b config again fails a main r))
            (after_attempt b config again a main r).0
    unfolding decisions_of
    after_attempt-Recorded a main st (u, ok (lines, count)) h = h
    after_attempt-Recorded a main st (u, fail e) h =
        let p = plan_for config.safety a (error_kind_of e) in
        Recorded-trans st u (respond b config again a main u e p).0 [] _ h
          (respond-Recorded a main u e p)

  -- However the adaptive export of a window ends: the retries that are counted, reported to the job with
  -- consecutive numbers, and recorded for the archive are those of the attempts that failed and were not
  -- given up, in the order of the attempts, each with the kind of the error and the window of its
  -- attempt.
  pub export_window_adaptive-Recorded :
      (fuel : ℕ) (a : ExportAttempt) (main : Lines) (st : RunState)
      → Recorded st
          (decisions_of config (failures b config fuel a main st))
          (export_window_adaptive b config fuel a main st).0
  unfolding export_window_adaptive failures decisions_of
  export_window_adaptive-Recorded zero a main st = Recorded-refl st
  export_window_adaptive-Recorded (suc fuel) a main st =
      after_attempt-Recorded (export_window_adaptive b config fuel) (failures b config fuel)
        (λ c m s. export_window_adaptive-Recorded fuel c m s) a main st
        (fetch_and_process_attempt b config a st) (fetch-Recorded a st)
