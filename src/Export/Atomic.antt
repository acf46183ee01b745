-- ===== src/Export/Atomic.antt =====
-- export_service.go: the staging file during `exportWindowAdaptive`.
use vmgather.Prelude.{
  ℕ, zero, suc, ◌+◌, ◌≡◌, refl, sym, ap, ◌∙◌, inl, inr, List, [], ◌∷◌, ◌++◌, append_assoc,
  append-nil, Option, none, some, length, length-append, arith, Text,
}
use vmgather.Domain.{ExportConfig, ObfuscationConfig}
use vmgather.Obfuscation.{Obfuscator, new_obfuscator}
use vmgather.Vm.Errors.{GoError, error_kind_of}
use vmgather.Export.Metric.{ExportedMetric, or_else}
use vmgather.Export.Backend.{Backend, Result, ok, fail, Stream, AppendsWhole}
use vmgather.Export.Process.{
  ExportAttempt, RunState, split_by_time, process_metric, process_metrics, process_stream,
  fetch_created, fetch_attempt_reader, note_success, fetch_and_process_attempt, written, taken,
}
use vmgather.Export.Plans.{Plan, time_child, fall_back, split_jobs, give_up, split_time, raise_step}
use vmgather.Export.Adaptive.{
  done, failed, out_of_fuel, note_retry, Lines, Run, append_file, appended, next_child,
  run_children, join_split, run_created, run_split_attempts_atomically, run_job_children, respond,
  after_attempt, export_window_adaptive,
}

length-process_metrics :
    (sha256 : Text → Text) (config : ObfuscationConfig) (o : Obfuscator) (ms : List ExportedMetric)
    → length (process_metrics sha256 config o ms).1 ≡ (process_metrics sha256 config o ms).2
unfolding process_metrics
length-process_metrics sha256 config o [] = refl
length-process_metrics sha256 config o (m ∷ ms) =
    ap suc (length-process_metrics sha256 config (process_metric sha256 config o m).0 ms)

-- An attempt counts the lines that it writes.
abbrev pub Counted : Result (Lines × ℕ) → Type 0
Counted (ok (lines, count)) = length lines ≡ count
Counted (fail e) = Unit {0}

Counted-note_success :
    (a : ExportAttempt) (r : RunState × Result (Lines × ℕ))
    → Counted r.1
    → Counted (note_success a r).1
Counted-note_success a (st, ok (lines, count)) h = h
Counted-note_success a (st, fail e) h = tt

Counted-written :
    (ending reader flush file : Option GoError) (lines : Lines) (count : ℕ)
    → length lines ≡ count
    → Counted (written ending reader flush file (lines, count))
Counted-written (some e) reader flush file lines count h = tt
Counted-written none (some e) flush file lines count h = tt
Counted-written none none (some e) file lines count h = tt
Counted-written none none none (some e) lines count h = tt
Counted-written none none none none lines count h = h

Counted-process_stream :
    (b : Backend) (config : ExportConfig) (st : RunState) (n : ℕ) (r : Result Stream)
    → Counted (process_stream b config st n r).1
Counted-process_stream b config st n (fail e) = tt
Counted-process_stream b config st n (ok stream) =
    Counted-written (taken (b.write_metric n) stream).1 (b.close_reader n) (b.flush_file n)
      (b.close_file n) _ _
      (length-process_metrics b.sha256 config.obfuscation (or_else st.obfuscator new_obfuscator)
        (taken (b.write_metric n) stream).0)

Counted-fetch_created :
    (b : Backend) (config : ExportConfig) (a : ExportAttempt) (st : RunState) (e : Option GoError)
    → Counted (fetch_created b config a st e).1
Counted-fetch_created b config a st (some e) = tt
Counted-fetch_created b config a st none =
    let (n, r) = fetch_attempt_reader b (suc st.calls) a in Counted-process_stream b config st n r

pub Counted-fetch :
    (b : Backend) (config : ExportConfig) (a : ExportAttempt) (st : RunState)
    → Counted (fetch_and_process_attempt b config a st).1
unfolding fetch_and_process_attempt
Counted-fetch b config a st =
    Counted-note_success a (fetch_created b config a st (b.create_file st.calls))
      (Counted-fetch_created b config a st (b.create_file st.calls))

-- A success has appended lines to the file, as many as it counts; anything else left it as it was.
abbrev pub Committed : Lines → Run → Type 0
Committed main (st, main', done n) = (out : Lines) × (main' ≡ main ++ out) × (length out ≡ n)
Committed main (st, main', failed e) = main' ≡ main
Committed main (st, main', out_of_fuel) = main' ≡ main

-- A success of the loop over the children has appended the lines that it adds to the total.
abbrev Added : Lines → ℕ → Run → Type 0
Added split total (st, split', done n) =
    (out : Lines) × (split' ≡ split ++ out) × (total + length out ≡ n)
Added split total (st, split', failed e) = Unit {0}
Added split total (st, split', out_of_fuel) = Unit {0}

Added-trans :
    (split s : Lines) (total n : ℕ) (out : Lines) (r : Run)
    → s ≡ split ++ out
    → length out ≡ n
    → Added s (total + n) r
    → Added split total r
Added-trans split s total n out (st, t, done k) e c (more, f, g) = (
  out ++ more,
  f ∙ ap (λ (l : Lines). l ++ more) e ∙ append_assoc split out more,
  omega (arith, length-append {0} out more),
)
Added-trans split s total n out (st, t, failed x) e c h = tt
Added-trans split s total n out (st, t, out_of_fuel) e c h = tt

next_child-Added :
    (split : Lines) (total : ℕ) (rest : Lines → RunState → ℕ → Run) (r : Run)
    → ((s : Lines) (st : RunState) (n : ℕ) → Added s n (rest s st n))
    → Committed split r
    → Added split total (next_child total rest r)
next_child-Added split total rest (st, s, done n) ih (out, e, c) =
    Added-trans split s total n out (rest s st (total + n)) e c (ih s st (total + n))
next_child-Added split total rest (st, s, failed x) ih h = tt
next_child-Added split total rest (st, s, out_of_fuel) ih h = tt

module _ (b : Backend) (quiet : AppendsWhole b) where
  appended-Committed :
      (st : RunState) (main source : Lines) (count : ℕ)
      → length source ≡ count
      → Committed main (appended b st main source count)
  appended-Committed st main source count h = elim (quiet st.calls) [
    | inl e ↦ rw (e, append_file) (source, refl, h)
    | inr (x, inl e) ↦ rw (e, append_file) refl
    | inr (x, inr e) ↦ rw (e, append_file) refl
  ]

  module _ (again : ExportAttempt → Lines → RunState → Run)
      (keeps : (a : ExportAttempt) (main : Lines) (st : RunState)
        → Committed main (again a main st)) where
    run_children-Added :
        (cs : List ExportAttempt) (split : Lines) (st : RunState) (total : ℕ)
        → Added split total (run_children again cs split st total)
    unfolding run_children
    run_children-Added [] split st total = ([], sym (append-nil split), omega arith)
    run_children-Added (c ∷ cs) split st total =
        next_child-Added split total (run_children again cs) (again c split st)
          (λ s u n. run_children-Added cs s u n) (keeps c split st)

    join_split-Committed :
        (main : Lines) (r : Run) → Added [] 0 r → Committed main (join_split b main r)
    join_split-Committed main (st, split, done total) (out, e, c) =
        let n : length out ≡ total = omega (arith, c) in
        appended-Committed st main split total (ap length e ∙ n)
    join_split-Committed main (st, split, failed x) h = refl
    join_split-Committed main (st, split, out_of_fuel) h = refl

    run_created-Committed :
        (cs : List ExportAttempt) (main : Lines) (st : RunState) (e : Option GoError)
        → Committed main (run_created b again cs main st e)
    run_created-Committed cs main st (some e) = refl
    run_created-Committed cs main st none =
        join_split-Committed main (run_children again cs [] st 0) (run_children-Added cs [] st 0)

    -- The children of a split write to the staging file together or not at all.
    pub run_split_attempts_atomically-Committed :
        (cs : List ExportAttempt) (main : Lines) (st : RunState)
        → Committed main (run_split_attempts_atomically b again cs main st)
    unfolding run_split_attempts_atomically
    run_split_attempts_atomically-Committed cs main st =
        run_created-Committed cs main (record st { calls = suc st.calls }) (b.create_file st.calls)

    run_job_children-Committed :
        (main : Lines) (st : RunState) (e : GoError) (cs : Option (List ExportAttempt))
        → Committed main (run_job_children b again main st e cs)
    run_job_children-Committed main st e none = refl
    run_job_children-Committed main st e (some cs) =
        run_split_attempts_atomically-Committed cs main st

    respond-Committed :
        (config : ExportConfig) (a : ExportAttempt) (main : Lines) (st : RunState) (e : GoError)
        (p : Plan)
        → Committed main (respond b config again a main st e p)
    unfolding respond
    respond-Committed config a main st e fall_back = keeps _ main _
    respond-Committed config a main st e split_jobs = run_job_children-Committed main _ _ _
    respond-Committed config a main st e (split_time left right) =
        run_split_attempts_atomically-Committed (time_child a left ∷ time_child a right ∷ []) main (
          note_retry st (record {
            strategy = split_by_time;
            error_kind = error_kind_of e;
            time_range = a.time_range;
            step_seconds = a.step_seconds;
          }))
    respond-Committed config a main st e (raise_step step) = keeps _ main _
    respond-Committed config a main st e give_up = refl

    after_attempt-Committed :
        (config : ExportConfig) (a : ExportAttempt) (main : Lines)
        (r : RunState × Result (Lines × ℕ))
        → Counted r.1
        → Committed main (after_attempt b config again a main r)
    after_attempt-Committed config a main (st, ok (lines, count)) h =
        appended-Committed st main lines count h
    after_attempt-Committed config a main (st, fail e) h = respond-Committed config a main st e _

  -- Where an append that fails fails in opening a file, an export of a window that succeeds has appended to the staging
  -- file as many lines as it counts, and one that fails has left the file as it was, whatever splits
  -- and retries it went through.
  pub export_window_adaptive-Committed :
      (config : ExportConfig) (fuel : ℕ) (a : ExportAttempt) (main : Lines) (st : RunState)
      → Committed main (export_window_adaptive b config fuel a main st)
  unfolding export_window_adaptive
  export_window_adaptive-Committed config zero a main st = refl
  export_window_adaptive-Committed config (suc fuel) a main st =
      after_attempt-Committed (export_window_adaptive b config fuel)
        (λ c m s. export_window_adaptive-Committed config fuel c m s) config a main
        (fetch_and_process_attempt b config a st) (Counted-fetch b config a st)
