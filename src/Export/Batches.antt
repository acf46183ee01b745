-- ===== src/Export/Batches.antt =====
-- export_service.go: the loop of `ExecuteExport` over the batch windows.
use vmgather.Prelude.{
  ℕ, suc, ◌+◌, ◌≡◌, refl, sym, ap, ◌∙◌, List, [], ◌∷◌, ◌++◌, Option, none, some, length,
  length-append, append_assoc, append-nil, arith,
}
use vmgather.Domain.{TimeRange, ExportConfig}
use vmgather.Jobs.Progress.{BatchProgress}
use vmgather.Vm.Errors.{GoError}
use vmgather.Export.Backend.{Backend, AppendsWhole}
use vmgather.Export.Process.{RunState, new_export_attempt}
use vmgather.Export.Adaptive.{Lines, Run, Outcome, done, failed, out_of_fuel}
use vmgather.Export.Atomic.{Committed, export_window_adaptive-Committed}
use vmgather.Export.Service.{
  Host, BatchRun, ended, batch_progress, unless_done, after_batch, run_batches,
}

-- The metrics that the progress reports add up to.
abbrev pub total_metrics : List BatchProgress → ℕ
total_metrics [] = 0
total_metrics (p ∷ ps) = p.metrics + total_metrics ps

-- The reports are about the windows in order, numbered from the one after `index`.
abbrev pub Follows : ℕ → List TimeRange → List BatchProgress → Type 0
Follows index ws [] = Unit {0}
Follows index [] (p ∷ ps) = ⊥
Follows index (w ∷ ws) (p ∷ ps) =
    (p.batch_index ≡ index + 1) × (p.time_range ≡ w) × Follows (suc index) ws ps

-- A loop that ends well has reported every window, and its count is that of the reports.
abbrev pub Accounts : List TimeRange → ℕ → List BatchProgress → Outcome → Type 0
Accounts ws total ps (done n) = (length ps ≡ length ws) × (total + total_metrics ps ≡ n)
Accounts ws total ps (failed e) = Unit {0}
Accounts ws total ps out_of_fuel = Unit {0}

-- What the loop over the windows leaves: the file has got as many lines as the reports count.
abbrev pub Reported : List TimeRange → ℕ → Lines → ℕ → BatchRun → Type 0
Reported ws index main total r =
    ((out : Lines) × (r.staging ≡ main ++ out) × (length out ≡ total_metrics r.progress))
    × Follows index ws r.progress
    × Accounts ws total r.progress r.outcome

ended-Reported :
    (ws : List TimeRange) (index : ℕ) (main : Lines) (total : ℕ) (st : RunState) (e : GoError)
    → Reported ws index main total (ended main st (failed e))
ended-Reported ws index main total st e = (([], sym (append-nil main), refl), tt, tt)

unless_done-Reported :
    (ws : List TimeRange) (index : ℕ) (main : Lines) (total : ℕ) (st : RunState)
    (e : Option GoError) (r : BatchRun)
    → Reported ws index main total r
    → Reported ws index main total (unless_done main st e r)
unless_done-Reported ws index main total st (some e) r h = ended-Reported ws index main total st e
unless_done-Reported ws index main total st none r h = h

report-Accounts :
    (w : TimeRange) (ws : List TimeRange) (total n : ℕ) (p : BatchProgress)
    (ps : List BatchProgress) (o : Outcome)
    → p.metrics ≡ n
    → Accounts ws (total + n) ps o
    → Accounts (w ∷ ws) total (p ∷ ps) o
report-Accounts w ws total n p ps (done k) e h = (ap suc h.0, omega (arith, e, h.1))
report-Accounts w ws total n p ps (failed x) e h = tt
report-Accounts w ws total n p ps out_of_fuel e h = tt

module _ (host : Host) (windows : List TimeRange) where
  after_batch-Reported :
      (w : TimeRange) (ws : List TimeRange) (index : ℕ) (main : Lines) (total : ℕ)
      (rest : Lines → RunState → ℕ → BatchRun) (r : Run)
      → ((m : Lines) (st : RunState) (n : ℕ) → Reported ws (suc index) m n (rest m st n))
      → Committed main r
      → Reported
          (w ∷ ws)
          index
          main
          total
          (after_batch (batch_progress host windows w index) rest total r)
  after_batch-Reported w ws index main total rest (st, main', done n) ih (out, e, c) =
      let ((more, f, g), follows, accounts) = ih main' st (total + n) in
      let r = rest main' st (total + n) in
      (
        (
          out ++ more,
          f ∙ ap (λ (l : Lines). l ++ more) e ∙ append_assoc main out more,
          omega (arith, length-append {0} out more, c, g),
        ),
        (refl, refl, follows),
        report-Accounts w ws total n (batch_progress host windows w index n) r.progress r.outcome
            refl accounts,
      )
  after_batch-Reported w ws index main total rest (st, main', failed x) ih h =
      (([], h ∙ sym (append-nil main), refl), tt, tt)
  after_batch-Reported w ws index main total rest (st, main', out_of_fuel) ih h =
      (([], h ∙ sym (append-nil main), refl), tt, tt)

  module _ (b : Backend) (quiet : AppendsWhole b) (config : ExportConfig) (fuel : ℕ) where
    -- Where an append that fails fails in opening a file, and whether the loop ends well, fails, or is canceled: it has
    -- appended exactly as many lines as its progress reports count, the reports are numbered and about
    -- the windows in order, and where it ends well there is one for each window and the count
    -- returned is their sum, added to the count at the start.
    pub run_batches-Reported :
        (left : List TimeRange) (index : ℕ) (main : Lines) (st : RunState) (total : ℕ)
        → Reported left index main total
            (run_batches host b config fuel windows left index main st total)
    unfolding run_batches
    run_batches-Reported [] index main st total =
        (([], sym (append-nil main), refl), tt, (refl, omega arith))
    run_batches-Reported (w ∷ left) index main st total =
        unless_done-Reported (w ∷ left) index main total st (host.context_done index) _ (
          after_batch-Reported w left index main total
            (run_batches host b config fuel windows left (suc index)) _
            (λ m s n. run_batches-Reported left (suc index) m s n)
            (export_window_adaptive-Committed b quiet config fuel (new_export_attempt config w) main
              (record st { retry_count = 0 })))
