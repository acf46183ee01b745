-- ===== src/Batching/Count.antt =====
-- batching.go: the number of batch windows, and the recommended metric step.
use vmgather.Prelude.{
  ℕ, suc, ◌+◌, ◌*◌, ◌≤◌, ◌<◌, ◌≡◌, ◌⊎◌, List, [], ◌∷◌, pos, arith, length, pos_part, ◌≤ℤ◌,
}
use vmgather.Domain.{TimeRange, BatchSettings, sub_time}
use vmgather.Batching.{
  select_batch_interval, calculate_batch_windows, or_whole, recommended_metric_step_seconds,
}
use vmgather.Batching.Grid.{Grid, IsCut, calculate_batch_windows-Grid}

-- A grid has as many windows as the distance has steps, rounded up.
Grid-length :
    (step a b : ℕ) (ws : List TimeRange)
    → 0 < step
    → Grid step a b ws
    → (a ≤ b) × (b ≤ a + step * length ws) × (step * length ws + a < b + step)
Grid-length step a b [] p g = (omega arith, grind arith, omega arith)
Grid-length step a b (w ∷ []) p g = (omega arith, omega arith, omega arith)
Grid-length step a b (w ∷ v ∷ ws) p g =
    let ih = Grid-length step w.end b (v ∷ ws) p g.3 in
    let e : step * suc (length (v ∷ ws)) ≡ step * length (v ∷ ws) + step = omega arith in
    let o : step * length (v ∷ ws) ≡ step * length ws + step = omega arith in
    (omega arith, omega (arith, e), omega (arith, e, o))

-- When a range is cut, the number of windows is its length divided by the selected interval, rounded
-- up: so many intervals reach the end, and one less does not.
pub length-calculate_batch_windows :
    (tr : TimeRange) (s : BatchSettings)
    → IsCut tr s
    → (w : ℕ) × (select_batch_interval tr s ≡ pos w)
      × (tr.end ≤ tr.start + w * length (calculate_batch_windows tr s))
      × (w * length (calculate_batch_windows tr s) + tr.start < tr.end + w)
length-calculate_batch_windows tr s cut =
    let (w, e, low, high, g) = calculate_batch_windows-Grid tr s cut in
    let r = Grid-length w tr.start tr.end (calculate_batch_windows tr s) (omega arith) g in
    (w, e, r.1, r.2)

or_whole_pos : (tr : TimeRange) (ws : List TimeRange) → 0 < length (or_whole tr ws)
or_whole_pos tr [] = omega arith
or_whole_pos tr (w ∷ ws) = omega arith

-- There is always a window, so an export makes at least one round.
pub calculate_batch_windows_pos :
    (tr : TimeRange) (s : BatchSettings) → 0 < length (calculate_batch_windows tr s)
unfolding calculate_batch_windows
calculate_batch_windows_pos tr s = ground (arith, or_whole_pos tr _)

-- The recommended metric step is 30, 60 or 300 seconds.
pub recommended_metric_step_seconds_bounds :
    (tr : TimeRange)
    → (n : ℕ) × (recommended_metric_step_seconds tr ≡ pos n) × ((n ≡ 30) ⊎ (n ≡ 60) ⊎ (n ≡ 300))
unfolding recommended_metric_step_seconds
recommended_metric_step_seconds_bounds tr =
    (pos_part (recommended_metric_step_seconds tr), ground arith, ground arith)

-- Of two ranges with the same start that are not empty, the longer never gets the smaller
-- recommended metric step.
pub recommended_metric_step_seconds_mono :
    (a b c : ℕ)
    → a < b
    → b ≤ c
    → recommended_metric_step_seconds (record { start = a; end = b })
      ≤ℤ recommended_metric_step_seconds (record { start = a; end = c })
unfolding recommended_metric_step_seconds sub_time
recommended_metric_step_seconds_mono a b c h k = ground arith
