-- ===== src/Batching/Grid.antt =====
-- batching.go: the place of the batch windows in the range.
use vmgather.Prelude.{
  ℕ, zero, suc, ◌+◌, ◌-◌, ◌*◌, ◌≤◌, ◌<◌, ◌≡◌, refl, ◌⊎◌, inl, inr, true, false, List, [], ◌∷◌, pos,
  pos_part, ltb, Bool-cases, arith,
}
use vmgather.Domain.{TimeRange, BatchSettings, second}
use vmgather.Batching.{
  recommended_interval_for_duration, select_batch_interval, next_start, or_whole, batch_windows,
  calculate_batch_windows,
}

-- The windows lie end to end from `a` to `b`, none is empty, and each is `step` long, but for the
-- last, which is cut off at `b`.
abbrev pub Grid : ℕ → ℕ → ℕ → List TimeRange → Type 0
Grid step a b [] = a ≡ b
Grid step a b (w ∷ ws) =
    (w.start ≡ a)
    × (a < w.end)
    × ((w.end ≡ a + step) ⊎ (w.end ≡ b) × (b ≤ a + step))
    × Grid step w.end b ws

-- With fuel for the nanoseconds that are left, the loop reaches the end.
pub batch_windows-Grid :
    (fuel a b step : ℕ)
    → 0 < step
    → a ≤ b
    → b - a ≤ fuel
    → Grid step a b (batch_windows fuel a b (pos step))
unfolding batch_windows
batch_windows-Grid zero a b step p h f = omega arith
batch_windows-Grid (suc fuel) a b step p h f = elim (Bool-cases (ltb a b)) [
  | inl more ↦
      rw more (ground (arith, batch_windows-Grid fuel (next_start a b (pos step)) b step p))
  | inr done ↦ rw done (ground arith)
]

-- The interval is at least thirty seconds and at most a day, whatever the settings say.
pub select_batch_interval_bounds :
    (tr : TimeRange) (s : BatchSettings)
    → (w : ℕ) × (select_batch_interval tr s ≡ pos w)
      × (30 * second ≤ w)
      × (w ≤ 24 * 60 * 60 * second)
unfolding select_batch_interval recommended_interval_for_duration
select_batch_interval_bounds tr s =
    (pos_part (select_batch_interval tr s), ground arith, ground arith, ground arith)

or_whole-Grid :
    (tr : TimeRange) (step a b : ℕ) (ws : List TimeRange)
    → a < b
    → Grid step a b ws
    → or_whole tr ws ≡ ws
or_whole-Grid tr step a b [] p g = absurd (omega arith)
or_whole-Grid tr step a b (w ∷ ws) p g = refl

-- The settings and the range for which the range is cut at all.
abbrev pub IsCut : TimeRange → BatchSettings → Type 0
IsCut tr s = (tr.start < tr.end) × (s.enabled ≡ true)

-- A range that is cut is cut into the rounds of the loop, at the interval selected.
pub calculate_batch_windows_cut :
    (tr : TimeRange) (s : BatchSettings) (w : ℕ)
    → IsCut tr s
    → select_batch_interval tr s ≡ pos w
    → 0 < w
    → calculate_batch_windows tr s ≡ batch_windows (tr.end - tr.start) tr.start tr.end (pos w)
unfolding calculate_batch_windows
calculate_batch_windows_cut tr s w cut e p =
    let g : Grid w tr.start tr.end (batch_windows (tr.end - tr.start) tr.start tr.end (pos w)) =
      batch_windows-Grid (tr.end - tr.start) tr.start tr.end w p (omega arith) (omega arith) in
    ground (arith, or_whole-Grid tr w tr.start tr.end _ cut.0 g)

-- When batching is enabled and the range is not empty, the batch windows lie end to end from the
-- start of the range to its end, none is empty, and each is as long as the selected interval (from
-- thirty seconds to a day), except the last, which is cut off at the end of the range.
pub calculate_batch_windows-Grid :
    (tr : TimeRange) (s : BatchSettings)
    → IsCut tr s
    → (w : ℕ) × (select_batch_interval tr s ≡ pos w)
      × (30 * second ≤ w)
      × (w ≤ 24 * 60 * 60 * second)
      × Grid w tr.start tr.end (calculate_batch_windows tr s)
calculate_batch_windows-Grid tr s cut =
    let (w, e, low, high) = select_batch_interval_bounds tr s in
    let p : 0 < w = omega arith in
    (
      w,
      e,
      low,
      high,
      rw (calculate_batch_windows_cut tr s w cut e p)
          (batch_windows-Grid (tr.end - tr.start) tr.start tr.end w p (omega arith) (omega arith)),
    )

-- A range that is empty or reversed, and any range when batching is off, is one window: itself.
pub calculate_batch_windows_whole :
    (tr : TimeRange) (s : BatchSettings)
    → (tr.end ≤ tr.start) ⊎ (s.enabled ≡ false)
    → calculate_batch_windows tr s ≡ tr ∷ []
unfolding calculate_batch_windows
calculate_batch_windows_whole tr s h = ground arith
