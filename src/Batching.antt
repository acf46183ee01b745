-- ===== src/Batching.antt =====
-- internal/application/services/batching.go: how an export's time range is cut into batch windows.
-- The loop takes fuel: one round for each nanosecond of the range is enough, since every round moves
-- the start by at least one.
pub mod Grid
pub mod Count
mod Examples
use vmgather.Prelude.{
  ℕ, zero, suc, ◌*◌, ◌-◌, Bool, not, ◌||◌, List, [], ◌∷◌, ℤ, pos, ltb_ℤ, leb_ℤ, ltb, ◌==◌,
  if◌then◌else◌, mul_int64, length,
}
use vmgather.Domain.{TimeRange, BatchSettings, second, sub_time, add_time, duration_seconds}

abbrev pub min_batch_interval : ℤ
min_batch_interval = pos (30 * second)

abbrev pub max_batch_interval : ℤ
max_batch_interval = pos (24 * 60 * 60 * second)

abbrev pub min_batch_interval_seconds : ℤ
min_batch_interval_seconds = pos 30

abbrev pub max_batch_interval_seconds : ℤ
max_batch_interval_seconds = pos (24 * 60 * 60)

unfoldable pub recommended_interval_for_duration : ℤ → ℤ
recommended_interval_for_duration duration =
    if leb_ℤ duration (pos (15 * 60 * second))
    then pos (30 * second)
    else if leb_ℤ duration (pos (6 * 60 * 60 * second))
    then pos (60 * second)
    else pos (5 * 60 * second)

unfoldable pub select_batch_interval : TimeRange → BatchSettings → ℤ
select_batch_interval tr settings =
    if ltb_ℤ (pos 0) settings.custom_interval_secs
    then (let custom = mul_int64 settings.custom_interval_secs second in
        if ltb_ℤ custom min_batch_interval
        then min_batch_interval
        else if ltb_ℤ max_batch_interval custom
        then max_batch_interval
        else custom)
    else recommended_interval_for_duration (sub_time tr.end tr.start)

-- The end of the window that starts at `current`.
abbrev pub next_start : ℕ → ℕ → ℤ → ℕ
next_start current stop window =
    let next = add_time current window in if ltb stop next then stop else next

unfoldable pub batch_windows : ℕ → ℕ → ℕ → ℤ → List TimeRange
batch_windows zero current stop window = []
batch_windows (suc fuel) current stop window =
    let next = next_start current stop window in
    let rest = record { start = current; end = next } ∷ batch_windows fuel next stop window in
    if ltb current stop then rest else []

-- A range with nothing in it.
abbrev pub is_empty_range : TimeRange → Bool
is_empty_range tr = ltb tr.end tr.start || tr.start == tr.end

abbrev pub or_whole : TimeRange → List TimeRange → List TimeRange
or_whole tr [] = tr ∷ []
or_whole tr (w ∷ ws) = w ∷ ws

unfoldable pub calculate_batch_windows : TimeRange → BatchSettings → List TimeRange
calculate_batch_windows tr settings =
    if is_empty_range tr
    then tr ∷ []
    else if not settings.enabled
    then tr ∷ []
    else (let selected = select_batch_interval tr settings in
        let window = if leb_ℤ selected (pos 0) then min_batch_interval else selected in
        or_whole tr (batch_windows (tr.end - tr.start) tr.start tr.end window))

unfoldable pub recommended_metric_step_seconds : TimeRange → ℤ
unfolding recommended_interval_for_duration
recommended_metric_step_seconds tr =
    if is_empty_range tr
    then min_batch_interval_seconds
    else duration_seconds (recommended_interval_for_duration (sub_time tr.end tr.start))
