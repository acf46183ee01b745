-- ===== src/Batching/Examples.antt =====
-- The batching theorems at concrete ranges, and runs of the code.
use vmgather.Prelude.{ℕ, ◌*◌, ◌≤◌, ◌≡◌, refl, true, false, [], ◌∷◌, pos, arith, mul_int64, codes}
use vmgather.Domain.{TimeRange, BatchSettings, second}
use vmgather.Batching.{select_batch_interval, calculate_batch_windows, batch_windows}
use vmgather.Batching.Grid.{Grid, calculate_batch_windows-Grid}

-- Two hours and ten seconds.
abbrev range : TimeRange
range = record { start = 1000 * second; end = 8210 * second }

abbrev hourly : BatchSettings
hourly = record { enabled = true; strategy = codes "custom"; custom_interval_secs = pos 3600 }

abbrev disabled : BatchSettings
disabled = record { enabled = false; strategy = codes "auto"; custom_interval_secs = pos 0 }

abbrev huge : BatchSettings
huge = record { enabled = true; strategy = codes "custom"; custom_interval_secs = pos 10000000000 }

hourly_windows :
    calculate_batch_windows range hourly
    ≡ record { start = 1000 * second; end = 4600 * second }
      ∷ record { start = 4600 * second; end = 8200 * second }
      ∷ record { start = 8200 * second; end = 8210 * second }
      ∷ []
unfolding calculate_batch_windows batch_windows select_batch_interval mul_int64
hourly_windows = refl

-- An interval so long that the multiplication by a second leaves the int64 range is not held at a
-- day: it wraps to a negative duration, and thirty seconds are used.
huge_interval : select_batch_interval range huge ≡ pos (30 * second)
unfolding select_batch_interval mul_int64
huge_interval = refl

calculate_batch_windows-Grid_example :
    (w : ℕ) × (select_batch_interval range hourly ≡ pos w)
    × (30 * second ≤ w)
    × (w ≤ 24 * 60 * 60 * second)
    × Grid w range.start range.end (calculate_batch_windows range hourly)
calculate_batch_windows-Grid_example = calculate_batch_windows-Grid range hourly (omega arith, refl)
