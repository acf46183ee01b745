-- ===== src/Defaults/Bounds.antt =====
-- export_defaults.go: the configurations that `ApplyExportDefaults` gives.
use vmgather.Prelude.{
  ◌<◌, ◌≡◌, ◌⊎◌, false, not, ◌&&◌, ◌||◌, List, [], ◌∷◌, ℤ, pos, ◌≤ℤ◌, eq_ℤ, All, arith,
  if◌then◌else◌, text_eq, length, head_or,
}
use vmgather.Domain.{ExportSafetyConfig, ExportConfig, BatchSettings, adaptivity_off}
use vmgather.Batching.Count.{recommended_metric_step_seconds_bounds}
use vmgather.Defaults.{
  normalize_step_ladder, batching_defaults, max_step_default, safety_defaults, metric_step_default,
  apply_export_defaults, apply_export_service_defaults,
}
use vmgather.Defaults.Ladder.{IsAscending}
use vmgather.Defaults.Steps.{
  IsStep, normalize_step_ladder-IsStep, normalize_step_ladder-IsAscending,
  normalize_step_ladder_pos,
}

pub record IsValidBatching (b : BatchSettings) : Type 0 where
  pub named : text_eq b.strategy [] ≡ false
  pub not_negative : pos 0 ≤ℤ b.custom_interval_secs
  pub in_range : (b.custom_interval_secs ≡ pos 0) ⊎ (pos 30 ≤ℤ b.custom_interval_secs)
  pub at_most_a_day : b.custom_interval_secs ≤ℤ pos 86400

pub record IsValidSafety (s : ExportSafetyConfig) : Type 0 where
  pub mode_named : text_eq s.mode [] ≡ false
  pub off_is_off :
      text_eq s.mode adaptivity_off && (s.auto_split || s.split_by_job || s.split_by_metric_name)
      ≡ false
  pub window_pos : pos 1 ≤ℤ s.min_window_seconds
  pub depth_pos : pos 1 ≤ℤ s.max_split_depth
  pub step_range : IsStep (pos 300) s.max_step_seconds
  pub ladder_range : All (IsStep s.max_step_seconds) s.step_ladder_seconds
  pub ladder_rises : IsAscending s.step_ladder_seconds

batching_defaults-IsValidBatching : (b : BatchSettings) → IsValidBatching (batching_defaults b)
unfolding batching_defaults text_eq
batching_defaults-IsValidBatching b = ground arith

max_step_default-IsStep : (v : ℤ) → IsStep (pos 300) (max_step_default v)
unfolding max_step_default
max_step_default-IsStep v = ground arith

safety_defaults-IsValidSafety : (s : ExportSafetyConfig) → IsValidSafety (safety_defaults s)
unfolding safety_defaults text_eq
safety_defaults-IsValidSafety s =
    let m = max_step_default s.max_step_seconds in
    record {
      mode_named = ground arith;
      off_is_off = ground arith;
      window_pos = ground arith;
      depth_pos = ground arith;
      step_range = max_step_default-IsStep s.max_step_seconds;
      ladder_range =
          normalize_step_ladder-IsStep s.step_ladder_seconds m
            (max_step_default-IsStep s.max_step_seconds).0;
      ladder_rises = normalize_step_ladder-IsAscending s.step_ladder_seconds m;
    }

head_or-IsStep :
    (m : ℤ) (l : List ℤ) → 0 < length l → All (IsStep m) l → IsStep m (head_or (pos 0) l)
head_or-IsStep m [] p h = absurd (omega arith)
head_or-IsStep m (x ∷ xs) p h = h.0

metric_step_default-IsStep :
    (c : ExportConfig) (s : ExportSafetyConfig)
    → IsStep (pos 300) s.max_step_seconds
    → IsStep s.max_step_seconds (head_or (pos 0) s.step_ladder_seconds)
    → (pos 1 ≤ℤ metric_step_default c s) × (metric_step_default c s ≤ℤ s.max_step_seconds)
unfolding metric_step_default
metric_step_default-IsStep c s m h =
    let (n, e, r) = recommended_metric_step_seconds_bounds c.time_range in ground arith

-- Whatever the request says, after the defaults are applied: the batch settings have a strategy, and
-- an interval that is 0 or from thirty seconds to a day; the safety settings have a mode, splits only
-- unless the mode is off, a positive smallest window and split depth, a largest step from thirty to
-- three hundred seconds, and a strictly rising ladder of steps between thirty seconds and that step;
-- and the metric step is positive and at most the largest step.
pub apply_export_defaults-IsValid :
    (c : ExportConfig)
    → let d = apply_export_defaults c in
      IsValidBatching d.batching
      × IsValidSafety d.safety
      × (pos 1 ≤ℤ d.metric_step_seconds)
      × (d.metric_step_seconds ≤ℤ d.safety.max_step_seconds)
unfolding apply_export_defaults
apply_export_defaults-IsValid c =
    let s = safety_defaults-IsValidSafety c.safety in
    let m = max_step_default c.safety.max_step_seconds in
    let first =
      head_or-IsStep m (normalize_step_ladder c.safety.step_ladder_seconds m)
        (normalize_step_ladder_pos c.safety.step_ladder_seconds m) s.ladder_range in
    let r = metric_step_default-IsStep c (safety_defaults c.safety) s.step_range first in
    (batching_defaults-IsValidBatching c.batching, s, r.0, r.1)

-- An export that says nothing of batching is not cut into batches by the service, and every other
-- one gets the settings of the defaults.
pub apply_export_service_defaults_batching :
    (c : ExportConfig)
    → (apply_export_service_defaults c).batching ≡ (
        if not c.batching.enabled
          && text_eq c.batching.strategy []
          && eq_ℤ c.batching.custom_interval_secs (pos 0)
        then c.batching
        else (apply_export_defaults c).batching)
unfolding apply_export_service_defaults
apply_export_service_defaults_batching c = ground arith
