-- ===== src/Defaults.antt =====
-- internal/application/services/export_defaults.go, and the two callers of its rules in
-- export_service.go: `applyExportServiceDefaults` and `nextAutopilotStep`. An `int` is an integer.
pub mod Ladder
pub mod Steps
pub mod Bounds
pub mod Idempotent
mod Examples
use vmgather.Prelude.{
  ℕ, ◌*◌, Bool, true, false, not, ◌&&◌, ◌||◌, List, [], ◌∷◌, Option, none, some, ℤ, pos, ltb_ℤ,
  leb_ℤ, eq_ℤ, if◌then◌else◌, Text, codes, text_eq, head_or,
}
use mathlib.Core.List.{reverse}
use vmgather.Domain.{
  BatchSettings, ExportSafetyConfig, ObfuscationConfig, ExportConfig, adaptivity_off,
  adaptivity_autopilot, no_obfuscation,
}
use vmgather.Batching.{
  min_batch_interval_seconds, max_batch_interval_seconds, recommended_metric_step_seconds,
}

abbrev pub max_autopilot_metric_step_seconds : ℤ
max_autopilot_metric_step_seconds = pos (5 * 60)

abbrev pub default_autopilot_step_ladder_seconds : List ℤ
default_autopilot_step_ladder_seconds =
    pos 30 ∷ pos 60 ∷ pos 120 ∷ max_autopilot_metric_step_seconds ∷ []

-- Whether a set of steps seen holds a step.
unfoldable pub seen_step : ℤ → List ℤ → Bool
seen_step step [] = false
seen_step step (x ∷ xs) = eq_ℤ x step || seen_step step xs

abbrev pub is_out_of_range : ℤ → ℤ → Bool
is_out_of_range step max_step = ltb_ℤ step min_batch_interval_seconds || ltb_ℤ max_step step

-- The first loop of `normalizeStepLadder`.
unfoldable pub collect_steps : List ℤ → ℤ → List ℤ → List ℤ
unfolding seen_step
collect_steps [] max_step seen = []
collect_steps (step ∷ steps) max_step seen =
    let skipped = collect_steps steps max_step seen in
    let taken = step ∷ collect_steps steps max_step (step ∷ seen) in
    if is_out_of_range step max_step
    then skipped
    else if seen_step step seen
    then skipped
    else taken

-- The inner loop of the sort: the part before the step, last element first, lets the step down past
-- every greater element that it meets.
unfoldable pub sift : ℤ → List ℤ → List ℤ
sift step [] = step ∷ []
sift step (x ∷ xs) = if ltb_ℤ step x then x ∷ sift step xs else step ∷ x ∷ xs

-- The outer loop of the sort.
unfoldable pub sort_steps : List ℤ → List ℤ → List ℤ
unfolding sift
sort_steps done [] = reverse done
sort_steps done (step ∷ steps) = sort_steps (sift step done) steps

abbrev pub or_default {ℓ} : {A : Type ℓ} → List A → List A → List A
or_default d [] = d
or_default d (x ∷ xs) = x ∷ xs

unfoldable pub normalize_step_ladder : List ℤ → ℤ → List ℤ
normalize_step_ladder values max_step =
    let steps = or_default default_autopilot_step_ladder_seconds values in
    sort_steps [] (or_default (max_step ∷ []) (collect_steps steps max_step []))

-- The part of `ApplyExportDefaults` on the batch settings.
unfoldable pub batching_defaults : BatchSettings → BatchSettings
batching_defaults s =
    let untouched = not s.enabled && text_eq s.strategy [] && eq_ℤ s.custom_interval_secs (pos 0) in
    let secs = if ltb_ℤ s.custom_interval_secs (pos 0) then pos 0 else s.custom_interval_secs in
    let raised =
      if ltb_ℤ (pos 0) secs && ltb_ℤ secs min_batch_interval_seconds
      then min_batch_interval_seconds
      else secs in
    record {
      enabled = if untouched then true else s.enabled;
      strategy = if text_eq s.strategy [] then codes "auto" else s.strategy;
      custom_interval_secs =
          if ltb_ℤ max_batch_interval_seconds raised then max_batch_interval_seconds else raised;
    }

abbrev pub or_positive : ℤ → ℤ → ℤ
or_positive value fallback = if leb_ℤ value (pos 0) then fallback else value

-- The largest step, held between the smallest batch interval and five minutes.
unfoldable pub max_step_default : ℤ → ℤ
max_step_default value =
    let capped =
      if leb_ℤ value (pos 0) || ltb_ℤ max_autopilot_metric_step_seconds value
      then max_autopilot_metric_step_seconds
      else value in
    if ltb_ℤ capped min_batch_interval_seconds then min_batch_interval_seconds else capped

-- The part of `ApplyExportDefaults` on the safety settings.
unfoldable pub safety_defaults : ExportSafetyConfig → ExportSafetyConfig
safety_defaults s =
    let mode = if text_eq s.mode [] then adaptivity_autopilot else s.mode in
    let off = text_eq mode adaptivity_off in
    let untouched =
      not off
      && not s.auto_split
      && not s.split_by_job
      && not s.split_by_metric_name
      && leb_ℤ s.min_window_seconds (pos 0)
      && leb_ℤ s.max_split_depth (pos 0) in
    let max_step = max_step_default s.max_step_seconds in
    record {
      mode = mode;
      auto_split = if off then false else if untouched then true else s.auto_split;
      split_by_job = if off then false else if untouched then true else s.split_by_job;
      split_by_metric_name = if off then false else s.split_by_metric_name;
      min_window_seconds = or_positive s.min_window_seconds (pos 5);
      max_split_depth = or_positive s.max_split_depth (pos 8);
      max_step_seconds = max_step;
      step_ladder_seconds = normalize_step_ladder s.step_ladder_seconds max_step;
    }

-- The part on the metric step. `StepLadderSeconds[0]` of an empty ladder would panic; the ladder of
-- `safety_defaults` is never empty.
unfoldable pub metric_step_default : ExportConfig → ExportSafetyConfig → ℤ
metric_step_default c s =
    let chosen =
      if leb_ℤ c.metric_step_seconds (pos 0)
      then (if text_eq s.mode adaptivity_autopilot
          then head_or (pos 0) s.step_ladder_seconds
          else recommended_metric_step_seconds c.time_range)
      else c.metric_step_seconds in
    if ltb_ℤ s.max_step_seconds chosen then s.max_step_seconds else chosen

-- With obfuscation off, only the labels to drop are kept.
abbrev pub obfuscation_defaults : ObfuscationConfig → ObfuscationConfig
obfuscation_defaults o = if o.enabled then o else no_obfuscation o.drop_labels

unfoldable pub apply_export_defaults : ExportConfig → ExportConfig
unfolding batching_defaults safety_defaults metric_step_default
apply_export_defaults c =
    let safety = safety_defaults c.safety in
    record c {
      batching = batching_defaults c.batching;
      safety = safety;
      metric_step_seconds = metric_step_default c safety;
      obfuscation = obfuscation_defaults c.obfuscation;
    }

-- export_service.go: an untouched batching section stays as it was, that is, off.
unfoldable pub apply_export_service_defaults : ExportConfig → ExportConfig
apply_export_service_defaults c =
    let b = c.batching in
    let d = apply_export_defaults c in
    if not b.enabled && text_eq b.strategy [] && eq_ℤ b.custom_interval_secs (pos 0)
    then record d { batching = b }
    else d

unfoldable pub first_above : ℤ → List ℤ → Option ℤ
first_above current [] = none
first_above current (step ∷ steps) =
    if ltb_ℤ current step then some step else first_above current steps

unfoldable pub next_autopilot_step : ℤ → ExportSafetyConfig → Option ℤ
unfolding first_above
next_autopilot_step current s =
    if not (text_eq s.mode adaptivity_autopilot)
    then none
    else first_above current (normalize_step_ladder s.step_ladder_seconds s.max_step_seconds)
