-- ===== src/Export/Split.antt =====
-- export_service.go: the helpers of the adaptive export that need no state.
use vmgather.Prelude.{
  zero, suc, ◌/◌, ◌*◌, Bool, false, not, ◌||◌, List, [], ◌∷◌, Option, none, some, Text, ℤ, pos,
  negsuc, ltb, ltb_ℤ, leb_ℤ, if◌then◌else◌, text_eq, mul_int64,
}
use vmgather.Domain.{TimeRange, second, sub_time, add_time}
use vmgather.Batching.{min_batch_interval, max_batch_interval, recommended_interval_for_duration}

-- Whether a set of texts seen holds a text.
unfoldable pub seen_text : Text → List Text → Bool
seen_text v [] = false
seen_text v (x ∷ xs) = text_eq x v || seen_text v xs

unfoldable pub unique_from : List Text → List Text → List Text
unfolding seen_text
unique_from seen [] = []
unique_from seen (v ∷ vs) =
    let skipped = unique_from seen vs in
    let taken = v ∷ unique_from (v ∷ seen) vs in
    if text_eq v [] then skipped else if seen_text v seen then skipped else taken

unfoldable pub unique_strings : List Text → List Text
unfolding unique_from
unique_strings values = unique_from [] values

-- int64 division by two, towards zero.
abbrev pub halve : ℤ → ℤ
halve (pos d) = pos (d / 2)
halve (negsuc d) = let h = suc d / 2 in elim h [ zero ↦ pos 0 | suc k ↦ negsuc k ]

-- The smallest window as a duration; five seconds where it is not positive.
abbrev pub min_window : ℤ → ℤ
min_window seconds = if leb_ℤ seconds (pos 0) then pos (5 * second) else mul_int64 seconds second

unfoldable pub split_time_range : TimeRange → ℤ → Option (TimeRange × TimeRange)
split_time_range tr min_window_seconds =
    let duration = sub_time tr.end tr.start in
    if leb_ℤ duration (min_window min_window_seconds)
    then none
    else (let mid = add_time tr.start (halve duration) in
        if not (ltb tr.start mid) || not (ltb mid tr.end)
        then none
        else some (record { start = tr.start; end = mid }, record { start = mid; end = tr.end }))

unfoldable pub determine_query_range_step : TimeRange → ℤ → ℤ
determine_query_range_step tr override_seconds =
    if ltb_ℤ (pos 0) override_seconds
    then (let step = mul_int64 override_seconds second in
        if ltb_ℤ step min_batch_interval
        then min_batch_interval
        else if ltb_ℤ max_batch_interval step
        then max_batch_interval
        else step)
    else recommended_interval_for_duration (sub_time tr.end tr.start)
