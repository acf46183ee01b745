-- ===== src/Importer/Timestamps.antt =====
-- internal/importer/server/server.go: the units of timestamps, old samples, and values.
pub mod Units
use vmgather.Prelude.{
  ℕ, zero, suc, ◌+◌, ◌-◌, ◌*◌, ◌/◌, ◌%◌, ◌^◌, Bool, true, false, List, [], ◌∷◌, Option, none, some,
  Text, codes, ℤ, pos, negsuc, pos_part, neg_part, ltb_ℤ, leb_ℤ, ltb, ◌==◌, if◌then◌else◌,
  mul_int64, wrap_int64, length, drop, head_or,
}
use vmgather.Importer.Defs.{
  RawValue, number_value, string_value, bool_value, null_value, other_value, Codec,
}

-- int64 addition, and division by a positive constant, towards zero.
unfoldable pub add_int64 : ℤ → ℤ → ℤ
add_int64 a b =
    wrap_int64 ((pos_part a + pos_part b + 2 ^ 64 - (neg_part a + neg_part b) % 2 ^ 64) % 2 ^ 64)

unfoldable pub div_int64 : ℤ → ℕ → ℤ
div_int64 (pos n) k = pos (n / k)
div_int64 (negsuc n) k = let q = suc n / k in elim q [ zero ↦ pos 0 | suc m ↦ negsuc m ]

-- `abs`, as the code finds it: the negation of the smallest int64 is itself.
unfoldable pub abs_int64 : ℤ → ℤ
abs_int64 (pos n) = pos n
abs_int64 (negsuc n) = if suc n == 2 ^ 63 then negsuc n else pos (suc n)

pub data TimestampUnit : Type 0 where
  seconds milliseconds microseconds nanoseconds : TimestampUnit

unfoldable pub detect_timestamp_unit : ℤ → TimestampUnit
unfolding abs_int64
detect_timestamp_unit v =
    let abs = abs_int64 v in
    if ltb_ℤ abs (pos (10 ^ 9))
    then milliseconds
    else if ltb_ℤ abs (pos (10 ^ 11))
    then seconds
    else if ltb_ℤ abs (pos (10 ^ 14))
    then milliseconds
    else if ltb_ℤ abs (pos (10 ^ 17))
    then microseconds
    else nanoseconds

unfoldable pub times_1000 : List ℤ → List ℤ
times_1000 [] = []
times_1000 (v ∷ vs) = mul_int64 v 1000 ∷ times_1000 vs

unfoldable pub divided_by : ℕ → List ℤ → List ℤ
divided_by k [] = []
divided_by k (v ∷ vs) = div_int64 v k ∷ divided_by k vs

-- `ts[len(ts)/2]`, of a list that is not empty.
abbrev pub median : List ℤ → ℤ
median ts = head_or (pos 0) (drop (length ts / 2) ts)

abbrev pub in_milliseconds : TimestampUnit → List ℤ → List ℤ × Bool
in_milliseconds seconds ts = (times_1000 ts, true)
in_milliseconds milliseconds ts = (ts, false)
in_milliseconds microseconds ts = (divided_by 1000 ts, true)
in_milliseconds nanoseconds ts = (divided_by 1000000 ts, true)

unfoldable pub normalize_timestamps : List ℤ → List ℤ × Bool
unfolding detect_timestamp_unit times_1000 divided_by
normalize_timestamps [] = ([], false)
normalize_timestamps (t ∷ ts) = in_milliseconds (detect_timestamp_unit (median (t ∷ ts))) (t ∷ ts)

-- The samples that are not older than the cutoff, and the number of the others.
unfoldable pub drop_old : List ℤ → List Text → ℤ → List ℤ × List Text × ℕ
drop_old (t ∷ ts) (v ∷ vs) cutoff =
    let (kept, values, dropped) = drop_old ts vs cutoff in
    if ltb_ℤ t cutoff then (kept, values, suc dropped) else (t ∷ kept, v ∷ values, dropped)
drop_old _ _ cutoff = ([], [], 0)

unfoldable pub filter_timestamps_and_values : List ℤ → List Text → ℤ → List ℤ × List Text × ℕ
unfolding drop_old
filter_timestamps_and_values ts vs cutoff =
    if leb_ℤ cutoff (pos 0)
    then (ts, vs, 0)
    else if length ts == length vs
    then drop_old ts vs cutoff
    else ([], [], length ts)

-- A value as a number; a JSON null reads as an empty json.Number.
unfoldable pub value_of : Codec → RawValue → Option Text
value_of codec (number_value s) = codec.parse_float s
value_of codec (string_value s) = codec.parse_float s
value_of codec (bool_value true) = some (codes "1")
value_of codec (bool_value false) = some (codes "0")
value_of codec null_value = codec.parse_float []
value_of codec other_value = none

abbrev pub cons_value : Option Text → Option (List Text) → Option (List Text)
cons_value (some v) (some vs) = some (v ∷ vs)
cons_value _ _ = none

unfoldable pub normalize_values : Codec → List RawValue → Option (List Text)
unfolding value_of
normalize_values codec [] = some []
normalize_values codec (r ∷ rs) = cons_value (value_of codec r) (normalize_values codec rs)
