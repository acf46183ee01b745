-- ===== src/Importer/Timestamps/Units.antt =====
-- server.go of the importer: `normalizeTimestamps`.
use vmgather.Prelude.{
  ℕ, zero, suc, ◌/◌, ◌^◌, ◌<◌, ◌≤◌, ◌≡◌, refl, ap, ◌∙◌, false, List, [], ◌∷◌, ℤ, pos, negsuc,
  pos_part, neg_part, mul_int64, length, drop, head_or, arith,
}
use vmgather.Importer.Timestamps.{
  div_int64, abs_int64, TimestampUnit, seconds, milliseconds, microseconds, nanoseconds,
  detect_timestamp_unit, times_1000, divided_by, median, in_milliseconds, normalize_timestamps,
}

-- The range of an int64.
abbrev pub IsInt64 : ℤ → Type 0
IsInt64 v = (pos_part v < 2 ^ 63) × (neg_part v ≤ 2 ^ 63)

scaled_seconds :
    (v : ℤ)
    → detect_timestamp_unit v ≡ seconds
    → detect_timestamp_unit (mul_int64 v 1000) ≡ milliseconds
unfolding detect_timestamp_unit abs_int64 mul_int64
scaled_seconds (pos n) h = ground arith
scaled_seconds (negsuc n) h = ground arith

scaled_microseconds :
    (v : ℤ)
    → detect_timestamp_unit v ≡ microseconds
    → detect_timestamp_unit (div_int64 v 1000) ≡ milliseconds
unfolding detect_timestamp_unit abs_int64 div_int64
scaled_microseconds (pos n) h = ground arith
scaled_microseconds (negsuc n) h = ground arith

scaled_nanoseconds :
    (v : ℤ)
    → IsInt64 v
    → detect_timestamp_unit v ≡ nanoseconds
    → detect_timestamp_unit (div_int64 v 1000000) ≡ milliseconds
unfolding detect_timestamp_unit abs_int64 div_int64
scaled_nanoseconds (pos n) b h = ground arith
scaled_nanoseconds (negsuc n) b h = ground arith

pub length-times_1000 : (ts : List ℤ) → length (times_1000 ts) ≡ length ts
unfolding times_1000
length-times_1000 [] = refl
length-times_1000 (t ∷ ts) = ap suc (length-times_1000 ts)

pub length-divided_by : (k : ℕ) (ts : List ℤ) → length (divided_by k ts) ≡ length ts
unfolding divided_by
length-divided_by k [] = refl
length-divided_by k (t ∷ ts) = ap suc (length-divided_by k ts)

item-times_1000 :
    (n : ℕ) (ts : List ℤ)
    → head_or (pos 0) (drop n (times_1000 ts)) ≡ mul_int64 (head_or (pos 0) (drop n ts)) 1000
unfolding times_1000 mul_int64
item-times_1000 zero [] = refl
item-times_1000 (suc n) [] = refl
item-times_1000 zero (t ∷ ts) = refl
item-times_1000 (suc n) (t ∷ ts) = item-times_1000 n ts

item-divided_by :
    (k n : ℕ) (ts : List ℤ)
    → 0 < k
    → head_or (pos 0) (drop n (divided_by k ts)) ≡ div_int64 (head_or (pos 0) (drop n ts)) k
unfolding divided_by div_int64
item-divided_by k zero [] h = ap pos (grind arith)
item-divided_by k (suc n) [] h = ap pos (grind arith)
item-divided_by k zero (t ∷ ts) h = refl
item-divided_by k (suc n) (t ∷ ts) h = item-divided_by k n ts h

-- The median of scaled timestamps is the scaled median.
median-times_1000 : (ts : List ℤ) → median (times_1000 ts) ≡ mul_int64 (median ts) 1000
median-times_1000 ts = rw (length-times_1000 ts) (item-times_1000 (length ts / 2) ts)

median-divided_by :
    (k : ℕ) (ts : List ℤ) → 0 < k → median (divided_by k ts) ≡ div_int64 (median ts) k
median-divided_by k ts h = rw (length-divided_by k ts) (item-divided_by k (length ts / 2) ts h)

normalize_milliseconds :
    (ts : List ℤ)
    → detect_timestamp_unit (median ts) ≡ milliseconds
    → normalize_timestamps ts ≡ (ts, false)
unfolding normalize_timestamps
normalize_milliseconds [] h = refl
normalize_milliseconds (t ∷ ts) h = rw (h) refl

module _ (ts : List ℤ) (bounded : IsInt64 (median ts)) where
  again :
      (u : TimestampUnit)
      → detect_timestamp_unit (median ts) ≡ u
      → normalize_timestamps (in_milliseconds u ts).0 ≡ ((in_milliseconds u ts).0, false)
  again milliseconds e = normalize_milliseconds ts e
  again seconds e =
      normalize_milliseconds (times_1000 ts)
        (ap detect_timestamp_unit (median-times_1000 ts) ∙ scaled_seconds (median ts) e)
  again microseconds e = normalize_milliseconds (divided_by 1000 ts) (
      ap detect_timestamp_unit (median-divided_by 1000 ts (omega arith))
      ∙ scaled_microseconds (median ts) e)
  again nanoseconds e = normalize_milliseconds (divided_by 1000000 ts) (
      ap detect_timestamp_unit (median-divided_by 1000000 ts (omega arith))
      ∙ scaled_nanoseconds (median ts) bounded e)

-- Where the median is an int64, timestamps that were normalized are in milliseconds: normalizing them
-- again changes nothing, and reports that nothing was scaled.
pub normalize_timestamps_twice :
    (ts : List ℤ)
    → IsInt64 (median ts)
    → normalize_timestamps (normalize_timestamps ts).0 ≡ ((normalize_timestamps ts).0, false)
unfolding normalize_timestamps
normalize_timestamps_twice [] h = refl
normalize_timestamps_twice (t ∷ ts) h =
    again (t ∷ ts) h (detect_timestamp_unit (median (t ∷ ts))) refl
