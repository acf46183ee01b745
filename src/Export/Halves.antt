-- ===== src/Export/Halves.antt =====
-- export_service.go: `splitTimeRange` and `uniqueStrings`.
use vmgather.Prelude.{
  ℕ, leb, min, ◌<◌, ◌≤◌, ◌-◌, pos, negsuc, ◌≡◌, ◌+◌, ◌/◌, ◌^◌, ◌⊎◌, Option, none, ltb, ◌||◌,
  if◌then◌else◌, ◌≤ℤ◌, leb_ℤ, refl, false, not, ◌&&◌, List, [], ◌∷◌, some, Text, text_eq, arith,
  Bool-cases, text_eq→eq, text_eq_self, if-both, ℤ, inl, inr,
}
use vmgather.Domain.{TimeRange, sub_time, add_time}
use vmgather.Defaults.Ladder.{◌<ℤ◌}
use vmgather.Export.Split.{
  split_time_range, seen_text, unique_from, unique_strings, min_window, halve,
}

-- What a split may give.
abbrev pub IsHalved : TimeRange → ℤ → Option (TimeRange × TimeRange) → Type 0
IsHalved tr m none = (sub_time tr.end tr.start ≤ℤ min_window m) ⊎ (tr.end < tr.start + 2)
IsHalved tr m (some (left, right)) =
    (min_window m <ℤ sub_time tr.end tr.start)
    × (left.start ≡ tr.start)
    × (left.start < left.end)
    × (left.end ≡ right.start)
    × (right.start < right.end)
    × (right.end ≡ tr.end)
    × ((left.end + left.end ≡ left.start + right.end)
        ⊎ (left.end + left.end + 1 ≡ left.start + right.end))

-- What the code gives for a midpoint.
abbrev parts : TimeRange → ℕ → Option (TimeRange × TimeRange)
parts tr mid =
    if not (ltb tr.start mid) || not (ltb mid tr.end)
    then none
    else some (record { start = tr.start; end = mid }, record { start = mid; end = tr.end })

parts-IsHalved :
    (tr : TimeRange) (m : ℤ) (mid : ℕ)
    → mid ≡ tr.start + (tr.end - tr.start) / 2
    → min_window m <ℤ sub_time tr.end tr.start
    → IsHalved tr m (parts tr mid)
parts-IsHalved tr m mid e h = elim (Bool-cases (not (ltb tr.start mid) || not (ltb mid tr.end))) [
  | inl p ↦ rw (p) (inr (ground (arith, p, e)))
  | inr p ↦
      rw (p)
        ((h, refl, ground (arith, p, e), refl, ground (arith, p, e), refl, ground (arith, p, e)))
]

sub_time-forward : (t u : ℕ) → t ≤ u → u < t + 2 ^ 63 → sub_time u t ≡ pos (u - t)
unfolding sub_time
sub_time-forward t u h k = ground arith

sub_time-backward : (t u : ℕ) → u < t → (n : ℕ) × (sub_time u t ≡ negsuc n)
unfolding sub_time
sub_time-backward t u h = (min (t - u) (2 ^ 63) - 1, ground (arith, h))

backward_lem :
    (tr : TimeRange) (d : ℤ) (n : ℕ) → d ≡ negsuc n → parts tr (add_time tr.start (halve d)) ≡ none
backward_lem tr d n e = rw (e) (ground arith)

abbrev midpoint : TimeRange → ℕ
midpoint tr = add_time tr.start (halve (sub_time tr.end tr.start))

wider-IsHalved :
    (tr : TimeRange) (m : ℤ)
    → tr.end < tr.start + 2 ^ 63
    → min_window m <ℤ sub_time tr.end tr.start
    → IsHalved tr m (parts tr (midpoint tr))
wider-IsHalved tr m h w = elim (Bool-cases (leb tr.start tr.end)) [
  | inl p ↦
      let e = sub_time-forward tr.start tr.end (ground (arith, p)) h in
      parts-IsHalved tr m (midpoint tr) (rw (e) refl) w
  | inr p ↦
      let (n, e) = sub_time-backward tr.start tr.end (ground (arith, p)) in
      rw (backward_lem tr (sub_time tr.end tr.start) n e) (inr (ground (arith, p)))
]

-- Every window that is shorter than 2^63 nanoseconds is split just where it is longer than the smallest
-- window and has two nanoseconds: into two parts that are not empty, meet, cover it, and whose lengths
-- differ by a nanosecond at most.
pub split_time_range-IsHalved :
    (tr : TimeRange) (m : ℤ) → tr.end < tr.start + 2 ^ 63 → IsHalved tr m (split_time_range tr m)
unfolding split_time_range
split_time_range-IsHalved tr m h =
    elim (Bool-cases (leb_ℤ (sub_time tr.end tr.start) (min_window m))) [
      | inl p ↦ rw (p) (inl (ground (arith, p)))
      | inr p ↦ rw (p) (wider-IsHalved tr m h (ground (arith, p)))
    ]

-- The step of the next lemma at the text itself.
seen_text-same :
    (x v : Text) (seen xs : List Text)
    → x ≡ v
    → seen_text v (unique_from seen xs)
      ≡ (seen_text v xs && (not (text_eq v []) && not (seen_text v seen)))
    → seen_text v (unique_from seen (x ∷ xs))
      ≡ (seen_text v (x ∷ xs) && (not (text_eq v []) && not (seen_text v seen)))
unfolding seen_text unique_from
seen_text-same x v seen xs e h = rw (e) (let r = text_eq_self v in ground (arith, r, h))

-- A text is kept just where it is among the values, is not empty, and was not seen before.
seen_text-unique_from :
    (v : Text) (seen vs : List Text)
    → seen_text v (unique_from seen vs)
      ≡ (seen_text v vs && (not (text_eq v []) && not (seen_text v seen)))
unfolding seen_text unique_from
seen_text-unique_from v seen [] = refl
seen_text-unique_from v seen (x ∷ xs) = elim (Bool-cases (text_eq x v)) [
  | inl t ↦ seen_text-same x v seen xs (text_eq→eq x v t) (seen_text-unique_from v seen xs)
  | inr t ↦
      let a = seen_text-unique_from v seen xs in
      let b = seen_text-unique_from v (x ∷ seen) xs in ground (arith, a, b, t)
]

not_again : (x : Text) (seen vs : List Text) → seen_text x (unique_from (x ∷ seen) vs) ≡ false
unfolding seen_text
not_again x seen vs =
    let a = seen_text-unique_from x (x ∷ seen) vs in let r = text_eq_self x in ground (arith, a, r)

-- No text is among those after it.
abbrev pub IsDistinct : List Text → Type 0
IsDistinct [] = Unit
IsDistinct (x ∷ xs) = (seen_text x xs ≡ false) × IsDistinct xs

unique_from-IsDistinct : (seen vs : List Text) → IsDistinct (unique_from seen vs)
unfolding unique_from
unique_from-IsDistinct seen [] = tt
unique_from-IsDistinct seen (x ∷ xs) =
    if-both IsDistinct (text_eq x []) _ _ (unique_from-IsDistinct seen xs) (
      if-both IsDistinct (seen_text x seen) _ _ (unique_from-IsDistinct seen xs)
        (not_again x seen xs, unique_from-IsDistinct (x ∷ seen) xs))

-- The values that are kept are distinct, and they are those that are not empty.
pub unique_strings_lem :
    (values : List Text)
    → IsDistinct (unique_strings values)
      × ((v : Text)
          → seen_text v (unique_strings values) ≡ (seen_text v values && not (text_eq v [])))
unfolding unique_strings seen_text
unique_strings_lem values = (
  unique_from-IsDistinct [] values,
  λ v. let a = seen_text-unique_from v [] values in ground (arith, a),
)
