-- ===== src/Defaults/Steps.antt =====
-- `normalizeStepLadder` of export_defaults.go and `nextAutopilotStep` of export_service.go.
use mathlib.Core.List.{reverse_aux}
use vmgather.Prelude.{
  suc, ◌+◌, ◌<◌, ◌≡◌, refl, ◌⊎◌, inl, inr, Bool, true, false, not, ◌&&◌, ◌||◌, List, [], ◌∷◌, some,
  ℤ, pos, ◌≤ℤ◌, ltb_ℤ, eq_ℤ, All, All-map, subst, length, Bool-cases, arith, if◌then◌else◌,
}
use vmgather.Domain.{ExportSafetyConfig}
use vmgather.Defaults.{
  seen_step, collect_steps, sift, sort_steps, or_default, normalize_step_ladder, first_above,
  next_autopilot_step, is_out_of_range, default_autopilot_step_ladder_seconds,
}
use vmgather.Defaults.Ladder.{
  ◌<ℤ◌, IsAscending, IsFresh, sort_steps-IsAscending, seen_step-sort_steps, collect_steps-IsFresh,
  seen_step-collect_steps, All-sift,
}

or_default-IsFresh : (m : ℤ) (l : List ℤ) → IsFresh [] l → IsFresh [] (or_default (m ∷ []) l)
unfolding seen_step
or_default-IsFresh m [] h = (refl, tt)
or_default-IsFresh m (x ∷ xs) h = h

-- The normalized ladder rises strictly, so it is sorted and has no repeated step.
pub normalize_step_ladder-IsAscending :
    (values : List ℤ) (m : ℤ) → IsAscending (normalize_step_ladder values m)
unfolding normalize_step_ladder
normalize_step_ladder-IsAscending values m =
    sort_steps-IsAscending [] _ tt (or_default-IsFresh m _ (collect_steps-IsFresh _ m []))

-- Whether a list holds a step between thirty seconds and the largest step.
abbrev pub has_step_in_range : List ℤ → ℤ → Bool
has_step_in_range [] m = false
has_step_in_range (x ∷ xs) m = not (is_out_of_range x m) || has_step_in_range xs m

collect_steps-nil :
    (steps : List ℤ) (m : ℤ) (seen : List ℤ)
    → has_step_in_range steps m ≡ false
    → collect_steps steps m seen ≡ []
unfolding collect_steps
collect_steps-nil [] m seen h = refl
collect_steps-nil (x ∷ xs) m seen h = ground (arith, collect_steps-nil xs m seen)

or_default-collect_steps :
    (d steps : List ℤ) (m : ℤ)
    → has_step_in_range steps m ≡ true
    → or_default d (collect_steps steps m []) ≡ collect_steps steps m []
unfolding collect_steps
or_default-collect_steps d [] m h = cc
or_default-collect_steps d (x ∷ xs) m h = ground (arith, or_default-collect_steps d xs m)

-- The ladder holds exactly the steps asked for (if none was asked for, the default steps) that lie
-- between thirty seconds and the largest step; if there is no such step it holds the largest alone.
pub seen_step-normalize_step_ladder :
    (values : List ℤ) (m z : ℤ)
    → let steps = or_default default_autopilot_step_ladder_seconds values in
      seen_step z (normalize_step_ladder values m) ≡ (
        if has_step_in_range steps m
        then seen_step z steps && not (is_out_of_range z m)
        else eq_ℤ m z)
unfolding normalize_step_ladder seen_step
seen_step-normalize_step_ladder values m z =
    let steps = or_default default_autopilot_step_ladder_seconds values in
    elim (Bool-cases (has_step_in_range steps m)) [
      | inl e ↦
          rw (e, or_default-collect_steps (m ∷ []) steps m e)
            (ground (
              arith,
              seen_step-sort_steps z [] (collect_steps steps m []),
              seen_step-collect_steps z steps m [],
            ))
      | inr e ↦
          rw (e, collect_steps-nil steps m [] e)
            (ground (arith, seen_step-sort_steps z [] (m ∷ [])))
    ]

All-reverse_aux :
    (P : ℤ → Type 0) (xs acc : List ℤ) → All P xs → All P acc → All P (reverse_aux xs acc)
All-reverse_aux P [] acc h k = k
All-reverse_aux P (x ∷ xs) acc h k = All-reverse_aux P xs (x ∷ acc) h.1 (h.0, k)

All-sort_steps :
    (P : ℤ → Type 0) (done steps : List ℤ)
    → All P done
    → All P steps
    → All P (sort_steps done steps)
unfolding sort_steps
All-sort_steps P done [] h k = All-reverse_aux P done [] h tt
All-sort_steps P done (x ∷ xs) h k = All-sort_steps P (sift x done) xs (All-sift P x done k.0 h) k.1

abbrev pub IsStep : ℤ → ℤ → Type 0
IsStep m x = (pos 30 ≤ℤ x) × (x ≤ℤ m)

collect_steps-IsStep :
    (steps : List ℤ) (m : ℤ) (seen : List ℤ) → All (IsStep m) (collect_steps steps m seen)
unfolding collect_steps
collect_steps-IsStep [] m seen = tt
collect_steps-IsStep (x ∷ xs) m seen =
    ground (arith, collect_steps-IsStep xs m seen, collect_steps-IsStep xs m (x ∷ seen))

or_default-IsStep :
    (P : ℤ → Type 0) (m : ℤ) (l : List ℤ) → P m → All P l → All P (or_default (m ∷ []) l)
or_default-IsStep P m [] p h = (p, tt)
or_default-IsStep P m (x ∷ xs) p h = h

-- Every step of the ladder lies between thirty seconds and the largest step.
pub normalize_step_ladder-IsStep :
    (values : List ℤ) (m : ℤ) → pos 30 ≤ℤ m → All (IsStep m) (normalize_step_ladder values m)
unfolding normalize_step_ladder
normalize_step_ladder-IsStep values m h =
    All-sort_steps (IsStep m) [] _ tt
      (or_default-IsStep (IsStep m) m _ (h, omega arith) (collect_steps-IsStep _ m []))

length-sift : (x : ℤ) (xs : List ℤ) → length (sift x xs) ≡ suc (length xs)
unfolding sift
length-sift x [] = refl
length-sift x (y ∷ xs) = ground (arith, length-sift x xs)

length-reverse_aux : (xs acc : List ℤ) → length (reverse_aux xs acc) ≡ length xs + length acc
length-reverse_aux [] acc = omega arith
length-reverse_aux (x ∷ xs) acc = omega (arith, length-reverse_aux xs (x ∷ acc))

length-sort_steps :
    (done steps : List ℤ) → length (sort_steps done steps) ≡ length done + length steps
unfolding sort_steps
length-sort_steps done [] = length-reverse_aux done []
length-sort_steps done (x ∷ xs) =
    omega (arith, length-sort_steps (sift x done) xs, length-sift x done)

or_default_pos : (m : ℤ) (l : List ℤ) → 0 < length (or_default (m ∷ []) l)
or_default_pos m [] = omega arith
or_default_pos m (x ∷ xs) = omega arith

-- The ladder is never empty, so that its first step may be read.
pub normalize_step_ladder_pos :
    (values : List ℤ) (m : ℤ) → 0 < length (normalize_step_ladder values m)
unfolding normalize_step_ladder
normalize_step_ladder_pos values m =
    let steps = or_default default_autopilot_step_ladder_seconds values in
    let found = or_default (m ∷ []) (collect_steps steps m []) in
    omega (arith, length-sort_steps [] found, or_default_pos m (collect_steps steps m []))

-- With no bound known of the largest step, it still bounds the ladder.
normalize_step_ladder-le :
    (values : List ℤ) (m : ℤ) → All (λ x. x ≤ℤ m) (normalize_step_ladder values m)
unfolding normalize_step_ladder
normalize_step_ladder-le values m =
    All-sort_steps (λ x. x ≤ℤ m) [] _ tt
      (or_default-IsStep (λ x. x ≤ℤ m) m _ (omega arith)
        (All-map (IsStep m) (λ x. x ≤ℤ m) _ (λ x p. p.1) (collect_steps-IsStep _ m [])))

first_above_bounds :
    (m c : ℤ) (l : List ℤ) (n : ℤ)
    → All (λ x. x ≤ℤ m) l
    → first_above c l ≡ some n
    → (n ≤ℤ m) × (c <ℤ n)
unfolding first_above
first_above_bounds m c [] n h e = cc
first_above_bounds m c (x ∷ xs) n h e = ground (arith, first_above_bounds m c xs n h.1)

-- Every step of `l` is at most `c`, or at least `n`.
abbrev pub Skips : ℤ → ℤ → List ℤ → Type 0
Skips c n = All (λ z. (z ≤ℤ c) ⊎ (n ≤ℤ z))

first_above-Skips :
    (c : ℤ) (l : List ℤ) {n : ℤ} → IsAscending l → first_above c l ≡ some n → Skips c n l
unfolding first_above
first_above-Skips c [] h e = tt
first_above-Skips c (x ∷ xs) {n = n} h e = elim (Bool-cases (ltb_ℤ c x)) [
  | inl t ↦
      let same : x ≡ n = ground arith in
      subst (λ k. Skips c k (x ∷ xs)) same
        (
          inr (omega arith),
          All-map (λ z. x <ℤ z) (λ z. (z ≤ℤ c) ⊎ (x ≤ℤ z)) xs (λ z p. inr (omega arith)) h.0,
        )
  | inr t ↦ (inl (ground arith), first_above-Skips c xs {n = n} h.1 (ground arith))
]

-- A step that the autopilot goes on with is greater than the current one, at most the largest step,
-- and the least such step of the ladder: every other step of it is at most the current one or at
-- least the new one.
pub next_autopilot_step_lem :
    (c : ℤ) (s : ExportSafetyConfig) {n : ℤ}
    → next_autopilot_step c s ≡ some n
    → (c <ℤ n)
      × (n ≤ℤ s.max_step_seconds)
      × Skips c n (normalize_step_ladder s.step_ladder_seconds s.max_step_seconds)
unfolding next_autopilot_step
next_autopilot_step_lem c s {n = n} h =
    let m = s.max_step_seconds in
    let ladder = normalize_step_ladder s.step_ladder_seconds m in
    let e : first_above c ladder ≡ some n = ground arith in
    let b = first_above_bounds m c ladder n (normalize_step_ladder-le s.step_ladder_seconds m) e in
    (
      b.1,
      b.0,
      first_above-Skips c ladder (normalize_step_ladder-IsAscending s.step_ladder_seconds m) e,
    )
