-- ===== src/Export/Rounds.antt =====
-- export_service.go: the number of rounds that an attempt of `exportWindowAdaptive` has left, and what
-- the plans of the code make of it.
use vmgather.Prelude.{
  ℕ, ◌+◌, ◌-◌, ◌*◌, not, ◌&&◌, if◌then◌else◌, if-both, text_eq, ◌<◌, ◌≤◌, ◌≡◌, refl, ap, inl, inr,
  Bool, true, false, List, [], ◌∷◌, Option, none, some, ℤ, pos_part, neg_part, arith, Text, All,
  All-map, Option-cases,
}
use vmgather.Domain.{
  TimeRange, mode_custom, mode_cluster, query_selector, ExportConfig, ExportSafetyConfig,
}
use vmgather.Defaults.{next_autopilot_step}
use vmgather.Defaults.Steps.{next_autopilot_step_lem}
use vmgather.Vm.Errors.{
  ErrorKind, unknown, missing_route, query_timeout, too_many_series, transient,
}
use vmgather.Export.Selector.{apply_job_matcher_to_selector}
use vmgather.Export.Split.{split_time_range}
use vmgather.Export.Process.{ExportAttempt, by_query_range}
use vmgather.Export.Plans.{
  Plan, fall_back, split_jobs, split_time, raise_step, give_up, has_many, selector_child,
  timeout_plan, plan_for, build_job_split_attempt, job_children, cons_child, or_raise, or_split,
}

-- How far a step is below the greatest one, in seconds.
abbrev pub step_gap : ExportSafetyConfig → ℤ → ℕ
step_gap safety step =
    pos_part safety.max_step_seconds
    + neg_part step
    - (pos_part step + neg_part safety.max_step_seconds)

abbrev pub many_weight : Bool → ℕ
many_weight true = 2
many_weight false = 0

abbrev pub route_weight : Bool → ℕ
route_weight true = 0
route_weight false = 1

-- What an attempt has left: a split by job, the fall back to query_range, raises of the step, and after
-- each of those all splits by time again.
abbrev pub rounds_left : ExportSafetyConfig → ExportAttempt → ℕ
rounds_left safety a =
    many_weight (has_many a.jobs)
    + route_weight a.use_query_range
    + step_gap safety a.step_seconds * (pos_part safety.max_split_depth + 1)
    + (pos_part safety.max_split_depth - a.depth)

-- What the code has tested where it goes on with a plan.
abbrev pub Allowed : ExportSafetyConfig → ExportAttempt → Plan → Type 0
Allowed safety a fall_back = a.use_query_range ≡ false
Allowed safety a split_jobs = has_many a.jobs ≡ true
Allowed safety a (split_time left right) = a.depth < pos_part safety.max_split_depth
Allowed safety a (raise_step step) = next_autopilot_step a.step_seconds safety ≡ some step
Allowed safety a give_up = Unit {0}

or_raise-Allowed :
    (safety : ExportSafetyConfig) (a : ExportAttempt)
    → Allowed safety a (or_raise (next_autopilot_step a.step_seconds safety))
or_raise-Allowed safety a = elim (Option-cases (next_autopilot_step a.step_seconds safety)) [
  | inl e ↦ rw (e) tt
  | inr (step, e) ↦ rw (e) e
]

or_split-Allowed :
    (safety : ExportSafetyConfig) (a : ExportAttempt) (o : Option (TimeRange × TimeRange))
    → a.depth < pos_part safety.max_split_depth
    → Allowed safety a (or_split o (or_raise (next_autopilot_step a.step_seconds safety)))
or_split-Allowed safety a none h = or_raise-Allowed safety a
or_split-Allowed safety a (some (left, right)) h = h

if-Allowed :
    (safety : ExportSafetyConfig) (a : ExportAttempt) (t : Bool) (p q : Plan)
    → (t ≡ true → Allowed safety a p)
    → Allowed safety a q
    → Allowed safety a (if t then p else q)
if-Allowed safety a true p q f h = f refl
if-Allowed safety a false p q f h = h

timeout_plan-Allowed :
    (safety : ExportSafetyConfig) (a : ExportAttempt) → Allowed safety a (timeout_plan safety a)
unfolding timeout_plan
timeout_plan-Allowed safety a =
    if-Allowed safety a _ _ _
      (λ t.
        or_split-Allowed safety a (split_time_range a.time_range safety.min_window_seconds)
          (ground arith))
      (or_raise-Allowed safety a)

pub plan_for-Allowed :
    (safety : ExportSafetyConfig) (a : ExportAttempt) (k : ErrorKind)
    → Allowed safety a (plan_for safety a k)
unfolding plan_for
plan_for-Allowed safety a missing_route =
    if-Allowed safety a (not a.use_query_range) fall_back give_up (λ t. ground arith) tt
plan_for-Allowed safety a too_many_series =
    if-Allowed safety a _ split_jobs give_up (λ t. ground arith) tt
plan_for-Allowed safety a query_timeout =
    if-Allowed safety a a.use_query_range (timeout_plan safety a) give_up
      (λ t. timeout_plan-Allowed safety a) tt
plan_for-Allowed safety a unknown = tt
plan_for-Allowed safety a transient = tt

mul_mono_lem : (gap gap' k : ℕ) → gap' < gap → gap' * k + k ≤ gap * k
mul_mono_lem gap gap' k h = grind arith

-- A raised step leaves less to raise, and so fewer rounds even where all splits by time start again.
raised_lem :
    (gap gap' d w depth : ℕ)
    → gap' < gap
    → w + gap' * (d + 1) + (d - 0) < w + gap * (d + 1) + (d - depth)
raised_lem gap gap' d w depth h = let m = mul_mono_lem gap gap' (d + 1) h in omega (arith, m)

step_gap_lem :
    (safety : ExportSafetyConfig) (c n : ℤ)
    → next_autopilot_step c safety ≡ some n
    → step_gap safety n < step_gap safety c
step_gap_lem safety c n h = let l = next_autopilot_step_lem c safety h in omega (arith, l.0, l.1)

job_child_lem :
    (m : Bool) (r r' g d depth : ℕ)
    → m ≡ true
    → r' ≤ 1
    → 0 + r' + g + (d - (depth + 1)) < many_weight m + r + g + (d - depth)
job_child_lem m r r' g d depth h k = rw (h) omega (arith, k)

route_weight_le : (t : Bool) → route_weight t ≤ 1
route_weight_le true = omega arith
route_weight_le false = omega arith

pub fall_back_lem :
    (safety : ExportSafetyConfig) (a : ExportAttempt) {n : ℕ}
    → a.use_query_range ≡ false
    → rounds_left safety a ≤ n
    → rounds_left safety
        (record a { use_query_range = true; depth = a.depth + 1; strategy = by_query_range })
      < n
fall_back_lem safety a h k =
    let w : route_weight a.use_query_range ≡ 1 = ap route_weight h in omega (arith, w, k)

pub raise_step_lem :
    (safety : ExportSafetyConfig) (a : ExportAttempt) (step : ℤ) {n : ℕ}
    → next_autopilot_step a.step_seconds safety ≡ some step
    → rounds_left safety a ≤ n
    → rounds_left safety (record a { step_seconds = step; depth = 0; strategy = by_query_range })
      < n
raise_step_lem safety a step h k =
    let g =
      raised_lem (step_gap safety a.step_seconds) (step_gap safety step)
        (pos_part safety.max_split_depth)
        (many_weight (has_many a.jobs) + route_weight a.use_query_range) a.depth
        (step_gap_lem safety a.step_seconds step h) in
    omega (arith, g, k)

abbrev pub AllOption : (ExportAttempt → Type 0) → Option (List ExportAttempt) → Type 0
AllOption P none = Unit
AllOption P (some cs) = All P cs

pub AllOption-map :
    (P Q : ExportAttempt → Type 0) (cs : Option (List ExportAttempt))
    → ((c : ExportAttempt) → P c → Q c)
    → AllOption P cs
    → AllOption Q cs
AllOption-map P Q none f h = tt
AllOption-map P Q (some cs) f h = All-map P Q cs f h

module _ (config : ExportConfig) (parent : ExportAttempt) (many : has_many parent.jobs ≡ true) where
  abbrev pub IsShorter : ExportAttempt → Type 0
  IsShorter c = rounds_left config.safety c < rounds_left config.safety parent

  abbrev IsShorterOption : Option ExportAttempt → Type 0
  IsShorterOption none = Unit
  IsShorterOption (some c) = IsShorter c

  abbrev pub AreShorter : Option (List ExportAttempt) → Type 0
  AreShorter cs = AllOption IsShorter cs

  one_job_lem :
      (t : Bool)
      → 0
          + route_weight t
          + step_gap config.safety parent.step_seconds
            * (pos_part config.safety.max_split_depth + 1)
          + (pos_part config.safety.max_split_depth - (parent.depth + 1))
        < rounds_left config.safety parent
  one_job_lem t =
      job_child_lem (has_many parent.jobs) (route_weight parent.use_query_range) (route_weight t)
        (step_gap config.safety parent.step_seconds * (pos_part config.safety.max_split_depth + 1))
        (pos_part config.safety.max_split_depth) parent.depth many (route_weight_le t)

  selector_child-IsShorter : (job : Text) → IsShorter (selector_child config parent job)
  selector_child-IsShorter job =
      elim (Option-cases (apply_job_matcher_to_selector config.query (job ∷ []))) [
        | inl e ↦ rw (e, selector_child) (one_job_lem true)
        | inr (s, e) ↦ rw (e, selector_child) (one_job_lem false)
      ]

  build_job_split_attempt-IsShorter :
      (job : Text) → IsShorterOption (build_job_split_attempt config parent job)
  unfolding build_job_split_attempt
  build_job_split_attempt-IsShorter job =
      if-both IsShorterOption
        (text_eq config.mode mode_custom && text_eq config.query_type query_selector)
        (some (selector_child config parent job)) _ (selector_child-IsShorter job)
        (if-both IsShorterOption (text_eq config.mode mode_cluster) _ none (one_job_lem false) tt)

  cons_child-AreShorter :
      (c : Option ExportAttempt) (cs : Option (List ExportAttempt))
      → IsShorterOption c
      → AreShorter cs
      → AreShorter (cons_child c cs)
  cons_child-AreShorter none cs h k = tt
  cons_child-AreShorter (some c) none h k = tt
  cons_child-AreShorter (some c) (some cs) h k = (h, k)

  -- Every child of a split by job has fewer rounds left than its parent.
  pub job_children-AreShorter : (jobs : List Text) → AreShorter (job_children config parent jobs)
  unfolding job_children
  job_children-AreShorter [] = tt
  job_children-AreShorter (job ∷ jobs) =
      cons_child-AreShorter (build_job_split_attempt config parent job)
        (job_children config parent jobs) (build_job_split_attempt-IsShorter job)
        (job_children-AreShorter jobs)
