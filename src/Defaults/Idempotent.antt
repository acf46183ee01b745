-- ===== src/Defaults/Idempotent.antt =====
-- export_defaults.go: the defaults are applied when a request arrives and again when its export starts.
use mathlib.Core.List.{reverse_aux}
use vmgather.Prelude.{
  ◌<◌, ◌≡◌, refl, ap, ◌∙◌, false, ◌&&◌, ◌||◌, List, [], ◌∷◌, ℤ, pos, ◌≤ℤ◌, All, All-zip, length,
  arith, text_eq,
}
use vmgather.Domain.{
  ExportSafetyConfig, ExportConfig, ObfuscationConfig, BatchSettings, adaptivity_off,
}
use vmgather.Defaults.{
  normalize_step_ladder, batching_defaults, max_step_default, safety_defaults, metric_step_default,
  apply_export_defaults, obfuscation_defaults, seen_step, collect_steps, sift, sort_steps,
  or_default,
}
use vmgather.Defaults.Ladder.{IsAscending, ◌<ℤ◌}
use vmgather.Defaults.Steps.{IsStep, normalize_step_ladder_pos}
use vmgather.Defaults.Bounds.{apply_export_defaults-IsValid}

collect_steps_id :
    (l : List ℤ) (m : ℤ) (seen : List ℤ)
    → IsAscending l
    → All (IsStep m) l
    → All (λ z. seen_step z seen ≡ false) l
    → collect_steps l m seen ≡ l
unfolding collect_steps seen_step
collect_steps_id [] m seen a r n = refl
collect_steps_id (x ∷ xs) m seen a r n =
    let unseen : All (λ z. seen_step z (x ∷ seen) ≡ false) xs =
      All-zip (λ z. x <ℤ z) (λ z. seen_step z seen ≡ false) (λ z. seen_step z (x ∷ seen) ≡ false) xs
        (λ z p q. ground arith) a.0 n.1 in
    ground (arith, collect_steps_id xs m (x ∷ seen) a.1 r.1 unseen, n.0, r.0)

sift_id : (x : ℤ) (done : List ℤ) → All (λ y. y <ℤ x) done → sift x done ≡ x ∷ done
unfolding sift
sift_id x [] h = refl
sift_id x (y ∷ ys) h = let p = h.0 in ground arith

sort_steps_id :
    (done l : List ℤ)
    → IsAscending l
    → All (λ x. All (λ y. y <ℤ x) done) l
    → sort_steps done l ≡ reverse_aux done l
unfolding sort_steps
sort_steps_id done [] a h = refl
sort_steps_id done (x ∷ xs) a h = rw (sift_id x done h.0) (
    sort_steps_id (x ∷ done) xs a.1 (
      All-zip (λ z. x <ℤ z) (λ z. All (λ y. y <ℤ z) done) (λ z. All (λ y. y <ℤ z) (x ∷ done)) xs
        (λ z p q. (p, q)) a.0 h.1))

or_default_id : (d l : List ℤ) → 0 < length l → or_default d l ≡ l
or_default_id d [] h = absurd (omega arith)
or_default_id d (x ∷ xs) h = refl

everything : (P : ℤ → Type 0) (l : List ℤ) → ((z : ℤ) → P z) → All P l
everything P [] f = tt
everything P (x ∷ xs) f = (f x, everything P xs f)

normalize_step_ladder_id :
    (l : List ℤ) (m : ℤ)
    → IsAscending l
    → All (IsStep m) l
    → 0 < length l
    → normalize_step_ladder l m ≡ l
unfolding normalize_step_ladder seen_step
normalize_step_ladder_id l m a r p =
    simp
      (
        or_default_id _ l p,
        collect_steps_id l m [] a r (everything (λ z. seen_step z [] ≡ false) l (λ z. refl)),
      )
      (sort_steps_id [] l a (everything (λ x. All (λ y. y <ℤ x) []) l (λ z. tt)))

max_step_default_twice : (v : ℤ) → max_step_default (max_step_default v) ≡ max_step_default v
unfolding max_step_default
max_step_default_twice v = ground arith

batching_defaults_twice :
    (b : BatchSettings) → batching_defaults (batching_defaults b) ≡ batching_defaults b
unfolding batching_defaults text_eq
batching_defaults_twice b = ground arith

obfuscation_defaults_twice :
    (o : ObfuscationConfig) → obfuscation_defaults (obfuscation_defaults o) ≡ obfuscation_defaults o
obfuscation_defaults_twice o = ground arith

-- With the ladder and the largest step settled, the second pass changes nothing.
safety_defaults_settled :
    (s : ExportSafetyConfig)
    → max_step_default s.max_step_seconds ≡ s.max_step_seconds
    → normalize_step_ladder s.step_ladder_seconds s.max_step_seconds ≡ s.step_ladder_seconds
    → text_eq s.mode [] ≡ false
    → text_eq s.mode adaptivity_off && (s.auto_split || s.split_by_job || s.split_by_metric_name)
      ≡ false
    → pos 1 ≤ℤ s.min_window_seconds
    → pos 1 ≤ℤ s.max_split_depth
    → safety_defaults s ≡ s
unfolding safety_defaults
safety_defaults_settled s e f mode off window depth = rw (e, f, mode) (ground arith)

metric_step_default_settled :
    (c : ExportConfig) (s : ExportSafetyConfig)
    → pos 1 ≤ℤ c.metric_step_seconds
    → c.metric_step_seconds ≤ℤ s.max_step_seconds
    → metric_step_default c s ≡ c.metric_step_seconds
unfolding metric_step_default
metric_step_default_settled c s h k = ground arith

-- Applying the defaults to a configuration that has them changes nothing.
pub apply_export_defaults_twice :
    (c : ExportConfig) → apply_export_defaults (apply_export_defaults c) ≡ apply_export_defaults c
unfolding apply_export_defaults
apply_export_defaults_twice c =
    let (b, s, low, high) = apply_export_defaults-IsValid c in
    let t = safety_defaults c.safety in
    let m = max_step_default c.safety.max_step_seconds in
    let ladder : normalize_step_ladder t.step_ladder_seconds t.max_step_seconds
        ≡ t.step_ladder_seconds =
      normalize_step_ladder_id t.step_ladder_seconds m s.ladder_rises s.ladder_range
        (normalize_step_ladder_pos c.safety.step_ladder_seconds m) in
    let top : max_step_default t.max_step_seconds ≡ t.max_step_seconds =
      max_step_default_twice c.safety.max_step_seconds in
    let again =
      safety_defaults_settled t top ladder s.mode_named s.off_is_off s.window_pos s.depth_pos in
    let step =
      ap (metric_step_default (apply_export_defaults c)) again
      ∙ metric_step_default_settled (apply_export_defaults c) t low high in
    λ i. record (apply_export_defaults c) {
      batching = batching_defaults_twice c.batching i;
      safety = again i;
      metric_step_seconds = step i;
      obfuscation = obfuscation_defaults_twice c.obfuscation i;
    }
