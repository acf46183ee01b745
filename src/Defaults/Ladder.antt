-- ===== src/Defaults/Ladder.antt =====
-- export_defaults.go: the parts of `normalizeStepLadder`.
use mathlib.Core.List.{reverse_aux}
use vmgather.Prelude.{
  ◌+◌, ◌<◌, ◌≡◌, refl, inl, inr, true, false, not, ◌&&◌, ◌||◌, List, [], ◌∷◌, ℤ, pos_part, neg_part,
  ltb_ℤ, eq_ℤ, All, All-map, Bool-cases, arith,
}
use vmgather.Defaults.{seen_step, collect_steps, sift, sort_steps, is_out_of_range}

-- a < b on integers.
infix 50 ◌<ℤ◌
abbrev pub ◌<ℤ◌ : ℤ → ℤ → Type 0
a <ℤ b = pos_part a + neg_part b < pos_part b + neg_part a

abbrev pub IsDescending : List ℤ → Type 0
IsDescending [] = Unit {0}
IsDescending (x ∷ xs) = All (λ y. y <ℤ x) xs × IsDescending xs

abbrev pub IsAscending : List ℤ → Type 0
IsAscending [] = Unit {0}
IsAscending (x ∷ xs) = All (λ y. x <ℤ y) xs × IsAscending xs

pub All-sift : (P : ℤ → Type 0) (x : ℤ) (xs : List ℤ) → P x → All P xs → All P (sift x xs)
unfolding sift
All-sift P x [] p h = (p, tt)
All-sift P x (y ∷ xs) p h = elim (Bool-cases (ltb_ℤ x y)) [
  | inl e ↦ rw e (h.0, All-sift P x xs p h.1)
  | inr e ↦ rw e (p, h)
]

pub lt_trans_ℤ : (a b c : ℤ) → a <ℤ b → b <ℤ c → a <ℤ c
lt_trans_ℤ a b c h k = omega arith

sift-IsDescending :
    (x : ℤ) (xs : List ℤ) → seen_step x xs ≡ false → IsDescending xs → IsDescending (sift x xs)
unfolding sift seen_step
sift-IsDescending x [] n h = (tt, tt)
sift-IsDescending x (y ∷ xs) n h = elim (Bool-cases (ltb_ℤ x y)) [
  | inl e ↦
      rw e
        (All-sift (λ z. z <ℤ y) x xs (ground arith) h.0, sift-IsDescending x xs (ground arith) h.1)
  | inr e ↦
      let lt : y <ℤ x = ground arith in
      rw e ((lt, All-map (λ z. z <ℤ y) (λ z. z <ℤ x) xs (λ z l. lt_trans_ℤ z y x l lt) h.0), h)
]

-- In a strictly rising run everything in the front part lies below everything in the rest.
IsAscending-reverse_aux :
    (xs acc : List ℤ)
    → IsDescending xs
    → IsAscending acc
    → All (λ x. All (λ y. x <ℤ y) acc) xs
    → IsAscending (reverse_aux xs acc)
IsAscending-reverse_aux [] acc d a h = a
IsAscending-reverse_aux (x ∷ xs) acc d a h =
    IsAscending-reverse_aux xs (x ∷ acc) d.1 (h.0, a) (both xs d.0 h.1)
  where
    both :
        (zs : List ℤ)
        → All (λ z. z <ℤ x) zs
        → All (λ z. All (λ y. z <ℤ y) acc) zs
        → All (λ z. All (λ y. z <ℤ y) (x ∷ acc)) zs
    both [] p q = tt
    both (z ∷ zs) p q = ((p.0, q.0), both zs p.1 q.1)

pub seen_step-sift :
    (z x : ℤ) (xs : List ℤ) → seen_step z (sift x xs) ≡ (eq_ℤ x z || seen_step z xs)
unfolding sift seen_step
seen_step-sift z x [] = refl
seen_step-sift z x (y ∷ xs) = ground (arith, seen_step-sift z x xs)

seen_step-reverse_aux :
    (z : ℤ) (xs acc : List ℤ)
    → seen_step z (reverse_aux xs acc) ≡ (seen_step z xs || seen_step z acc)
unfolding seen_step
seen_step-reverse_aux z [] acc = refl
seen_step-reverse_aux z (x ∷ xs) acc = ground (arith, seen_step-reverse_aux z xs (x ∷ acc))

-- No step of `steps` repeats, and none is among `done`.
abbrev pub IsFresh : List ℤ → List ℤ → Type 0
IsFresh done [] = Unit {0}
IsFresh done (x ∷ xs) = (seen_step x done ≡ false) × IsFresh (x ∷ done) xs

IsFresh-mono :
    (s t xs : List ℤ) → ((z : ℤ) → seen_step z s ≡ seen_step z t) → IsFresh s xs → IsFresh t xs
unfolding seen_step
IsFresh-mono s t [] e h = tt
IsFresh-mono s t (x ∷ xs) e h =
    (rw (← e x) h.0, IsFresh-mono (x ∷ s) (x ∷ t) xs (λ z. rw (e z)) h.1)

pub sort_steps-IsAscending :
    (done steps : List ℤ)
    → IsDescending done
    → IsFresh done steps
    → IsAscending (sort_steps done steps)
unfolding sort_steps seen_step
sort_steps-IsAscending done [] d f = IsAscending-reverse_aux done [] d tt (trivial done)
  where
    trivial : (xs : List ℤ) → All (λ x. All (λ y. x <ℤ y) []) xs
    trivial [] = tt
    trivial (x ∷ xs) = (tt, trivial xs)
sort_steps-IsAscending done (x ∷ xs) d f =
    sort_steps-IsAscending (sift x done) xs (sift-IsDescending x done f.0 d)
      (IsFresh-mono (x ∷ done) (sift x done) xs (λ z. rw (seen_step-sift z x done)) f.1)

pub seen_step-sort_steps :
    (z : ℤ) (done steps : List ℤ)
    → seen_step z (sort_steps done steps) ≡ (seen_step z done || seen_step z steps)
unfolding sort_steps seen_step
seen_step-sort_steps z done [] = seen_step-reverse_aux z done []
seen_step-sort_steps z done (x ∷ xs) =
    ground (arith, seen_step-sort_steps z (sift x done) xs, seen_step-sift z x done)

pub collect_steps-IsFresh :
    (steps : List ℤ) (m : ℤ) (seen : List ℤ) → IsFresh seen (collect_steps steps m seen)
unfolding collect_steps
collect_steps-IsFresh [] m seen = tt
collect_steps-IsFresh (x ∷ xs) m seen =
    ground (arith, collect_steps-IsFresh xs m seen, collect_steps-IsFresh xs m (x ∷ seen))

-- Equal by the test, so equal.
pub eq_ℤ→eq : (a b : ℤ) → eq_ℤ a b ≡ true → a ≡ b
eq_ℤ→eq a b h = ground arith

pub seen_step-collect_steps :
    (z : ℤ) (steps : List ℤ) (m : ℤ) (seen : List ℤ)
    → seen_step z (collect_steps steps m seen)
      ≡ (seen_step z steps && not (is_out_of_range z m) && not (seen_step z seen))
unfolding collect_steps seen_step
seen_step-collect_steps z [] m seen = refl
seen_step-collect_steps z (x ∷ xs) m seen = ground (
  arith,
  seen_step-collect_steps z xs m seen,
  seen_step-collect_steps z xs m (x ∷ seen),
  eq_ℤ→eq x z,
)
