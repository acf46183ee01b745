-- ===== src/Jobs/Records.antt =====
-- internal/server/export_jobs.go: the map of jobs under updates and `cleanupLocked`, and the count of
-- the jobs that are not over.
use vmgather.Prelude.{
  ℕ, ◌+◌, ◌≡◌, ◌≢◌, refl, sym, inl, inr, false, List, [], ◌∷◌, Option, none, some, Text, text_eq,
  text_eq_iff, text_eq→eq, lookup, insert, All, Bool-cases, arith, if◌then◌else◌, subst,
}
use vmgather.Prelude.Maps.{Separated, All-insert}
use vmgather.Jobs.Defs.{ExportJob, ExportJobState, is_finished}
use vmgather.Jobs.Manager.{is_expired, remove_expired}

abbrev pub KeysDiffer {ℓ} : {V : Type ℓ} → Text × V → Text × V → Type 0
KeysDiffer a b = a.0 ≢ b.0

abbrev pub state_of : Option ExportJob → Option ExportJobState
state_of none = none
state_of (some job) = some job.status.state

abbrev pub weight : Option ExportJob → ℕ
weight none = 0
weight (some job) = if is_finished job.status.state then 0 else 1

-- How many jobs are not over.
unfoldable pub count_unfinished : List (Text × ExportJob) → ℕ
count_unfinished [] = 0
count_unfinished ((id, job) ∷ jobs) = weight (some job) + count_unfinished jobs

pub count_unfinished-insert :
    (k : Text) (job : ExportJob) (jobs : List (Text × ExportJob))
    → count_unfinished (insert k job jobs) + weight (lookup k jobs)
      ≡ count_unfinished jobs + weight (some job)
unfolding count_unfinished insert lookup
count_unfinished-insert k job [] = omega arith
count_unfinished-insert k job ((j, v) ∷ jobs) = ground (arith, count_unfinished-insert k job jobs)

pub count_unfinished-remove_expired :
    (retention now : ℕ) (jobs : List (Text × ExportJob))
    → count_unfinished (remove_expired retention now jobs) ≡ count_unfinished jobs
unfolding count_unfinished remove_expired
count_unfinished-remove_expired retention now [] = refl
count_unfinished-remove_expired retention now ((j, v) ∷ jobs) =
    ground (arith, count_unfinished-remove_expired retention now jobs)

pub insert-KeysDiffer :
    (k : Text) (job : ExportJob) (jobs : List (Text × ExportJob))
    → Separated KeysDiffer jobs
    → Separated KeysDiffer (insert k job jobs)
unfolding insert
insert-KeysDiffer k job [] s = (tt, tt)
insert-KeysDiffer k job ((j, v) ∷ jobs) s = elim (Bool-cases (text_eq j k)) [
  | inl e ↦ rw e (subst (λ i. All (KeysDiffer (i, job)) jobs) (text_eq→eq j k e) s.0, s.1)
  | inr e ↦ rw e (
    All-insert (KeysDiffer (j, v)) k job jobs (λ same. differ same e) s.0,
    insert-KeysDiffer k job jobs s.1,
  )
]
  where
    differ : j ≡ k → text_eq j k ≡ false → ⊥
    differ same e = cc ((text_eq_iff j k).1 same)

All-remove_expired :
    (P : Text × ExportJob → Type 0) (retention now : ℕ) (jobs : List (Text × ExportJob))
    → All P jobs
    → All P (remove_expired retention now jobs)
unfolding remove_expired
All-remove_expired P retention now [] h = tt
All-remove_expired P retention now ((j, v) ∷ jobs) h =
    elim (Bool-cases (is_expired retention now v.status)) [
      | inl e ↦ rw e (All-remove_expired P retention now jobs h.1)
      | inr e ↦ rw e (h.0, All-remove_expired P retention now jobs h.1)
    ]

pub remove_expired-KeysDiffer :
    (retention now : ℕ) (jobs : List (Text × ExportJob))
    → Separated KeysDiffer jobs
    → Separated KeysDiffer (remove_expired retention now jobs)
unfolding remove_expired
remove_expired-KeysDiffer retention now [] s = tt
remove_expired-KeysDiffer retention now ((j, v) ∷ jobs) s =
    elim (Bool-cases (is_expired retention now v.status)) [
      | inl e ↦ rw e (remove_expired-KeysDiffer retention now jobs s.1)
      | inr e ↦ rw e (
        All-remove_expired (KeysDiffer (j, v)) retention now jobs s.0,
        remove_expired-KeysDiffer retention now jobs s.1,
      )
    ]

lookup_absent :
    (j : Text) (v : ExportJob) (jobs : List (Text × ExportJob))
    → All (KeysDiffer (j, v)) jobs
    → lookup j jobs ≡ none
unfolding lookup
lookup_absent j v [] h = refl
lookup_absent j v ((i, u) ∷ jobs) h = elim (Bool-cases (text_eq i j)) [
  | inl e ↦ absurd (h.0 (sym (text_eq→eq i j e)))
  | inr e ↦ rw e (lookup_absent j v jobs h.1)
]

-- What the cleanup leaves of a job.
abbrev pub unless_expired : ℕ → ℕ → Option ExportJob → Option ExportJob
unless_expired retention now none = none
unless_expired retention now (some job) =
    if is_expired retention now job.status then none else some job

pub lookup-remove_expired :
    (k : Text) (retention now : ℕ) (jobs : List (Text × ExportJob))
    → Separated KeysDiffer jobs
    → lookup k (remove_expired retention now jobs) ≡ unless_expired retention now (lookup k jobs)
unfolding remove_expired lookup
lookup-remove_expired k retention now [] s = refl
lookup-remove_expired k retention now ((j, v) ∷ jobs) s = elim (Bool-cases (text_eq j k)) [
  | inl e ↦
      let gone : lookup k jobs ≡ none =
        subst (λ i. lookup i jobs ≡ none) (text_eq→eq j k e) (lookup_absent j v jobs s.0) in
      ground (arith, lookup-remove_expired k retention now jobs s.1, gone, e)
  | inr e ↦ ground (arith, lookup-remove_expired k retention now jobs s.1, e)
]
