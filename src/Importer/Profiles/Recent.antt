-- ===== src/Importer/Profiles/Recent.antt =====
-- server.go of the importer: the list of the recent profiles.
use vmgather.Prelude.{
  ℕ, zero, suc, ◌+◌, ◌-◌, ◌≤◌, ◌<◌, ◌≡◌, ◌≢◌, refl, sym, ap, subst, inl, inr, Bool, true, false,
  List, [], ◌∷◌, Option, none, some, Text, text_eq, text_eq_self, if◌then◌else◌, leb, take, length,
  arith, All, Bool-cases,
}
use vmgather.Importer.Defs.{UploadConfig}
use vmgather.Importer.Profiles.{
  RecentProfile, Storage, build_recent_profile, keep_others, saved, save_recent_profile,
}

-- The profiles with another identifier, in their order.
unfoldable pub others : Text → List RecentProfile → List RecentProfile
others id [] = []
others id (p ∷ ps) = let rest = others id ps in if text_eq p.id id then rest else p ∷ rest

keep_others-others :
    (id : Text) (kept : ℕ) (ps : List RecentProfile)
    → kept < 10
    → keep_others id kept ps ≡ take (10 - kept) (others id ps)
unfolding keep_others others
keep_others-others id kept [] h = sym (nothing (10 - kept))
  where
    nothing : (n : ℕ) → take {A = RecentProfile} n [] ≡ []
    nothing zero = refl
    nothing (suc n) = refl
keep_others-others id kept (p ∷ ps) h = elim (Bool-cases (text_eq p.id id)) [
  | inl e ↦ rw (e) (keep_others-others id kept ps h)
  | inr e ↦ rw (e) (elim (Bool-cases (leb 10 (kept + 1))) [
    | inl f ↦ rw (f, last kept h f) refl
    | inr f ↦
        rw (f, room kept h f)
          (ap (λ (t : List RecentProfile). p ∷ t)
            (keep_others-others id (kept + 1) ps (below kept f)))
  ])
]
  where
    last : (kept : ℕ) → kept < 10 → leb 10 (kept + 1) ≡ true → 10 - kept ≡ suc zero
    last kept h f = ground arith

    room : (kept : ℕ) → kept < 10 → leb 10 (kept + 1) ≡ false → 10 - kept ≡ suc (10 - (kept + 1))
    room kept h f = ground arith

    below : (kept : ℕ) → leb 10 (kept + 1) ≡ false → kept + 1 < 10
    below kept f = ground arith

-- What saving a profile should give: the profile, and of the others the first nine.
abbrev pub recent : List RecentProfile → Option RecentProfile → List RecentProfile
recent profiles none = profiles
recent profiles (some profile) = profile ∷ take 9 (others profile.id profiles)

-- A configuration without an endpoint leaves the list; of another one, the profile comes first, and
-- behind it stand in their order those of the nine first profiles that have another identifier.
pub save_recent_profile-recent :
    (storage : Storage) (cfg : UploadConfig) (profiles : List RecentProfile)
    → save_recent_profile storage cfg profiles ≡ recent profiles (build_recent_profile storage cfg)
unfolding save_recent_profile
save_recent_profile-recent storage cfg profiles = cases (build_recent_profile storage cfg)
  where
    cases : (o : Option RecentProfile) → saved profiles o ≡ recent profiles o
    cases none = refl
    cases (some p) =
        ap (λ (t : List RecentProfile). p ∷ t) (keep_others-others p.id 1 profiles (omega arith))

-- No two profiles have the same identifier.
abbrev pub DistinctIds : List RecentProfile → Type 0
DistinctIds [] = Unit {0}
DistinctIds (p ∷ ps) = All (λ (q : RecentProfile). q.id ≢ p.id) ps × DistinctIds ps

module _ (P : RecentProfile → Type 0) where
  All-others : (id : Text) (ps : List RecentProfile) → All P ps → All P (others id ps)
  unfolding others
  All-others id [] h = tt
  All-others id (p ∷ ps) h = elim (Bool-cases (text_eq p.id id)) [
    | inl e ↦ rw (e) (All-others id ps h.1)
    | inr e ↦ rw (e) (h.0, All-others id ps h.1)
  ]

  All-take : (n : ℕ) (ps : List RecentProfile) → All P ps → All P (take n ps)
  All-take zero ps h = tt
  All-take (suc n) [] h = tt
  All-take (suc n) (p ∷ ps) h = (h.0, All-take n ps h.1)

clash : {b : Bool} → b ≡ false → b ≡ true → ⊥
clash h k = cc

differs :
    (id : Text) (ps : List RecentProfile) → All (λ (q : RecentProfile). q.id ≢ id) (others id ps)
unfolding others
differs id [] = tt
differs id (p ∷ ps) = elim (Bool-cases (text_eq p.id id)) [
  | inl e ↦ rw (e) (differs id ps)
  | inr e ↦ rw (e) (other e, differs id ps)
]
  where
    other : text_eq p.id id ≡ false → p.id ≢ id
    other f q = clash (subst (λ s. text_eq s id ≡ false) q f) (text_eq_self id)

DistinctIds-others :
    (id : Text) (ps : List RecentProfile) → DistinctIds ps → DistinctIds (others id ps)
unfolding others
DistinctIds-others id [] h = tt
DistinctIds-others id (p ∷ ps) h = elim (Bool-cases (text_eq p.id id)) [
  | inl e ↦ rw (e) (DistinctIds-others id ps h.1)
  | inr e ↦
      rw (e)
        (All-others (λ (q : RecentProfile). q.id ≢ p.id) id ps h.0, DistinctIds-others id ps h.1)
]

DistinctIds-take : (n : ℕ) (ps : List RecentProfile) → DistinctIds ps → DistinctIds (take n ps)
DistinctIds-take zero ps h = tt
DistinctIds-take (suc n) [] h = tt
DistinctIds-take (suc n) (p ∷ ps) h =
    (All-take (λ (q : RecentProfile). q.id ≢ p.id) n ps h.0, DistinctIds-take n ps h.1)

length-take_le : (n : ℕ) (ps : List RecentProfile) → length (take n ps) ≤ n
length-take_le zero ps = omega arith
length-take_le (suc n) [] = omega arith
length-take_le (suc n) (p ∷ ps) = omega (arith, length-take_le n ps)

-- At most ten profiles, with different identifiers.
abbrev pub IsRecent : List RecentProfile → Type 0
IsRecent ps = DistinctIds ps × (length ps ≤ 10)

-- Where a list has at most ten profiles with different identifiers, the list after a save has too.
pub save_recent_profile-IsRecent :
    (storage : Storage) (cfg : UploadConfig) (profiles : List RecentProfile)
    → IsRecent profiles
    → IsRecent (save_recent_profile storage cfg profiles)
save_recent_profile-IsRecent storage cfg profiles h =
    subst IsRecent (sym (save_recent_profile-recent storage cfg profiles))
      (cases (build_recent_profile storage cfg))
  where
    cases : (o : Option RecentProfile) → IsRecent (recent profiles o)
    cases none = h
    cases (some p) = (
      (
        All-take (λ (q : RecentProfile). q.id ≢ p.id) 9 (others p.id profiles)
            (differs p.id profiles),
        DistinctIds-take 9 (others p.id profiles) (DistinctIds-others p.id profiles h.0),
      ),
      omega (arith, length-take_le 9 (others p.id profiles)),
    )
