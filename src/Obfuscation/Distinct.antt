-- ===== src/Obfuscation/Distinct.antt =====
-- obfuscator.go: the invariant of the maps of jobs and of custom labels.
use vmgather.Prelude.{
  ℕ, ◌+◌, ◌≤◌, ◌≡◌, ◌≢◌, refl, sym, ◌∙◌, inl, inr, List, Text, All, All-map, text_eq, text_eq_iff,
  lookup, insert, lookup-insert, Bool-cases, Option-cases, arith, subst,
}
use vmgather.Obfuscation.{
  Obfuscator, count_or_zero, map_or_empty, job_name, custom_name, obfuscate_job,
  obfuscate_custom_label,
}
use vmgather.Obfuscation.Names.{job_name-injective, custom_name-injective}
use vmgather.Prelude.Maps.{All-insert, All-lookup, Separated, insert-Separated}

-- The names given so far carry numbers up to their component's counter.
abbrev pub IsJobEntry : List (Text × ℕ) → Text × Text → Type 0
IsJobEntry counters e =
    (c : Text) × (n : ℕ) × (e.1 ≡ job_name c n) × (n ≤ count_or_zero (lookup c counters))

abbrev pub IsCustomEntry : Text → ℕ → Text × Text → Type 0
IsCustomEntry label counter e = (n : ℕ) × (e.1 ≡ custom_name label n) × (n ≤ counter)

abbrev pub Differ : Text × Text → Text × Text → Type 0
Differ a b = a.1 ≢ b.1

abbrev pub IsCustomMap : List (Text × ℕ) → Text × List (Text × Text) → Type 0
IsCustomMap counters e =
    All (IsCustomEntry e.0 (count_or_zero (lookup e.0 counters))) e.1 × Separated Differ e.1

bump_le :
    (c d : Text) (counters : List (Text × ℕ))
    → count_or_zero (lookup d counters)
      ≤ count_or_zero (lookup d (insert c (count_or_zero (lookup c counters) + 1) counters))
bump_le c d counters =
    let n = count_or_zero (lookup c counters) + 1 in
    elim (Bool-cases (text_eq c d)) [
      | inl e ↦
          let same : c ≡ d = (text_eq_iff c d).0 e in
          rw (lookup-insert c d n counters, e)
            (subst (λ k. count_or_zero (lookup k counters) ≤ n) same (omega arith))
      | inr e ↦ rw (lookup-insert c d n counters, e) (omega arith)
    ]

bump_self :
    (c : Text) (n : ℕ) (counters : List (Text × ℕ))
    → count_or_zero (lookup c (insert c n counters)) ≡ n
bump_self c n counters = ground (arith, lookup-insert c c n counters, text_eq_iff c c)

pub Differ-symm : (a b : Text × Text) → Differ a b → Differ b a
Differ-symm a b h e = h (sym e)

job_is_new :
    (c : Text) (counters : List (Text × ℕ)) (e : Text × Text)
    → IsJobEntry counters e
    → (j : Text) → Differ e (j, job_name c (count_or_zero (lookup c counters) + 1))
job_is_new c counters e (d, n, named, bound) j same =
    let r = job_name-injective d c n _ (sym named ∙ same) in
    let b : n ≤ count_or_zero (lookup c counters) =
      subst (λ k. n ≤ count_or_zero (lookup k counters)) r.0 bound in
    omega (arith, r.1)

custom_is_new :
    (label : Text) (counter : ℕ) (e : Text × Text)
    → IsCustomEntry label counter e
    → (j : Text) → Differ e (j, custom_name label (counter + 1))
custom_is_new label counter e (n, named, bound) j same =
    omega (arith, custom_name-injective label n (counter + 1) (sym named ∙ same))

pub record IsJobsDistinct (o : Obfuscator) : Type 0 where
  pub named : All (IsJobEntry o.job_counter) o.job_map
  pub distinct : Separated Differ o.job_map

pub obfuscate_job-IsJobsDistinct :
    (o : Obfuscator) (job c : Text) → IsJobsDistinct o → IsJobsDistinct (obfuscate_job o job c).0
unfolding obfuscate_job
obfuscate_job-IsJobsDistinct o job c v = elim (Option-cases (lookup job o.job_map)) [
  | inr (found, e) ↦ rw (e, obfuscate_job) v
  | inl e ↦
      let n = count_or_zero (lookup c o.job_counter) + 1 in
      let counters = insert c n o.job_counter in
      let keep : All (IsJobEntry counters) o.job_map =
        All-map (IsJobEntry o.job_counter) (IsJobEntry counters) o.job_map
          (λ a p. (p.0, p.1, p.2, omega (arith, p.3, bump_le c p.0 o.job_counter))) v.named in
      rw (e, obfuscate_job)
        (record {
          named =
              All-insert (IsJobEntry counters) job (job_name c n) o.job_map
                (c, n, refl, omega (arith, bump_self c n o.job_counter)) keep;
          distinct =
              insert-Separated Differ job (job_name c n) o.job_map e
                (All-map (IsJobEntry o.job_counter) (λ a. Differ a (job, job_name c n)) o.job_map
                  (λ a p. job_is_new c o.job_counter a p job) v.named)
                v.distinct;
        })
]

abbrev pub IsCustomDistinct : Obfuscator → Type 0
IsCustomDistinct o = All (IsCustomMap o.custom_counters) o.custom_labels

-- The values of a label, also where it has none yet.
pub values_IsCustomMap :
    (o : Obfuscator) (label : Text)
    → IsCustomDistinct o
    → IsCustomMap o.custom_counters (label, map_or_empty (lookup label o.custom_labels))
values_IsCustomMap o label v = elim (Option-cases (lookup label o.custom_labels)) [
  | inl e ↦ rw e (tt, tt)
  | inr (m, e) ↦ rw e (All-lookup (IsCustomMap o.custom_counters) label m o.custom_labels v e)
]

IsCustomMap-bump :
    (label : Text) (counters : List (Text × ℕ)) (e : Text × List (Text × Text))
    → IsCustomMap counters e
    → IsCustomMap (insert label (count_or_zero (lookup label counters) + 1) counters) e
IsCustomMap-bump label counters e h =
    let wider = insert label (count_or_zero (lookup label counters) + 1) counters in
    (
      All-map (IsCustomEntry e.0 (count_or_zero (lookup e.0 counters)))
          (IsCustomEntry e.0 (count_or_zero (lookup e.0 wider))) e.1
          (λ a p. (p.0, p.1, omega (arith, p.2, bump_le label e.0 counters))) h.0,
      h.1,
    )

pub obfuscate_custom_label-IsCustomDistinct :
    (o : Obfuscator) (label value : Text)
    → IsCustomDistinct o
    → IsCustomDistinct (obfuscate_custom_label o label value).0
unfolding obfuscate_custom_label
obfuscate_custom_label-IsCustomDistinct o label value v =
    let values = map_or_empty (lookup label o.custom_labels) in
    let old = values_IsCustomMap o label v in
    elim (Option-cases (lookup value values)) [
      | inr (found, e) ↦
          rw (e, obfuscate_custom_label)
            (All-insert (IsCustomMap o.custom_counters) label values o.custom_labels old v)
      | inl e ↦
          let k = count_or_zero (lookup label o.custom_counters) in
          let wider = insert label (k + 1) o.custom_counters in
          let name = custom_name label (k + 1) in
          let kept = IsCustomMap-bump label o.custom_counters (label, values) old in
          rw (e, obfuscate_custom_label)
            (All-insert (IsCustomMap wider) label (insert value name values) o.custom_labels
              (
                All-insert (IsCustomEntry label (count_or_zero (lookup label wider))) value name
                    values (k + 1, refl, omega (arith, bump_self label (k + 1) o.custom_counters))
                    kept.0,
                insert-Separated Differ value name values e
                    (All-map (IsCustomEntry label k) (λ a. Differ a (value, name)) values
                      (λ a p. custom_is_new label k a p value) old.0)
                    old.1,
              )
              (All-map (IsCustomMap o.custom_counters) (IsCustomMap wider) o.custom_labels
                (λ a p. IsCustomMap-bump label o.custom_counters a p) v))
    ]
