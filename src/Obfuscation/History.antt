-- ===== src/Obfuscation/History.antt =====
-- obfuscator.go: histories of calls on an obfuscator, and its replacements after them.
use vmgather.Prelude.{
  ℕ, ◌≡◌, refl, ◌⊎◌, inl, inr, List, [], ◌∷◌, Option, some, Text, lookup, Option-cases,
}
use vmgather.Obfuscation.{
  Obfuscator, new_obfuscator, map_or_empty, split_host_port, obfuscate_job, obfuscate_custom_label,
  obfuscate_instance,
}
use vmgather.Prelude.Maps.{lookup-Separated}
use vmgather.Obfuscation.Distinct.{
  Differ, Differ-symm, IsJobsDistinct, IsCustomDistinct, obfuscate_job-IsJobsDistinct,
  obfuscate_custom_label-IsCustomDistinct, values_IsCustomMap,
}
use vmgather.Obfuscation.Addresses.{
  Apart, Apart-symm, BothHashed, IsInstancesDistinct, obfuscate_instance-IsInstancesDistinct,
}

pub data Call : Type 0 where
  instance_call : Text → Call
  job_call : Text → Text → Call
  custom_call : Text → Text → Call

-- What a job, an instance and a label's value have been replaced by, if they were seen.
abbrev pub job_replacement : Obfuscator → Text → Option Text
job_replacement o job = lookup job o.job_map

abbrev pub instance_replacement : Obfuscator → Text → Option Text
instance_replacement o address = lookup address o.instance_map

abbrev pub custom_replacement : Obfuscator → Text → Text → Option Text
custom_replacement o label value = lookup value (map_or_empty (lookup label o.custom_labels))

pub job_keeps :
    (P : Obfuscator → Type 0) (o : Obfuscator) (job c : Text)
    → ((m : List (Text × Text)) (n : List (Text × ℕ))
        → P (record o { job_map = m; job_counter = n }))
    → P (obfuscate_job o job c).0
unfolding obfuscate_job
job_keeps P o job c h = elim (Option-cases (lookup job o.job_map)) [
  | inr (found, e) ↦ rw (e, obfuscate_job) (h o.job_map o.job_counter)
  | inl e ↦ rw (e, obfuscate_job) (h _ _)
]

pub custom_keeps :
    (P : Obfuscator → Type 0) (o : Obfuscator) (label value : Text)
    → ((m : List (Text × List (Text × Text))) (n : List (Text × ℕ))
        → P (record o { custom_labels = m; custom_counters = n }))
    → P (obfuscate_custom_label o label value).0
unfolding obfuscate_custom_label
custom_keeps P o label value h =
    elim (Option-cases (lookup value (map_or_empty (lookup label o.custom_labels)))) [
      | inr (found, e) ↦ rw (e, obfuscate_custom_label) (h _ o.custom_counters)
      | inl e ↦ rw (e, obfuscate_custom_label) (h _ _)
    ]

module _ (sha256 : Text → Text) where
  unfoldable pub after : Obfuscator → Call → Obfuscator
  after o (instance_call address) = (obfuscate_instance sha256 o address).0
  after o (job_call job component) = (obfuscate_job o job component).0
  after o (custom_call label value) = (obfuscate_custom_label o label value).0

  unfoldable pub run : Obfuscator → List Call → Obfuscator
  unfolding after
  run o [] = o
  run o (c ∷ cs) = run (after o c) cs

  record IsDistinct (o : Obfuscator) : Type 0 where
    jobs : IsJobsDistinct o
    instances : IsInstancesDistinct sha256 o
    custom : IsCustomDistinct o

  pub instance_keeps :
      (P : Obfuscator → Type 0) (o : Obfuscator) (address : Text)
      → ((m : List (Text × Text)) (n : ℕ) → P (record o { instance_map = m; instance_counter = n }))
      → P (obfuscate_instance sha256 o address).0
  unfolding obfuscate_instance
  instance_keeps P o address h = elim (Option-cases (lookup address o.instance_map)) [
    | inr (found, e) ↦ rw (e, obfuscate_instance) (h o.instance_map o.instance_counter)
    | inl e ↦ elim (Option-cases (split_host_port address)) [
      | inl s ↦ rw (e, obfuscate_instance) (rw (s, obfuscate_instance) (h _ o.instance_counter))
      | inr (port, s) ↦ rw (e, obfuscate_instance) (rw (s, obfuscate_instance) (h _ _))
    ]
  ]

  after-IsDistinct : (o : Obfuscator) (c : Call) → IsDistinct o → IsDistinct (after o c)
  unfolding after
  after-IsDistinct o (instance_call address) v = record {
    jobs =
        instance_keeps IsJobsDistinct o address
          (λ m n. record { named = v.jobs.named; distinct = v.jobs.distinct });
    instances = obfuscate_instance-IsInstancesDistinct sha256 o address v.instances;
    custom = instance_keeps IsCustomDistinct o address (λ m n. v.custom);
  }
  after-IsDistinct o (job_call job c) v = record {
    jobs = obfuscate_job-IsJobsDistinct o job c v.jobs;
    instances =
        job_keeps (IsInstancesDistinct sha256) o job c
          (λ m n. record { named = v.instances.named; distinct = v.instances.distinct });
    custom = job_keeps IsCustomDistinct o job c (λ m n. v.custom);
  }
  after-IsDistinct o (custom_call label value) v = record {
    jobs =
        custom_keeps IsJobsDistinct o label value
          (λ m n. record { named = v.jobs.named; distinct = v.jobs.distinct });
    instances =
        custom_keeps (IsInstancesDistinct sha256) o label value
          (λ m n. record { named = v.instances.named; distinct = v.instances.distinct });
    custom = obfuscate_custom_label-IsCustomDistinct o label value v.custom;
  }

  run-IsDistinct : (o : Obfuscator) (cs : List Call) → IsDistinct o → IsDistinct (run o cs)
  unfolding run
  run-IsDistinct o [] v = v
  run-IsDistinct o (c ∷ cs) v = run-IsDistinct (after o c) cs (after-IsDistinct o c v)

  new-IsDistinct : IsDistinct new_obfuscator
  unfolding new_obfuscator
  new-IsDistinct = record {
    jobs = record { named = tt; distinct = tt };
    instances = record { named = tt; distinct = tt };
    custom = tt;
  }

  -- After any calls on a new obfuscator, two jobs with the same replacement are the same job.
  pub job_replacement-injective :
      (cs : List Call) (j k : Text) (v : Text)
      → job_replacement (run new_obfuscator cs) j ≡ some v
      → job_replacement (run new_obfuscator cs) k ≡ some v
      → j ≡ k
  job_replacement-injective cs j k v e f =
      elim (lookup-Separated Differ j k v v _ Differ-symm
        (run-IsDistinct new_obfuscator cs new-IsDistinct).jobs.distinct e f) [
          | inl same ↦ same
          | inr apart ↦ absurd (apart refl)
        ]

  -- After any calls on a new obfuscator, two instances with the same replacement are the same, or
  -- neither is a host with a port (and their digests agree in the bytes that are kept).
  pub instance_replacement-injective :
      (cs : List Call) (j k : Text) (v : Text)
      → instance_replacement (run new_obfuscator cs) j ≡ some v
      → instance_replacement (run new_obfuscator cs) k ≡ some v
      → (j ≡ k) ⊎ BothHashed j k
  instance_replacement-injective cs j k v e f =
      elim (lookup-Separated Apart j k v v _ Apart-symm
        (run-IsDistinct new_obfuscator cs new-IsDistinct).instances.distinct e f) [
          | inl same ↦ inl same
          | inr (inl apart) ↦ absurd (apart refl)
          | inr (inr both) ↦ inr both
        ]

  -- After any calls on a new obfuscator, two values of one label with the same replacement are the
  -- same value.
  pub custom_replacement-injective :
      (cs : List Call) (label j k : Text) (v : Text)
      → custom_replacement (run new_obfuscator cs) label j ≡ some v
      → custom_replacement (run new_obfuscator cs) label k ≡ some v
      → j ≡ k
  custom_replacement-injective cs label j k v e f =
      let o = run new_obfuscator cs in
      let m = values_IsCustomMap o label (run-IsDistinct new_obfuscator cs new-IsDistinct).custom in
      elim (lookup-Separated Differ j k v v _ Differ-symm m.1 e f) [
        | inl same ↦ same
        | inr apart ↦ absurd (apart refl)
      ]
