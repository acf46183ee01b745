-- ===== src/Obfuscation/Stable.antt =====
-- obfuscator.go: the replacement of a value in later calls.
use vmgather.Prelude.{
  ◌≡◌, refl, sym, ap, inl, inr, List, [], ◌∷◌, none, some, Text, lookup, insert, lookup-insert,
  text_eq, text_eq_iff, Option-cases, Bool-cases, subst,
}
use vmgather.Obfuscation.{
  Obfuscator, map_or_empty, split_host_port, obfuscate_job, obfuscate_custom_label,
  obfuscate_instance,
}
use vmgather.Obfuscation.History.{
  Call, instance_call, job_call, custom_call, job_replacement, instance_replacement,
  custom_replacement, after, run, job_keeps, custom_keeps, instance_keeps,
}

-- A new entry leaves the others alone.
insert_keeps {ℓ} :
    {V : Type ℓ} (k j : Text) (v w : V) (m : List (Text × V))
    → lookup k m ≡ none
    → lookup j m ≡ some w
    → lookup j (insert k v m) ≡ some w
insert_keeps k j v w m n e = elim (Bool-cases (text_eq k j)) [
  | inl t ↦ absurd (clash ((text_eq_iff k j).0 t))
  | inr t ↦ rw (lookup-insert k j v m, t) e
]
  where
    clash : k ≡ j → ⊥
    clash same = cc (ap (λ i. lookup i m) same)

lookup-insert_self {ℓ} :
    {V : Type ℓ} (k : Text) (v : V) (m : List (Text × V)) → lookup k (insert k v m) ≡ some v
lookup-insert_self k v m = rw (lookup-insert k k v m, (text_eq_iff k k).1 refl)

obfuscate_job_keeps :
    (o : Obfuscator) (job c j v : Text)
    → job_replacement o j ≡ some v
    → job_replacement (obfuscate_job o job c).0 j ≡ some v
unfolding obfuscate_job
obfuscate_job_keeps o job c j v h = elim (Option-cases (lookup job o.job_map)) [
  | inr (found, e) ↦ rw (e, obfuscate_job) h
  | inl e ↦ rw (e, obfuscate_job) (insert_keeps job j _ v o.job_map e h)
]

obfuscate_job_records :
    (o : Obfuscator) (job c : Text)
    → job_replacement (obfuscate_job o job c).0 job ≡ some (obfuscate_job o job c).1
unfolding obfuscate_job
obfuscate_job_records o job c = elim (Option-cases (lookup job o.job_map)) [
  | inr (found, e) ↦ rw (e, obfuscate_job) e
  | inl e ↦ rw (e, obfuscate_job) (lookup-insert_self job _ o.job_map)
]

obfuscate_job_answers :
    (o : Obfuscator) (job c v : Text)
    → job_replacement o job ≡ some v
    → (obfuscate_job o job c).1 ≡ v
unfolding obfuscate_job
obfuscate_job_answers o job c v h = rw (h, obfuscate_job)

put_keeps :
    (label l j v : Text) (values : List (Text × Text)) (m : List (Text × List (Text × Text)))
    → (label ≡ l → lookup j values ≡ some v)
    → lookup j (map_or_empty (lookup l m)) ≡ some v
    → lookup j (map_or_empty (lookup l (insert label values m))) ≡ some v
put_keeps label l j v values m new old = elim (Bool-cases (text_eq label l)) [
  | inl t ↦ rw (lookup-insert label l values m, t) (new ((text_eq_iff label l).0 t))
  | inr t ↦ rw (lookup-insert label l values m, t) old
]

obfuscate_custom_label_keeps :
    (o : Obfuscator) (label value l j v : Text)
    → custom_replacement o l j ≡ some v
    → custom_replacement (obfuscate_custom_label o label value).0 l j ≡ some v
unfolding obfuscate_custom_label
obfuscate_custom_label_keeps o label value l j v h =
    let values = map_or_empty (lookup label o.custom_labels) in
    let here = λ (same : label ≡ l).
      subst (λ k. lookup j (map_or_empty (lookup k o.custom_labels)) ≡ some v) (sym same) h in
    elim (Option-cases (lookup value values)) [
      | inr (found, e) ↦
          rw (e, obfuscate_custom_label) (put_keeps label l j v values o.custom_labels here h)
      | inl e ↦
          rw (e, obfuscate_custom_label)
            (put_keeps label l j v _ o.custom_labels
              (λ same. insert_keeps value j _ v values e (here same)) h)
    ]

obfuscate_custom_label_records :
    (o : Obfuscator) (label value : Text)
    → custom_replacement (obfuscate_custom_label o label value).0 label value
      ≡ some (obfuscate_custom_label o label value).1
unfolding obfuscate_custom_label
obfuscate_custom_label_records o label value =
    let values = map_or_empty (lookup label o.custom_labels) in
    elim (Option-cases (lookup value values)) [
      | inr (found, e) ↦
          rw (e, obfuscate_custom_label) (rw (lookup-insert_self label values o.custom_labels) e)
      | inl e ↦
          rw (e, obfuscate_custom_label)
            (rw (lookup-insert_self label _ o.custom_labels) (lookup-insert_self value _ values))
    ]

obfuscate_custom_label_answers :
    (o : Obfuscator) (label value v : Text)
    → custom_replacement o label value ≡ some v
    → (obfuscate_custom_label o label value).1 ≡ v
unfolding obfuscate_custom_label
obfuscate_custom_label_answers o label value v h = rw (h, obfuscate_custom_label)

module _ (sha256 : Text → Text) where
  obfuscate_instance_keeps :
      (o : Obfuscator) (address j v : Text)
      → instance_replacement o j ≡ some v
      → instance_replacement (obfuscate_instance sha256 o address).0 j ≡ some v
  unfolding obfuscate_instance
  obfuscate_instance_keeps o address j v h = elim (Option-cases (lookup address o.instance_map)) [
    | inr (found, e) ↦ rw (e, obfuscate_instance) h
    | inl e ↦ elim (Option-cases (split_host_port address)) [
      | inl s ↦
          rw (e, obfuscate_instance)
            (rw (s, obfuscate_instance) (insert_keeps address j _ v o.instance_map e h))
      | inr (port, s) ↦
          rw (e, obfuscate_instance)
            (rw (s, obfuscate_instance) (insert_keeps address j _ v o.instance_map e h))
    ]
  ]

  obfuscate_instance_records :
      (o : Obfuscator) (address : Text)
      → instance_replacement (obfuscate_instance sha256 o address).0 address
        ≡ some (obfuscate_instance sha256 o address).1
  unfolding obfuscate_instance
  obfuscate_instance_records o address = elim (Option-cases (lookup address o.instance_map)) [
    | inr (found, e) ↦ rw (e, obfuscate_instance) e
    | inl e ↦ elim (Option-cases (split_host_port address)) [
      | inl s ↦
          rw (e, obfuscate_instance) (rw (s, obfuscate_instance) (lookup-insert_self address _ _))
      | inr (port, s) ↦
          rw (e, obfuscate_instance) (rw (s, obfuscate_instance) (lookup-insert_self address _ _))
    ]
  ]

  after-job_replacement :
      (o : Obfuscator) (c : Call) (j v : Text)
      → job_replacement o j ≡ some v
      → job_replacement (after sha256 o c) j ≡ some v
  unfolding after
  after-job_replacement o (instance_call a) j v h =
      instance_keeps sha256 (λ p. job_replacement p j ≡ some v) o a (λ m n. h)
  after-job_replacement o (job_call job c) j v h = obfuscate_job_keeps o job c j v h
  after-job_replacement o (custom_call l x) j v h =
      custom_keeps (λ p. job_replacement p j ≡ some v) o l x (λ m n. h)

  after-instance_replacement :
      (o : Obfuscator) (c : Call) (j v : Text)
      → instance_replacement o j ≡ some v
      → instance_replacement (after sha256 o c) j ≡ some v
  unfolding after
  after-instance_replacement o (instance_call a) j v h = obfuscate_instance_keeps o a j v h
  after-instance_replacement o (job_call job c) j v h =
      job_keeps (λ p. instance_replacement p j ≡ some v) o job c (λ m n. h)
  after-instance_replacement o (custom_call l x) j v h =
      custom_keeps (λ p. instance_replacement p j ≡ some v) o l x (λ m n. h)

  run-job_replacement :
      (o : Obfuscator) (cs : List Call) (j v : Text)
      → job_replacement o j ≡ some v
      → job_replacement (run sha256 o cs) j ≡ some v
  unfolding run
  run-job_replacement o [] j v h = h
  run-job_replacement o (c ∷ cs) j v h =
      run-job_replacement (after sha256 o c) cs j v (after-job_replacement o c j v h)

  run-instance_replacement :
      (o : Obfuscator) (cs : List Call) (j v : Text)
      → instance_replacement o j ≡ some v
      → instance_replacement (run sha256 o cs) j ≡ some v
  unfolding run
  run-instance_replacement o [] j v h = h
  run-instance_replacement o (c ∷ cs) j v h =
      run-instance_replacement (after sha256 o c) cs j v (after-instance_replacement o c j v h)

  -- Once a job was given a name, every later call gives the same name, whatever calls lie between
  -- and whatever component is guessed then.
  pub obfuscate_job_stable :
      (o : Obfuscator) (job c d : Text) (cs : List Call)
      → let (p, name) = obfuscate_job o job c in (obfuscate_job (run sha256 p cs) job d).1 ≡ name
  obfuscate_job_stable o job c d cs =
      let (p, name) = obfuscate_job o job c in
      obfuscate_job_answers (run sha256 p cs) job d name
        (run-job_replacement p cs job name (obfuscate_job_records o job c))

  obfuscate_instance_answers :
      (o : Obfuscator) (address v : Text)
      → instance_replacement o address ≡ some v
      → (obfuscate_instance sha256 o address).1 ≡ v
  unfolding obfuscate_instance
  obfuscate_instance_answers o address v h = rw (h, obfuscate_instance)

  -- Once an instance was given an address, every later call gives the same address.
  pub obfuscate_instance_stable :
      (o : Obfuscator) (address : Text) (cs : List Call)
      → let (p, name) = obfuscate_instance sha256 o address in
        (obfuscate_instance sha256 (run sha256 p cs) address).1 ≡ name
  obfuscate_instance_stable o address cs =
      let (p, name) = obfuscate_instance sha256 o address in
      obfuscate_instance_answers (run sha256 p cs) address name
        (run-instance_replacement p cs address name (obfuscate_instance_records o address))

  after-custom_replacement :
      (o : Obfuscator) (c : Call) (l j v : Text)
      → custom_replacement o l j ≡ some v
      → custom_replacement (after sha256 o c) l j ≡ some v
  unfolding after
  after-custom_replacement o (instance_call a) l j v h =
      instance_keeps sha256 (λ p. custom_replacement p l j ≡ some v) o a (λ m n. h)
  after-custom_replacement o (job_call job c) l j v h =
      job_keeps (λ p. custom_replacement p l j ≡ some v) o job c (λ m n. h)
  after-custom_replacement o (custom_call k x) l j v h = obfuscate_custom_label_keeps o k x l j v h

  run-custom_replacement :
      (o : Obfuscator) (cs : List Call) (l j v : Text)
      → custom_replacement o l j ≡ some v
      → custom_replacement (run sha256 o cs) l j ≡ some v
  unfolding run
  run-custom_replacement o [] l j v h = h
  run-custom_replacement o (c ∷ cs) l j v h =
      run-custom_replacement (after sha256 o c) cs l j v (after-custom_replacement o c l j v h)

  -- Once a value of a label was given a replacement, every later call gives the same one.
  pub obfuscate_custom_label_stable :
      (o : Obfuscator) (label value : Text) (cs : List Call)
      → let (p, name) = obfuscate_custom_label o label value in
        (obfuscate_custom_label (run sha256 p cs) label value).1 ≡ name
  obfuscate_custom_label_stable o label value cs =
      let (p, name) = obfuscate_custom_label o label value in
      obfuscate_custom_label_answers (run sha256 p cs) label value name (
        run-custom_replacement p cs label value name (obfuscate_custom_label_records o label value))
