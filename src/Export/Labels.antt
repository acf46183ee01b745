-- ===== src/Export/Labels.antt =====
-- export_service.go: dropped labels and `applyObfuscation`.
use vmgather.Prelude.{
  ◌≡◌, refl, ◌∙◌, true, false, List, [], ◌∷◌, none, Text, codes, text_eq, if◌then◌else◌, if-both,
  lookup, delete, lookup-insert, lookup-delete, arith, Option-cases, inl, inr, Bool-cases,
  text_eq→eq,
}
use vmgather.Domain.{ObfuscationConfig}
use vmgather.Obfuscation.{Obfuscator, obfuscate_job, obfuscate_instance, obfuscate_custom_label}
use vmgather.Export.Split.{seen_text}
use vmgather.Export.Process.{process_metric, process_metrics}
use vmgather.Export.Metric.{
  ExportedMetric, Labels, drop_labels, guess_component, replace_label, obfuscate_custom,
  obfuscate_instance_label, obfuscate_job_label, apply_obfuscation,
}

-- The labels to drop are gone, and the others are as they were.
pub lookup-drop_labels :
    (k : Text) (dropped : List Text) (labels : Labels)
    → lookup k (drop_labels dropped labels)
      ≡ (if seen_text k dropped then none else lookup k labels)
unfolding drop_labels seen_text
lookup-drop_labels k [] labels = refl
lookup-drop_labels k (l ∷ ls) labels =
    let a = lookup-drop_labels k ls (delete l labels) in
    let d = lookup-delete l k labels in ground (arith, a, d)

replace_label-other :
    (ask : Obfuscator → Text → Obfuscator × Text) (key k : Text) (s : Obfuscator × Labels)
    → text_eq key k ≡ false
    → lookup k (replace_label ask key s).1 ≡ lookup k s.1
replace_label-other ask key k (o, labels) h = elim (Option-cases (lookup key labels)) [
  | inl e ↦ rw (e, replace_label) refl
  | inr (v, e) ↦
      rw (e, replace_label) (let i = lookup-insert key k (ask o v).1 labels in ground (arith, i, h))
]

obfuscate_custom-other :
    (k : Text) (ls : List Text) (s : Obfuscator × Labels)
    → seen_text k ls ≡ false
    → lookup k (obfuscate_custom ls s).1 ≡ lookup k s.1
unfolding obfuscate_custom seen_text
obfuscate_custom-other k [] s h = refl
obfuscate_custom-other k (l ∷ ls) s h =
    obfuscate_custom-other k ls (replace_label (λ o v. obfuscate_custom_label o l v) l s)
      (ground arith)
    ∙ replace_label-other (λ o v. obfuscate_custom_label o l v) l k s (ground arith)

-- A replacement brings no label back.
replace_label-none :
    (ask : Obfuscator → Text → Obfuscator × Text) (key k : Text) (s : Obfuscator × Labels)
    → lookup k s.1 ≡ none
    → lookup k (replace_label ask key s).1 ≡ none
replace_label-none ask key k (o, labels) h = elim (Bool-cases (text_eq key k)) [
  | inl e ↦ rw (text_eq→eq key k e, h, replace_label) h
  | inr e ↦ replace_label-other ask key k (o, labels) e ∙ h
]

obfuscate_custom-none :
    (k : Text) (ls : List Text) (s : Obfuscator × Labels)
    → lookup k s.1 ≡ none
    → lookup k (obfuscate_custom ls s).1 ≡ none
unfolding obfuscate_custom
obfuscate_custom-none k [] s h = h
obfuscate_custom-none k (l ∷ ls) s h =
    obfuscate_custom-none k ls (replace_label (λ o v. obfuscate_custom_label o l v) l s)
      (replace_label-none (λ o v. obfuscate_custom_label o l v) l k s h)

-- A line that is made of a metric: the labels to drop are gone; the others that are not obfuscated, the
-- values and the timestamps are as they were.
abbrev pub IsCleaned : ObfuscationConfig → ExportedMetric → ExportedMetric → Type 0
IsCleaned config m line =
    ((k : Text) → seen_text k config.drop_labels ≡ true → lookup k line.metric ≡ none)
    × ((k : Text)
        → seen_text k config.drop_labels ≡ false
        → text_eq (codes "instance") k ≡ false
        → text_eq (codes "job") k ≡ false
        → seen_text k config.custom_labels ≡ false
        → lookup k line.metric ≡ lookup k m.metric)
    × (line.values ≡ m.values)
    × (line.timestamps ≡ m.timestamps)

abbrev pub AllCleaned : ObfuscationConfig → List ExportedMetric → List ExportedMetric → Type 0
AllCleaned config [] [] = Unit
AllCleaned config [] (l ∷ ls) = ⊥
AllCleaned config (m ∷ ms) [] = ⊥
AllCleaned config (m ∷ ms) (l ∷ ls) = IsCleaned config m l × AllCleaned config ms ls

module _ (sha256 : Text → Text) where
  obfuscate_instance_label-other :
      (config : ObfuscationConfig) (k : Text) (s : Obfuscator × Labels)
      → text_eq (codes "instance") k ≡ false
      → lookup k (obfuscate_instance_label sha256 config s).1 ≡ lookup k s.1
  unfolding obfuscate_instance_label
  obfuscate_instance_label-other config k s h =
      if-both (λ (t : Obfuscator × Labels). lookup k t.1 ≡ lookup k s.1) config.obfuscate_instance _
        s (replace_label-other (obfuscate_instance sha256) (codes "instance") k s h) refl

  obfuscate_job_label-other :
      (config : ObfuscationConfig) (k : Text) (s : Obfuscator × Labels)
      → text_eq (codes "job") k ≡ false
      → lookup k (obfuscate_job_label sha256 config s).1 ≡ lookup k s.1
  unfolding obfuscate_job_label text_eq
  obfuscate_job_label-other config k (o, labels) h =
      if-both (λ (t : Obfuscator × Labels). lookup k t.1 ≡ lookup k labels) config.obfuscate_job _
        (o, labels)
        (replace_label-other (λ o' job. obfuscate_job o' job (guess_component labels)) (codes "job")
          k (o, labels) h)
        refl

  -- A label that is neither `instance` nor `job` nor one of the custom labels keeps its value.
  apply_obfuscation-other :
      (config : ObfuscationConfig) (o : Obfuscator) (labels : Labels) (k : Text)
      → text_eq (codes "instance") k ≡ false
      → text_eq (codes "job") k ≡ false
      → seen_text k config.custom_labels ≡ false
      → lookup k (apply_obfuscation sha256 config o labels).1 ≡ lookup k labels
  unfolding apply_obfuscation
  apply_obfuscation-other config o labels k hi hj hc =
      obfuscate_custom-other k config.custom_labels _ hc
      ∙ obfuscate_job_label-other config k (obfuscate_instance_label sha256 config (o, labels)) hj
      ∙ obfuscate_instance_label-other config k (o, labels) hi

  obfuscate_instance_label-none :
      (config : ObfuscationConfig) (k : Text) (s : Obfuscator × Labels)
      → lookup k s.1 ≡ none
      → lookup k (obfuscate_instance_label sha256 config s).1 ≡ none
  unfolding obfuscate_instance_label
  obfuscate_instance_label-none config k s h =
      if-both (λ (t : Obfuscator × Labels). lookup k t.1 ≡ none) config.obfuscate_instance _ s
        (replace_label-none (obfuscate_instance sha256) (codes "instance") k s h) h

  obfuscate_job_label-none :
      (config : ObfuscationConfig) (k : Text) (s : Obfuscator × Labels)
      → lookup k s.1 ≡ none
      → lookup k (obfuscate_job_label sha256 config s).1 ≡ none
  unfolding obfuscate_job_label
  obfuscate_job_label-none config k (o, labels) h =
      if-both (λ (t : Obfuscator × Labels). lookup k t.1 ≡ none) config.obfuscate_job _ (o, labels)
        (replace_label-none (λ o' job. obfuscate_job o' job (guess_component labels)) (codes "job")
          k (o, labels) h)
        h

  apply_obfuscation-none :
      (config : ObfuscationConfig) (o : Obfuscator) (labels : Labels) (k : Text)
      → lookup k labels ≡ none
      → lookup k (apply_obfuscation sha256 config o labels).1 ≡ none
  unfolding apply_obfuscation
  apply_obfuscation-none config o labels k h = obfuscate_custom-none k config.custom_labels _ (
      obfuscate_job_label-none config k (obfuscate_instance_label sha256 config (o, labels))
        (obfuscate_instance_label-none config k (o, labels) h))

  process_metric-IsCleaned :
      (config : ObfuscationConfig) (o : Obfuscator) (m : ExportedMetric)
      → IsCleaned config m (process_metric sha256 config o m).1
  process_metric-IsCleaned config o m = (
    λ k d.
        let gone = lookup-drop_labels k config.drop_labels m.metric ∙ dropped_lem k d in
        if-both (λ (t : Obfuscator × Labels). lookup k t.1 ≡ none) config.enabled _
          (o, drop_labels config.drop_labels m.metric)
          (apply_obfuscation-none config o (drop_labels config.drop_labels m.metric) k gone) gone,
    λ k d i j c.
        let kept = lookup-drop_labels k config.drop_labels m.metric ∙ kept_lem k d in
        if-both (λ (t : Obfuscator × Labels). lookup k t.1 ≡ lookup k m.metric) config.enabled _
          (o, drop_labels config.drop_labels m.metric)
          (apply_obfuscation-other config o (drop_labels config.drop_labels m.metric) k i j c
            ∙ kept)
          kept,
    refl,
    refl,
  )
    where
      dropped_lem :
          (k : Text)
          → seen_text k config.drop_labels ≡ true
          → (if seen_text k config.drop_labels then none else lookup k m.metric) ≡ none
      dropped_lem k d = rw (d) refl

      kept_lem :
          (k : Text)
          → seen_text k config.drop_labels ≡ false
          → (if seen_text k config.drop_labels then none else lookup k m.metric) ≡ lookup k m.metric
      kept_lem k d = rw (d) refl

  -- The lines that are made of metrics, one of each in their order, whether they are obfuscated or not:
  -- no label to drop is in them, not even where it is also one to obfuscate; a label that is neither
  -- dropped nor `instance` nor `job` nor a custom one keeps its value, and so do values and timestamps.
  pub process_metrics-AllCleaned :
      (config : ObfuscationConfig) (o : Obfuscator) (ms : List ExportedMetric)
      → AllCleaned config ms (process_metrics sha256 config o ms).1
  unfolding process_metrics
  process_metrics-AllCleaned config o [] = tt
  process_metrics-AllCleaned config o (m ∷ ms) = (
    process_metric-IsCleaned config o m,
    process_metrics-AllCleaned config (process_metric sha256 config o m).0 ms,
  )
