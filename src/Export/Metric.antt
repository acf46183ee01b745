-- ===== src/Export/Metric.antt =====
-- export_service.go: exported metrics, and what is done to one of them: dropping labels, obfuscation.
use vmgather.Prelude.{
  List, [], ◌∷◌, Option, none, some, Text, codes, ℤ, if◌then◌else◌, lookup, insert, delete, text_eq,
  has_prefix,
}
use vmgather.Domain.{ObfuscationConfig}
use vmgather.Obfuscation.{Obfuscator, obfuscate_instance, obfuscate_job, obfuscate_custom_label}

abbrev pub Labels : Type 0
Labels = List (Text × Text)

-- vm.ExportedMetric. A value is kept as its JSON text; a nil map of labels is an empty one.
pub record ExportedMetric : Type 0 where
  pub metric : Labels
  pub values : List Text
  pub timestamps : List ℤ

unfoldable pub drop_labels : List Text → Labels → Labels
drop_labels [] labels = labels
drop_labels (l ∷ ls) labels = drop_labels ls (delete l labels)

-- The component that the prefix of a metric's name tells.
unfoldable pub component_of_prefix : Text → Option Text
component_of_prefix name =
    if has_prefix name (codes "vmstorage_")
    then some (codes "vmstorage")
    else if has_prefix name (codes "vmselect_")
    then some (codes "vmselect")
    else if has_prefix name (codes "vminsert_")
    then some (codes "vminsert")
    else if has_prefix name (codes "vmagent_")
    then some (codes "vmagent")
    else if has_prefix name (codes "vmalert_")
    then some (codes "vmalert")
    else none

abbrev pub or_empty : Option Text → Text
or_empty none = []
or_empty (some s) = s

abbrev pub or_else {ℓ} : {A : Type ℓ} → Option A → A → A
or_else none d = d
or_else (some a) d = a

-- `guessComponent`
abbrev pub by_name : Labels → Text → Text
by_name labels name =
    if text_eq name []
    then codes "unknown"
    else or_else (component_of_prefix name)
        (or_else (lookup (codes "job") labels) (codes "unknown"))

unfoldable pub guess_component : Labels → Text
guess_component labels = elim (lookup (codes "component") labels) [
  | some component ↦ component
  | none ↦ elim (lookup (codes "vm_component") labels) [
    | some component ↦ component
    | none ↦ by_name labels (or_empty (lookup (codes "__name__") labels))
  ]
]

-- A label that is there is replaced, by the answer of the obfuscator.
abbrev pub replace_label :
    (Obfuscator → Text → Obfuscator × Text) → Text → Obfuscator × Labels → Obfuscator × Labels
replace_label ask key (o, labels) = elim (lookup key labels) [
  | none ↦ (o, labels)
  | some value ↦ let (o', name) = ask o value in (o', insert key name labels)
]

unfoldable pub obfuscate_custom : List Text → Obfuscator × Labels → Obfuscator × Labels
obfuscate_custom [] s = s
obfuscate_custom (l ∷ ls) s =
    obfuscate_custom ls (replace_label (λ o value. obfuscate_custom_label o l value) l s)

module _ (sha256 : Text → Text) where
  unfoldable pub obfuscate_instance_label :
      ObfuscationConfig → Obfuscator × Labels → Obfuscator × Labels
  obfuscate_instance_label config s =
      if config.obfuscate_instance
      then replace_label (obfuscate_instance sha256) (codes "instance") s
      else s

  -- The component is guessed from the labels as they are then, the job's own name among them.
  unfoldable pub obfuscate_job_label : ObfuscationConfig → Obfuscator × Labels → Obfuscator × Labels
  obfuscate_job_label config (o, labels) =
      if config.obfuscate_job
      then replace_label (λ o' job. obfuscate_job o' job (guess_component labels)) (codes "job")
          (o, labels)
      else (o, labels)

  unfoldable pub apply_obfuscation : ObfuscationConfig → Obfuscator → Labels → Obfuscator × Labels
  unfolding obfuscate_instance_label obfuscate_job_label
  apply_obfuscation config o labels =
      obfuscate_custom config.custom_labels
        (obfuscate_job_label config (obfuscate_instance_label config (o, labels)))
