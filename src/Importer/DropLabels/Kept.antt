-- ===== src/Importer/DropLabels/Kept.antt =====
-- server.go of the importer: `sanitizeDropLabels` and `filterMetricLabels`.
use vmgather.Prelude.{
  ◌≡◌, refl, ◌∙◌, ap, Bool, true, false, not, ◌&&◌, ◌||◌, List, [], ◌∷◌, none, some, Text, text_eq,
  text_eq→eq, text_eq_self, text_eq_iff, if◌then◌else◌, if-both, trim_space, lookup, Bool-cases,
  inl, inr, arith, All, All-map,
}
use vmgather.Export.Metric.{Labels}
use vmgather.Export.Split.{seen_text}
use vmgather.Importer.DropLabels.{
  is_protected_drop_label, text_ltb, insert_text, sort_strings, droppable, sanitize_drop_labels,
  drop_labels_set, filter_metric_labels,
}

-- Whether a label is asked to be dropped, up to blanks around it, and may be dropped.
unfoldable pub asked : Text → List Text → Bool
asked v [] = false
asked v (raw ∷ labels) = text_eq (trim_space raw) v || asked v labels

abbrev pub may_drop : Text → Bool
may_drop v = not (text_eq v []) && not (is_protected_drop_label v)

seen_text-insert_text :
    (v x : Text) (xs : List Text) → seen_text v (insert_text x xs) ≡ (text_eq x v || seen_text v xs)
unfolding seen_text insert_text
seen_text-insert_text v x [] = refl
seen_text-insert_text v x (y ∷ ys) = ground (arith, seen_text-insert_text v x ys)

seen_text-sort_strings :
    (v : Text) (xs : List Text) → seen_text v (sort_strings xs) ≡ seen_text v xs
unfolding seen_text sort_strings
seen_text-sort_strings v [] = refl
seen_text-sort_strings v (x ∷ xs) =
    seen_text-insert_text v x (sort_strings xs)
    ∙ ap (λ b. text_eq x v || b) (seen_text-sort_strings v xs)

-- The step of the next lemma at the label itself.
droppable_same :
    (x v : Text) (seen labels : List Text)
    → x ≡ v
    → seen_text v (droppable seen labels)
      ≡ (asked v labels && (may_drop v && not (seen_text v seen)))
    → seen_text v (
        if text_eq x [] || is_protected_drop_label x || seen_text x seen
        then droppable seen labels
        else x ∷ droppable (x ∷ seen) labels)
      ≡ ((text_eq x v || asked v labels) && (may_drop v && not (seen_text v seen)))
unfolding seen_text
droppable_same x v seen labels e h = rw (e) (let r = text_eq_self v in ground (arith, r, h))

droppable_other :
    (x v : Text) (seen labels : List Text)
    → text_eq x v ≡ false
    → seen_text v (droppable seen labels)
      ≡ (asked v labels && (may_drop v && not (seen_text v seen)))
    → seen_text v (droppable (x ∷ seen) labels)
      ≡ (asked v labels && (may_drop v && not (seen_text v (x ∷ seen))))
    → seen_text v (
        if text_eq x [] || is_protected_drop_label x || seen_text x seen
        then droppable seen labels
        else x ∷ droppable (x ∷ seen) labels)
      ≡ ((text_eq x v || asked v labels) && (may_drop v && not (seen_text v seen)))
unfolding seen_text
droppable_other x v seen labels t h k = ground (arith, t, h, k)

seen_text-droppable :
    (v : Text) (seen labels : List Text)
    → seen_text v (droppable seen labels)
      ≡ (asked v labels && (may_drop v && not (seen_text v seen)))
unfolding droppable asked
seen_text-droppable v seen [] = refl
seen_text-droppable v seen (raw ∷ labels) = elim (Bool-cases (text_eq (trim_space raw) v)) [
  | inl t ↦
      droppable_same (trim_space raw) v seen labels (text_eq→eq (trim_space raw) v t)
        (seen_text-droppable v seen labels)
  | inr t ↦
      droppable_other (trim_space raw) v seen labels t (seen_text-droppable v seen labels)
        (seen_text-droppable v (trim_space raw ∷ seen) labels)
]

-- The labels that are dropped: those asked for that may be dropped.
pub seen_text-sanitize_drop_labels :
    (v : Text) (labels : List Text)
    → seen_text v (sanitize_drop_labels labels) ≡ (asked v labels && may_drop v)
unfolding sanitize_drop_labels seen_text
seen_text-sanitize_drop_labels v labels =
    let a = seen_text-sort_strings v (droppable [] labels) in
    let b = seen_text-droppable v [] labels in ground (arith, a, b)

filter_same :
    (j k v : Text) (metric : Labels) (dropped : List Text)
    → j ≡ k
    → lookup k (filter_metric_labels metric dropped)
      ≡ (if not (is_protected_drop_label k) && seen_text k dropped then none else lookup k metric)
    → lookup k (
        if is_protected_drop_label j
        then (j, v) ∷ filter_metric_labels metric dropped
        else if seen_text j dropped
        then filter_metric_labels metric dropped
        else (j, v) ∷ filter_metric_labels metric dropped)
      ≡ (if not (is_protected_drop_label k) && seen_text k dropped
          then none
          else if text_eq j k
          then some v
          else lookup k metric)
unfolding lookup
filter_same j k v metric dropped e h = rw (e) (let r = text_eq_self k in ground (arith, r, h))

lookup-filter_metric_labels :
    (k : Text) (metric : Labels) (dropped : List Text)
    → lookup k (filter_metric_labels metric dropped)
      ≡ (if not (is_protected_drop_label k) && seen_text k dropped then none else lookup k metric)
unfolding lookup filter_metric_labels
lookup-filter_metric_labels k [] dropped = ground arith
lookup-filter_metric_labels k ((j, v) ∷ metric) dropped = elim (Bool-cases (text_eq j k)) [
  | inl t ↦
      filter_same j k v metric dropped (text_eq→eq j k t)
        (lookup-filter_metric_labels k metric dropped)
  | inr t ↦ ground (arith, t, lookup-filter_metric_labels k metric dropped)
]

-- A label of a metric is dropped where it was asked for, up to blanks around it, unless it is empty or
-- one of the protected labels; every other label keeps its value.
pub filter_metric_labels-drop_labels_set :
    (k : Text) (metric : Labels) (labels : List Text)
    → lookup k (filter_metric_labels metric (drop_labels_set labels))
      ≡ (if asked k labels && may_drop k then none else lookup k metric)
filter_metric_labels-drop_labels_set k metric labels =
    let a = lookup-filter_metric_labels k metric (drop_labels_set labels) in
    let b = seen_text-sanitize_drop_labels k labels in ground (arith, a, b)

text_ltb_trans : (s t u : Text) → text_ltb s t ≡ true → text_ltb t u ≡ true → text_ltb s u ≡ true
unfolding text_ltb
text_ltb_trans [] [] u h k = cc
text_ltb_trans [] (b ∷ t) [] h k = cc
text_ltb_trans [] (b ∷ t) (c ∷ u) h k = refl
text_ltb_trans (a ∷ s) [] u h k = cc
text_ltb_trans (a ∷ s) (b ∷ t) [] h k = cc
text_ltb_trans (a ∷ s) (b ∷ t) (c ∷ u) h k = ground (arith, text_ltb_trans s t u)

text_ltb_total : (s t : Text) → text_ltb s t ≡ false → text_eq t s ≡ false → text_ltb t s ≡ true
unfolding text_ltb text_eq
text_ltb_total [] [] h k = cc
text_ltb_total [] (b ∷ t) h k = cc
text_ltb_total (a ∷ s) [] h k = refl
text_ltb_total (a ∷ s) (b ∷ t) h k = ground (arith, text_ltb_total s t)

-- Strictly rising, so without repetition.
abbrev pub IsRising : List Text → Type 0
IsRising [] = Unit
IsRising (x ∷ xs) = All (λ y. text_ltb x y ≡ true) xs × IsRising xs

All-insert_text :
    (P : Text → Type 0) (x : Text) (ys : List Text) → P x → All P ys → All P (insert_text x ys)
unfolding insert_text
All-insert_text P x [] p h = (p, tt)
All-insert_text P x (y ∷ ys) p h =
    if-both (All P) (text_ltb y x) (y ∷ insert_text x ys) (x ∷ y ∷ ys)
      (h.0, All-insert_text P x ys p h.1) (p, h)

insert_text-IsRising :
    (x : Text) (ys : List Text) → seen_text x ys ≡ false → IsRising ys → IsRising (insert_text x ys)
unfolding insert_text seen_text
insert_text-IsRising x [] new h = (tt, tt)
insert_text-IsRising x (y ∷ ys) new h = elim (Bool-cases (text_ltb y x)) [
  | inl t ↦ rw t (
    All-insert_text (λ z. text_ltb y z ≡ true) x ys t h.0,
    insert_text-IsRising x ys (ground arith) h.1,
  )
  | inr t ↦
      let first : text_ltb x y ≡ true =
        text_ltb_total y x t (ground (arith, text_eq_iff x y, text_eq_iff y x)) in
      rw t (
        (
          first,
          All-map (λ z. text_ltb y z ≡ true) (λ z. text_ltb x z ≡ true) ys
              (λ z p. text_ltb_trans x y z first p) h.0,
        ),
        h,
      )
]

abbrev IsNew : List Text → Type 0
IsNew [] = Unit
IsNew (x ∷ xs) = (seen_text x xs ≡ false) × IsNew xs

droppable_new :
    (x : Text) (seen labels : List Text) → seen_text x (droppable (x ∷ seen) labels) ≡ false
unfolding seen_text
droppable_new x seen labels =
    let a = seen_text-droppable x (x ∷ seen) labels in
    let r = text_eq_self x in ground (arith, a, r)

droppable-IsNew : (seen labels : List Text) → IsNew (droppable seen labels)
unfolding droppable
droppable-IsNew seen [] = tt
droppable-IsNew seen (raw ∷ labels) =
    if-both IsNew _ (droppable seen labels)
      (trim_space raw ∷ droppable (trim_space raw ∷ seen) labels) (droppable-IsNew seen labels)
      (droppable_new (trim_space raw) seen labels, droppable-IsNew (trim_space raw ∷ seen) labels)

sort_strings-IsRising : (xs : List Text) → IsNew xs → IsRising (sort_strings xs)
unfolding sort_strings
sort_strings-IsRising [] h = tt
sort_strings-IsRising (x ∷ xs) h =
    insert_text-IsRising x (sort_strings xs) (seen_text-sort_strings x xs ∙ h.0)
      (sort_strings-IsRising xs h.1)

-- The labels to drop are sorted, without repetition, and those asked for, up to blanks around them, that
-- are neither empty nor protected.
pub sanitize_drop_labels-IsRising :
    (labels : List Text)
    → IsRising (sanitize_drop_labels labels)
      × ((v : Text) → seen_text v (sanitize_drop_labels labels) ≡ (asked v labels && may_drop v))
unfolding sanitize_drop_labels
sanitize_drop_labels-IsRising labels = (
  sort_strings-IsRising (droppable [] labels) (droppable-IsNew [] labels),
  λ v. seen_text-sanitize_drop_labels v labels,
)
