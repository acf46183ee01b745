-- ===== src/Importer/DropLabels.antt =====
-- internal/importer/server/server.go: the labels to drop, and what is kept of a metric's labels.
pub mod Kept
use vmgather.Prelude.{
  ℕ, Bool, true, false, not, ◌&&◌, ◌||◌, List, [], ◌∷◌, ◌++◌, Option, none, some, Text, codes,
  text_eq, ltb, ◌==◌, if◌then◌else◌, trim_space, to_lower, has_prefix, lookup, take,
}
use vmgather.Export.Metric.{Labels}
use vmgather.Export.Split.{seen_text}

abbrev pub protected_drop_labels : List Text
protected_drop_labels = codes "__name__" ∷ codes "job" ∷ codes "instance" ∷ []

unfoldable pub is_protected_drop_label : Text → Bool
unfolding seen_text
is_protected_drop_label name = seen_text name protected_drop_labels

-- The order of Go strings.
unfoldable pub text_ltb : Text → Text → Bool
text_ltb [] [] = false
text_ltb [] (b ∷ t) = true
text_ltb (a ∷ s) [] = false
text_ltb (a ∷ s) (b ∷ t) = ltb a b || a == b && text_ltb s t

-- sort.Strings
unfoldable pub insert_text : Text → List Text → List Text
unfolding text_ltb
insert_text x [] = x ∷ []
insert_text x (y ∷ ys) =
    let later = y ∷ insert_text x ys in if text_ltb y x then later else x ∷ y ∷ ys

unfoldable pub sort_strings : List Text → List Text
unfolding insert_text
sort_strings [] = []
sort_strings (x ∷ xs) = insert_text x (sort_strings xs)

-- The set of the trimmed labels that may be dropped; the order of a Go map is left open there, and the
-- sorting fixes it.
unfoldable pub droppable : List Text → List Text → List Text
unfolding is_protected_drop_label seen_text
droppable seen [] = []
droppable seen (raw ∷ labels) =
    let label = trim_space raw in
    let skipped = droppable seen labels in
    let added = label ∷ droppable (label ∷ seen) labels in
    if text_eq label [] || is_protected_drop_label label || seen_text label seen
    then skipped
    else added

unfoldable pub sanitize_drop_labels : List Text → List Text
unfolding droppable sort_strings
sanitize_drop_labels labels = sort_strings (droppable [] labels)

-- A nil set is an empty one.
abbrev pub drop_labels_set : List Text → List Text
drop_labels_set labels = sanitize_drop_labels labels

unfoldable pub filter_metric_labels : Labels → List Text → Labels
unfolding is_protected_drop_label seen_text
filter_metric_labels [] dropped = []
filter_metric_labels ((key, value) ∷ metric) dropped =
    let rest = filter_metric_labels metric dropped in
    if is_protected_drop_label key
    then (key, value) ∷ rest
    else if seen_text key dropped
    then rest
    else (key, value) ∷ rest

abbrev pub entry_of : Text → Option Text → Labels
entry_of key none = []
entry_of key (some value) = (key, value) ∷ []

-- The entries of some keys, in their order.
unfoldable pub subset_of : List Text → Labels → Labels
subset_of [] labels = []
subset_of (key ∷ keys) labels = entry_of key (lookup key labels) ++ subset_of keys labels

-- The first labels that are not internal, in the order of the map.
unfoldable pub public_labels : Labels → Labels
public_labels [] = []
public_labels ((key, value) ∷ labels) =
    let rest = public_labels labels in
    if has_prefix key (codes "__") then rest else (key, value) ∷ rest

abbrev pub or_public : ℕ → Labels → Labels → Labels
or_public n [] labels = take n (public_labels labels)
or_public n (e ∷ es) labels = e ∷ es

unfoldable pub select_label_subset : Labels → Labels
unfolding subset_of public_labels
select_label_subset labels =
    or_public 3
      (subset_of
        (codes "job"
          ∷ codes "instance"
          ∷ codes "service"
          ∷ codes "cluster"
          ∷ codes "namespace"
          ∷ codes "pod"
          ∷ [])
        labels)
      labels
