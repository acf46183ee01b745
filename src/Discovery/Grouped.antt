-- ===== src/Discovery/Grouped.antt =====
-- vm_service.go: the jobs by component that `DiscoverComponents` collects.
use vmgather.Prelude.{
  ◌≡◌, refl, sym, ap, ◌∙◌, inl, inr, Bool, true, false, ◌||◌, List, [], ◌∷◌, ◌++◌, append_assoc,
  append-nil, Option, none, some, Text, codes, text_eq, text_eq→eq, ◌⊎◌, if◌then◌else◌, lookup,
  insert, lookup-insert, Bool-cases,
}
use vmgather.Discovery.{QuerySeries, label, with_job, add_component, group_components}

-- The jobs of the series that name a component and a job, in their order.
unfoldable pub jobs_of : Text → List QuerySeries → List Text
unfolding text_eq
jobs_of component [] = []
jobs_of component (r ∷ rs) =
    let rest = jobs_of component rs in
    if text_eq (label (codes "vm_component") r) [] || text_eq (label (codes "job") r) []
    then rest
    else if text_eq (label (codes "vm_component") r) component
    then label (codes "job") r ∷ rest
    else rest

-- No entry where there are no jobs.
abbrev pub joined_to : Option (List Text) → List Text → Option (List Text)
joined_to none [] = none
joined_to none (j ∷ js) = some (j ∷ js)
joined_to (some jobs) js = some (jobs ++ js)

joined_to-with_job :
    (o : Option (List Text)) (job : Text) (js : List Text)
    → joined_to (some (with_job job o)) js ≡ joined_to o (job ∷ js)
joined_to-with_job none job js = refl
joined_to-with_job (some jobs) job js = ap some (append_assoc jobs (job ∷ []) js)

lookup-added :
    (bad : Bool) (c job component : Text) (components : List (Text × List Text)) (js : List Text)
    → joined_to
        (lookup component
          (if bad then components else insert c (with_job job (lookup c components)) components))
        js
      ≡ joined_to
          (lookup component components)
          (if bad then js else if text_eq c component then job ∷ js else js)
lookup-added true c job component components js = refl
lookup-added false c job component components js =
    rw (lookup-insert c component (with_job job (lookup c components)) components)
      (cases (Bool-cases (text_eq c component)))
  where
    cases :
        ((text_eq c component ≡ true) ⊎ (text_eq c component ≡ false))
        → joined_to
            (if text_eq c component
              then some (with_job job (lookup c components))
              else lookup component components)
            js
          ≡ joined_to (lookup component components) (if text_eq c component then job ∷ js else js)
    cases (inl e) = rw (e) (
        joined_to-with_job (lookup c components) job js
        ∙ ap (λ k. joined_to (lookup k components) (job ∷ js)) (text_eq→eq c component e))
    cases (inr e) = rw (e) refl

lookup-group :
    (component : Text) (components : List (Text × List Text)) (rs : List QuerySeries)
    → lookup component (group_components components rs)
      ≡ joined_to (lookup component components) (jobs_of component rs)
unfolding group_components jobs_of add_component
lookup-group component components [] = nothing (lookup component components)
  where
    nothing : (o : Option (List Text)) → o ≡ joined_to o []
    nothing none = refl
    nothing (some jobs) = ap some (sym (append-nil jobs))
lookup-group component components (r ∷ rs) =
    lookup-group component (add_component components r) rs
    ∙ lookup-added
        (text_eq (label (codes "vm_component") r) [] || text_eq (label (codes "job") r) [])
        (label (codes "vm_component") r) (label (codes "job") r) component components
        (jobs_of component rs)

-- The jobs that the discovery lists for a component are those of the series with this component and a
-- job, in the order of the series; a component is listed just where there is such a series.
pub group_components-jobs_of :
    (component : Text) (rs : List QuerySeries)
    → lookup component (group_components [] rs) ≡ joined_to none (jobs_of component rs)
unfolding lookup
group_components-jobs_of component rs = lookup-group component [] rs
