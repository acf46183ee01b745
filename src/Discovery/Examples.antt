-- ===== src/Discovery/Examples.antt =====
-- The theorem on the discovery at three series, of which one has no job.
use vmgather.Prelude.{◌≡◌, refl, List, [], ◌∷◌, none, some, Text, codes, lookup}
use vmgather.Discovery.{QuerySeries, group_components}
use vmgather.Discovery.Grouped.{jobs_of, joined_to, group_components-jobs_of}

abbrev found : Text → Text → QuerySeries
found component job = record {
  metric = (codes "vm_component", component) ∷ (codes "job", job) ∷ [];
  value = [];
}

abbrev three_series : List QuerySeries
three_series =
    found (codes "vmagent") (codes "a")
    ∷ found (codes "vmagent") []
    ∷ found (codes "vmagent") (codes "b")
    ∷ []

grouped_test :
    lookup (codes "vmagent") (group_components [] three_series) ≡ some (codes "a" ∷ codes "b" ∷ [])
unfolding lookup group_components
grouped_test = refl

group_components-jobs_of_example :
    lookup (codes "vmagent") (group_components [] three_series)
    ≡ joined_to none (jobs_of (codes "vmagent") three_series)
group_components-jobs_of_example = group_components-jobs_of (codes "vmagent") three_series
