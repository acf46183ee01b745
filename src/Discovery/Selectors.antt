-- ===== src/Discovery/Selectors.antt =====
-- internal/application/services/vm_service.go: `DiscoverSelectorJobs`, the test for a selector, and
-- `CheckExportAPI`.
use vmgather.Prelude.{
  ℕ, Bool, true, false, not, ◌&&◌, ◌||◌, List, [], ◌∷◌, ◌++◌, Option, none, some, Text, codes, ℤ,
  pos, negsuc, text_eq, trim_space, contains, to_lower, if◌then◌else◌, ltb_ℤ, ◌==◌, length, lookup,
  insert,
}
use vmgather.Prelude.Search.{has_suffix}
use vmgather.Vm.Errors.{GoError, plain, wrap, error_text}
use vmgather.Export.Backend.{Result, ok, fail}
use vmgather.Export.Selector.{is_name_start, is_name_byte, is_blank, has_newline}
use vmgather.Export.Split.{seen_text}
use vmgather.Importer.DropLabels.{text_ltb}
use vmgather.Discovery.{
  QuerySeries, QueryResult, Client, effective_query_time, label, second_value, counted, job_counts,
}

unfoldable without_blanks : Text → Text
without_blanks [] = []
without_blanks (c ∷ s) = let rest = without_blanks s in if is_blank c then rest else c ∷ s

unfoldable without_name_bytes : Text → Text
without_name_bytes [] = []
without_name_bytes (c ∷ s) =
    let rest = without_name_bytes s in if is_name_byte c then rest else c ∷ s

abbrev without_name : Text → Text
without_name [] = []
without_name (c ∷ s) = if is_name_start c then without_name_bytes s else c ∷ s

-- `(\{.*\})?`, up to the end of a text without blanks at its end.
abbrev is_block : Text → Bool
is_block [] = true
is_block (c ∷ s) = c == b'{' && has_suffix s (codes "}") && not (has_newline s)

-- `selectorPattern` on a text without blanks around it: a name and a block, both optional.
unfoldable pub matches_selector : Text → Bool
unfolding without_blanks without_name_bytes has_newline has_suffix
matches_selector s = is_block (without_blanks (without_name s))

unfoldable pub is_selector_query : Text → Bool
unfolding matches_selector trim_space contains text_eq
is_selector_query query =
    let trimmed = trim_space query in
    not (text_eq trimmed [])
    && not (contains trimmed (codes "("))
    && not (contains trimmed (codes ")"))
    && matches_selector trimmed

abbrev with_instance : Text → Option (List Text) → List Text
with_instance instance none = if text_eq instance [] then [] else instance ∷ []
with_instance instance (some seen) =
    if text_eq instance [] || seen_text instance seen then seen else instance ∷ seen

-- The instances by job.
unfoldable pub add_instance : List (Text × List Text) → QuerySeries → List (Text × List Text)
unfolding lookup insert text_eq seen_text
add_instance jobs r =
    let job = label (codes "job") r in
    if text_eq job []
    then jobs
    else insert job (with_instance (label (codes "instance") r) (lookup job jobs)) jobs

unfoldable pub job_instances : List (Text × List Text) → List QuerySeries → List (Text × List Text)
unfolding add_instance
job_instances jobs [] = jobs
job_instances jobs (r ∷ rs) = job_instances (add_instance jobs r) rs

pub record SelectorJob : Type 0 where
  pub job : Text
  pub instance_count : ℕ
  pub metrics_count_estimate : ℤ

abbrev estimate_or : Option ℤ → ℤ
estimate_or none = negsuc 0
estimate_or (some n) = n

unfoldable pub selector_jobs : List (Text × ℤ) → List (Text × List Text) → List SelectorJob
unfolding lookup
selector_jobs counts [] = []
selector_jobs counts ((job, instances) ∷ jobs) =
    record {
      job = job;
      instance_count = length instances;
      metrics_count_estimate = estimate_or (lookup job counts);
    }
    ∷ selector_jobs counts jobs

unfoldable insert_job : SelectorJob → List SelectorJob → List SelectorJob
unfolding text_ltb
insert_job x [] = x ∷ []
insert_job x (y ∷ ys) =
    let after = y ∷ insert_job x ys in if text_ltb y.job x.job then after else x ∷ y ∷ ys

-- sort.Slice by the names.
unfoldable pub sort_jobs : List SelectorJob → List SelectorJob
unfolding insert_job
sort_jobs [] = []
sort_jobs (x ∷ xs) = insert_job x (sort_jobs xs)

abbrev without_jobs : GoError
without_jobs =
    plain (codes "selector matched series without job labels; use MetricsQL or add a job label")

abbrev jobs_or_error : List SelectorJob → Result (List SelectorJob)
jobs_or_error [] = fail without_jobs
jobs_or_error (j ∷ js) = ok (sort_jobs (j ∷ js))

abbrev counts_of : Client → Result QueryResult → List (Text × ℤ)
counts_of client (fail e) = []
counts_of client (ok result) = job_counts client [] result.series

abbrev first_positive : Client → List QuerySeries → Bool
first_positive client [] = false
first_positive client (r ∷ rs) = elim (counted client (second_value r)) [
  | none ↦ false
  | some n ↦ ltb_ℤ (pos 0) n
]

-- Without a result, the error tells series without jobs from no series.
abbrev nothing_found : Client → Result QueryResult → GoError
nothing_found client (fail e) = plain (codes "no series found for selector")
nothing_found client (ok result) =
    if first_positive client result.series
    then without_jobs
    else plain (codes "no series found for selector")

abbrev found_jobs : Client → Text → ℕ → List QuerySeries → Result (List SelectorJob)
found_jobs client selector time [] =
    fail (nothing_found client (client.ask 1 (codes "count(" ++ (selector ++ codes ")")) time))
found_jobs client selector time (r ∷ rs) = jobs_or_error (
    selector_jobs
      (counts_of client (client.ask 1 (codes "count by (job) (" ++ (selector ++ codes ")")) time))
      (job_instances [] (r ∷ rs)))

unfoldable pub discover_selector_jobs : Client → ℕ → Text → ℕ → Result (List SelectorJob)
unfolding is_selector_query job_instances selector_jobs sort_jobs job_counts effective_query_time
discover_selector_jobs client now selector end =
    let time = effective_query_time now end in
    if is_selector_query selector
    then elim (client.ask 0 (codes "group by (job, instance) (" ++ (selector ++ codes ")")) time) [
      | fail e ↦ fail (wrap (codes "selector discovery failed") e)
      | ok result ↦ found_jobs client selector time result.series
    ]
    else fail
        (plain (codes "selector must be a series selector (e.g. {job=\"...\"} or metric{...})"))

-- `CheckExportAPI` on what the export of one metric gives: an error, or none.
unfoldable pub check_export_api : Option GoError → Bool
unfolding error_text to_lower contains
check_export_api none = true
check_export_api (some e) =
    let text = to_lower (error_text e) in
    not (
      contains text (codes "missing route")
      || contains text (codes "404")
      || contains text (codes "not found"))
