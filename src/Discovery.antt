-- ===== src/Discovery.antt =====
-- internal/application/services/vm_service.go: what is asked of a VictoriaMetrics server before an export: its
-- components, the jobs of a selector, samples and estimates. The logging is left out.
pub mod Grouped
pub mod Selectors
pub mod Samples
mod Examples
use vmgather.Prelude.{
  ℕ, zero, suc, ◌+◌, ◌*◌, Bool, true, false, not, ◌&&◌, ◌||◌, List, [], ◌∷◌, ◌++◌, Option, none,
  some, Text, codes, ℤ, pos, negsuc, text_eq, trim_space, contains, to_lower, if◌then◌else◌, ltb,
  leb, ltb_ℤ, leb_ℤ, ◌==◌, length, lookup, insert,
}
use vmgather.Prelude.Decimal.{format_int}
use vmgather.Prelude.Search.{has_suffix}
use vmgather.Domain.{ExportConfig, mode_custom, query_selector, query_metrics_ql}
use vmgather.Vm.Errors.{GoError, plain, wrap, error_text}
use vmgather.Export.Metric.{Labels}
use vmgather.Export.Backend.{Result, ok, fail}
use vmgather.Export.Selector.{build_job_filter_selector, is_name_start, is_name_byte, join_texts}

-- A value of a query: a text, a JSON number, or something else.
pub data QueryValue : Type 0 where
  text_value : Text → QueryValue
  number_value : Text → QueryValue
  other_value : QueryValue

pub record QuerySeries : Type 0 where
  pub metric : Labels
  pub value : List QueryValue

pub record QueryResult : Type 0 where
  pub status : Text
  pub series : List QuerySeries

-- The client: an answer to the n-th query at a time; and `fmt.Sscanf` with %d and %f, the conversion of a
-- float64 to an int, the product by 1000 as an int64, and the verb %q.
pub record Client : Type 0 where
  pub ask : ℕ → Text → ℕ → Result QueryResult
  pub scan_int : Text → Option ℤ
  pub scan_float : Text → Text
  pub float_to_int : Text → ℤ
  pub float_to_ms : Text → ℤ
  pub quoted : Text → Text

-- The end of a range, if it is set (not 0) and not in the future.
unfoldable pub effective_query_time : ℕ → ℕ → ℕ
effective_query_time now end = if end == 0 || ltb now end then now else end

abbrev pub label_or_empty : Option Text → Text
label_or_empty none = []
label_or_empty (some v) = v

-- `r.Metric[name]`
abbrev pub label : Text → QuerySeries → Text
label name r = label_or_empty (lookup name r.metric)

unfoldable pub validate_connection : Client → ℕ → Option GoError
validate_connection client now = elim (client.ask 0 (codes "vm_app_version") now) [
  | fail e ↦ some (wrap (codes "connection failed") e)
  | ok result ↦ elim result.series [
    | [] ↦ some (plain (codes "no VM components found - is this a VictoriaMetrics instance?"))
    | r ∷ rs ↦ none
  ]
]

abbrev pub with_job : Text → Option (List Text) → List Text
with_job job none = job ∷ []
with_job job (some jobs) = jobs ++ (job ∷ [])

-- A series into the jobs by component.
unfoldable pub add_component : List (Text × List Text) → QuerySeries → List (Text × List Text)
unfolding lookup insert text_eq
add_component components r =
    let component = label (codes "vm_component") r in
    let job = label (codes "job") r in
    if text_eq component [] || text_eq job []
    then components
    else insert component (with_job job (lookup component components)) components

unfoldable pub group_components :
    List (Text × List Text) → List QuerySeries → List (Text × List Text)
unfolding add_component
group_components components [] = components
group_components components (r ∷ rs) = group_components (add_component components r) rs

unfoldable pub parse_count_value : Client → QueryValue → Option ℤ
parse_count_value client (text_value s) = client.scan_int s
parse_count_value client (number_value v) = some (client.float_to_int v)
parse_count_value client other_value = none

-- The second of the values of a series.
abbrev pub second_value : QuerySeries → Option QueryValue
second_value r = elim r.value [ [] ↦ none | t ∷ vs ↦ elim vs [ [] ↦ none | v ∷ ws ↦ some v ] ]

abbrev pub counted : Client → Option QueryValue → Option ℤ
counted client none = none
counted client (some v) = parse_count_value client v

abbrev pub or_zero : Option ℤ → ℤ
or_zero none = pos 0
or_zero (some n) = n

-- The count of the first series, or 0.
abbrev pub first_count : Client → Result QueryResult → Result ℤ
first_count client (fail e) = fail e
first_count client (ok result) = elim result.series [
  | [] ↦ ok (pos 0)
  | r ∷ rs ↦ ok (or_zero (counted client (second_value r)))
]

unfoldable pub estimate_component_metrics : Client → ℕ → List Text → ℕ → Result ℤ
unfolding parse_count_value build_job_filter_selector
estimate_component_metrics client n [] time = ok (pos 0)
estimate_component_metrics client n (j ∷ js) time =
    first_count client
      (client.ask n (codes "count(" ++ (build_job_filter_selector (j ∷ js) ++ codes ")")) time)

unfoldable pub count_instances : Client → ℕ → List Text → ℕ → Result ℤ
unfolding parse_count_value build_job_filter_selector
count_instances client n [] time = ok (pos 0)
count_instances client n (j ∷ js) time = first_count client (
    client.ask n
      (codes "count(count by (instance) (" ++ (build_job_filter_selector (j ∷ js) ++ codes "))"))
      time)

abbrev pub note_count : Text → Option ℤ → List (Text × ℤ) → List (Text × ℤ)
note_count job none counts = counts
note_count job (some n) counts = insert job n counts

unfoldable pub job_counts : Client → List (Text × ℤ) → List QuerySeries → List (Text × ℤ)
unfolding parse_count_value lookup insert text_eq
job_counts client counts [] = counts
job_counts client counts (r ∷ rs) =
    let job = label (codes "job") r in
    job_counts client
      (if text_eq job [] then counts else note_count job (counted client (second_value r)) counts)
      rs

-- The counts are empty where the query fails.
unfoldable pub estimate_job_metrics : Client → ℕ → List Text → ℕ → List (Text × ℤ)
unfolding job_counts build_job_filter_selector
estimate_job_metrics client n [] time = []
estimate_job_metrics client n (j ∷ js) time =
    elim (client.ask n
      (codes "count by (job) (" ++ (build_job_filter_selector (j ∷ js) ++ codes ")")) time) [
        | fail e ↦ []
        | ok result ↦ job_counts client [] result.series
      ]

pub record VmComponent : Type 0 where
  pub component : Text
  pub jobs : List Text
  pub instance_count : ℤ
  pub metrics_count_estimate : ℤ
  pub job_metrics : List (Text × ℤ)

abbrev pub value_or : ℤ → Result ℤ → ℤ
value_or d (ok n) = n
value_or d (fail e) = d

-- The components with their estimates; three queries for each, in the order that a Go map leaves open.
unfoldable pub estimated : Client → ℕ → ℕ → List (Text × List Text) → List VmComponent
unfolding estimate_component_metrics count_instances estimate_job_metrics
estimated client time n [] = []
estimated client time n ((component, jobs) ∷ rest) =
    record {
      component = component;
      jobs = jobs;
      instance_count = value_or (pos 0) (count_instances client (n + 1) jobs time);
      metrics_count_estimate = value_or (negsuc 0) (estimate_component_metrics client n jobs time);
      job_metrics = estimate_job_metrics client (n + 2) jobs time;
    }
    ∷ estimated client time (n + 3) rest

abbrev pub discovery_query : Text
discovery_query =
    codes
      "group by (job, vm_component) (label_replace(vm_app_version{version!=\"\"}, \"vm_component\", \"$1\", \"version\", \"(.+?)\\\\-.*\"))"

unfoldable pub discover_components : Client → ℕ → ℕ → Result (List VmComponent)
unfolding group_components estimated effective_query_time
discover_components client now end =
    let time = effective_query_time now end in
    elim (client.ask 0 discovery_query time) [
      | fail e ↦ fail (wrap (codes "discovery query failed") e)
      | ok result ↦ elim result.series [
        | [] ↦ fail (plain (codes "no VM components discovered"))
        | r ∷ rs ↦ ok (estimated client time 1 (group_components [] (r ∷ rs)))
      ]
    ]

unfoldable pub estimate_export_size : Client → ℕ → List Text → ℕ → Result ℤ
unfolding estimate_component_metrics effective_query_time
estimate_export_size client now jobs end =
    estimate_component_metrics client 0 jobs (effective_query_time now end)
