-- ===== src/Discovery/Samples.antt =====
-- internal/application/services/vm_service.go: the queries of `GetSample`, which are tried in turn, and their
-- samples.
use vmgather.Prelude.{
  ℕ, ◌+◌, not, ◌&&◌, List, [], ◌∷◌, ◌++◌, Option, none, some, Text, codes, ℤ, pos, text_eq,
  trim_space, if◌then◌else◌, leb_ℤ, lookup,
}
use vmgather.Prelude.Decimal.{format_int}
use vmgather.Domain.{ExportConfig, mode_custom, query_selector, query_metrics_ql}
use vmgather.Vm.Errors.{GoError, plain, wrap}
use vmgather.Export.Metric.{Labels}
use vmgather.Export.Backend.{Result, ok, fail}
use vmgather.Export.Selector.{build_job_filter_selector, join_texts}
use vmgather.Discovery.{
  QueryValue, text_value, number_value, other_value, QuerySeries, QueryResult, Client, label,
  second_value,
}

unfoldable job_parts : Client → List Text → List Text
job_parts client [] = []
job_parts client (j ∷ js) = (codes "job=" ++ client.quoted j) ∷ job_parts client js

unfoldable pub build_sample_selector : Client → List Text → Text
unfolding job_parts join_texts
build_sample_selector client [] = codes "vm_app_version"
build_sample_selector client (j ∷ js) =
    codes "{" ++ (join_texts (codes " or ") (job_parts client (j ∷ js)) ++ codes "}")

abbrev limit_or_ten : ℤ → ℤ
limit_or_ten limit = if leb_ℤ limit (pos 0) then pos 10 else limit

abbrev topk : ℤ → Text → Text
topk limit query = codes "topk(" ++ (format_int limit ++ (codes ", " ++ (query ++ codes ")")))

unfoldable pub build_sample_queries : Client → List Text → ℤ → List Text
unfolding build_sample_selector
build_sample_queries client [] limit = topk (limit_or_ten limit) (codes "vm_app_version") ∷ []
build_sample_queries client (j ∷ js) limit =
    topk (limit_or_ten limit) (build_sample_selector client (j ∷ js)) ∷ []

unfoldable pub apply_job_filter_to_selector : Text → List Text → Text
unfolding build_job_filter_selector
apply_job_filter_to_selector selector [] = selector
apply_job_filter_to_selector selector (j ∷ js) =
    codes "(" ++ (selector ++ (codes ") and on(job) " ++ build_job_filter_selector (j ∷ js)))

unfoldable pub build_custom_sample_queries : ExportConfig → ℤ → List Text
unfolding apply_job_filter_to_selector trim_space text_eq
build_custom_sample_queries config limit =
    let top = limit_or_ten limit in
    let query = trim_space config.query in
    if text_eq query []
    then topk top (codes "vm_app_version") ∷ []
    else if text_eq config.query_type query_selector
    then topk top (apply_job_filter_to_selector query config.jobs) ∷ []
    else if text_eq config.query_type query_metrics_ql
    then topk top query ∷ (codes "any(" ++ (query ++ codes ")")) ∷ []
    else topk top query ∷ []

unfoldable pub build_sample_queries_for_config : Client → ExportConfig → ℤ → List Text
unfolding build_custom_sample_queries build_sample_queries text_eq
build_sample_queries_for_config client config limit =
    if text_eq config.mode mode_custom && not (text_eq config.query [])
    then build_custom_sample_queries config limit
    else build_sample_queries client config.jobs limit

-- The value of a sample is none where the code leaves the zero.
pub record MetricSample : Type 0 where
  pub metric_name : Text
  pub labels : Labels
  pub value : Option Text
  pub timestamp : ℤ

abbrev sample_value : Client → Option QueryValue → Option Text
sample_value client none = none
sample_value client (some (text_value s)) = some (client.scan_float s)
sample_value client (some (number_value v)) = some v
sample_value client (some other_value) = none

abbrev sample_time : Client → List QueryValue → ℤ
sample_time client [] = pos 0
sample_time client (text_value s ∷ vs) = pos 0
sample_time client (number_value v ∷ vs) = client.float_to_ms v
sample_time client (other_value ∷ vs) = pos 0

unfoldable pub samples_of : Client → List QuerySeries → List MetricSample
unfolding lookup
samples_of client [] = []
samples_of client (r ∷ rs) =
    record {
      metric_name = label (codes "__name__") r;
      labels = r.metric;
      value = sample_value client (second_value r);
      timestamp = sample_time client r.value;
    }
    ∷ samples_of client rs

abbrev no_samples : Client → Text → GoError
no_samples client query = plain (codes "no sample metrics found for query " ++ client.quoted query)

abbrev some_samples : Client → Text → List MetricSample → Result (List MetricSample)
some_samples client query [] = fail (no_samples client query)
some_samples client query (s ∷ ss) = ok (s ∷ ss)

-- What one query gives.
unfoldable pub try_query : Client → Text → Result QueryResult → Result (List MetricSample)
unfolding samples_of text_eq
try_query client query (fail e) = fail e
try_query client query (ok result) =
    if text_eq result.status (codes "success")
    then some_samples client query (samples_of client result.series)
    else fail (plain (codes "query returned non-success status: " ++ result.status))

abbrev sample_error : Option GoError → GoError
sample_error none = plain (codes "sample query failed: no queries executed")
sample_error (some e) = wrap (codes "sample query failed") e

abbrev or_next :
    (Option GoError → Result (List MetricSample))
    → Result (List MetricSample)
    → Result (List MetricSample)
or_next rest (ok samples) = ok samples
or_next rest (fail e) = rest (some e)

-- The queries in turn; the last error is kept.
unfoldable pub try_queries :
    Client → ℕ → ℕ → List Text → Option GoError → Result (List MetricSample)
unfolding try_query
try_queries client now n [] last = fail (sample_error last)
try_queries client now n (query ∷ queries) last =
    or_next (try_queries client now (n + 1) queries)
      (try_query client query (client.ask n query now))

unfoldable pub get_sample : Client → ℕ → ExportConfig → ℤ → Result (List MetricSample)
unfolding build_sample_queries_for_config try_queries
get_sample client now config limit =
    try_queries client now 0 (build_sample_queries_for_config client config limit) none
