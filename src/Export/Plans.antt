-- ===== src/Export/Plans.antt =====
-- export_service.go: what `exportWindowAdaptive` goes on with after an error, and the attempts that a
-- split is made of.
use vmgather.Prelude.{
  ◌+◌, Bool, true, false, not, ◌&&◌, List, [], ◌∷◌, ◌++◌, Option, none, some, Text, codes, ℤ, pos,
  ltb_ℤ, if◌then◌else◌, text_eq,
}
use vmgather.Prelude.Decimal.{format_int}
use vmgather.Domain.{
  TimeRange, ExportConfig, ExportSafetyConfig, mode_custom, mode_cluster, query_selector,
}
use vmgather.Defaults.{next_autopilot_step}
use vmgather.Vm.Errors.{ErrorKind, GoError, wrap, missing_route, query_timeout, too_many_series}
use vmgather.Export.Selector.{apply_job_matcher_to_selector, and_on_job, build_selector}
use vmgather.Export.Split.{split_time_range}
use vmgather.Export.Process.{ExportAttempt, by_export, by_query_range}

-- What the `switch` of `exportWindowAdaptive` goes on with after an error.
pub data Plan : Type 0 where
  fall_back split_jobs give_up : Plan
  split_time : TimeRange → TimeRange → Plan
  raise_step : ℤ → Plan

abbrev pub has_many {ℓ} : {A : Type ℓ} → List A → Bool
has_many (x ∷ y ∷ xs) = true
has_many _ = false

abbrev pub below_max_depth : ExportSafetyConfig → ExportAttempt → Bool
below_max_depth safety a = ltb_ℤ (pos a.depth) safety.max_split_depth

abbrev pub or_raise : Option ℤ → Plan
or_raise none = give_up
or_raise (some step) = raise_step step

abbrev pub or_split : Option (TimeRange × TimeRange) → Plan → Plan
or_split none p = p
or_split (some (left, right)) p = split_time left right

-- The last case: a query that timed out is split by time, or goes on with a greater step.
unfoldable pub timeout_plan : ExportSafetyConfig → ExportAttempt → Plan
timeout_plan safety a =
    let raise = or_raise (next_autopilot_step a.step_seconds safety) in
    if safety.auto_split && below_max_depth safety a
    then or_split (split_time_range a.time_range safety.min_window_seconds) raise
    else raise

unfoldable pub plan_for : ExportSafetyConfig → ExportAttempt → ErrorKind → Plan
unfolding timeout_plan
plan_for safety a missing_route = if not a.use_query_range then fall_back else give_up
plan_for safety a too_many_series =
    if safety.auto_split && below_max_depth safety a && safety.split_by_job && has_many a.jobs
    then split_jobs
    else give_up
plan_for safety a query_timeout = if a.use_query_range then timeout_plan safety a else give_up
plan_for safety a _ = give_up

-- `buildJobSplitAttempt`; `none` is its `false`.
abbrev pub selector_child : ExportConfig → ExportAttempt → Text → ExportAttempt
selector_child config parent job = elim (apply_job_matcher_to_selector config.query (job ∷ [])) [
  | some rewritten ↦ record {
    selector = rewritten;
    time_range = parent.time_range;
    use_query_range = false;
    depth = parent.depth + 1;
    jobs = job ∷ [];
    strategy = by_export;
    step_seconds = parent.step_seconds;
  }
  | none ↦ record {
    selector = and_on_job config.query (job ∷ []);
    time_range = parent.time_range;
    use_query_range = true;
    depth = parent.depth + 1;
    jobs = job ∷ [];
    strategy = by_query_range;
    step_seconds = parent.step_seconds;
  }
]

unfoldable pub build_job_split_attempt : ExportConfig → ExportAttempt → Text → Option ExportAttempt
build_job_split_attempt config parent job =
    if text_eq config.mode mode_custom && text_eq config.query_type query_selector
    then some (selector_child config parent job)
    else if text_eq config.mode mode_cluster
    then some (record {
      selector = build_selector (job ∷ []);
      time_range = parent.time_range;
      use_query_range = false;
      depth = parent.depth + 1;
      jobs = job ∷ [];
      strategy = by_export;
      step_seconds = parent.step_seconds;
    })
    else none

-- The loop that builds the children, given up at the first that cannot be built.
abbrev pub cons_child :
    Option ExportAttempt → Option (List ExportAttempt) → Option (List ExportAttempt)
cons_child (some c) (some cs) = some (c ∷ cs)
cons_child _ _ = none

unfoldable pub job_children : ExportConfig → ExportAttempt → List Text → Option (List ExportAttempt)
unfolding build_job_split_attempt
job_children config parent [] = some []
job_children config parent (job ∷ jobs) =
    cons_child (build_job_split_attempt config parent job) (job_children config parent jobs)

abbrev pub time_child : ExportAttempt → TimeRange → ExportAttempt
time_child a tr = record a { time_range = tr; depth = a.depth + 1; strategy = by_query_range }

-- `enrichAdaptiveError`
unfoldable pub enrich_adaptive_error : ErrorKind → GoError → ExportAttempt → ℤ → GoError
enrich_adaptive_error query_timeout e a min_window_seconds =
    wrap
      (codes "query still exceeds VictoriaMetrics -search.maxQueryDuration after splitting down to "
        ++ (format_int min_window_seconds
            ++ (codes "s windows and sampling at "
                ++ (format_int a.step_seconds
                    ++ codes "s; narrow selector/query or use raw selector export"))))
      e
enrich_adaptive_error too_many_series e a min_window_seconds =
    if has_many a.jobs
    then wrap
        (codes "query exceeds VictoriaMetrics series limits; narrow selector/query or adjust "
          ++ codes "VictoriaMetrics -search.maxExportSeries / -search.maxUniqueTimeseries")
        e
    else wrap
        (codes "query exceeds VictoriaMetrics series limits and vmgather cannot split the request "
          ++ (codes "further by job; narrow selector/query or adjust VictoriaMetrics "
              ++ codes "-search.maxExportSeries / -search.maxUniqueTimeseries"))
        e
enrich_adaptive_error kind e a min_window_seconds =
    if a.use_query_range then wrap (codes "adaptive export failed while using query_range") e else e
