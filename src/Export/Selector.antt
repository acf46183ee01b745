-- ===== src/Export/Selector.antt =====
-- export_service.go and vm_service.go: the selector or query of an export. The regular expressions of
-- the code are written out as matchers, `regexp.QuoteMeta` and `strings` functions too.
use vmgather.Prelude.{
  ℕ, Bool, true, false, not, ◌&&◌, ◌||◌, List, [], ◌∷◌, ◌++◌, Option, none, some, Text, codes, ◌==◌,
  leb, if◌then◌else◌, text_eq, has_prefix, trim_space, drop,
}
use mathlib.Core.List.{reverse}
use vmgather.Domain.{ExportConfig, mode_custom, query_selector, query_metrics_ql}

-- regexp.QuoteMeta
abbrev pub is_meta : ℕ → Bool
is_meta c =
    c == b'.'
    || c == b'+'
    || c == b'*'
    || c == b'?'
    || c == b'('
    || c == b')'
    || c == b'|'
    || c == b'['
    || c == b']'
    || c == b'{'
    || c == b'}'
    || c == b'^'
    || c == b'$'
    || c == 92

unfoldable pub quote_meta : Text → Text
quote_meta [] = []
quote_meta (c ∷ s) = let rest = quote_meta s in if is_meta c then 92 ∷ c ∷ rest else c ∷ rest

-- strings.Join
unfoldable pub join_texts : Text → List Text → Text
join_texts sep [] = []
join_texts sep (x ∷ []) = x
join_texts sep (x ∷ y ∷ xs) = x ++ (sep ++ join_texts sep (y ∷ xs))

abbrev quote_all : List Text → List Text
quote_all [] = []
quote_all (j ∷ js) = quote_meta j ∷ quote_all js

-- What stands between the braces of `buildJobFilterSelector`.
unfoldable pub job_matcher : List Text → Text
job_matcher jobs = codes "job=~\"" ++ (join_texts (codes "|") (quote_all jobs) ++ codes "\"")

abbrev braces : Text → Text
braces inside = b'{' ∷ (inside ++ codes "}")

-- vm_service.go
unfoldable pub build_job_filter_selector : List Text → Text
build_job_filter_selector [] = codes "{job!=\"\"}"
build_job_filter_selector (j ∷ js) = braces (job_matcher (j ∷ js))

unfoldable pub build_selector : List Text → Text
build_selector [] = codes "{__name__!=\"\"}"
build_selector (j ∷ js) = build_job_filter_selector (j ∷ js)

-- The classes [a-zA-Z_:] and [a-zA-Z0-9_:], and \s.
abbrev pub is_name_start : ℕ → Bool
is_name_start c = leb b'a' c && leb c b'z' || leb b'A' c && leb c b'Z' || c == b'_' || c == b':'

abbrev pub is_name_byte : ℕ → Bool
is_name_byte c = is_name_start c || leb b'0' c && leb c b'9'

abbrev pub is_blank : ℕ → Bool
is_blank c = c == 9 || c == 10 || c == 12 || c == 13 || c == 32

-- The longest front part of bytes that pass a test, and the rest.
unfoldable pub span : (ℕ → Bool) → Text → Text × Text
span p [] = ([], [])
span p (c ∷ s) = let (front, rest) = span p s in if p c then (c ∷ front, rest) else ([], c ∷ s)

-- `s` without its last byte, if that is a closing brace.
abbrev last_brace : Text → Option Text
last_brace [] = none
last_brace (c ∷ s) = if c == b'}' then some (reverse s) else none

unfoldable pub before_brace : Text → Option Text
before_brace s = last_brace (reverse s)

unfoldable pub has_newline : Text → Bool
has_newline [] = false
has_newline (c ∷ s) = c == 10 || has_newline s

abbrev one_line : Option Text → Option Text
one_line none = none
one_line (some s) = if has_newline s then none else some s

-- What `metricSelectorPattern` finds behind the name: blanks, then the text within braces.
abbrev braces_body : Text → Option Text
braces_body [] = none
braces_body (c ∷ s) = if c == b'{' then one_line (before_brace s) else none

abbrev with_name : Text × Text → Option (Text × Text)
with_name ([], rest) = none
with_name (c ∷ name, rest) =
    if is_name_start c
    then (elim (braces_body (span is_blank rest).1) [
      | none ↦ none
      | some inside ↦ some (c ∷ name, inside)
    ])
    else none

-- metricSelectorPattern: the name and the text within the braces.
unfoldable pub match_metric_selector : Text → Option (Text × Text)
unfolding span before_brace has_newline
match_metric_selector s = with_name (span is_name_byte s)

-- metricNamePattern
unfoldable pub is_metric_name : Text → Bool
unfolding span
is_metric_name [] = false
is_metric_name (c ∷ s) = is_name_start c && text_eq (span is_name_byte s).1 []

-- One place where jobMatcherPattern may match: blanks, `job`, blanks and an operator.
unfoldable pub job_matcher_at : Text → Bool
unfolding span
job_matcher_at s =
    let t = (span is_blank s).1 in
    has_prefix t (codes "job")
    && (let u = (span is_blank (drop 3 t)).1 in
        has_prefix u (codes "=") || has_prefix u (codes "!=") || has_prefix u (codes "!~"))

unfoldable pub job_matcher_behind : Text → Bool
job_matcher_behind [] = false
job_matcher_behind (c ∷ s) = c == b',' && job_matcher_at s || job_matcher_behind s

-- jobMatcherPattern matches at the start or behind a comma.
unfoldable pub contains_job_matcher : Text → Bool
unfolding job_matcher_at job_matcher_behind
contains_job_matcher s = job_matcher_at s || job_matcher_behind s

-- The matcher put behind what the braces hold already.
abbrev pub add_matcher : Text → Text → Text → Option Text
add_matcher name inside matcher =
    if contains_job_matcher inside
    then none
    else if text_eq inside []
    then some (name ++ braces matcher)
    else some (name ++ braces (inside ++ (b',' ∷ matcher)))

-- strings.HasPrefix(s, "{") && strings.HasSuffix(s, "}"): what stands between, `TrimPrefix` and
-- `TrimSuffix` taken together.
abbrev pub within_braces : Text → Option Text
within_braces [] = none
within_braces (c ∷ s) = if c == b'{' then before_brace s else none

unfoldable pub apply_job_matcher_to_selector : Text → List Text → Option Text
unfolding contains_job_matcher match_metric_selector is_metric_name before_brace
apply_job_matcher_to_selector selector [] = none
apply_job_matcher_to_selector selector (j ∷ js) =
    let trimmed = trim_space selector in
    let matcher = job_matcher (j ∷ js) in
    if text_eq trimmed [] then none else elim (within_braces trimmed) [
      | some inside ↦ add_matcher [] (trim_space inside) matcher
      | none ↦ elim (match_metric_selector trimmed) [
        | some (name, inside) ↦ add_matcher name (trim_space inside) matcher
        | none ↦ if is_metric_name trimmed then some (trimmed ++ braces matcher) else none
      ]
    ]

-- fmt.Sprintf("(%s) and on(job) %s", selector, filter)
abbrev pub and_on_job : Text → List Text → Text
and_on_job selector jobs =
    b'(' ∷ (selector ++ (codes ") and on(job) " ++ build_job_filter_selector jobs))

abbrev selector_query : Text → List Text → Text × Bool
selector_query query [] = (query, false)
selector_query query (j ∷ js) = elim (apply_job_matcher_to_selector query (j ∷ js)) [
  | some rewritten ↦ (rewritten, false)
  | none ↦ (and_on_job query (j ∷ js), true)
]

-- The selector or query, and whether it needs query_range.
unfoldable pub build_export_query : ExportConfig → Text × Bool
build_export_query c =
    if text_eq c.mode mode_custom && not (text_eq c.query [])
    then (if text_eq c.query_type query_selector
        then selector_query c.query c.jobs
        else if text_eq c.query_type query_metrics_ql
        then (c.query, true)
        else (c.query, false))
    else (build_selector c.jobs, false)
