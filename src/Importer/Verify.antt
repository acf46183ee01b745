-- ===== src/Importer/Verify.antt =====
-- internal/importer/server/server.go: the query for the imported series after an import.
use vmgather.Prelude.{
  ℕ, zero, suc, ◌+◌, ◌/◌, Bool, false, ◌&&◌, List, [], ◌∷◌, ◌++◌, Option, none, some, Text, codes,
  ℤ, pos, negsuc, text_eq, trim_space, contains, if◌then◌else◌, ltb, leb, length, take, lookup, map,
  ◌==◌,
}
use vmgather.Prelude.Decimal.{format, format_int}
use vmgather.Prelude.Search.{join, replace_first, trim_suffix}
use vmgather.Vm.Errors.{error_text}
use vmgather.Importer.Defs.{UploadConfig, ImportSummary}
use vmgather.Importer.Timestamps.{add_int64}
use vmgather.Importer.DropLabels.{sort_strings}
use vmgather.Importer.Endpoints.{
  Outcome, done, failed, get, request, Response, Client, apply_auth_headers, apply_tenant_headers,
}

pub record VerificationResult : Type 0 where
  pub verified : Bool
  pub query : Text
  pub series_seen : ℕ
  pub start : Text
  pub end : Text
  pub message : Text

-- `url.Values.Encode`, `time.RFC3339`, the verb %q, and encoding/json on an answer: its status and the
-- number of its series.
pub record Formats : Type 0 where
  pub encode_query : List (Text × Text) → Text
  pub rfc3339 : ℤ → Text
  pub quoted : Text → Text
  pub decode_series : Text → Outcome (Text × ℕ)

-- `k="v"`
abbrev pub matcher : Text → Text → Text
matcher k v = k ++ (codes "=\"" ++ (v ++ codes "\""))

abbrev pub value_or_empty : Option Text → Text
value_or_empty none = []
value_or_empty (some v) = v

unfoldable pub build_label_matcher : ImportSummary → Text
unfolding text_eq sort_strings lookup join
build_label_matcher summary =
    let keys = sort_strings (map (λ (e : Text × Text). e.0) summary.labels) in
    let labels = map (λ key. matcher key (value_or_empty (lookup key summary.labels))) keys in
    let name = matcher (codes "__name__") summary.metric_name in
    codes "{"
    ++ (join (codes ",") (if text_eq summary.metric_name [] then labels else name ∷ labels)
        ++ codes "}")

-- `(time.Time).Unix` of milliseconds.
abbrev pub unix_seconds : ℤ → ℤ
unix_seconds (pos n) = pos (n / 1000)
unix_seconds (negsuc n) = negsuc (n / 1000)

abbrev pub unverified : Text → Text → VerificationResult
unverified query message = record {
  verified = false;
  query = query;
  series_seen = 0;
  start = [];
  end = [];
  message = message;
}

unfoldable pub series_url : Text → Text
unfolding contains replace_first
series_url query_url =
    if contains query_url (codes "/api/v1/query")
    then replace_first query_url (codes "/api/v1/query") (codes "/api/v1/series")
    else trim_suffix query_url (codes "/") ++ codes "/api/v1/series"

-- The sign for an omission in UTF-8.
abbrev pub ellipsis : Text
ellipsis = 226 ∷ 128 ∷ 166 ∷ []

abbrev pub preview : Text → Text
preview body = if ltb 200 (length body) then take 200 body ++ ellipsis else body

-- What one answer gives: a result, or the message for another attempt.
abbrev pub read_series :
    Formats → Text → ℤ → ℤ → Response → Outcome (Text × ℕ) → Option VerificationResult × Text
read_series formats query start end resp (failed e) = (
  none,
  codes "invalid verification payload: "
      ++ (error_text e ++ (codes "; body=" ++ formats.quoted (preview resp.body))),
)
read_series formats query start end resp (done (status, series)) = (
  some (record {
    verified = text_eq status (codes "success") && ltb 0 series;
    query = query;
    series_seen = series;
    start = formats.rfc3339 start;
    end = formats.rfc3339 end;
    message =
        format series
        ++ (codes " matching series observed between "
            ++ (formats.rfc3339 start ++ (codes " and " ++ formats.rfc3339 end)));
  }),
  [],
)

unfoldable pub read_answer :
    Formats → Text → ℤ → ℤ → Outcome Response → Option VerificationResult × Text
unfolding error_text trim_space
read_answer formats query start end (failed e) = (none, error_text e)
read_answer formats query start end (done resp) =
    if leb 300 resp.code
    then (none, codes "query failed: " ++ (resp.status ++ (codes " " ++ trim_space resp.body)))
    else if length resp.body == 0
    then (none, codes "verification response is empty (HTTP " ++ (resp.status ++ codes ")"))
    else read_series formats query start end resp (formats.decode_series resp.body)

abbrev pub or_again :
    (Text → VerificationResult) → Option VerificationResult × Text → VerificationResult
or_again again (some result, message) = result
or_again again (none, message) = again message

-- The attempts that are left, with the last error; the requests are numbered on from `sent`.
unfoldable pub verify_attempts :
    Formats → Client → UploadConfig → Text → Text → ℤ → ℤ → ℕ → ℕ → Text → VerificationResult
unfolding read_answer apply_auth_headers apply_tenant_headers
verify_attempts formats client cfg url query start end sent zero last = unverified query last
verify_attempts formats client cfg url query start end sent (suc left) last =
    or_again (verify_attempts formats client cfg url query start end (sent + 1) left)
      (read_answer formats query start end (client.send sent (request cfg get url [] [])))

abbrev pub verify_range :
    Formats → Client → UploadConfig → ImportSummary → Text → ℕ → ℤ → ℤ → VerificationResult
verify_range formats client cfg summary query_url sent start end =
    let query = build_label_matcher summary in
    let params =
      (codes "match[]", query)
      ∷ (codes "start", format_int (unix_seconds (add_int64 start (negsuc 59999))))
      ∷ (codes "end", format_int (unix_seconds (add_int64 end (pos 60000))))
      ∷ [] in
    verify_attempts formats client cfg
      (series_url query_url ++ (codes "?" ++ formats.encode_query params)) query start end sent 3 []

abbrev pub lacks_range : VerificationResult
lacks_range =
    unverified [] (codes "import completed but summary lacks metric/time range for verification")

unfoldable pub verify_import :
    Formats → Client → UploadConfig → ImportSummary → Text → ℕ → VerificationResult
unfolding verify_attempts build_label_matcher series_url add_int64
verify_import formats client cfg summary query_url sent = elim summary.start [
  | none ↦ lacks_range
  | some start ↦ elim summary.end [
    | none ↦ lacks_range
    | some end ↦
        if text_eq summary.metric_name []
        then lacks_range
        else verify_range formats client cfg summary query_url sent start end
  ]
]
