-- ===== src/Vm/Errors.antt =====
-- internal/infrastructure/vm/errors.go, and `classifyResponseError` and `HintForError` of client.go. A
-- Go error is a tree: what the tests of the code on it see is its text, its chain of wrapped errors,
-- the API errors in the chain, and a few known values.
use vmgather.Prelude.{
  ℕ, Bool, true, false, ◌&&◌, ◌||◌, List, [], ◌∷◌, ◌++◌, Option, none, some, Text, codes, ltb,
  if◌then◌else◌, contains, to_lower, trim_space, text_eq,
}
use vmgather.Prelude.Decimal.{format}

pub data ErrorKind : Type 0 where
  unknown missing_route query_timeout too_many_series transient : ErrorKind

pub data GoError : Type 0 where
  -- errors.New, and errors of other packages
  plain : Text → GoError
  -- fmt.Errorf("...: %w", err)
  wrap : Text → GoError → GoError
  -- *APIError without and with an error in its field Err
  api : ℕ → Text → ErrorKind → GoError
  api_with : ℕ → Text → ErrorKind → GoError → GoError
  missing_tenant_path : GoError
  eof net_closed context_canceled : GoError
  -- a net.Error whose Timeout is true
  net_timeout : Text → GoError

-- `(*APIError).Error` where the body is empty: `inner` is the text of the field Err.
abbrev pub api_text_empty : ℕ → Option Text → Text
api_text_empty status inner =
    if ltb 0 status
    then codes "unexpected status code " ++ format status
    else elim inner [ none ↦ codes "API request failed" | some text ↦ text ]

unfoldable pub api_text : ℕ → Text → Option Text → Text
api_text status body inner =
    let trimmed = trim_space body in
    if text_eq trimmed []
    then api_text_empty status inner
    else if ltb 0 status
    then codes "unexpected status code " ++ (format status ++ (codes ": " ++ trimmed))
    else trimmed

unfoldable pub error_text : GoError → Text
unfolding api_text
error_text (plain text) = text
error_text (wrap prefix e) = prefix ++ (codes ": " ++ error_text e)
error_text (api status body kind) = api_text status body none
error_text (api_with status body kind e) = api_text status body (some (error_text e))
error_text missing_tenant_path = codes "vmselect requires /select/<tenant>/prometheus"
error_text eof = codes "EOF"
error_text net_closed = codes "use of closed network connection"
error_text context_canceled = codes "context canceled"
error_text (net_timeout text) = text

-- The kind of the first API error in the chain (`errors.As`).
unfoldable pub api_kind : GoError → Option ErrorKind
api_kind (wrap prefix e) = api_kind e
api_kind (api status body kind) = some kind
api_kind (api_with status body kind e) = some kind
api_kind _ = none

abbrev pub is_one_of : Text → List Text → Bool
is_one_of msg [] = false
is_one_of msg (p ∷ ps) = contains msg p || is_one_of msg ps

abbrev pub timeout_phrases : List Text
timeout_phrases =
    codes "timeout exceeded during query execution"
    ∷ codes "timeout exceeded during the query"
    ∷ codes "timeout exceeded while fetching data block"
    ∷ codes "timeout exceeded before starting data export"
    ∷ []

abbrev pub deadline_phrase : Text
deadline_phrase = codes "context deadline exceeded"

abbrev pub series_phrases : List Text
series_phrases =
    codes "the number of matching timeseries exceeds"
    ∷ codes "cannot select more than -search.maxexportseries"
    ∷ []

abbrev pub status_404_phrase : Text
status_404_phrase = codes "unexpected status code 404"

-- The phrases that both classifications have.
abbrev pub route_phrases : List Text
route_phrases = codes "missing route" ∷ codes "unsupported path" ∷ codes "not found" ∷ []

abbrev pub transient_phrases : List Text
transient_phrases =
    codes "broken pipe"
    ∷ codes "connection reset"
    ∷ codes "connection refused"
    ∷ codes "unexpected eof"
    ∷ []

-- `errors.Is(err, io.EOF) || errors.Is(err, net.ErrClosed)`, or a net.Error that timed out.
unfoldable pub is_connection_error : GoError → Bool
is_connection_error (wrap prefix e) = is_connection_error e
is_connection_error (api_with status body kind e) = is_connection_error e
is_connection_error eof = true
is_connection_error net_closed = true
is_connection_error (net_timeout text) = true
is_connection_error _ = false

unfoldable pub is_transient_error : GoError → Bool
is_transient_error e =
    is_connection_error e || is_one_of (to_lower (error_text e)) transient_phrases

unfoldable pub kind_of_message : Text → Option ErrorKind
kind_of_message msg =
    if is_one_of msg timeout_phrases || contains msg deadline_phrase
    then some query_timeout
    else if is_one_of msg series_phrases
    then some too_many_series
    else if is_one_of msg route_phrases || contains msg status_404_phrase
    then some missing_route
    else none

abbrev pub by_message : GoError → Option ErrorKind → ErrorKind
by_message e (some kind) = kind
by_message e none = if is_transient_error e then transient else unknown

abbrev pub by_api_kind : ErrorKind → Option ErrorKind → ErrorKind
by_api_kind fallback none = fallback
by_api_kind fallback (some unknown) = fallback
by_api_kind fallback (some kind) = kind

-- `ErrorKindOf` of an error that is not nil.
unfoldable pub error_kind_of : GoError → ErrorKind
error_kind_of e =
    by_api_kind (by_message e (kind_of_message (to_lower (error_text e)))) (api_kind e)

unfoldable pub classify_body : Text → ErrorKind
classify_body body =
    let msg = to_lower (trim_space body) in
    if is_one_of msg timeout_phrases
    then query_timeout
    else if is_one_of msg series_phrases
    then too_many_series
    else if is_one_of msg route_phrases
    then missing_route
    else unknown

-- client.go
unfoldable pub classify_response_error : ℕ → Text → GoError
classify_response_error status body =
    let trimmed = trim_space body in
    let lowered = to_lower trimmed in
    if contains lowered (codes "cannot parse accountid")
      || contains lowered (codes "missing accountid")
    then api_with status trimmed missing_route missing_tenant_path
    else if contains lowered (codes "unsupported url format")
        && contains lowered (codes "/prometheus/api")
    then api_with status trimmed missing_route missing_tenant_path
    else api status trimmed (classify_body trimmed)

-- `errors.Is(err, ErrMissingTenantPath)`
unfoldable pub is_missing_tenant : GoError → Bool
is_missing_tenant (wrap prefix e) = is_missing_tenant e
is_missing_tenant (api_with status body kind e) = is_missing_tenant e
is_missing_tenant missing_tenant_path = true
is_missing_tenant _ = false

pub data Hint : Type 0 where
  tenant_hint series_hint timeout_hint no_hint : Hint

abbrev pub kind_hint : ErrorKind → Hint
kind_hint too_many_series = series_hint
kind_hint query_timeout = timeout_hint
kind_hint _ = no_hint

-- client.go: which of its texts `HintForError` gives.
unfoldable pub hint_for_error : GoError → Hint
hint_for_error e = if is_missing_tenant e then tenant_hint else kind_hint (error_kind_of e)
