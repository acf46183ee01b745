-- ===== src/Importer/Retention.antt =====
-- internal/importer/server/server.go: what the importer reads of the settings of its target: the retention
-- and the limit of labels.
pub mod Durations
use vmgather.Prelude.{
  ℕ, zero, suc, ◌+◌, ◌-◌, ◌*◌, ◌/◌, ◌^◌, length, Bool, true, false, not, ◌&&◌, ◌||◌, List, [], ◌∷◌,
  ◌++◌, Option, none, some, Text, codes, ℤ, pos, negsuc, contains, text_eq, trim_space,
  if◌then◌else◌, ltb, leb, ltb_ℤ, leb_ℤ, ◌==◌, mul_int64,
}
use vmgather.Prelude.Decimal.{digits_value}
use vmgather.Prelude.Search.{cut}
use vmgather.Vm.Errors.{GoError, plain}
use vmgather.Importer.Defs.{UploadConfig}
use vmgather.Importer.Timestamps.{add_int64, div_int64}
use vmgather.Importer.Scanner.{scan_lines}
use vmgather.Importer.Endpoints.{
  Url, Urls, Outcome, done, failed, resolve_endpoints, Request, get, request, apply_auth_headers,
  apply_tenant_headers, Response, Client,
}

abbrev pub is_digit : ℕ → Bool
is_digit c = leb b'0' c && leb c b'9'

-- strconv.Atoi of digits: an error past the largest int.
unfoldable pub atoi_digits : Text → Option ℕ
unfolding digits_value
atoi_digits num = let n = digits_value 0 num in if ltb n (2 ^ 63) then some n else none

-- The nanoseconds of a unit.
abbrev pub unit_ns : ℕ → Option ℕ
unit_ns c =
    if c == b'y'
    then some (365 * 24 * 3600 * 10 ^ 9)
    else if c == b'w'
    then some (7 * 24 * 3600 * 10 ^ 9)
    else if c == b'd'
    then some (24 * 3600 * 10 ^ 9)
    else if c == b'h'
    then some (3600 * 10 ^ 9)
    else if c == b'm'
    then some (60 * 10 ^ 9)
    else if c == b's'
    then some (10 ^ 9)
    else none

abbrev pub add_duration : Text → ℕ → ℤ → Option ℕ → Option ℕ → Outcome ℤ
add_duration raw unit total none k =
    failed (plain (codes "invalid number in \"" ++ (raw ++ codes "\"")))
add_duration raw unit total (some n) none =
    failed (plain (codes "unsupported unit " ++ (unit ∷ [])))
add_duration raw unit total (some n) (some k) = done (add_int64 total (mul_int64 (pos n) k))

-- The closure `flush` of `parseRetentionDuration`.
unfoldable pub flush : Text → ℕ → ℤ → Text → Outcome ℤ
unfolding atoi_digits add_int64 mul_int64
flush raw unit total [] = failed (plain (codes "missing number before " ++ (unit ∷ [])))
flush raw unit total (c ∷ num) = add_duration raw unit total (atoi_digits (c ∷ num)) (unit_ns unit)

abbrev pub then_read : (ℤ → Outcome ℤ) → Outcome ℤ → Outcome ℤ
then_read f (failed e) = failed e
then_read f (done total) = f total

abbrev pub end_of_duration : Text → ℤ → Text → Outcome ℤ
end_of_duration raw total [] =
    if leb_ℤ total (pos 0)
    then failed (plain (codes "empty duration in \"" ++ (raw ++ codes "\"")))
    else done total
end_of_duration raw total (c ∷ num) =
    failed (plain (codes "dangling number without unit in \"" ++ (raw ++ codes "\"")))

-- The loop over the text, with the sum and the digits so far.
unfoldable pub read_duration : Text → ℤ → Text → Text → Outcome ℤ
unfolding flush
read_duration raw total num [] = end_of_duration raw total num
read_duration raw total num (c ∷ s) =
    let more = read_duration raw total (num ++ (c ∷ [])) s in
    let flushed = then_read (λ sum. read_duration raw sum [] s) (flush raw c total num) in
    if is_digit c then more else flushed

-- The duration in nanoseconds.
unfoldable pub parse_retention_duration : Text → Outcome ℤ
unfolding read_duration
parse_retention_duration raw = read_duration raw (pos 0) [] raw

abbrev pub value_text : Option (Text × Text) → Option Text
value_text none = none
value_text (some (v, rest)) = some v

abbrev pub value_behind : Option (Text × Text) → Option Text
value_behind none = none
value_behind (some (a, b)) = value_text (cut b (codes "\""))

-- The value of a flag in a line of the metrics of the target.
unfoldable pub read_flag_value : Text → Text → Option Text
unfolding contains cut
read_flag_value line flag =
    if contains line (codes "flag{") && contains line (codes "name=\"" ++ (flag ++ codes "\""))
    then value_behind (cut line (codes "value=\""))
    else none

abbrev pub default_token_bytes : ℕ
default_token_bytes = 64 * 1024

abbrev pub or_else {ℓ} : {A : Type ℓ} → Option A → Option A → Option A
or_else none o = o
or_else (some a) o = some a

-- The first line that a function takes; a line that is too long for the scanner ends the scan.
unfoldable pub first_of {ℓ} : {A : Type ℓ} → (Text → Option A) → List Text → Option A
first_of f [] = none
first_of f (l ∷ ls) =
    let found = or_else (f l) (first_of f ls) in
    if leb default_token_bytes (length l) then none else found

-- time.Now().Add(-dur).UnixMilli(), of times in nanoseconds.
unfoldable pub cutoff_ms : ℕ → ℤ → ℤ
cutoff_ms now (pos d) =
    if leb d now then pos ((now - d) / 10 ^ 6) else negsuc ((d - now + 10 ^ 6 - 1) / 10 ^ 6 - 1)
cutoff_ms now (negsuc d) = pos ((now + suc d) / 10 ^ 6)

abbrev pub cutoff_of : ℕ → Outcome ℤ → Option ℤ
cutoff_of now (failed e) = none
cutoff_of now (done duration) = some (cutoff_ms now duration)

abbrev pub retention_of : ℕ → Option Text → Option ℤ
retention_of now none = none
retention_of now (some text) = cutoff_of now (parse_retention_duration text)

-- A probe of the target: its addresses, its answers, the time in nanoseconds, and encoding/json on the
-- status of the time series database.
pub record Probe : Type 0 where
  pub urls : Urls
  pub client : Client
  pub now : ℕ
  pub retention_time : Text → Option Text

-- The body of a response below 300.
abbrev pub good_body : Outcome Response → Option Text
good_body (failed e) = none
good_body (done resp) = if ltb resp.code 300 then some resp.body else none

abbrev pub fetched : Probe → UploadConfig → ℕ → Url → Text → Option Text
fetched probe cfg sent parsed path = good_body (
    probe.client.send sent
      (request cfg get (probe.urls.url_text (record parsed { path = path })) [] []))

abbrev pub from_status : Probe → Option Text → Option ℤ
from_status probe none = none
from_status probe (some body) = elim (probe.retention_time body) [
  | none ↦ none
  | some text ↦ if text_eq text [] then none else retention_of probe.now (some text)
]

abbrev pub from_metrics {ℓ} : {A : Type ℓ} → (Text → Option A) → Option Text → Option A
from_metrics f none = none
from_metrics f (some body) = first_of f (scan_lines body)

abbrev pub zero_or : Option ℤ → ℤ
zero_or none = pos 0
zero_or (some n) = n

-- The address of the import, parsed, if it can be.
abbrev pub import_address : Probe → UploadConfig → Option Url
import_address probe cfg = elim (resolve_endpoints probe.urls cfg) [
  | failed e ↦ none
  | done (import_url, query_url) ↦ probe.urls.parse_url import_url
]

-- The oldest time in milliseconds that the target keeps, or 0. The second request is `sent + 1`.
unfoldable pub retention_cutoff : Probe → UploadConfig → ℕ → ℤ
unfolding resolve_endpoints apply_auth_headers apply_tenant_headers first_of scan_lines
    read_flag_value parse_retention_duration cutoff_ms
retention_cutoff probe cfg sent = elim (import_address probe cfg) [
  | none ↦ pos 0
  | some parsed ↦ zero_or (
      or_else (from_status probe (fetched probe cfg sent parsed (codes "/api/v1/status/tsdb"))) (
        from_metrics
          (λ line. retention_of probe.now (read_flag_value line (codes "retentionPeriod")))
          (fetched probe cfg (sent + 1) parsed (codes "/metrics"))))
]

unfoldable pub all_digits : Text → Bool
all_digits [] = true
all_digits (c ∷ s) = is_digit c && all_digits s

-- strconv.Atoi where the number is positive.
unfoldable pub atoi_positive : Text → Option ℕ
unfolding all_digits atoi_digits
atoi_positive [] = none
atoi_positive (c ∷ s) =
    let digits = if c == b'+' then s else c ∷ s in
    elim (atoi_digits digits) [
      | some (suc n) ↦ if all_digits digits then some (suc n) else none
      | _ ↦ none
    ]

abbrev pub limit_of : Option Text → Option ℕ
limit_of none = none
limit_of (some raw) = atoi_positive (trim_space raw)

abbrev pub limit_or : Option ℕ → ℤ
limit_or none = pos 0
limit_or (some n) = pos n

unfoldable pub max_labels_per_timeseries : Probe → UploadConfig → ℕ → ℤ
unfolding resolve_endpoints apply_auth_headers apply_tenant_headers first_of scan_lines
    read_flag_value atoi_positive trim_space
max_labels_per_timeseries probe cfg sent = elim (import_address probe cfg) [
  | none ↦ pos 0
  | some parsed ↦ limit_or (
      from_metrics (λ line. limit_of (read_flag_value line (codes "maxLabelsPerTimeseries")))
        (fetched probe cfg sent parsed (codes "/metrics")))
]

-- The limit found, the limit to use, and where that is from.
unfoldable pub resolve_max_labels_limit : Probe → UploadConfig → ℕ → ℤ × ℤ × Text
unfolding max_labels_per_timeseries
resolve_max_labels_limit probe cfg sent =
    let detected = max_labels_per_timeseries probe cfg sent in
    if ltb_ℤ (pos 0) cfg.max_labels_override
    then (detected, cfg.max_labels_override, codes "manual")
    else (detected, detected, if leb_ℤ detected (pos 0) then codes "unknown" else codes "metrics")
