-- ===== src/Importer/Profiles.antt =====
-- internal/importer/server/server.go: the recent profiles, which keep the settings of an import for the next
-- one, without the secrets.
pub mod Recent
use vmgather.Prelude.{
  ℕ, suc, ◌+◌, Bool, true, false, not, ◌||◌, List, [], ◌∷◌, ◌++◌, Option, none, some, Text, codes,
  ℤ, pos, contains, text_eq, to_lower, trim_space, if◌then◌else◌, leb, leb_ℤ, take, map,
}
use vmgather.Prelude.Decimal.{format_int}
use vmgather.Prelude.Search.{join, trim_prefix}
use vmgather.Importer.Defs.{UploadConfig}
use vmgather.Importer.DropLabels.{sanitize_drop_labels}
use vmgather.Importer.Endpoints.{Url, Urls}
use vmgather.Importer.JobDefs.{no_config}

pub record RecentProfile : Type 0 where
  pub id : Text
  pub endpoint : Text
  pub tenant_id : Text
  pub auth_type : Text
  pub username : Text
  pub custom_header_name : Text
  pub skip_tls_verify : Bool
  pub metric_step_seconds : ℤ
  pub batch_window_secs : ℤ
  pub drop_old : Bool
  pub time_shift_ms : ℤ
  pub max_labels_override : ℤ
  pub drop_labels : List Text
  pub last_used_at : ℤ

unfoldable pub sanitize_max_labels_override : ℤ → ℤ
sanitize_max_labels_override value = if leb_ℤ value (pos 0) then pos 0 else value

unfoldable pub normalize_auth_type : Text → Text
unfolding to_lower trim_space text_eq
normalize_auth_type auth_type =
    let kind = to_lower (trim_space auth_type) in
    if text_eq kind (codes "basic")
      || text_eq kind (codes "bearer")
      || text_eq kind (codes "header")
    then kind
    else codes "none"

-- A parsed endpoint without its user.
abbrev pub without_user : Urls → Text → Bool → Option Url → Text
without_user urls endpoint added_scheme none = endpoint
without_user urls endpoint added_scheme (some parsed) =
    let sanitized = urls.url_text (record parsed { user = none }) in
    if added_scheme then trim_prefix sanitized (codes "http://") else sanitized

unfoldable pub sanitize_endpoint_for_storage : Urls → Text → Text
unfolding trim_space contains
sanitize_endpoint_for_storage urls raw =
    let endpoint = trim_space raw in
    let has_scheme = contains endpoint (codes "://") in
    let candidate = if has_scheme then endpoint else codes "http://" ++ endpoint in
    if text_eq endpoint []
    then []
    else without_user urls endpoint (not has_scheme) (urls.parse_url candidate)

-- Package url, hash/fnv with the base 16, and the time.
pub record Storage : Type 0 where
  pub urls : Urls
  pub fnv : Text → Text
  pub now : ℤ

abbrev pub bool_text : Bool → Text
bool_text true = codes "true"
bool_text false = codes "false"

-- The text that the identifier of a profile is the hash of.
unfoldable pub profile_key : RecentProfile → Text
unfolding to_lower join
profile_key p = join (codes "|") (
    to_lower p.endpoint
    ∷ p.tenant_id
    ∷ p.auth_type
    ∷ p.username
    ∷ p.custom_header_name
    ∷ bool_text p.skip_tls_verify
    ∷ format_int p.metric_step_seconds
    ∷ format_int p.batch_window_secs
    ∷ bool_text p.drop_old
    ∷ format_int p.time_shift_ms
    ∷ format_int p.max_labels_override
    ∷ join (codes ",") p.drop_labels
    ∷ [])

-- The profile of a configuration, before its identifier is known.
unfoldable pub unnamed_profile : Storage → UploadConfig → RecentProfile
unfolding sanitize_endpoint_for_storage normalize_auth_type sanitize_max_labels_override
    sanitize_drop_labels trim_space
unnamed_profile storage cfg =
    let auth_type = normalize_auth_type cfg.auth_type in
    record {
      id = [];
      endpoint = sanitize_endpoint_for_storage storage.urls cfg.endpoint;
      tenant_id = trim_space cfg.tenant_id;
      auth_type = auth_type;
      username = if text_eq auth_type (codes "basic") then trim_space cfg.username else [];
      custom_header_name =
          if text_eq auth_type (codes "header") then trim_space cfg.custom_header_name else [];
      skip_tls_verify = cfg.skip_tls_verify;
      metric_step_seconds = cfg.metric_step_seconds;
      batch_window_secs = cfg.batch_window_secs;
      drop_old = cfg.drop_old;
      time_shift_ms = cfg.time_shift_ms;
      max_labels_override = sanitize_max_labels_override cfg.max_labels_override;
      drop_labels = sanitize_drop_labels cfg.drop_labels;
      last_used_at = storage.now;
    }

unfoldable pub build_recent_profile : Storage → UploadConfig → Option RecentProfile
unfolding unnamed_profile profile_key
build_recent_profile storage cfg =
    let profile = unnamed_profile storage cfg in
    if text_eq profile.endpoint []
    then none
    else some (record profile { id = storage.fnv (profile_key profile) })

abbrev pub max_recent_profiles : ℕ
max_recent_profiles = 10

-- The loop over the profiles kept so far, where `kept` are in the new list.
unfoldable pub keep_others : Text → ℕ → List RecentProfile → List RecentProfile
unfolding text_eq
keep_others id kept [] = []
keep_others id kept (existing ∷ profiles) =
    let skipped = keep_others id kept profiles in
    let more = keep_others id (kept + 1) profiles in
    if text_eq existing.id id
    then skipped
    else existing ∷ (if leb max_recent_profiles (kept + 1) then [] else more)

abbrev pub saved : List RecentProfile → Option RecentProfile → List RecentProfile
saved profiles none = profiles
saved profiles (some profile) = profile ∷ keep_others profile.id 1 profiles

-- The list after a save, which is also written to a file.
unfoldable pub save_recent_profile :
    Storage → UploadConfig → List RecentProfile → List RecentProfile
unfolding build_recent_profile keep_others
save_recent_profile storage cfg profiles = saved profiles (build_recent_profile storage cfg)

abbrev pub id_of : Option RecentProfile → Text
id_of none = []
id_of (some profile) = profile.id

-- A profile that was read from the file.
unfoldable pub loaded_profile : Storage → RecentProfile → RecentProfile
unfolding sanitize_endpoint_for_storage normalize_auth_type sanitize_max_labels_override
    sanitize_drop_labels build_recent_profile
loaded_profile storage p =
    let auth_type = normalize_auth_type p.auth_type in
    let clean = record p {
      endpoint = sanitize_endpoint_for_storage storage.urls p.endpoint;
      auth_type = auth_type;
      username = if text_eq auth_type (codes "basic") then p.username else [];
      custom_header_name = if text_eq auth_type (codes "header") then p.custom_header_name else [];
      drop_labels = sanitize_drop_labels p.drop_labels;
      max_labels_override = sanitize_max_labels_override p.max_labels_override;
    } in
    let cfg = record no_config {
      endpoint = clean.endpoint;
      tenant_id = clean.tenant_id;
      auth_type = clean.auth_type;
      username = clean.username;
      custom_header_name = clean.custom_header_name;
      skip_tls_verify = clean.skip_tls_verify;
      metric_step_seconds = clean.metric_step_seconds;
      batch_window_secs = clean.batch_window_secs;
      drop_old = clean.drop_old;
      time_shift_ms = clean.time_shift_ms;
      max_labels_override = clean.max_labels_override;
      drop_labels = clean.drop_labels;
    } in
    if text_eq clean.id []
    then record clean { id = id_of (build_recent_profile storage cfg) }
    else clean

-- What the file holds, if it can be read; else the list of a new server, which is empty.
unfoldable pub load_recent_profiles : Storage → Option (List RecentProfile) → List RecentProfile
unfolding loaded_profile
load_recent_profiles storage none = []
load_recent_profiles storage (some profiles) =
    take max_recent_profiles (map (loaded_profile storage) profiles)

unfoldable pub parse_bool_form_value : Text → Bool
unfolding to_lower trim_space text_eq
parse_bool_form_value value =
    let text = to_lower (trim_space value) in
    text_eq text (codes "1")
    || text_eq text (codes "true")
    || text_eq text (codes "yes")
    || text_eq text (codes "on")
