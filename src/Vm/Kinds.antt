-- ===== src/Vm/Kinds.antt =====
-- The kinds of errors: `ErrorKindOf`, `classifyResponseError` and `HintForError` of
-- internal/infrastructure/vm on wrapped errors.
use vmgather.Prelude.{
  ℕ, ◌≡◌, ◌≢◌, refl, ◌∙◌, true, ◌||◌, List, [], ◌∷◌, some, Text, codes, contains, trim_space,
  to_lower,
}
use vmgather.Vm.Errors.{
  ErrorKind, unknown, missing_route, query_timeout, too_many_series, transient, GoError, wrap,
  api_with, missing_tenant_path, api_kind, error_kind_of, classify_response_error,
  is_missing_tenant, hint_for_error, tenant_hint, by_api_kind,
}

-- The wrappings that an error gets on its way up, outermost first.
abbrev pub wrap_all : List Text → GoError → GoError
wrap_all [] e = e
wrap_all (p ∷ ps) e = wrap p (wrap_all ps e)

api_kind-wrap_all : (ps : List Text) (e : GoError) → api_kind (wrap_all ps e) ≡ api_kind e
unfolding api_kind
api_kind-wrap_all [] e = refl
api_kind-wrap_all (p ∷ ps) e = api_kind-wrap_all ps e

-- However often it is wrapped, an error that holds an API error of a known kind has that kind.
pub error_kind_of-wrap_all :
    (ps : List Text) (e : GoError) (k : ErrorKind)
    → api_kind e ≡ some k
    → k ≢ unknown
    → error_kind_of (wrap_all ps e) ≡ k
unfolding error_kind_of
error_kind_of-wrap_all ps e k h n = rw (api_kind-wrap_all ps e ∙ h) (known k _ n)
  where
    known : (k f : ErrorKind) → k ≢ unknown → by_api_kind f (some k) ≡ k
    known unknown f n = absurd (n refl)
    known missing_route f n = refl
    known query_timeout f n = refl
    known too_many_series f n = refl
    known transient f n = refl

is_missing_tenant-wrap_all :
    (ps : List Text) (e : GoError) → is_missing_tenant (wrap_all ps e) ≡ is_missing_tenant e
unfolding is_missing_tenant
is_missing_tenant-wrap_all [] e = refl
is_missing_tenant-wrap_all (p ∷ ps) e = is_missing_tenant-wrap_all ps e

tenant_response :
    (status : ℕ) (body : Text)
    → contains (to_lower (trim_space body)) (codes "cannot parse accountid")
        || contains (to_lower (trim_space body)) (codes "missing accountid")
      ≡ true
    → classify_response_error status body
      ≡ api_with status (trim_space body) missing_route missing_tenant_path
unfolding classify_response_error
tenant_response status body h = rw h

-- A response whose body speaks of a missing account gives, however wrapped, an error of the kind
-- missing route, with the hint about the tenant's path.
pub classify_response_error_tenant :
    (ps : List Text) (status : ℕ) (body : Text)
    → contains (to_lower (trim_space body)) (codes "cannot parse accountid")
        || contains (to_lower (trim_space body)) (codes "missing accountid")
      ≡ true
    → let e = wrap_all ps (classify_response_error status body) in
      (error_kind_of e ≡ missing_route) × (hint_for_error e ≡ tenant_hint)
unfolding hint_for_error
classify_response_error_tenant ps status body h =
    let e = classify_response_error status body in
    let kind : api_kind e ≡ some missing_route =
      unfold api_kind in rw (tenant_response status body h) in
    let tenant : is_missing_tenant (wrap_all ps e) ≡ true =
      is_missing_tenant-wrap_all ps e
      ∙ (unfold is_missing_tenant in rw (tenant_response status body h)) in
    (error_kind_of-wrap_all ps e missing_route kind (cc), rw tenant)
