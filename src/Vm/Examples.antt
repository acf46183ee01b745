-- ===== src/Vm/Examples.antt =====
-- The theorems on errors at concrete responses.
use vmgather.Prelude.{◌≡◌, refl, List, [], ◌∷◌, Text, codes, contains, to_lower, trim_space}
use vmgather.Vm.Errors.{
  query_timeout, missing_route, GoError, api, error_kind_of, classify_response_error,
  hint_for_error, tenant_hint,
}
use vmgather.Vm.Kinds.{wrap_all, classify_response_error_tenant}

abbrev prefixes : List Text
prefixes = codes "export failed" ∷ codes "metrics processing failed" ∷ []

abbrev timeout : GoError
timeout = api 422 (codes "query timeout") query_timeout

classify_response_error_tenant_example :
    (error_kind_of (wrap_all prefixes (classify_response_error 400 (codes "missing accountID")))
      ≡ missing_route)
    × (hint_for_error (wrap_all prefixes (classify_response_error 400 (codes "missing accountID")))
        ≡ tenant_hint)
unfolding contains to_lower trim_space
classify_response_error_tenant_example =
    classify_response_error_tenant prefixes 400 (codes "missing accountID") refl
