-- ===== src/Category/Retry.antt =====
-- src/model_council/retry_policy.py: the runner's allowlist of retryable categories.
use mathlib.Core.Logic.{ite}
use model_council_lab.Prelude.{Bool, true, false, List, [], ◌∷◌, ◌≡◌, ◌||◌, arith, if◌then◌else◌}
use model_council_lab.Errors.{Result, ok, err, other_exception}
use model_council_lab.Category.{
  ProviderErrorCategory, authentication_configuration, permission, model_unavailable,
  invalid_request, transport_connectivity, transport_provider_timeout, rate_limit,
  provider_overload_internal, malformed_provider_protocol, unknown_sanitized_failure,
  quota_exhausted, policy_refusal, incomplete_provider_result,
}

category-discrete : Discrete ProviderErrorCategory
category-discrete = hlevel

unfoldable pub is_in : ProviderErrorCategory → List ProviderErrorCategory → Bool
unfolding category-discrete
is_in c [] = false
is_in c (x ∷ xs) = ite (category-discrete c x) true false || is_in c xs

abbrev pub retryable_provider_categories : List ProviderErrorCategory
retryable_provider_categories =
    transport_connectivity ∷ transport_provider_timeout ∷ rate_limit ∷ provider_overload_internal
    ∷ []

abbrev pub nonretryable_provider_categories : List ProviderErrorCategory
nonretryable_provider_categories =
    authentication_configuration ∷ permission ∷ model_unavailable ∷ invalid_request
    ∷ quota_exhausted ∷ malformed_provider_protocol ∷ incomplete_provider_result ∷ policy_refusal
    ∷ unknown_sanitized_failure ∷ []

-- The test `isinstance(category, ProviderErrorCategory)` is the argument's type.
unfoldable pub is_retry_candidate : ProviderErrorCategory → Result Bool
unfolding is_in
is_retry_candidate c =
    if is_in c retryable_provider_categories
    then ok true
    else if is_in c nonretryable_provider_categories
    then ok false
    else err (other_exception "RuntimeError" "unclassified provider error category")

-- An independent reading: the failures that come from the transport or from load.
unfoldable pub is_transient : ProviderErrorCategory → Bool
is_transient transport_connectivity = true
is_transient transport_provider_timeout = true
is_transient rate_limit = true
is_transient provider_overload_internal = true
is_transient _ = false

-- The classification is total: it never raises, it answers true exactly for the four transient
-- categories, and no category is in both lists or in neither.
pub is_retry_candidate-total :
    (c : ProviderErrorCategory)
    → (is_retry_candidate c ≡ ok (is_transient c))
      × (is_in c retryable_provider_categories ≡ is_transient c)
      × (is_in c nonretryable_provider_categories ≡ (if is_transient c then false else true))
unfolding is_retry_candidate is_transient is_in
is_retry_candidate-total c = ground arith
