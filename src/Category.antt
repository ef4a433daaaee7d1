-- ===== src/Category.antt =====
-- src/model_council/live_contract.py (the neutral error categories) and
-- src/model_council/retry_policy.py (which of them the runner may retry).
pub mod Retry
use model_council_lab.Prelude.{Bool, true, false, String}

pub data ProviderErrorCategory : Type 0 where
  authentication_configuration permission model_unavailable invalid_request : ProviderErrorCategory
  transport_connectivity transport_provider_timeout rate_limit : ProviderErrorCategory
  provider_overload_internal malformed_provider_protocol : ProviderErrorCategory
  unknown_sanitized_failure quota_exhausted policy_refusal : ProviderErrorCategory
  incomplete_provider_result : ProviderErrorCategory

-- The `value` of each member.
unfoldable pub category_value : ProviderErrorCategory → String
category_value authentication_configuration = "authentication_configuration"
category_value permission = "permission"
category_value model_unavailable = "model_unavailable"
category_value invalid_request = "invalid_request"
category_value transport_connectivity = "transport_connectivity"
category_value transport_provider_timeout = "transport_provider_timeout"
category_value rate_limit = "rate_limit"
category_value provider_overload_internal = "provider_overload_internal"
category_value malformed_provider_protocol = "malformed_provider_protocol"
category_value unknown_sanitized_failure = "unknown_sanitized_failure"
category_value quota_exhausted = "quota_exhausted"
category_value policy_refusal = "policy_refusal"
category_value incomplete_provider_result = "incomplete_provider_result"
