-- ===== src/Executor/Envelope.antt =====
-- The envelopes that a worker answers with (src/model_council/executor.py, `_parse_legacy_payload` and
-- `_parse_live_payload` with the validators that they call).
use model_council_lab.Errors.{
  ◌>>◌, Check, Result, err, ok, require, protocol_error, neutral_provider_failure,
}
use model_council_lab.Json.{null, integer, text, object, Fields, Json, get}
use model_council_lab.Prelude.{
  List, Option, String, ◌∷◌, Bool, [], some, if◌then◌else◌, not, pos, ◌+++◌, negsuc, str_eq, ◌||◌,
  false, none, true,
}
use model_council_lab.Identity.{ProviderCallOutcome, is_success}
use model_council_lab.Category.{ProviderErrorCategory}
use model_council_lab.Openai.{is_text, is_null}
use model_council_lab.Structured.{type_name}
use model_council_lab.Worker.{is_set}

abbrev pub usage_missing : String → Check
usage_missing name =
    err (protocol_error ("usage field '" +++ (name +++ "' missing from worker response")))

abbrev pub usage_ill_typed : String → Json → Check
usage_ill_typed name value = err (
    protocol_error
      ("usage field '" +++ (name +++ ("' must be an integer, got " +++ type_name (some value)))))

-- One round of _validate_usage_fields.
unfoldable pub validate_usage_field : String → Option Json → Check
validate_usage_field name none = usage_missing name
validate_usage_field name (some null) = usage_missing name
validate_usage_field name (some (integer (pos n))) = ok tt
validate_usage_field name (some (integer (negsuc n))) =
    err (protocol_error ("usage field '" +++ (name +++ "' must be non-negative")))
validate_usage_field name (some value) = usage_ill_typed name value

unfoldable pub validate_usage_fields : Fields → Check
validate_usage_fields response = do
  validate_usage_field "tokens_in" (get "tokens_in" response)
  validate_usage_field "tokens_out" (get "tokens_out" response)
  validate_usage_field "tool_uses" (get "tool_uses" response)

abbrev pub identity_keys : List String
identity_keys = "provider" ∷ "model_id" ∷ "model_version" ∷ "adapter_name" ∷ "adapter_version" ∷ []

-- isinstance(value, str) and value
unfoldable pub is_name : Option Json → Bool
is_name (some (text s)) = not (str_eq s "")
is_name _ = false

unfoldable pub validate_names : List String → Fields → Check
validate_names [] used = ok tt
validate_names (key ∷ rest) used =
    require (is_name (get key used))
      (protocol_error ("identity_used['" +++ (key +++ "'] must be a non-empty string")))
    >> validate_names rest used

abbrev pub identity_missing : Check
identity_missing = err (protocol_error "worker response missing 'identity_used'")

-- _validate_identity_used, on response.get("identity_used")
unfoldable pub validate_identity_used : Option Json → Check
validate_identity_used (some (object used)) = validate_names identity_keys used
validate_identity_used _ = identity_missing

abbrev pub response_missing : Result Fields
response_missing = err (protocol_error "worker response missing structured 'response' object")

unfoldable pub validate_response : Option Json → Result Fields
validate_response (some (object response)) = do
  validate_usage_fields response
  validate_identity_used (get "identity_used" response)
  ok response
validate_response _ = response_missing

-- payload.get("execution_profile") in (None, EXECUTION_PROFILE_PRE_LIVE_LEGACY)
unfoldable pub is_legacy_profile : Option Json → Bool
is_legacy_profile profile = is_null profile || is_text "pre_live_legacy" profile

-- _parse_legacy_payload
unfoldable pub parse_legacy_payload : Fields → Result Fields
parse_legacy_payload payload = do
  require (is_legacy_profile (get "execution_profile" payload))
      (protocol_error "legacy worker envelope carried a non-legacy execution profile")
  require (not (is_set (get "outcome" payload)))
      (protocol_error "legacy worker envelope must not include a live outcome")
  validate_response (get "response" payload)

-- The outcome that parse_provider_call_outcome reads, with the category and the message of its error.
abbrev pub ReadOutcome : Type 0
ReadOutcome = ProviderCallOutcome × Option (ProviderErrorCategory × String)

unfoldable pub settle_outcome : Option ReadOutcome → Result ProviderCallOutcome
settle_outcome none = err (protocol_error "live worker returned an invalid ProviderCallOutcome")
settle_outcome (some (outcome, none)) =
    if is_success outcome.kind
    then ok outcome
    else err (protocol_error "live error outcome is missing NeutralError evidence")
settle_outcome (some (outcome, some (category, message))) =
    if is_success outcome.kind
    then ok outcome
    else err (neutral_provider_failure category message true)

-- _parse_live_payload; `read_outcome` is parse_provider_call_outcome of live_contract.py, none where it
-- raises
unfoldable pub parse_live_payload :
    (Option Json → Option ReadOutcome) → Fields → Result ProviderCallOutcome
parse_live_payload read_outcome payload = do
  require (is_text "live_contract_v1" (get "execution_profile" payload))
      (protocol_error "live worker envelope missing live_contract_v1 execution profile")
  require (not (is_set (get "response" payload)))
      (protocol_error "live adapter returned a legacy response envelope")
  settle_outcome (read_outcome (get "outcome" payload))
