-- ===== src/Identity.antt =====
-- Adapter identities (src/model_council/types.py) and the exact provider identity policy of
-- src/model_council/live_contract.py, which the runner evaluates after every live call.
pub mod Exact
pub mod Key
use model_council_lab.Prelude.{
  String, none, some, ◌∷◌, [], true, false, ◌+++◌, Bool, Option, elem, join, ℤ, List, if◌then◌else◌,
  str_eq, not, ℕ, ◌&&◌, is_positive, neg_part, ◌==◌, ltb, pos_part,
}
use model_council_lab.Errors.{◌>>=◌, ◌>>◌, Check, Result, require, other_exception, ok}
use model_council_lab.Json.{Fields}

pub record AdapterIdentity : Type 0 where
  pub provider : String
  pub model_id : String
  pub model_version : String
  pub adapter_name : String
  pub adapter_version : String

-- AdapterIdentity.key
unfoldable pub key : AdapterIdentity → String
key i =
    join ":" (i.provider ∷ i.model_id ∷ i.model_version ∷ i.adapter_name ∷ i.adapter_version ∷ [])

-- The generated `__eq__` of the dataclass.
abbrev pub same_identity : AdapterIdentity → AdapterIdentity → Bool
same_identity i j =
    str_eq i.provider j.provider
    && str_eq i.model_id j.model_id
    && str_eq i.model_version j.model_version
    && str_eq i.adapter_name j.adapter_name
    && str_eq i.adapter_version j.adapter_version

pub data ProviderCallKind : Type 0 where
  success provider_error transport_error : ProviderCallKind

-- The fields of ProviderCallOutcome that the runner reads; an observation that is unavailable is `none`.
pub record StageOutput : Type 0 where
  pub text : String
  pub artifacts : Fields
  pub structured : Option Fields

pub record ProviderCallOutcome : Type 0 where
  pub kind : ProviderCallKind
  pub requested_identity : AdapterIdentity
  pub configured_identity : AdapterIdentity
  pub provider_resolved_identity : Option (List (String × String))
  pub invocation_returned_identity : Option (List (String × String))
  pub stage_output : Option StageOutput
  pub tool_use_count : ℕ

pub record IdentityPolicy : Type 0 where
  pub schema : String
  pub match_rule : String
  pub provider_observed_identity_required : Bool
  pub requested_model : String
  pub configured_model : String
  pub wire_model : String

abbrev pub provider_identity_policy_schema : String
provider_identity_policy_schema = "m1-provider-identity-policy-v1"

-- _require_adapter_identity: every field is a non-empty string
abbrev pub require_adapter_identity : AdapterIdentity → Check
require_adapter_identity i =
    require
      (not (
        elem ""
          (i.provider ∷ i.model_id ∷ i.model_version ∷ i.adapter_name ∷ i.adapter_version ∷ [])))
      (other_exception "LiveContractError" "identity field must be a non-empty string")

unfoldable pub build_exact_provider_identity_policy :
    AdapterIdentity → AdapterIdentity → Result IdentityPolicy
unfolding elem
build_exact_provider_identity_policy requested configured = do
  require_adapter_identity requested
  require_adapter_identity configured
  ok (record {
    schema = provider_identity_policy_schema;
    match_rule = "exact";
    provider_observed_identity_required = true;
    requested_model = requested.model_id;
    configured_model = configured.model_id;
    wire_model = configured.model_id;
  })

-- data == expected
abbrev pub same_policy : IdentityPolicy → IdentityPolicy → Bool
same_policy p q =
    str_eq p.schema q.schema
    && str_eq p.match_rule q.match_rule
    && (if p.provider_observed_identity_required
        then q.provider_observed_identity_required
        else not q.provider_observed_identity_required)
    && str_eq p.requested_model q.requested_model
    && str_eq p.configured_model q.configured_model
    && str_eq p.wire_model q.wire_model

unfoldable pub validate_exact_provider_identity_policy :
    IdentityPolicy → AdapterIdentity → AdapterIdentity → Result IdentityPolicy
validate_exact_provider_identity_policy p requested configured = do
  require (str_eq p.schema provider_identity_policy_schema)
      (other_exception "LiveContractError" "provider identity policy schema is not recognized")
  require (str_eq p.match_rule "exact")
      (other_exception "LiveContractError" "provider identity policy must use exact matching")
  require p.provider_observed_identity_required (
      other_exception "LiveContractError"
        "provider identity policy must require an observation on success")
  expected ← build_exact_provider_identity_policy requested configured
  require (same_policy p expected) (
      other_exception "LiveContractError"
        "provider identity policy does not match requested/configured authority")
  ok p

abbrev pub is_success : ProviderCallKind → Bool
is_success success = true
is_success _ = false

-- provider_identity_evaluation_eligible, over times in whole ticks
unfoldable pub provider_identity_evaluation_eligible : ProviderCallOutcome → ℤ → ℤ → Result Bool
provider_identity_evaluation_eligible outcome timeout elapsed =
    if is_success outcome.kind
    then (do
      require (is_positive timeout)
          (other_exception "LiveContractError" "attempt_timeout_seconds must be positive")
      require (neg_part elapsed == 0) (
          other_exception "LiveContractError"
            "harness_observed_latency_seconds must be non-negative")
      ok (ltb (pos_part elapsed) (pos_part timeout)))
    else ok false

pub data Verdict : Type 0 where
  not_evaluated passed : Verdict
  failed : String → Verdict

-- The tests on the observation, the last lines of evaluate_provider_identity_policy; `set(observed)`
-- is the set of its keys.
unfoldable pub observed_verdict : String → Option (List (String × String)) → Verdict
observed_verdict wire none = failed "provider-observed model identity is missing"
observed_verdict wire (some ((k, v) ∷ [])) =
    if str_eq k "model_id" && not (str_eq v "")
    then (if str_eq v wire
        then passed
        else failed "provider-observed model identity does not exactly match the frozen wire model")
    else failed "provider-observed model identity is malformed"
observed_verdict wire (some _) = failed "provider-observed model identity is malformed"

unfoldable pub evaluate_provider_identity_policy :
    IdentityPolicy
    → AdapterIdentity
    → AdapterIdentity
    → ProviderCallOutcome
    → ℤ
    → ℤ
    → Result Verdict
evaluate_provider_identity_policy policy requested configured outcome timeout elapsed = do
  validated ← validate_exact_provider_identity_policy policy requested configured
  eligible ← provider_identity_evaluation_eligible outcome timeout elapsed
  ok (
      if not eligible
      then not_evaluated
      else if not (same_identity outcome.requested_identity requested)
      then failed "provider outcome requested identity does not match frozen authority"
      else if not (same_identity outcome.configured_identity configured)
      then failed "provider outcome configured identity does not match frozen authority"
      else observed_verdict validated.wire_model outcome.provider_resolved_identity)
