-- ===== src/Examples.antt =====
-- The theorems at concrete inputs: findings, dispositions, contexts and identities.
pub mod Stages
pub mod Journals
mod Workers
mod Calls
mod Responses
mod Runs
mod Outputs
mod Stores
use model_council_lab.Prelude.{
  ap, String, none, some, ◌∷◌, [], true, false, ◌≡◌, arith, inl, inr, refl, zero, suc, pos, ◌+++◌,
  List, elem, ◌↔◌, ◌≢◌, ◌++◌, ◌≤◌, pos_part, if◌then◌else◌, ◌<◌, str_eq, is_blank, eq_iff, contains,
}
use model_council_lab.Roles.{
  solver, verifier, reviser, draft, condition_a, condition_b, condition_c, condition_stages,
  validate_context, validate_stage_sequence, allowed_input_keys, Role, all_allowed,
}
use model_council_lab.Json.{text, array, object, end, field, nil, cons}
use model_council_lab.Errors.{ok, err}
use model_council_lab.Identity.{
  success, passed, AdapterIdentity, IdentityPolicy, ProviderCallOutcome,
  evaluate_provider_identity_policy, validate_exact_provider_identity_policy,
  build_exact_provider_identity_policy, provider_identity_evaluation_eligible, observed_verdict,
  key,
}
use model_council_lab.Guard.{
  bytes, other, exhausted, already_read, enforce_response_boundary, bounded_body_chunks,
  encodings_rejected, read_all, max_openai_http_body_bytes,
}
use model_council_lab.Category.Retry.{
  is_retry_candidate, is_transient, is_in, retryable_provider_categories,
  nonretryable_provider_categories, is_retry_candidate-total,
}
use model_council_lab.Findings.{
  material_ids, validate_dispositions, validate_findings, Disposition, Finding, dispose_from,
  none_missing, known_ids, validated,
}
use model_council_lab.Guard.Bounds.{
  all_bytes, bounded_body_chunks-exact, total, enforce_response_boundary-admits,
}
use model_council_lab.Category.{rate_limit}
use model_council_lab.Findings.Coverage.{
  AllStated, validate_dispositions-accepts, count, disposed_ids, validate_dispositions-exact,
  validate_findings_iff,
}
use model_council_lab.Roles.Isolation.{
  policy_keys, produced, validate_context_iff, validate_stage_sequence_iff, policy_keys-produced,
}
use model_council_lab.Identity.Exact.{evaluate-passed}
use model_council_lab.Evaluator.{EvaluationConfig, evaluate}
use model_council_lab.Evaluator.Markers.{evaluate-passed_iff}
use model_council_lab.Identity.Key.{no_colon, key_distinct}

abbrev pub two_findings : List Finding
two_findings =
    record { finding_id = "f1"; description = "unit error"; material = true }
    ∷ record { finding_id = "f2"; description = "typo"; material = false }
    ∷ []

abbrev one_disposition : List Disposition
one_disposition = record { finding_id = "f1"; decision = "accept"; rationale = "fixed" } ∷ []

validate_dispositions-exact_example : count "f1" (disposed_ids one_disposition) ≡ 1
unfolding validate_dispositions dispose_from none_missing material_ids elem validated is_blank
validate_dispositions-exact_example =
    (validate_dispositions-exact two_findings one_disposition "f1" refl).0 refl

validate_dispositions-accepts_example : validate_dispositions two_findings one_disposition ≡ ok tt
unfolding material_ids elem is_blank
validate_dispositions-accepts_example =
    validate_dispositions-accepts two_findings one_disposition (ground arith, tt)
      (λ k m. ground (arith, m, eq_iff "f1" k)) (λ k. ground (arith, eq_iff "f1" k))
      (λ k m. ground (arith, m, eq_iff "f1" k))

policy_keys-produced_example :
    (allowed_input_keys condition_c reviser ≢ none)
    × (all_allowed (produced (solver ∷ verifier ∷ [])) (policy_keys condition_c reviser) ≡ true)
unfolding condition_stages
policy_keys-produced_example =
    policy_keys-produced condition_c (solver ∷ verifier ∷ []) [] reviser refl

abbrev pub openai_identity : AdapterIdentity
openai_identity = record {
  provider = "openai";
  model_id = "m-1";
  model_version = "v1";
  adapter_name = "openai";
  adapter_version = "1";
}

abbrev exact_policy : IdentityPolicy
exact_policy = record {
  schema = "m1-provider-identity-policy-v1";
  match_rule = "exact";
  provider_observed_identity_required = true;
  requested_model = "m-1";
  configured_model = "m-1";
  wire_model = "m-1";
}

abbrev good_outcome : ProviderCallOutcome
good_outcome = record {
  kind = success;
  requested_identity = openai_identity;
  configured_identity = openai_identity;
  provider_resolved_identity = some (("model_id", "m-1") ∷ []);
  invocation_returned_identity = none;
  stage_output = none;
  tool_use_count = 0;
}

evaluate-passed_example :
    (good_outcome.kind ≡ success)
    × (good_outcome.requested_identity ≡ openai_identity)
    × (good_outcome.configured_identity ≡ openai_identity)
    × (good_outcome.provider_resolved_identity ≡ some (("model_id", openai_identity.model_id) ∷ []))
    × (exact_policy.wire_model ≡ openai_identity.model_id)
    × (pos_part (pos 3) < pos_part (pos 10))
unfolding evaluate_provider_identity_policy validate_exact_provider_identity_policy
    build_exact_provider_identity_policy provider_identity_evaluation_eligible observed_verdict elem
evaluate-passed_example =
    evaluate-passed exact_policy openai_identity openai_identity good_outcome (pos 10) (pos 3) refl

bounded_body_chunks-exact_example :
    bounded_body_chunks (bytes (1 ∷ 2 ∷ []) ∷ bytes (3 ∷ []) ∷ [])
    ≡ ((1 ∷ 2 ∷ []) ∷ (3 ∷ []) ∷ [], exhausted)
unfolding all_bytes
bounded_body_chunks-exact_example =
    (bounded_body_chunks-exact (bytes (1 ∷ 2 ∷ []) ∷ bytes (3 ∷ []) ∷ [])).2
      ((1 ∷ 2 ∷ []) ∷ (3 ∷ []) ∷ []) refl (omega arith)

abbrev marked : EvaluationConfig
marked = record { required_markers = "42" ∷ []; prohibited_markers = "TODO" ∷ [] }

evaluate-passed_iff_example : ((evaluate marked "answer 42").passed ≡ true) ↔ (
    ((m : String) → elem m ("42" ∷ []) ≡ true → contains m "answer 42" ≡ true)
    × ((m : String) → elem m ("TODO" ∷ []) ≡ true → contains m "answer 42" ≡ false))
evaluate-passed_iff_example = evaluate-passed_iff marked "answer 42"

-- the same adapter with another version of the model
abbrev newer_identity : AdapterIdentity
newer_identity = record openai_identity { model_version = "v2" }

key_distinct_example : key openai_identity ≢ key newer_identity
unfolding no_colon
key_distinct_example =
    key_distinct openai_identity newer_identity (refl, refl, refl, refl) (refl, refl, refl, refl)
      (λ e. ground (arith, ap (λ (i : AdapterIdentity). i.model_version) e, eq_iff "v1" "v2"))
