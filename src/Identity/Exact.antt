-- ===== src/Identity/Exact.antt =====
-- What a passed verdict of the exact provider identity policy establishes
-- (src/model_council/live_contract.py).
use model_council_lab.Prelude.{
  String, none, some, ◌∷◌, [], true, Option, List, ◌≡◌, ℤ, ◌≢◌, arith, eq_iff, pos_part, ◌<◌, inr,
  inl,
}
use model_council_lab.Errors.{ok, Result-cases}
use model_council_lab.Identity.{
  passed, evaluate_provider_identity_policy, observed_verdict, IdentityPolicy, AdapterIdentity,
  ProviderCallOutcome, success, provider_identity_evaluation_eligible, same_identity,
  validate_exact_provider_identity_policy, build_exact_provider_identity_policy,
}

-- The verdict on the observation alone.
observed_verdict-passed :
    (wire : String) (observed : Option (List (String × String)))
    → observed_verdict wire observed ≡ passed
    → (observed ≡ some (("model_id", wire) ∷ [])) × (wire ≢ "")
unfolding observed_verdict
observed_verdict-passed wire none h = cc
observed_verdict-passed wire (some []) h = cc
observed_verdict-passed wire (some ((k, v) ∷ [])) h =
    ground (arith, eq_iff k "model_id", eq_iff v "", eq_iff v wire)
observed_verdict-passed wire (some (p ∷ q ∷ r)) h = cc

same_identity-eq : (i j : AdapterIdentity) → same_identity i j ≡ true → i ≡ j
same_identity-eq i j h = ground (
  arith,
  eq_iff i.provider j.provider,
  eq_iff i.model_id j.model_id,
  eq_iff i.model_version j.model_version,
  eq_iff i.adapter_name j.adapter_name,
  eq_iff i.adapter_version j.adapter_version,
)

-- A policy that validates is returned as it is, and binds the wire to the configured model.
validate-wire_model :
    (p q : IdentityPolicy) (requested configured : AdapterIdentity)
    → validate_exact_provider_identity_policy p requested configured ≡ ok q
    → (q ≡ p) × (p.wire_model ≡ configured.model_id)
unfolding validate_exact_provider_identity_policy build_exact_provider_identity_policy
validate-wire_model p q requested configured h =
    ground (arith, eq_iff p.wire_model configured.model_id)

eligible-lt :
    (outcome : ProviderCallOutcome) (timeout elapsed : ℤ)
    → provider_identity_evaluation_eligible outcome timeout elapsed ≡ ok true
    → (outcome.kind ≡ success) × (pos_part elapsed < pos_part timeout)
unfolding provider_identity_evaluation_eligible
eligible-lt outcome timeout elapsed h = ground arith

-- If the verdict is `passed` then the call succeeded and was observed strictly before its timeout, its
-- requested and configured identities are the authority's, and the provider reported the configured
-- model, which is the policy's wire model, and nothing else.
pub evaluate-passed :
    (policy : IdentityPolicy) (requested configured : AdapterIdentity)
    (outcome : ProviderCallOutcome) (timeout elapsed : ℤ)
    → evaluate_provider_identity_policy policy requested configured outcome timeout elapsed
      ≡ ok passed
    → (outcome.kind ≡ success)
      × (outcome.requested_identity ≡ requested)
      × (outcome.configured_identity ≡ configured)
      × (outcome.provider_resolved_identity ≡ some (("model_id", configured.model_id) ∷ []))
      × (policy.wire_model ≡ configured.model_id)
      × (pos_part elapsed < pos_part timeout)
unfolding evaluate_provider_identity_policy
evaluate-passed policy requested configured outcome timeout elapsed h =
    elim (Result-cases (validate_exact_provider_identity_policy policy requested configured)) [
      | inr (x, e) ↦ absurd (ground (arith, e))
      | inl (q, e) ↦ ground (
        arith,
        e,
        validate-wire_model policy q requested configured e,
        eligible-lt outcome timeout elapsed,
        same_identity-eq outcome.requested_identity requested,
        same_identity-eq outcome.configured_identity configured,
        observed_verdict-passed q.wire_model outcome.provider_resolved_identity,
      )
    ]
