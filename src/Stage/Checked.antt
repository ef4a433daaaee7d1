-- ===== src/Stage/Checked.antt =====
-- What the checks of a response leave to the loop (src/model_council/runner.py).
use model_council_lab.Prelude.{
  String, none, some, ◌≡◌, inl, inr, refl, ℕ, ℤ, Option, List, Option-cases, Bool-cases,
  is_positive, sub_ℕ,
}
use model_council_lab.Errors.{ok, Result-cases}
use model_council_lab.Stage.{
  Env, World, RetryRationale, FailureClass, CheckVerdict, failed_contract, contract, failed_check,
  failed_budget, budget, unchecked,
}
use model_council_lab.Stage.Settled.{
  finished, raised, stopped, Settled, then_pure, record-Persisted, retry_or_exhaust-Settled,
  then_raise,
}
use model_council_lab.Json.{Fields, get}
use model_council_lab.Identity.{ProviderCallOutcome}
use model_council_lab.Contract.{check_identity, check_output_and_tool_budget, check_contract}
use model_council_lab.Stage.Attempt.{
  elapsed_of, refuse, succeed, finish, check_response, contract_error, after_budgets,
  after_identity, after_contract,
}
use model_council_lab.Findings.{Finding}
use model_council_lab.Stage.Handlers.{now}

module _ (env : Env) (deadline a : ℕ) (left : ℤ) (c : ℕ) (latency : Option ℤ) (response : Fields)
    (outcome : Option ProviderCallOutcome) where
  refuse-Settled :
      (rationale : RetryRationale) (class : FailureClass) (verdict : CheckVerdict) (error : String)
      (w : World)
      → Settled env a c w
          (refuse env a left c latency response outcome rationale class verdict error w)
  refuse-Settled rationale class verdict error w =
      then_pure env a c _ _ w _ (record-Persisted env _ _ w)
        (stopped _ _ (record { attempt = refl; decision = refl }) refl refl refl)

  module _
      (identity : check_identity env.render env.adapter_identity env.model_identifier env.role
          response outcome env.policy left
          (elapsed_of env latency)
        ≡ ok none)
      (budgets : check_output_and_tool_budget env.role env.limits.max_output_tokens_per_stage
          env.limits.max_tool_calls_per_stage response
        ≡ none) where
    succeed-Settled :
        (known : List Finding) (w : World)
        → check_contract env.render env.condition env.role response known ≡ ok (none, w.findings)
        → Settled env a c w (succeed env deadline a left c latency response outcome w)
    unfolding succeed
    succeed-Settled known w holds = elim (Option-cases (get "identity_used" response)) [
      | inl e ↦ rw (e, succeed) (refl, raised _ refl refl)
      | inr (i, e) ↦
          rw (e, succeed)
            (
              refl,
              finished _ refl
                  (record {
                    identity = identity;
                    budgets = budgets;
                    known = known;
                    findings = w.findings;
                    contract = holds;
                    artifacts = refl;
                  })
                  refl refl,
            )
    ]

    finish-Settled :
        (known : List Finding) (w : World)
        → check_contract env.render env.condition env.role response known ≡ ok (none, w.findings)
        → Settled env a c w (finish env deadline a left c latency response outcome w)
    unfolding finish now
    finish-Settled known w holds =
        elim (Bool-cases (is_positive (sub_ℕ deadline (env.clock w.reads)))) [
          | inl e ↦ rw e (succeed-Settled known _ holds)
          | inr e ↦ rw e (retry_or_exhaust-Settled env _ _ "timeout" _ c _ (inl refl))
        ]

    -- Once identity and budgets are accepted, the contract decides.
    after_budgets-Settled :
        (w : World)
        → Settled env a c w (after_budgets env deadline a left c latency response outcome none w)
    unfolding after_budgets after_contract contract_error
    after_budgets-Settled w =
        elim (Result-cases (check_contract env.render env.condition env.role response w.findings)) [
          | inr (x, e) ↦ rw (e, contract_error) (refl, raised x refl refl)
          | inl ((some error, findings), e) ↦
              rw (e, contract_error) (refuse-Settled failed_contract contract failed_check error _)
          | inl ((none, findings), e) ↦ rw (e, contract_error) (finish-Settled w.findings _ e)
        ]

  after_identity-Settled :
      (w : World)
      → check_identity env.render env.adapter_identity env.model_identifier env.role response
          outcome env.policy left
          (elapsed_of env latency)
        ≡ ok none
      → Settled env a c w (after_identity env deadline a left c latency response outcome none w)
  unfolding after_identity after_budgets
  after_identity-Settled w e =
      elim (Option-cases (
        check_output_and_tool_budget env.role env.limits.max_output_tokens_per_stage
          env.limits.max_tool_calls_per_stage response)) [
            | inr (error, b) ↦ rw b (refuse-Settled failed_budget budget unchecked error w)
            | inl b ↦ rw b (after_budgets-Settled e b w)
          ]

  -- The checks of a response make no further call and leave a trail; a success was accepted by all.
  pub check_response-Settled :
      (w : World)
      → Settled env a c w
          (check_response env deadline a left c latency response outcome (elapsed_of env latency) w)
  unfolding check_response after_identity
  check_response-Settled w =
      elim (Result-cases (
        check_identity env.render env.adapter_identity env.model_identifier env.role response
          outcome env.policy left (elapsed_of env latency))) [
            | inr (x, e) ↦ rw e (refl, raised x refl refl)
            | inl (some error, e) ↦ rw e (
                then_raise env a c _ _ w _ (record-Persisted env _ _ w)
                  (record { attempt = refl; decision = refl }))
            | inl (none, e) ↦ rw e (after_identity-Settled w e)
          ]
