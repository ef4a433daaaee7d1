-- ===== src/Stage/Attempt.antt =====
-- One attempt of `_execute_stage_body` (src/model_council/runner.py): the deadline and budget tests,
-- the call, and the checks of its response.
use model_council_lab.Prelude.{
  String, none, some, true, false, Bool, Option, ℕ, List, ℤ, pos, is_positive, sub_ℕ, if◌then◌else◌,
  ltb, ◌+◌,
}
use model_council_lab.Errors.{Result, ok, err, other_exception, governance_violation, stage_timeout}
use model_council_lab.Stage.{
  ◌>>=◌, ◌>>◌, pure, raise, lift, success_outcome, budget, contract, governance, Env, Stage,
  RetryRationale, FailureClass, CheckVerdict, identity_policy_rejected, passed_check, failed_check,
  failed_budget, unchecked, failed_contract,
}
use model_council_lab.Stage.Handlers.{
  Next, done, handle, now, record_stage_invocation, began_record, hard_failure, retry_or_exhaust,
  idle_record, input_budget_failure,
}
use model_council_lab.Identity.{
  ProviderCallOutcome, provider_identity_evaluation_eligible, IdentityPolicy,
}
use model_council_lab.Json.{Fields, Json, get, object, end, estimate_tokens_out, text}
use model_council_lab.Roles.{Role, verifier}
use model_council_lab.Contract.{check_contract, check_identity, check_output_and_tool_budget}
use model_council_lab.Findings.{Finding}
use model_council_lab.Live.{set_field}
use model_council_lab.Stage.Call.{call}

module _ (env : Env) where
  abbrev pub is_some : Option ProviderCallOutcome → Bool
  is_some none = false
  is_some (some o) = true

  -- The artifacts of a success: a verifier's findings are the canonical text of the validated ones.
  unfoldable pub promoted_artifacts : Role → Fields → List Finding → Fields
  promoted_artifacts verifier artifacts findings =
      set_field "findings" (text (env.findings_text findings)) artifacts
  promoted_artifacts role artifacts findings = artifacts

  -- dict(response["artifacts"]), of a response whose contract was checked
  abbrev pub object_fields : Option Json → Fields
  object_fields (some (object fs)) = fs
  object_fields _ = end

  -- The end of an attempt whose response passed every check, while the deadline stands.
  unfoldable pub succeed :
      ℕ → ℕ → ℤ → ℕ → Option ℤ → Fields → Option ProviderCallOutcome → Stage Next
  succeed deadline attempt remaining cumulative latency response outcome w =
      elim (get "identity_used" response) [
        | none ↦ (err (other_exception "KeyError" "identity_used"), w)
        | some identity ↦ (
          ok (
              done (
                success_outcome (record {
                  role = env.role;
                  attempt = attempt;
                  response = response;
                  artifacts =
                      promoted_artifacts env.role (object_fields (get "artifacts" response))
                        w.findings;
                  attempt_timeout = remaining;
                  tokens_in = env.estimated_in;
                  tokens_out = estimate_tokens_out response;
                  cumulative_tokens_in = cumulative;
                  identity_used = identity;
                  provider_outcome = outcome;
                  response_latency = latency;
                  deadline = deadline;
                }))),
          w,
        )
      ]

  -- The deadline test after the checks.
  unfoldable pub finish :
      ℕ → ℕ → ℤ → ℕ → Option ℤ → Fields → Option ProviderCallOutcome → Stage Next
  finish deadline attempt remaining cumulative latency response outcome = do
    t ← now env
    if is_positive (sub_ℕ deadline t)
        then succeed deadline attempt remaining cumulative latency response outcome
        else retry_or_exhaust env (is_some outcome)
            (record (began_record env attempt remaining cumulative latency) {
              tokens_out = estimate_tokens_out response;
              contract_verdict = passed_check;
              identity_verdict = passed_check;
            })
            "timeout" "stage deadline expired after live response validation" cumulative

  -- A check that ends the stage with a failure: its record, and the result.
  abbrev pub refuse :
      ℕ
      → ℤ
      → ℕ
      → Option ℤ
      → Fields
      → Option ProviderCallOutcome
      → RetryRationale
      → FailureClass
      → CheckVerdict
      → String
      → Stage Next
  refuse attempt remaining cumulative latency response outcome rationale class verdict error = do
    record_stage_invocation env (is_some outcome)
        (record (began_record env attempt remaining cumulative latency) {
          tokens_out = estimate_tokens_out response;
          retry_rationale = rationale;
          contract_verdict = verdict;
          identity_verdict = passed_check;
          failure_class = some class;
        })
    pure (
        done (
          hard_failure env attempt error (some env.estimated_in)
            (some (estimate_tokens_out response))))

  -- _check_contract, which may set the verifier's findings
  unfoldable pub contract_error : Fields → Stage (Option String)
  contract_error response w =
      elim (check_contract env.render env.condition env.role response w.findings) [
        | err e ↦ (err e, w)
        | ok (error, findings) ↦ (ok error, record w { findings = findings })
      ]

  -- The checks of a response, in their order: identity, budgets, contract, deadline. Each of the
  -- first three definitions goes on from the error text of a check.
  module _ (deadline attempt : ℕ) (remaining : ℤ) (cumulative : ℕ) (latency : Option ℤ)
      (response : Fields) (outcome : Option ProviderCallOutcome) where
    unfoldable pub after_contract : Option String → Stage Next
    after_contract (some error) =
        refuse attempt remaining cumulative latency response outcome failed_contract contract
          failed_check error
    after_contract none = finish deadline attempt remaining cumulative latency response outcome

    unfoldable pub after_budgets : Option String → Stage Next
    after_budgets (some error) =
        refuse attempt remaining cumulative latency response outcome failed_budget budget unchecked
          error
    after_budgets none = do broken ← contract_error response; after_contract broken

    unfoldable pub after_identity : Option String → Stage Next
    after_identity (some error) = do
      record_stage_invocation env (is_some outcome)
          (record (began_record env attempt remaining cumulative latency) {
            tokens_out = estimate_tokens_out response;
            retry_rationale = identity_policy_rejected;
            identity_verdict = failed_check;
            failure_class = some governance;
          })
      raise (governance_violation error)
    after_identity none = after_budgets (
        check_output_and_tool_budget env.role env.limits.max_output_tokens_per_stage
          env.limits.max_tool_calls_per_stage response)

    unfoldable pub check_response : ℤ → Stage Next
    check_response elapsed = do
      identity ← lift (
          check_identity env.render env.adapter_identity env.model_identifier env.role response
            outcome env.policy remaining elapsed)
      after_identity identity

  -- The test that follows the call: a governed call is eligible by its own interval, read on the
  -- clock that granted it, and any other by the deadline.
  unfoldable pub timeliness :
      ℕ → ℕ → ℕ → Option IdentityPolicy → Option ProviderCallOutcome → Result (Bool × Option ℤ)
  timeliness deadline started t none outcome = ok (is_positive (sub_ℕ deadline t), none)
  timeliness deadline started t (some p) none = err (
      other_exception "LiveContractError"
        "provider identity verdict requires a ProviderCallOutcome")
  timeliness deadline started t (some p) (some o) =
      elim (provider_identity_evaluation_eligible o (sub_ℕ deadline started) (sub_ℕ t started)) [
        | err e ↦ err e
        | ok eligible ↦ ok (eligible, some (sub_ℕ t started))
      ]

  unfoldable pub timely : ℕ → ℕ → Option ProviderCallOutcome → Stage (Bool × Option ℤ)
  timely deadline started outcome = do
    t ← now env
    lift (timeliness deadline started t env.policy outcome)

  abbrev pub elapsed_of : Option ℤ → ℤ
  elapsed_of none = pos 0
  elapsed_of (some n) = n

  -- The checks of a response that was in time, and the timeout of one that was not.
  unfoldable pub after_timely :
      ℕ → ℕ → ℕ → ℕ → Fields → Option ProviderCallOutcome → Bool × Option ℤ → Stage Next
  after_timely deadline started attempt cumulative response outcome (true, latency) =
      check_response deadline attempt (sub_ℕ deadline started) cumulative latency response outcome
        (elapsed_of latency)
  after_timely deadline started attempt cumulative response outcome (false, latency) =
      handle env attempt (sub_ℕ deadline started) cumulative latency (is_some outcome)
        (stage_timeout "stage deadline expired immediately after invocation returns")

  -- What follows the call that was granted the time left at `started`.
  unfoldable pub after_call :
      ℕ → ℕ → ℕ → ℕ → Result (Fields × Option ProviderCallOutcome) → Stage Next
  after_call deadline started attempt cumulative (err e) =
      handle env attempt (sub_ℕ deadline started) cumulative none false e
  after_call deadline started attempt cumulative (ok (response, outcome)) = do
    found ← timely deadline started outcome
    after_timely deadline started attempt cumulative response outcome found

  -- The deadline test before the launch, and the call. A stage whose deadline has passed here has
  -- not begun the call, and keeps the time that was left when the attempt started.
  unfoldable pub launch : ℕ → ℕ → ℤ → ℕ → Stage Next
  launch deadline attempt remaining cumulative = do
    started ← now env
    if is_positive (sub_ℕ deadline started)
        then (do
          reply ← call env attempt
          after_call deadline started attempt (cumulative + env.estimated_in) reply)
        else retry_or_exhaust env false (idle_record env attempt remaining cumulative) "timeout"
            "stage deadline expired immediately before process launch" cumulative

  -- The body of the attempt loop.
  unfoldable pub attempt_body : ℕ → ℕ → ℕ → Stage Next
  attempt_body deadline attempt cumulative = do
    first ← now env
    t ← now env
    if is_positive (sub_ℕ deadline t)
        then (if ltb env.limits.max_input_tokens_per_stage (cumulative + env.estimated_in)
            then input_budget_failure env attempt (sub_ℕ deadline first) cumulative
            else launch deadline attempt (sub_ℕ deadline first) cumulative)
        else (do
          late ← now env
          retry_or_exhaust env false (idle_record env attempt (sub_ℕ deadline late) cumulative)
              "timeout" "stage deadline exhausted before adapter invocation" cumulative)
