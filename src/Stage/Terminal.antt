-- ===== src/Stage/Terminal.antt =====
-- `_terminal_for_failure` of src/model_council/runner.py: the run's status for a failed stage, which is
-- read off the error text.
use model_council_lab.Prelude.{
  String, some, true, false, ◌≡◌, arith, inl, inr, ◌+++◌, contains, contains-append_more,
  if◌then◌else◌, ℕ, List, ℤ, Bool-cases, ltb, sym, ap, contains_suffix, contains-append,
}
use model_council_lab.Errors.{Result, ok, err, contract_violation, Check}
use model_council_lab.Json.{text, object, Fields, estimate_tokens_out, get, keys}
use model_council_lab.Stage.{
  retry_exhausted, failed_stage, StageFailure, StageStatus, Env, failure_outcome, World, continue,
  pure,
}
use model_council_lab.Contract.{
  check_contract, check_output_and_tool_budget, caught, contract_checks, exceeds, quoted,
  check_artifacts, artifact_mismatch,
}
use model_council_lab.Findings.{Finding}
use model_council_lab.Stage.Handlers.{input_budget_failure, done}
use model_council_lab.Roles.{Role, Condition, expected_artifacts}
use model_council_lab.Structured.{Render, is_empty, minus}

-- the STATUS_ constants of src/model_council/types.py
pub data RunStatus : Type 0 where
  status_succeeded status_failed_budget status_failed_contract : RunStatus
  status_failed_governance status_failed_evaluation status_retry_exhausted : RunStatus
  status_infrastructure_failure : RunStatus

-- by the stage's status and its error text
unfoldable pub terminal_of : StageStatus → String → RunStatus
terminal_of retry_exhausted error = status_retry_exhausted
terminal_of _ error =
    if contains "budget exceeded" error
    then status_failed_budget
    else if contains "contract violation" error
    then status_failed_contract
    else status_infrastructure_failure

unfoldable pub terminal_for_failure : StageFailure → RunStatus
terminal_for_failure f = terminal_of f.status f.error

-- The three texts of a failed budget check all name the budget.
output_text :
    (rest : String)
    → contains "budget exceeded" ("output budget exceeded in stage " +++ rest) ≡ true
output_text rest = contains-append_more "budget exceeded" "output " " in stage " rest

tool_text :
    (rest : String)
    → contains "budget exceeded" ("tool-call budget exceeded in stage " +++ rest) ≡ true
tool_text rest = contains-append_more "budget exceeded" "tool-call " " in stage " rest

contract_text :
    (rest : String) → contains "contract violation" ("contract violation in stage " +++ rest) ≡ true
contract_text rest = contains-append_more "contract violation" "" " in stage " rest

input_text :
    (rest : String) → contains "budget exceeded" ("input budget exceeded in stage " +++ rest) ≡ true
input_text rest = contains-append_more "budget exceeded" "input " " in stage " rest

carry : (m x y : String) → some x ≡ some y → contains m x ≡ true → contains m y ≡ true
carry m x y e h = ground arith

failure-of-write :
    (q : Check × World) (g f : StageFailure)
    → (continue q.0 (λ _. pure (done (failure_outcome g))) q.1).0 ≡ ok (done (failure_outcome f))
    → g ≡ f
failure-of-write (ok t, w) g f h = ground arith
failure-of-write (err e, w) g f h = absurd (ground arith)

output-budget :
    (r : Role) (output tools : ℕ) (response : Fields) (error : String)
    → check_output_and_tool_budget r output tools response ≡ some error
    → contains "budget exceeded" error ≡ true
unfolding check_output_and_tool_budget
output-budget r output tools response error h =
    elim (Bool-cases (ltb output (estimate_tokens_out response))) [
      | inl over ↦ carry _ _ _ (rw (over, check_output_and_tool_budget) at h) (output_text _)
      | inr within ↦ elim (Bool-cases (exceeds (get "tool_uses" response) tools)) [
        | inl used ↦
            carry _ _ _ (rw (within, used, check_output_and_tool_budget) at h) (tool_text _)
        | inr unused ↦ absurd (ground (arith, within, unused))
      ]
    ]

input-budget :
    (env : Env) (a c : ℕ) (left : ℤ) (w : World) (f : StageFailure)
    → (input_budget_failure env a left c w).0 ≡ ok (done (failure_outcome f))
    → (f.status ≡ failed_stage) × (contains "budget exceeded" f.error ≡ true)
unfolding input_budget_failure
input-budget env a c left w f h =
    let e = failure-of-write _ _ f h in
    (
      sym (ap (λ (g : StageFailure). g.status) e),
      rw (← ap (λ (g : StageFailure). g.error) e) (input_text _),
    )

-- A budget failure ends the run as failed_budget: that of the input ceiling, before the call, and
-- those of the output and the tool ceilings, from the error that their check returns.
pub terminal-budget :
    (env : Env) (a c : ℕ) (left : ℤ) (w : World)
    → ((f : StageFailure)
        → (input_budget_failure env a left c w).0 ≡ ok (done (failure_outcome f))
        → terminal_for_failure f ≡ status_failed_budget)
      × ((output tools : ℕ) (response : Fields) (error : String)
          → check_output_and_tool_budget env.role output tools response ≡ some error
          → terminal_of failed_stage error ≡ status_failed_budget)
unfolding terminal_for_failure terminal_of
terminal-budget env a c left w = (
  λ f h. let (s, e) = input-budget env a c left w f h in rw (s, e),
  λ output tools response error h. rw (output-budget env.role output tools response error h),
)

caught-text :
    (r : Role) (known findings : List Finding) (error : String) (q : Result (List Finding))
    → caught r known q ≡ ok (some error, findings)
    → contains "contract violation" error ≡ true
caught-text r known findings error (err (contract_violation m)) h =
    carry _ _ _ (ground arith) (contract_text (quoted r +++ (": " +++ m)))
caught-text r known findings error (ok f) h = absurd (ground arith)
caught-text r known findings error (err e) h = absurd (ground arith)

-- A contract failure whose text does not happen to name a budget ends the run as failed_contract; one
-- whose text does name one ends it as failed_budget.
pub terminal-contract :
    (render : Render) (c : Condition) (r : Role) (response : Fields) (known findings : List Finding)
    (error : String)
    → check_contract render c r response known ≡ ok (some error, findings)
    → terminal_of failed_stage error
      ≡ (if contains "budget exceeded" error then status_failed_budget else status_failed_contract)
unfolding terminal_of check_contract
terminal-contract render c r response known findings error h =
    rw (caught-text r known findings error (contract_checks render c r response known) h)

mismatch_text :
    (render : Render) (r : Role) (fs : Fields) (a b : String)
    → render.names (minus (keys fs) (expected_artifacts r)) ≡ a +++ ("budget exceeded" +++ b)
    → contains "budget exceeded"
        ("contract violation in stage " +++ (quoted r +++ (": " +++ artifact_mismatch render r fs)))
      ≡ true
mismatch_text render r fs a b printed =
    let m : String = "budget exceeded" in
    contains_suffix m _ _ (
      contains_suffix m _ _ (
        contains_suffix m _ _ (
          contains_suffix m _ _ (
            contains_suffix m _ _ (
              contains_suffix m _ _ (
                contains_suffix m _ _ (
                  contains_suffix m _ _ (
                    contains_suffix m _ _
                      (contains_suffix m _ _ (rw printed (contains-append m a b)))))))))))

-- A response whose surplus artifact names print with the words "budget exceeded" breaks the contract,
-- and its stage ends the run as failed_budget.
pub contract_filed_as_budget :
    (render : Render) (c : Condition) (r : Role) (response fs : Fields) (known : List Finding)
    (s a b : String)
    → get "text" response ≡ some (text s)
    → get "artifacts" response ≡ some (object fs)
    → is_empty (minus (keys fs) (expected_artifacts r)) ≡ false
    → render.names (minus (keys fs) (expected_artifacts r)) ≡ a +++ ("budget exceeded" +++ b)
    → (error : String) × (check_contract render c r response known ≡ ok (some error, known))
      × (terminal_of failed_stage error ≡ status_failed_budget)
unfolding terminal_of check_contract contract_checks check_artifacts
contract_filed_as_budget render c r response fs known s a b t o surplus printed = (
  "contract violation in stage " +++ (quoted r +++ (": " +++ artifact_mismatch render r fs)),
  rw (t, o) (ground (arith, surplus)),
  rw (mismatch_text render r fs a b printed),
)
