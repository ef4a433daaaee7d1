-- ===== src/Examples/Stages.antt =====
-- The theorems on a stage at a concrete run: a solver that meets a rate limit and then answers.
use model_council_lab.Prelude.{
  String, none, some, ◌∷◌, [], true, false, ◌≡◌, refl, join, ltb, if◌then◌else◌, List, ◌≤◌, length,
  elem, is_blank,
}
use model_council_lab.Roles.{
  solver, verifier, condition_c, expected_artifacts, primary_artifact, extra_artifacts,
}
use model_council_lab.Json.{
  text, array, object, end, field, nil, cons, Fields, Items, Json, get, keys,
}
use model_council_lab.Errors.{ok, err, neutral_provider_failure}
use model_council_lab.Category.{rate_limit}
use model_council_lab.Stage.{pre_live_legacy, failed_stage, World, Env}
use model_council_lab.Contract.{check_contract, contract_checks, check_artifacts, check_structured}
use model_council_lab.Identity.{key}
use model_council_lab.Stage.Loop.{execute_stage_body}
use model_council_lab.Stage.Loop.Budget.{called, execute_stage_body-budget}
use model_council_lab.Stage.Loop.History.{History, execute_stage_body-History}
use model_council_lab.Stage.Terminal.{terminal_of, status_failed_budget, contract_filed_as_budget}
use model_council_lab.Findings.{Finding, validate_findings, validate_findings_from}
use model_council_lab.Live.{identity_to_dict}
use model_council_lab.Examples.{openai_identity}
use model_council_lab.Contract.Accepted.{check_contract-accepted}
use model_council_lab.Structured.{
  Render, minus, all_text, require_structured, parse_findings, parse_finding,
}

abbrev plain : Render
plain = record { str_of = λ v. "?"; names = join ", "; repr = λ s. s }

abbrev pub answer : Fields
answer = field "text" (text "done") (
    field "artifacts" (object (field "candidate" (text "x") (field "evidence" (text "y") end)))
      (field "identity_used" (object (identity_to_dict openai_identity)) end))

abbrev pub solver_env : Env
unfolding key
solver_env = record {
  render = plain;
  findings_text = λ fs. "";
  condition = condition_c;
  role = solver;
  limits = record {
    max_input_tokens_per_stage = 10;
    max_output_tokens_per_stage = 100;
    max_tool_calls_per_stage = 0;
    stage_timeout = 50;
    max_stage_retries = 2;
  };
  model_identifier = key openai_identity;
  adapter_identity = openai_identity;
  is_openai = false;
  profile = pre_live_legacy;
  policy = none;
  estimated_in = 4;
  clock = λ n. n;
  invoke = λ attempt.
      if ltb attempt 2 then err (neutral_provider_failure rate_limit "later" false) else ok answer;
  invoke_live = λ attempt. err (neutral_provider_failure rate_limit "later" false);
  lifecycle_matches = λ attempt. ok true;
  persist = λ n. none;
}

abbrev pub fresh : World
fresh = record { reads = 0; writes = 0; calls = []; records = []; findings = [] }

execute_stage_body-History_example :
    History solver_env 1 []
      (execute_stage_body solver_env fresh).1.records
      (execute_stage_body solver_env fresh).0
execute_stage_body-History_example = execute_stage_body-History solver_env fresh

execute_stage_body-budget_example :
    (called solver_env (execute_stage_body solver_env fresh).1.calls ≤ 10)
    × (length (execute_stage_body solver_env fresh).1.calls ≤ 3)
unfolding solver_env
execute_stage_body-budget_example = execute_stage_body-budget solver_env fresh refl

abbrev finding_item : Json
finding_item = object (field "finding_id" (text "f1") (field "description" (text "unit error") end))

abbrev verifier_answer : Fields
verifier_answer = field "text" (text "one issue") (
    field "artifacts" (object (field "findings" (text "f1") end))
      (field "structured" (object (field "findings" (array (cons finding_item nil)) end)) end))

abbrev parsed_finding : List Finding
parsed_finding = record { finding_id = "f1"; description = "unit error"; material = true } ∷ []

check_contract-accepted_example :
    (payload : Items) × (require_structured plain (get "structured" verifier_answer) "findings"
      ≡ ok payload)
    × (parse_findings plain payload ≡ ok parsed_finding)
    × (validate_findings parsed_finding ≡ ok tt)
unfolding check_contract contract_checks check_artifacts get minus expected_artifacts elem keys
    all_text check_structured require_structured parse_findings parse_finding is_blank
    validate_findings primary_artifact extra_artifacts validate_findings_from
check_contract-accepted_example =
    (check_contract-accepted plain condition_c verifier verifier_answer [] parsed_finding refl).1
      refl

abbrev bad_names : Fields
bad_names =
    field "candidate" (text "x")
      (field "evidence" (text "y") (field "budget exceeded" (text "z") end))

abbrev bad_answer : Fields
bad_answer = field "text" (text "done") (field "artifacts" (object bad_names) end)

contract_filed_as_budget_example :
    (error : String) × (check_contract plain condition_c solver bad_answer [] ≡ ok (some error, []))
    × (terminal_of failed_stage error ≡ status_failed_budget)
unfolding get keys minus elem expected_artifacts primary_artifact extra_artifacts join
contract_filed_as_budget_example =
    contract_filed_as_budget plain condition_c solver bad_answer bad_names [] "done" "" "" refl refl
      refl refl
