-- ===== src/Contract.antt =====
-- The checks that src/model_council/runner.py makes of a stage's response, which is the mapping that the
-- executor hands over. A check returns the error text, or none.
pub mod Accepted
use model_council_lab.Prelude.{
  String, none, some, ◌∷◌, [], true, false, ◌+++◌, List, Option, Bool, if◌then◌else◌, join, pos, ℕ,
  elem, is_blank, ltb, map, ◌==◌, ℤ, ◌&&◌, decimal, not, ◌%◌, str_eq, ◌^◌,
}
use model_council_lab.Errors.{
  Result, ok, err, ◌>>=◌, ◌>>◌, contract_violation, Check, require, other_exception,
}
use model_council_lab.Json.{
  null, boolean, integer, float_bits, text, array, object, nil, cons, end, field, Fields, Items,
  Json, get, keys, estimate_tokens_out, or_default,
}
use model_council_lab.Roles.{
  solver, verifier, reviser, draft, self_review, condition_a, condition_b, condition_c, Condition,
  Role, role_name, expected_artifacts,
}
use model_council_lab.Identity.{
  passed, failed, not_evaluated, AdapterIdentity, ProviderCallOutcome, Verdict, IdentityPolicy,
  evaluate_provider_identity_policy,
}
use model_council_lab.Findings.{
  Disposition, Finding, is_decision, validate_findings, validate_dispositions,
}
use model_council_lab.Structured.{
  Render, is_empty, minus, require_structured, all_text, parse_findings, parse_dispositions,
  type_name,
}

abbrev pub quoted : Role → String
quoted r = "'" +++ (role_name r +++ "'")

-- str(v)
abbrev pub py_str : Render → Json → String
py_str render (text s) = s
py_str render v = render.str_of v

-- response.get("identity_used") or {}; a value that is true and no object has no method `get`
unfoldable pub identity_fields : Option Json → Result Fields
identity_fields none = ok end
identity_fields (some null) = ok end
identity_fields (some (boolean false)) = ok end
identity_fields (some (integer (pos n))) =
    if n == 0 then ok end else err (other_exception "AttributeError" "get")
identity_fields (some (float_bits n)) =
    if n % 2 ^ 63 == 0 then ok end else err (other_exception "AttributeError" "get")
identity_fields (some (text s)) =
    if str_eq s "" then ok end else err (other_exception "AttributeError" "get")
identity_fields (some (array nil)) = ok end
identity_fields (some (object fs)) = ok fs
identity_fields (some _) = err (other_exception "AttributeError" "get")

-- The key of the identity that a response claims.
unfoldable pub used_key : Render → Fields → String
used_key render used = join ":" (
    map (λ (k : String). py_str render (or_default (get k used) (text "")))
      ("provider" ∷ "model_id" ∷ "model_version" ∷ "adapter_name" ∷ "adapter_version" ∷ []))

-- The identity policy's part of _check_identity, by the verdict.
abbrev pub policy_error : Role → Result Verdict → Result (Option String)
policy_error role (err e) = err e
policy_error role (ok passed) = ok none
policy_error role (ok not_evaluated) =
    ok (some ("provider identity governance failure in stage " +++ (quoted role +++ ": None")))
policy_error role (ok (failed reason)) = ok (
    some ("provider identity governance failure in stage " +++ (quoted role +++ (": " +++ reason))))

-- _check_identity. The policy is evaluated on the provider's outcome, which a live call has; without
-- one, `isinstance(outcome, ProviderCallOutcome)` fails.
unfoldable pub check_identity :
    Render
    → AdapterIdentity
    → String
    → Role
    → Fields
    → Option ProviderCallOutcome
    → Option IdentityPolicy
    → ℤ
    → ℤ
    → Result (Option String)
check_identity render adapter model_identifier role response outcome policy timeout latency = do
  used ← identity_fields (get "identity_used" response)
  if not (str_eq (used_key render used) model_identifier)
      then ok (
          some (
            "identity mismatch in stage "
            +++ (quoted role
                +++ (": frozen RunSpec expects "
                    +++ (render.repr model_identifier
                        +++ (", invocation resolved " +++ render.repr (used_key render used)))))))
      else elim policy [
        | none ↦ ok none
        | some p ↦ elim outcome [
          | none ↦ err (
              other_exception "LiveContractError"
                "provider identity verdict requires a ProviderCallOutcome")
          | some o ↦
              policy_error role
                (evaluate_provider_identity_policy p adapter adapter o timeout latency)
        ]
      ]

-- isinstance(v, int) and not isinstance(v, bool) and v > bound
abbrev pub exceeds : Option Json → ℕ → Bool
exceeds (some (integer (pos n))) bound = ltb bound n
exceeds _ bound = false

-- _check_output_and_tool_budget, with the two ceilings of the resource limits
unfoldable pub check_output_and_tool_budget : Role → ℕ → ℕ → Fields → Option String
check_output_and_tool_budget role max_output max_tools response =
    if ltb max_output (estimate_tokens_out response)
    then some (
        "output budget exceeded in stage "
        +++ (quoted role
            +++ (" (harness-estimated over full structured response): "
                +++ (decimal (estimate_tokens_out response) +++ (" > " +++ decimal max_output)))))
    else if exceeds (get "tool_uses" response) max_tools
    then some ("tool-call budget exceeded in stage " +++ quoted role)
    else none

-- The message for artifacts that are not exactly the role's.
abbrev pub artifact_mismatch : Render → Role → Fields → String
artifact_mismatch render role fs =
    "artifact contract for stage "
    +++ (quoted role
        +++ (" requires exactly "
            +++ (render.names (expected_artifacts role)
                +++ ("; missing="
                    +++ (render.names (minus (expected_artifacts role) (keys fs))
                        +++ (", extra="
                            +++ render.names (minus (keys fs) (expected_artifacts role))))))))

-- The tests of _check_contract on the text and the artifacts.
unfoldable pub check_artifacts : Render → Role → Option Json → Option Json → Check
check_artifacts render role (some (text s)) (some (object fs)) =
    if is_empty (minus (expected_artifacts role) (keys fs))
      && is_empty (minus (keys fs) (expected_artifacts role))
    then require (all_text fs) (contract_violation "artifact must contain a string value")
    else err (contract_violation (artifact_mismatch render role fs))
check_artifacts render role (some (text s)) artifacts =
    err (contract_violation ("artifacts must be an object, got " +++ type_name artifacts))
check_artifacts render role other artifacts =
    err (contract_violation ("model response text must be a string, got " +++ type_name other))

-- The tests on the structured payload; the result is `state.verifier_findings` after them.
unfoldable pub check_structured :
    Render → Condition → Role → Option Json → List Finding → Result (List Finding)
check_structured render condition verifier structured known = do
  payload ← require_structured render structured "findings"
  findings ← parse_findings render payload
  validate_findings findings
  ok findings
check_structured render condition_a reviser structured known = ok known
check_structured render condition_b reviser none known = ok known
check_structured render condition_b reviser (some null) known = ok known
check_structured render condition_b reviser _ known =
    err (contract_violation "Condition B reviser must not emit Condition C structured dispositions")
check_structured render condition_c reviser structured known = do
  payload ← require_structured render structured "dispositions"
  dispositions ← parse_dispositions render payload
  validate_dispositions known dispositions
  ok known
check_structured render condition _ structured known = ok known

unfoldable pub contract_checks :
    Render → Condition → Role → Fields → List Finding → Result (List Finding)
contract_checks render condition role response known = do
  check_artifacts render role (get "text" response) (get "artifacts" response)
  check_structured render condition role (get "structured" response) known

-- `except ContractViolation as exc`: the error's text, and the findings that the state keeps.
abbrev pub caught :
    Role → List Finding → Result (List Finding) → Result (Option String × List Finding)
caught role known (ok findings) = ok (none, findings)
caught role known (err (contract_violation m)) =
    ok (some ("contract violation in stage " +++ (quoted role +++ (": " +++ m))), known)
caught role known (err e) = err e

-- _check_contract
unfoldable pub check_contract :
    Render → Condition → Role → Fields → List Finding → Result (Option String × List Finding)
check_contract render condition role response known =
    caught role known (contract_checks render condition role response known)
