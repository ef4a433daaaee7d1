-- ===== src/Run/Reconcile.antt =====
-- The reconciliation of the state of an interrupted run with the seals that were persisted
-- (src/model_council/runner.py, `_reconcile_persisted_stage_seals`).
use model_council_lab.Prelude.{
  String, none, some, ◌∷◌, [], true, false, pos, Bool, List, Option, elem, if◌then◌else◌, ℕ, ltb,
  map, ◌&&◌, ◌+++◌, ◌++◌, ◌||◌,
}
use model_council_lab.Errors.{integrity_violation, other_exception, Exc}
use model_council_lab.Json.{integer, Json}
use model_council_lab.Stage.{succeeded}
use model_council_lab.Run.{RunState, StageResult}
use model_council_lab.Roles.{Role, role_name, same_role, expected_artifacts, primary_artifact}
use model_council_lab.Run.Results.{succeeded_result}

-- the exceptions that _succeeded_stage_from_persisted_seal turns into None; OSError and ValueError
-- stand for their subclasses too
unfoldable pub is_seal_failure : Exc → Bool
is_seal_failure (integrity_violation m) = true
is_seal_failure (other_exception name m) =
    elem name ("OSError" ∷ "TypeError" ∷ "ValueError" ∷ "KeyError" ∷ [])
is_seal_failure e = false

-- the attempts that a seal names, if they are a positive number
abbrev pub sealed_attempt : Option Json → Option ℕ
sealed_attempt (some (integer (pos n))) = if ltb 0 n then some n else none
sealed_attempt _ = none

abbrev pub artifact_ref : Role → String → String
artifact_ref role name = role_name role +++ ("/" +++ (name +++ ".md"))

abbrev pub reconstructed_result : Role → ℕ → StageResult
reconstructed_result role attempt = record {
  role = role;
  attempt = attempt;
  status = succeeded;
  output_refs = map (artifact_ref role) (expected_artifacts role);
  error = none;
}

unfoldable pub has_role : Role → List Role → Bool
has_role role [] = false
has_role role (r ∷ rs) = same_role r role || has_role role rs

unfoldable pub has_result : Role → List StageResult → Bool
has_result role [] = false
has_result role (r ∷ rs) = same_role r.role role || has_result role rs

-- A stage whose seal was accepted is recorded as executed and succeeded, unless it is already.
unfoldable pub reconcile_role : Role → ℕ → RunState → RunState
reconcile_role role attempt st = record st {
  stage_results =
      (if has_result role st.stage_results
        then st.stage_results
        else st.stage_results ++ (reconstructed_result role attempt ∷ []));
  executed_roles =
      (if has_role role st.executed_roles
        then st.executed_roles
        else st.executed_roles ++ (role ∷ []));
}

unfoldable pub last_role : List Role → Option Role
last_role [] = none
last_role (r ∷ []) = some r
last_role (r ∷ s ∷ rs) = last_role (s ∷ rs)

-- stage.role == last and stage.status is SUCCEEDED, of some stage
unfoldable pub role_succeeded : Role → List StageResult → Bool
role_succeeded role [] = false
role_succeeded role (r ∷ rs) =
    (same_role r.role role && succeeded_result r) || role_succeeded role rs

abbrev pub is_missing : Option String → Bool
is_missing none = true
is_missing (some r) = false

-- the final candidate of a workflow whose last stage succeeded
unfoldable pub reconcile_final : Option Role → RunState → RunState
reconcile_final none st = st
reconcile_final (some last) st =
    if is_missing st.final_candidate_ref && role_succeeded last st.stage_results
    then record st { final_candidate_ref = some (artifact_ref last (primary_artifact last)) }
    else st
