-- ===== src/Run/Results.antt =====
-- What the loop of src/model_council/runner.py `_run_stages` writes into the state of the run.
use model_council_lab.Prelude.{
  String, none, some, ◌∷◌, [], true, false, Bool, List, Option, ◌++◌, if◌then◌else◌, ◌+◌, str_eq,
  ◌+++◌, ◌-◌,
}
use model_council_lab.Stage.{StageSuccess, StageFailure, succeeded, retry_exhausted}
use model_council_lab.Stage.Terminal.{RunStatus, status_succeeded}
use model_council_lab.Run.{RunState, StageResult}
use model_council_lab.Json.{Fields, Json, keys}
use model_council_lab.Roles.{
  Condition, Role, condition_stages, stage_output_keys, same_roles, primary_artifact,
}
use model_council_lab.Live.{set_field}

-- What a stage of the loop leaves: the context of the next stage, or the end of the loop.
pub data Turn : Type 0 where
  go_on : Fields → Turn
  halt : Turn

abbrev pub is_succeeded : RunStatus → Bool
is_succeeded status_succeeded = true
is_succeeded _ = false

abbrev pub failure_result : StageFailure → StageResult
failure_result f = record {
  role = f.role;
  attempt = f.attempt;
  status = f.status;
  output_refs = [];
  error = some f.error;
}

-- a failed stage is recorded, and the run takes its status
abbrev pub record_failure : StageFailure → RunStatus → RunState → RunState
record_failure f status st = record st {
  stage_results = st.stage_results ++ (failure_result f ∷ []);
  retries_used = st.retries_used + (f.attempt - 1);
  status = status;
}

-- STAGE_OUTPUT_KEYS[role].get(name)
unfoldable pub output_key : String → List (String × String) → Option String
output_key name [] = none
output_key name ((artifact, key) ∷ rest) =
    if str_eq artifact name then some key else output_key name rest

abbrev pub put_output : Option String → Json → Fields → Fields
put_output none content context = context
put_output (some key) content context = set_field key content context

-- context[key] = content, for the artifacts that later stages may see
unfoldable pub add_outputs : Role → List (String × Json) → Fields → Fields
add_outputs role [] context = context
add_outputs role ((name, content) ∷ rest) context =
    add_outputs role rest (put_output (output_key name (stage_output_keys role)) content context)

-- next(r for name, r in zip(artifacts, refs) if name == primary), when the primary one is there
unfoldable pub primary_ref : String → List String → List String → Option String
primary_ref primary (name ∷ names) (ref ∷ refs) =
    if str_eq name primary then some ref else primary_ref primary names refs
primary_ref primary _ _ = none

abbrev pub final_ref : Bool → Option String → Option String → Option String
final_ref true (some ref) old = some ref
final_ref _ _ old = old

abbrev pub success_result : Role → StageSuccess → List String → StageResult
success_result role s refs = record {
  role = role;
  attempt = s.attempt;
  status = succeeded;
  output_refs = refs;
  error = none;
}

-- The state after a stage that succeeded.
unfoldable pub apply_success : Condition → Role → StageSuccess → List String → RunState → RunState
apply_success condition role s refs st = record st {
  stage_results = st.stage_results ++ (success_result role s refs ∷ []);
  executed_roles = st.executed_roles ++ (role ∷ []);
  retries_used = st.retries_used + (s.attempt - 1);
  final_candidate_ref =
      final_ref (same_roles (st.executed_roles ++ (role ∷ [])) (condition_stages condition))
        (primary_ref (primary_artifact role) (keys s.artifacts) refs) st.final_candidate_ref;
}

-- The failure of a stage whose deadline passed while its success was committed.
abbrev pub undone : Role → StageSuccess → String → StageFailure
undone role s message = record {
  role = role;
  attempt = s.attempt;
  status = retry_exhausted;
  error = "retry budget exhausted (timeout); last error: " +++ message;
  tokens_in = none;
  tokens_out = none;
}

-- stage.status is StageStatus.SUCCEEDED
abbrev pub succeeded_result : StageResult → Bool
succeeded_result r = elim r.status [ succeeded ↦ true | _ ↦ false ]
