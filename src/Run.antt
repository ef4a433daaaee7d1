-- ===== src/Run.antt =====
-- A whole run, `ExperimentRunner` of src/model_council/runner.py: its settings, its state, and what it
-- asks of the artifact store (src/model_council/artifacts.py).
pub mod Commit
pub mod Results
pub mod Stages
pub mod Reconcile
pub mod Finish
pub mod Execute
pub mod Progress
pub mod Turns
pub mod Setup
pub mod Justified
pub mod Terminal
pub mod Recorded
pub mod Ending
pub mod Along
pub mod Durable
use model_council_lab.Prelude.{
  String, none, some, ◌∷◌, [], true, false, zero, List, Option, ℕ, Bool, ◌+◌,
}
use model_council_lab.Errors.{ok, err, Result, Check, Exc}
use model_council_lab.Stage.{
  ResourceLimits, Env, World, InvocationRecord, StageStatus, StageFailure, StageSuccess,
  ExecutionProfile,
}
use model_council_lab.Stage.Terminal.{RunStatus, status_succeeded}
use model_council_lab.Action.{Action}
use model_council_lab.Json.{Fields, Json, end, approximate_tokens, get, field, text, object}
use model_council_lab.Roles.{Condition, Role}
use model_council_lab.Evaluator.{EvaluationOutcome}
use model_council_lab.Identity.{AdapterIdentity, IdentityPolicy}

-- A StageResult, with the fields that the run reads again.
pub record StageResult : Type 0 where
  pub role : Role
  pub attempt : ℕ
  pub status : StageStatus
  pub output_refs : List String
  pub error : Option String

-- _RunState; the verifier's findings stand in the `World` of the stages, and the texts of provenance,
-- treatment and integrity are left out.
pub record RunState : Type 0 where
  pub status : RunStatus
  pub stage_results : List StageResult
  pub executed_roles : List Role
  pub final_candidate_ref : Option String
  pub retries_used : ℕ
  pub error : Option String
  pub evaluation_error : Option String
  pub evaluation_outcome : Option EvaluationOutcome
  pub evaluation_started : Bool
  pub evaluation_committed : Bool
  pub authority_committed : Bool
  pub provider_identity_policy : Option IdentityPolicy

-- _RunState.__init__
abbrev pub initial_state : RunState
initial_state = record {
  status = status_succeeded;
  stage_results = [];
  executed_roles = [];
  final_candidate_ref = none;
  retries_used = 0;
  error = none;
  evaluation_error = none;
  evaluation_outcome = none;
  evaluation_started = false;
  evaluation_committed = false;
  authority_committed = false;
  provider_identity_policy = none;
}

-- The payloads of record_event, by the file that each goes to.
pub data Event : Type 0 where
  integrity_event : Event
  governance_event : List Role → String → Event
  evaluation_event : EvaluationOutcome → Event
  evaluation_error_event : String → Event
  run_result : RunState → Event

-- What the runner asks of ArtifactStore and of the attempt journals: each operation answers and
-- changes the stored state. seal_stage is in two parts, since it calls the runner back between its
-- tests and its write. The Boolean of record_event is its `overwrite`, `create_manifest` refuses a manifest
-- that is there, and `ensure_manifest` keeps it. `prepare_attempt` stands for sync_tree and AttemptJournal.create, and
-- `settle_attempt` for the `finally` clause of _execute_stage.
pub record Store : Type 1 where
  pub State : Type 0
  pub write_source_provenance : Action State Unit
  pub write_task_record : Action State Unit
  pub write_execution_binding : Action State Unit
  pub write_evaluator_binding : Action State Unit
  pub write_treatment_declaration : Action State Unit
  pub freeze_run_authority : Action State Unit
  pub create_manifest : Action State Unit
  pub ensure_manifest : Action State Unit
  pub write_staged : Role → String → Json → Action State Unit
  pub commit_staged_artifacts : Role → Action State (List (String × String))
  pub check_seal : Role → ℕ → State → Check
  pub persist_seal : Role → ℕ → Action State Unit
  pub verify_sealed_stage : Role → State → Check
  pub abort_uncommitted_stage : Role → Action State Unit
  pub invocation_attempt_exists : Role → ℕ → State → Bool
  pub seal_attempts : Role → State → Result (Option Json)
  pub mark_sealed : Role → State → State
  pub verify_completed_run : State → Check
  pub read : String → State → Result String
  pub record_event : Bool → Event → Action State Unit
  pub prepare_attempt : Role → Fields → Action State Unit
  pub settle_attempt : Role → Action State Unit
  pub sync_tree : Action State Unit

-- A run's settings. `base` answers a stage by its role and its inputs: the clock, the adapter and the
-- store of invocation records.
pub record RunEnv : Type 0 where
  pub condition : Condition
  pub limits : ResourceLimits
  pub model_identifier : String
  pub adapter_identity : AdapterIdentity
  pub is_openai : Bool
  pub profile : Result ExecutionProfile
  pub instruction : Role → String
  pub task_text : String
  pub base : Role → Fields → Env
  pub evaluate : String → Result EvaluationOutcome
  pub sanitize_exception : Exc → String

-- _estimate_tokens_in
unfoldable pub estimate_tokens_in : String → Fields → ℕ
estimate_tokens_in role_instruction stage_inputs =
    approximate_tokens (text role_instruction) + approximate_tokens (object stage_inputs)

abbrev pub profile_or : ExecutionProfile → Result ExecutionProfile → ExecutionProfile
profile_or p (ok q) = q
profile_or p (err e) = p

-- The environment of one stage of the run.
unfoldable pub stage_env : RunEnv → Option IdentityPolicy → Role → Fields → Env
stage_env run policy role inputs =
    let env = run.base role inputs in
    record env {
      condition = run.condition;
      role = role;
      limits = run.limits;
      model_identifier = run.model_identifier;
      adapter_identity = run.adapter_identity;
      is_openai = run.is_openai;
      profile = profile_or env.profile run.profile;
      policy = policy;
      estimated_in = estimate_tokens_in (run.instruction role) inputs;
    }

-- stage_inputs = {key: context[key] for key in allowed_keys}; a missing key has been refused
unfoldable pub select : List String → Fields → Fields
select [] context = end
select (k ∷ ks) context = elim (get k context) [
  | none ↦ select ks context
  | some v ↦ field k v (select ks context)
]
