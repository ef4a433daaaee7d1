-- ===== src/Examples/Runs.antt =====
-- The theorems on a whole run at a concrete one: a solver that answers, and an evaluator that passes its
-- candidate.
use model_council_lab.Artifacts.{
  member, has_file, staged_files, promote_files, sorted, insert, str_leb, Directory, write_staged,
  commit_staged_artifacts, abort_uncommitted_stage, find_artifact,
}
use model_council_lab.Security.{
  safe_identifier, matches_identifier, is_alphanumeric, matches_tail, is_identifier_code,
}
use model_council_lab.Prelude.{
  ◌⊎◌, List, not, Option, word_count, join, elem, true, ◌∷◌, [], false, none, some, str_eq, ◌≡◌,
  refl, pos, String,
}
use model_council_lab.Errors.{
  Exc, require, integrity_violation, Result, governance_violation, err, interrupt, other_exception,
  ok,
}
use model_council_lab.Run.{
  RunState, initial_state, run_result, estimate_tokens_in, select, stage_env, Store, RunEnv,
}
use model_council_lab.Run.Commit.{
  Site, commit_stage, commit_stage_transaction, items, refs_of, lookup_ref, stage_inputs,
  execute_stage,
}
use model_council_lab.Action.{throw, yield}
use model_council_lab.Run.Finish.{finalize_evaluation, after_evaluation}
use model_council_lab.Run.Execute.{
  evaluate_success, build_result, terminated, write_terminal_record, settle, is_pending, Request,
  RunResult, execute, run_opened, run_work, establish_authority, check_configuration,
}
use model_council_lab.Run.Stages.{
  after_commit, verify_sealed, after_stage, run_stages, stages_from, stage_turn,
}
use model_council_lab.Run.Results.{apply_success, primary_ref}
use model_council_lab.Roles.{
  validate_stage_sequence, expected_artifacts, condition_stages, allowed_input_keys, condition_a,
  solver,
}
use model_council_lab.Stage.Attempt.{
  after_contract, finish, succeed, promoted_artifacts, check_response, after_identity,
  after_budgets, contract_error, attempt_body, launch, after_call, timely, timeliness, after_timely,
}
use model_council_lab.Structured.{all_text, minus}
use model_council_lab.Json.{
  estimate_tokens_out, approximate_tokens, get, keys, field, text, end, object,
}
use model_council_lab.Live.{identity_to_dict}
use model_council_lab.Contract.{
  check_identity, identity_fields, used_key, check_output_and_tool_budget, check_contract,
  contract_checks, check_artifacts, check_structured,
}
use model_council_lab.Stage.Handlers.{handle, retry_or_exhaust, record_stage_invocation, now}
use model_council_lab.Category.Retry.{is_retry_candidate}
use model_council_lab.Stage.Call.{call, invoke_authorized_attempt}
use model_council_lab.Stage.Loop.{execute_stage_body, attempts_from}
use model_council_lab.Identity.{key}
use model_council_lab.Stage.Terminal.{status_succeeded}
use model_council_lab.Examples.Stages.{fresh, solver_env, answer}
use model_council_lab.Stage.{succeeded, pre_live_legacy, StageSuccess}
use model_council_lab.Examples.{openai_identity}
use model_council_lab.Run.Ending.{execute_returns, interrupt_reraised, StatusAfter, Raises}
use model_council_lab.Run.Justified.{Justified}
use model_council_lab.Run.Recorded.{JustifiedResult, execute-JustifiedResult, execute_recorded}
use model_council_lab.Run.Durable.{Committed, commit_stage-Committed}

abbrev found : Option String → Result String
found none = err (governance_violation "artifact reference does not exist")
found (some content) = ok content

abbrev empty_directory : Directory
empty_directory = record {
  allowed_roles = solver ∷ [];
  sealed = [];
  staging = [];
  artifacts = [];
  authoritative = [];
  seals = [];
  manifest = [];
}

-- a store in memory: the artifacts are staged, promoted and rolled back as in the artifact store, and
-- all else is accepted
abbrev memory : Store
memory = record {
  State = Directory;
  write_source_provenance = yield tt;
  write_task_record = yield tt;
  write_execution_binding = yield tt;
  write_evaluator_binding = yield tt;
  write_treatment_declaration = yield tt;
  freeze_run_authority = yield tt;
  create_manifest = yield tt;
  ensure_manifest = yield tt;
  write_staged = write_staged;
  commit_staged_artifacts = commit_staged_artifacts;
  check_seal = λ role attempt d. ok tt;
  persist_seal = λ role attempt. yield tt;
  verify_sealed_stage = λ role d. ok tt;
  abort_uncommitted_stage = λ role d. (ok tt, abort_uncommitted_stage role d);
  invocation_attempt_exists = λ role attempt d. false;
  seal_attempts = λ role d. ok none;
  mark_sealed = λ role d. d;
  verify_completed_run = λ d. ok tt;
  read = λ ref d. found (find_artifact solver "candidate" d.artifacts);
  record_event = λ overwrite event. yield tt;
  prepare_attempt = λ role inputs. yield tt;
  settle_attempt = λ role. yield tt;
  sync_tree = yield tt;
}

abbrev small_run : RunEnv
unfolding key
small_run = record {
  condition = condition_a;
  limits = solver_env.limits;
  model_identifier = key openai_identity;
  adapter_identity = openai_identity;
  is_openai = false;
  profile = ok pre_live_legacy;
  instruction = λ role. "solve";
  task_text = "add";
  base = λ role inputs. solver_env;
  evaluate = λ candidate. ok (record { passed = str_eq candidate "x"; reasons = [] });
  sanitize_exception = λ e. "failed";
}

abbrev request : Request memory
request = record { same_task = true; opened = ok empty_directory; world = fresh }

abbrev passed_result : RunResult
passed_result = record {
  status = status_succeeded;
  stage_results =
      record {
        role = solver;
        attempt = 2;
        status = succeeded;
        output_refs = "solver/candidate.md" ∷ "solver/evidence.md" ∷ [];
        error = none;
      }
      ∷ [];
  final_candidate_ref = some "solver/candidate.md";
  evaluation = some (record { passed = true; reasons = [] });
  retries_used = 1;
  error = none;
}

small_run-passes : execute memory small_run request ≡ ok passed_result
unfolding execute run_opened run_work establish_authority check_configuration run_stages stages_from
    stage_turn execute_stage terminated write_terminal_record small_run settle join condition_stages
    verify_sealed after_stage stage_inputs allowed_input_keys minus elem keys execute_stage_body now
    attempts_from stage_env attempt_body estimate_tokens_in approximate_tokens word_count select get
    launch call after_call invoke_authorized_attempt is_retry_candidate retry_or_exhaust
    record_stage_invocation timely timeliness after_timely handle check_response check_identity
    identity_fields used_key identity_to_dict after_identity after_budgets
    check_output_and_tool_budget estimate_tokens_out contract_error check_contract contract_checks
    check_artifacts expected_artifacts all_text check_structured after_contract finish succeed
    validate_stage_sequence after_commit commit_stage commit_stage_transaction items
    promoted_artifacts refs_of lookup_ref evaluate_success apply_success finalize_evaluation
    primary_ref after_evaluation build_result write_staged member safe_identifier matches_identifier
    is_alphanumeric matches_tail is_identifier_code has_file staged_files commit_staged_artifacts
    promote_files sorted insert str_leb find_artifact
small_run-passes = refl

execute-JustifiedResult_example : JustifiedResult condition_a passed_result
unfolding small_run
execute-JustifiedResult_example =
    execute-JustifiedResult memory small_run request passed_result small_run-passes

execute_recorded_example :
    (x : RunState × Site memory) × (build_result x.0 ≡ passed_result)
    × ((memory.record_event false (run_result x.0) x.1.0).0 ≡ ok tt)
    × Justified condition_a x.0
unfolding small_run
execute_recorded_example = execute_recorded memory small_run request passed_result small_run-passes

-- an interrupt after the evaluation was committed
abbrev decided_site : RunState × Site memory
decided_site = (record initial_state { evaluation_committed = true }, (empty_directory, fresh))

interrupt_reraised_example :
    ((terminated memory small_run
        (is_pending memory small_run (err (interrupt "KeyboardInterrupt")))
        (settle memory small_run (err (interrupt "KeyboardInterrupt"), decided_site))).0
      ≡ err (interrupt "KeyboardInterrupt"))
    × StatusAfter memory small_run decided_site.0
        (terminated memory small_run
          (is_pending memory small_run (err (interrupt "KeyboardInterrupt")))
          (settle memory small_run (err (interrupt "KeyboardInterrupt"), decided_site))).1.0
interrupt_reraised_example =
    interrupt_reraised memory small_run (interrupt "KeyboardInterrupt") decided_site refl

-- the second write fails
abbrev full_memory : Store
full_memory = record memory {
  write_task_record = throw (other_exception "OSError" "no space left");
}

abbrev failing_request : Request full_memory
failing_request = record { same_task = true; opened = ok empty_directory; world = fresh }

execute_returns_example :
    ((result : RunResult) × (execute full_memory small_run failing_request ≡ ok result))
    ⊎ ((e : Exc) × (execute full_memory small_run failing_request ≡ err e)
        × Raises full_memory small_run failing_request e)
execute_returns_example = execute_returns full_memory small_run failing_request

abbrev answered_success : StageSuccess
answered_success = record {
  role = solver;
  attempt = 1;
  response = answer;
  artifacts = field "candidate" (text "x") (field "evidence" (text "y") end);
  attempt_timeout = pos 50;
  tokens_in = 4;
  tokens_out = 5;
  cumulative_tokens_in = 4;
  identity_used = object (identity_to_dict openai_identity);
  provider_outcome = none;
  response_latency = none;
  deadline = 50;
}

-- the memory with seals that are written and looked at
abbrev sealing_memory : Store
sealing_memory = record memory {
  check_seal = λ role attempt d.
      require (not (member role d.sealed)) (governance_violation "stage is sealed already");
  persist_seal = λ role attempt d. (ok tt, record d { sealed = role ∷ d.sealed });
  verify_sealed_stage =
      λ role d. require (member role d.sealed) (integrity_violation "stage has no seal");
}

abbrev committed_refs : List String
committed_refs = "solver/candidate.md" ∷ "solver/evidence.md" ∷ []

answered_success-commits :
    (commit_stage sealing_memory small_run solver_env solver answered_success
      (empty_directory, fresh)).0
    ≡ ok committed_refs
unfolding small_run commit_stage commit_stage_transaction items refs_of lookup_ref
    record_stage_invocation keys write_staged member safe_identifier matches_identifier
    is_alphanumeric matches_tail is_identifier_code has_file staged_files commit_staged_artifacts
    promote_files sorted insert str_leb elem expected_artifacts find_artifact
answered_success-commits = refl

commit_stage-Committed_example :
    Committed sealing_memory solver_env solver answered_success empty_directory fresh committed_refs
      (commit_stage sealing_memory small_run solver_env solver answered_success
        (empty_directory, fresh)).1
commit_stage-Committed_example =
    commit_stage-Committed sealing_memory small_run solver_env solver answered_success
      empty_directory fresh committed_refs answered_success-commits
