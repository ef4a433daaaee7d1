-- ===== src/Run/Execute.antt =====
-- `execute` of src/model_council/runner.py: the set-up of a run, its stages and its evaluation, and the
-- terminal record that is written however they end.
use model_council_lab.Action.{Action, ◌>>◌, yield, throw}
use model_council_lab.Errors.{
  ok, err, Check, Exc, Result, governance_violation, is_exception, is_governance, other_exception,
}
use model_council_lab.Prelude.{
  String, Bool, List, if◌then◌else◌, some, Option, not, ℕ, ◌&&◌, ◌||◌, false, true, ◌==◌, str_eq,
}
use model_council_lab.Run.{
  RunState, Store, RunEnv, StageResult, initial_state, governance_event, run_result,
}
use model_council_lab.Stage.Terminal.{
  RunStatus, status_failed_governance, status_infrastructure_failure, status_failed_evaluation,
}
use model_council_lab.Identity.{IdentityPolicy, build_exact_provider_identity_policy, key}
use model_council_lab.Run.Commit.{Site}
use model_council_lab.Run.Finish.{
  exc_text, finalize_evaluation, modify, completed_stage_topology, interrupted_evaluation,
  interrupted_state, on_store, finalize_interrupted_run,
}
use model_council_lab.Run.Stages.{run_stages}
use model_council_lab.Run.Results.{is_succeeded}
use model_council_lab.Stage.{World}
use model_council_lab.Evaluator.{EvaluationOutcome}

-- The task and the store of a run: whether run_spec and task_spec name one task, and what the
-- constructor of ArtifactStore answers.
pub record Request (S : Store) : Type 0 where
  pub same_task : Bool
  pub opened : Result S.State
  pub world : World

-- RunResult, with the fields that the run computes
pub record RunResult : Type 0 where
  pub status : RunStatus
  pub stage_results : List StageResult
  pub final_candidate_ref : Option String
  pub evaluation : Option EvaluationOutcome
  pub retries_used : ℕ
  pub error : Option String

-- _build_result
unfoldable pub build_result : RunState → RunResult
build_result st = record {
  status = st.status;
  stage_results = st.stage_results;
  final_candidate_ref = st.final_candidate_ref;
  evaluation = st.evaluation_outcome;
  retries_used = st.retries_used;
  error = st.error;
}

-- the status that a governance violation, and any other exception, gives the run
abbrev pub governance_state : Exc → RunState → RunState
governance_state e st = record st { status = status_failed_governance; error = some (exc_text e) }

abbrev pub failure_state : String → RunState → RunState
failure_state message st = record st {
  status = status_infrastructure_failure;
  error = some message;
}

module _ (S : Store) (run : RunEnv) where
  abbrev pub Running : Type 0 → Type 0
  Running A = Action (RunState × Site S) A

  -- the policy that the run takes from the adapter's own identity
  abbrev pub take_policy : Result IdentityPolicy → Running Unit
  take_policy (ok policy) =
      modify S run (λ st. record st { provider_identity_policy = some policy })
  take_policy (err e) = throw e

  abbrev pub choose_policy : Running Unit
  choose_policy =
      if run.is_openai
      then take_policy
          (build_exact_provider_identity_policy run.adapter_identity run.adapter_identity)
      else yield tt

  -- if condition: step
  abbrev pub when : Bool → Running Unit → Running Unit
  when b step = if b then step else yield tt

  abbrev pub discard : {A : Type 0} → Result A → Running Unit
  discard (ok a) = yield tt
  discard (err e) = throw e

  -- The writes of the set-up, which end with the frozen authority.
  unfoldable pub establish_authority : Running Unit
  establish_authority = do
    on_store S run S.write_source_provenance
    on_store S run S.write_task_record
    discard run.profile
    choose_policy
    on_store S run S.write_execution_binding
    on_store S run S.write_evaluator_binding
    on_store S run S.write_treatment_declaration
    on_store S run S.freeze_run_authority
    modify S run (λ st. record st { authority_committed = true })

  -- The tests on the configuration, before the first stage.
  unfoldable pub check_configuration : Running Unit
  check_configuration = do
    when run.is_openai (on_store S run S.create_manifest)
    when (run.is_openai && not (run.limits.max_stage_retries == 0)) (
        throw (governance_violation "F5 production OpenAI attempts require zero automatic retries"))
    when (not (str_eq (key run.adapter_identity) run.model_identifier))
        (throw (governance_violation "adapter identity mismatch"))

  -- The evaluation of a run whose stages have all succeeded.
  unfoldable pub evaluate_success : Running Unit
  evaluate_success (st, site) =
      if is_succeeded st.status then finalize_evaluation S run (st, site) else (ok tt, (st, site))

  -- The body of execute's `try`.
  unfoldable pub run_work : Running Unit
  run_work = do establish_authority; check_configuration; run_stages S run; evaluate_success

  -- The `except BaseException` around _finalize_interrupted_run.
  unfoldable pub after_interrupt : Exc → Check × (RunState × Site S) → Check × (RunState × Site S)
  after_interrupt e (ok t, x) = (err e, x)
  after_interrupt e (err x, (st, site)) =
      if not st.evaluation_committed && is_succeeded st.status
      then (if st.evaluation_started || completed_stage_topology run.condition st
          then (
            err e,
            (
              record st {
                status = status_failed_evaluation;
                evaluation_error = some interrupted_evaluation;
              },
              site,
            ),
          )
          else (err e, (interrupted_state st, site)))
      else (err e, (st, site))

  abbrev pub after_governance : Exc → Running Unit
  after_governance e (st, site) =
      (do
        modify S run (governance_state e)
        on_store S run (S.record_event false (governance_event st.executed_roles (exc_text e))))
        (st, site)

  abbrev pub after_exception : Exc → Bool → Running Unit
  after_exception e true (st, site) = (ok tt, (failure_state (run.sanitize_exception e) st, site))
  after_exception e false (st, site) = after_interrupt e (finalize_interrupted_run S run (st, site))

  abbrev pub after_raise : Exc → Bool → Running Unit
  after_raise e true = after_governance e
  after_raise e false = after_exception e (is_exception e)

  -- The `except` clauses of execute, by what the body raised.
  unfoldable pub settle : Check × (RunState × Site S) → Check × (RunState × Site S)
  settle (ok t, x) = (ok t, x)
  settle (err e, x) = after_raise e (is_governance e) x

  -- _write_terminal_record
  unfoldable pub write_terminal_record : Running Unit
  write_terminal_record (st, site) =
      (do
        on_store S run (S.record_event false (run_result st))
        when run.is_openai (on_store S run S.sync_tree))
        (st, site)

  -- pending_interrupt is not None, after the body
  abbrev pub is_pending : Check → Bool
  is_pending (ok t) = false
  is_pending (err e) = not (is_exception e)

  -- `finally`: a pending interrupt goes before what the terminal record raises, which goes before the
  -- rest.
  abbrev pub after_terminal : Bool → Check → Check → Check
  after_terminal pending (ok t) r = r
  after_terminal true (err x) r = r
  after_terminal false (err x) r = err x

  unfoldable pub terminated : Bool → Check × (RunState × Site S) → Check × (RunState × Site S)
  terminated pending (r, x) =
      (after_terminal pending (write_terminal_record x).0 r, (write_terminal_record x).1)

  -- execute, from an opened store on
  unfoldable pub run_opened : Request S → S.State → Check × (RunState × Site S)
  run_opened q d =
      let end_of_work = run_work (initial_state, (d, q.world)) in
      terminated (is_pending end_of_work.0) (settle end_of_work)

  abbrev pub returned : Check × (RunState × Site S) → Result RunResult
  returned (ok t, x) = ok (build_result x.0)
  returned (err e, x) = err e

  abbrev pub after_opening : Request S → Result S.State → Result RunResult
  after_opening q (ok d) = returned (run_opened q d)
  after_opening q (err e) = err e

  -- execute; the refusals before a store is opened leave no record
  unfoldable pub execute : Request S → Result RunResult
  execute q =
      if q.same_task
      then after_opening q q.opened
      else err (other_exception "ValueError" "run_spec.task_id does not match task")
