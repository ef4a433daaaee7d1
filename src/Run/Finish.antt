-- ===== src/Run/Finish.antt =====
-- The end of a run (src/model_council/runner.py): the external evaluation, and what an interrupt leaves
-- behind.
use model_council_lab.Prelude.{
  String, none, some, ◌∷◌, [], true, false, Bool, List, Option, if◌then◌else◌, ℕ, ◌&&◌, ◌+++◌, ◌||◌,
  length, ◌==◌, all,
}
use model_council_lab.Errors.{
  ok, err, integrity_violation, other_exception, interrupt, Exc, Result, governance_violation,
  is_exception, contract_violation, model_failure, stage_timeout, infrastructure_error,
  protocol_error, neutral_provider_failure, Check,
}
use model_council_lab.Json.{Json}
use model_council_lab.Action.{Action, ◌>>=◌, ◌>>◌, throw, reading, on_first, on_second}
use model_council_lab.Stage.Terminal.{status_failed_evaluation, status_infrastructure_failure}
use model_council_lab.Run.{
  Store, RunEnv, RunState, integrity_event, evaluation_event, evaluation_error_event,
}
use model_council_lab.Roles.{Condition, Role, condition_stages, same_roles}
use model_council_lab.Run.Commit.{Site}
use model_council_lab.Evaluator.{EvaluationOutcome}
use model_council_lab.Run.Reconcile.{
  reconcile_final, reconcile_role, sealed_attempt, is_seal_failure, last_role,
}
use model_council_lab.Run.Results.{succeeded_result}

abbrev pub interrupted_evaluation : String
interrupted_evaluation = "evaluation aborted by a sanitized infrastructure interrupt"

abbrev pub interrupted_infrastructure : String
interrupted_infrastructure = "run aborted by a sanitized infrastructure interrupt"

-- `type(exc).__name__` and the message
unfoldable pub exc_text : Exc → String
exc_text (governance_violation m) = "GovernanceViolation: " +++ m
exc_text (integrity_violation m) = "IntegrityViolation: " +++ m
exc_text (contract_violation m) = "ContractViolation: " +++ m
exc_text (model_failure m) = "ModelFailure: " +++ m
exc_text (stage_timeout m) = "StageTimeout: " +++ m
exc_text (infrastructure_error m) = "InfrastructureError: " +++ m
exc_text (protocol_error m) = "ProtocolError: " +++ m
exc_text (neutral_provider_failure c m o) = "NeutralProviderFailure: " +++ m
exc_text (other_exception name m) = name +++ (": " +++ m)
exc_text (interrupt m) = m

-- _completed_stage_topology
unfoldable pub completed_stage_topology : Condition → RunState → Bool
completed_stage_topology condition st =
    same_roles st.executed_roles (condition_stages condition)
    && length st.stage_results == length (condition_stages condition)
    && all succeeded_result st.stage_results

abbrev pub aborted_evaluation : RunState → RunState
aborted_evaluation st = record st {
  status = status_failed_evaluation;
  evaluation_error = some interrupted_evaluation;
  evaluation_outcome = none;
}

abbrev pub interrupted_state : RunState → RunState
interrupted_state st = record st {
  status = status_infrastructure_failure;
  error = some interrupted_infrastructure;
}

module _ (S : Store) (run : RunEnv) where
  abbrev pub on_store : {A : Type 0} → Action S.State A → Action (RunState × Site S) A
  on_store step = on_second (on_first step)

  abbrev pub modify : (RunState → RunState) → Action (RunState × Site S) Unit
  modify f (st, site) = (ok tt, (f st, site))

  -- The evaluator's answer, in _finalize_evaluation; what is no `Exception` goes through.
  unfoldable pub after_evaluation : Result EvaluationOutcome → Action (RunState × Site S) Unit
  after_evaluation (ok outcome) = do
    modify (λ st. record st {
      evaluation_outcome = some outcome;
      status = (if outcome.passed then st.status else status_failed_evaluation);
    })
    on_store (S.record_event false (evaluation_event outcome))
    modify (λ st. record st { evaluation_committed = true })
  after_evaluation (err e) =
      if is_exception e
      then (do
        modify (λ st. record st {
          status = status_failed_evaluation;
          evaluation_error = some (exc_text e);
        })
        on_store (S.record_event false (evaluation_error_event (exc_text e)))
        modify (λ st. record st { evaluation_committed = true }))
      else throw e

  -- store.read of the candidate; without a reference, resolve_ref refuses
  unfoldable pub read_candidate : Option String → S.State → Result String
  read_candidate none d = err (governance_violation "artifact reference must be a non-empty string")
  read_candidate (some ref) d = S.read ref d

  -- _finalize_evaluation
  unfoldable pub finalize_evaluation : Action (RunState × Site S) Unit
  unfolding read_candidate
  finalize_evaluation = do
    modify (λ st. record st { evaluation_started = true })
    reading (λ (x : RunState × Site S). S.verify_completed_run x.1.0)
    on_store (S.record_event false integrity_event)
    candidate ← reading (λ (x : RunState × Site S). read_candidate x.0.final_candidate_ref x.1.0)
    after_evaluation (run.evaluate candidate)

  abbrev pub accepted_attempt : Result (Option Json) → Result (Option ℕ)
  accepted_attempt (ok attempts) = ok (sealed_attempt attempts)
  accepted_attempt (err e) = if is_seal_failure e then ok none else err e

  abbrev pub attempts_of : Role → S.State → Check → Result (Option Json)
  attempts_of role d (ok t) = S.seal_attempts role d
  attempts_of role d (err e) = err e

  -- _succeeded_stage_from_persisted_seal: the attempts of an accepted seal, or none
  unfoldable pub persisted_attempt : Role → S.State → Result (Option ℕ)
  persisted_attempt role d = accepted_attempt (attempts_of role d (S.verify_sealed_stage role d))

  -- One turn of _reconcile_persisted_stage_seals, by what the seal of the role says.
  abbrev pub reconcile_one :
      Role → Action (RunState × Site S) Unit → Result (Option ℕ) → Action (RunState × Site S) Unit
  reconcile_one role next (err e) x = (err e, x)
  reconcile_one role next (ok none) x = on_store (S.abort_uncommitted_stage role) x
  reconcile_one role next (ok (some attempt)) (st, (d, w)) =
      next (reconcile_role role attempt st, (S.mark_sealed role d, w))

  -- The loop of _reconcile_persisted_stage_seals.
  unfoldable pub reconcile_from : List Role → Action (RunState × Site S) Unit
  unfolding persisted_attempt
  reconcile_from [] x = (ok tt, x)
  reconcile_from (role ∷ rest) x =
      reconcile_one role (reconcile_from rest) (persisted_attempt role x.1.0) x

  -- _reconcile_persisted_stage_seals
  unfoldable pub reconcile : Action (RunState × Site S) Unit
  reconcile = do
    reconcile_from (condition_stages run.condition)
    modify (reconcile_final (last_role (condition_stages run.condition)))

  abbrev pub record_aborted_evaluation : Action (RunState × Site S) Unit
  record_aborted_evaluation = do
    on_store (S.record_event true (evaluation_error_event interrupted_evaluation))
    modify (λ st. record st { evaluation_committed = true })

  -- What _finalize_interrupted_run decides after the reconciliation.
  unfoldable pub settle_interrupted : Action (RunState × Site S) Unit
  settle_interrupted (st, site) =
      if st.evaluation_committed
      then (ok tt, (st, site))
      else if st.evaluation_started || completed_stage_topology run.condition st
      then record_aborted_evaluation (aborted_evaluation st, site)
      else on_store S.ensure_manifest (interrupted_state st, site)

  -- _finalize_interrupted_run
  unfoldable pub finalize_interrupted_run : Action (RunState × Site S) Unit
  finalize_interrupted_run = do reconcile; settle_interrupted
