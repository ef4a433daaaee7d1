-- ===== src/Run/Stages.antt =====
-- `_run_stages` of src/model_council/runner.py: the loop over the stages of the condition's workflow.
use model_council_lab.Prelude.{
  String, none, some, ◌∷◌, [], true, false, suc, Bool, List, Option, ◌++◌, if◌then◌else◌, ℤ, sub_ℕ,
}
use model_council_lab.Errors.{ok, err, stage_timeout, Exc, Check, Result, is_exception}
use model_council_lab.Action.{Action, ◌>>=◌, ◌>>◌, yield, reading, on_first}
use model_council_lab.Stage.{Env, StageSuccess, success_outcome, failure_outcome, StageOutcome}
use model_council_lab.Stage.Terminal.{status_retry_exhausted, terminal_for_failure}
use model_council_lab.Run.{Store, RunEnv, RunState, stage_env}
use model_council_lab.Json.{Fields, field, text, end}
use model_council_lab.Roles.{Role, condition_stages, validate_stage_sequence}
use model_council_lab.Run.Commit.{
  Site, record_success, commit_stage, execute_stage, items, undone_record, inputs_of,
}
use model_council_lab.Run.Results.{
  Turn, go_on, halt, is_succeeded, add_outputs, record_failure, apply_success, undone,
}

-- the message of a StageTimeout
abbrev pub timed_out : Exc → Option String
timed_out (stage_timeout m) = some m
timed_out _ = none

module _ (S : Store) (run : RunEnv) where
  -- for sealed_role in executed_roles: verify_sealed_stage
  unfoldable pub verify_sealed : List Role → S.State → Check
  verify_sealed [] d = ok tt
  verify_sealed (role ∷ rest) d = elim (S.verify_sealed_stage role d) [
    | err e ↦ err e
    | ok t ↦ verify_sealed rest d
  ]

  -- the timeout that the record of an undone success names
  abbrev pub remaining_time : Env → StageSuccess → Action (Site S) ℤ
  remaining_time env s (d, w) =
      if run.is_openai
      then (ok s.attempt_timeout, (d, w))
      else (ok (sub_ℕ s.deadline (env.clock w.reads)), (d, record w { reads = suc w.reads }))

  abbrev pub record_undone : Env → StageSuccess → Bool → Action (Site S) Unit
  record_undone env s true = yield tt
  record_undone env s false = do
    remaining ← remaining_time env s
    record_success S run env s (undone_record s remaining)

  -- the `except StageTimeout` clause, on the store
  unfoldable pub undo_stage : Env → Role → StageSuccess → Action (Site S) Unit
  undo_stage env role s = do
    on_first (S.abort_uncommitted_stage role)
    exists ← reading (λ (site : Site S). ok (S.invocation_attempt_exists role s.attempt site.0))
    record_undone env s exists

  abbrev pub Run : Type 0 → Type 0
  Run A = Action (RunState × Site S) A

  abbrev pub after_undo :
      Role → StageSuccess → String → RunState → Check × Site S → Result Turn × (RunState × Site S)
  after_undo role s message st (err e, site) = (err e, (st, site))
  after_undo role s message st (ok t, site) =
      (ok halt, (record_failure (undone role s message) status_retry_exhausted st, site))

  -- `except Exception: abort; raise`, whose own exception takes the place of the other
  abbrev pub after_abort : Exc → RunState → Check × Site S → Result Turn × (RunState × Site S)
  after_abort e st (ok t, site) = (err e, (st, site))
  after_abort e st (err x, site) = (err x, (st, site))

  -- `except Exception` of the commit; what is no Exception goes through.
  abbrev pub after_error : Role → Exc → Bool → RunState → Site S → Result Turn × (RunState × Site S)
  after_error role e true st site =
      after_abort e st (on_first (S.abort_uncommitted_stage role) site)
  after_error role e false st site = (err e, (st, site))

  abbrev pub after_refusal :
      Env
      → Role
      → StageSuccess
      → Exc
      → Option String
      → RunState
      → Site S
      → Result Turn × (RunState × Site S)
  after_refusal env role s e (some m) st site = after_undo role s m st (undo_stage env role s site)
  after_refusal env role s e none st site = after_error role e (is_exception e) st site

  -- The end of the commit, by what it raised.
  unfoldable pub after_commit :
      Env
      → Role
      → Fields
      → StageSuccess
      → RunState
      → Result (List String) × Site S
      → Result Turn × (RunState × Site S)
  after_commit env role context s st (ok refs, site) = (
    ok (go_on (add_outputs role (items s.artifacts) context)),
    (apply_success run.condition role s refs st, site),
  )
  after_commit env role context s st (err e, site) =
      after_refusal env role s e (timed_out e) st site

  abbrev pub commit_in_order :
      Env
      → Role
      → Fields
      → StageSuccess
      → Check
      → RunState
      → Site S
      → Result Turn × (RunState × Site S)
  commit_in_order env role context s (err e) st site = (err e, (st, site))
  commit_in_order env role context s (ok t) st site =
      after_commit env role context s st (commit_stage S run env role s site)

  -- The end of the stage: its failure ends the loop, its success is committed.
  unfoldable pub after_stage :
      Role → Fields → RunState → Result StageOutcome × Site S → Result Turn × (RunState × Site S)
  after_stage role context st (err e, site) = (err e, (st, site))
  after_stage role context st (ok (failure_outcome f), site) =
      (ok halt, (record_failure f (terminal_for_failure f) st, site))
  after_stage role context st (ok (success_outcome s), site) =
      commit_in_order
        (stage_env run st.provider_identity_policy role (inputs_of S run role context)) role context
        s (validate_stage_sequence run.condition (st.executed_roles ++ (role ∷ []))) st site

  -- One turn of the loop.
  unfoldable pub stage_turn : Role → Fields → Run Turn
  stage_turn role context (st, site) =
      if is_succeeded st.status
      then elim (verify_sealed st.executed_roles site.0) [
        | err e ↦ (err e, (st, site))
        | ok t ↦
            after_stage role context st
              (execute_stage S run st.provider_identity_policy role context site)
      ]
      else (ok halt, (st, site))

  abbrev pub turned : (Fields → Run Unit) → Turn → Run Unit
  turned next (go_on context) = next context
  turned next halt = yield tt

  unfoldable pub stages_from : List Role → Fields → Run Unit
  stages_from [] context = yield tt
  stages_from (role ∷ rest) context = do
    turn ← stage_turn role context
    turned (stages_from rest) turn

  -- _run_stages
  unfoldable pub run_stages : Run Unit
  run_stages = stages_from (condition_stages run.condition) (field "task" (text run.task_text) end)
