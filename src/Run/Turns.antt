-- ===== src/Run/Turns.antt =====
-- Each turn of the loop over the stages (src/model_council/runner.py, `_run_stages`), and the whole loop.
use model_council_lab.Stage.{success_outcome, failure_outcome, Env, StageSuccess, StageOutcome}
use model_council_lab.Stage.Terminal.{status_retry_exhausted}
use model_council_lab.Prelude.{none, some, List, ◌∷◌, [], Bool, Option, String, true, false, refl}
use model_council_lab.Run.Stages.{
  run_stages, stages_from, after_commit, after_stage, stage_turn, turned, after_abort,
  commit_in_order, after_error, after_refusal, after_undo, timed_out, undo_stage,
}
use model_council_lab.Run.Results.{go_on, halt, Turn, undone}
use model_council_lab.Action.Triple.{After, answered, raised, proceed-After}
use model_council_lab.Run.{Store, RunEnv, RunState}
use model_council_lab.Errors.{Check, Result, Exc, err, ok, is_exception}
use model_council_lab.Roles.{Role, condition_stages}
use model_council_lab.Json.{Fields}
use model_council_lab.Run.Commit.{Site, commit_stage, execute_stage}
use model_council_lab.Run.Progress.{
  InProgress, Reached, TurnEnd, finished, Underway, advanced, apply_success-InProgress, halted,
  failed_at, record_failure-Stopped, terminal_for_failure_failing,
}

module _ (S : Store) (run : RunEnv) where
  abbrev TurnAfter : List Role → Result Turn × (RunState × Site S) → Type 0
  TurnAfter rest end_of_turn =
      After (λ turn x. TurnEnd run.condition rest turn x.0) (λ e x. Underway run.condition x.0)
        end_of_turn.0 end_of_turn.1

  module _ (role : Role) (rest : List Role) (st : RunState)
      (p : InProgress run.condition (role ∷ rest) st) where
    undo_lem :
        (s : StageSuccess) (m : String) (r : Check) (site : Site S)
        → TurnAfter rest (after_undo S run role s m st (r, site))
    undo_lem s m (ok t) site = answered (
        halted (
          record_failure-Stopped run.condition (role ∷ rest) (undone role s m)
            status_retry_exhausted st refl p))
    undo_lem s m (err e) site = raised (role ∷ rest, p)

    abort_lem :
        (e : Exc) (r : Check) (site : Site S) → TurnAfter rest (after_abort S run e st (r, site))
    abort_lem e (ok t) site = raised (role ∷ rest, p)
    abort_lem e (err x) site = raised (role ∷ rest, p)

    error_lem :
        (e : Exc) (b : Bool) (site : Site S) → TurnAfter rest (after_error S run role e b st site)
    error_lem e true site =
        abort_lem e (S.abort_uncommitted_stage role site.0).0
          ((S.abort_uncommitted_stage role site.0).1, site.1)
    error_lem e false site = raised (role ∷ rest, p)

    refusal_lem :
        (env : Env) (s : StageSuccess) (e : Exc) (m : Option String) (site : Site S)
        → TurnAfter rest (after_refusal S run env role s e m st site)
    refusal_lem env s e (some m) site =
        undo_lem s m (undo_stage S run env role s site).0 (undo_stage S run env role s site).1
    refusal_lem env s e none site = error_lem e (is_exception e) site

    commit_lem :
        (env : Env) (context : Fields) (s : StageSuccess) (r : Result (List String)) (site : Site S)
        → TurnAfter rest (after_commit S run env role context s st (r, site))
    unfolding after_commit
    commit_lem env context s (ok refs) site =
        answered (advanced (apply_success-InProgress run.condition role rest s refs st p))
    commit_lem env context s (err e) site = refusal_lem env s e (timed_out e) site

    in_order_lem :
        (env : Env) (context : Fields) (s : StageSuccess) (r : Check) (site : Site S)
        → TurnAfter rest (commit_in_order S run env role context s r st site)
    in_order_lem env context s (ok t) site =
        commit_lem env context s (commit_stage S run env role s site).0
          (commit_stage S run env role s site).1
    in_order_lem env context s (err e) site = raised (role ∷ rest, p)

    after_stage_lem :
        (context : Fields) (r : Result StageOutcome) (site : Site S)
        → TurnAfter rest (after_stage S run role context st (r, site))
    unfolding after_stage
    after_stage_lem context (err e) site = raised (role ∷ rest, p)
    after_stage_lem context (ok (failure_outcome f)) site = answered (
        halted (
          record_failure-Stopped run.condition (role ∷ rest) f _ st (terminal_for_failure_failing f)
            p))
    after_stage_lem context (ok (success_outcome s)) site = in_order_lem _ context s _ site

    verified_lem :
        (context : Fields) (r : Check) (site : Site S)
        → TurnAfter rest (elim r [
          | err e ↦ (err e, (st, site))
          | ok t ↦
              after_stage S run role context st
                (execute_stage S run st.provider_identity_policy role context site)
        ])
    verified_lem context (err e) site = raised (role ∷ rest, p)
    verified_lem context (ok t) site =
        let end_of_stage = execute_stage S run st.provider_identity_policy role context site in
        after_stage_lem context end_of_stage.0 end_of_stage.1

    turn_lem :
        (context : Fields) (site : Site S)
        → TurnAfter rest (stage_turn S run role context (st, site))
    unfolding stage_turn
    turn_lem context site = rw p.running (verified_lem context _ site)

  abbrev EndOfStages : Check × (RunState × Site S) → Type 0
  EndOfStages end_of_stages =
      After (λ t x. Reached run.condition x.0) (λ e x. Underway run.condition x.0) end_of_stages.0
        end_of_stages.1

  turned_lem :
      (rest : List Role)
      → ((context : Fields) (st : RunState) (site : Site S)
          → InProgress run.condition rest st
          → EndOfStages (stages_from S run rest context (st, site)))
      → (turn : Turn) (st : RunState) (site : Site S) → TurnEnd run.condition rest turn st
      → EndOfStages (turned S run (stages_from S run rest) turn (st, site))
  turned_lem rest loop (go_on context) st site (advanced p) = loop context st site p
  turned_lem rest loop halt st site (halted p) = answered (failed_at p)

  stages_from_lem :
      (rest : List Role) (context : Fields) (st : RunState) (site : Site S)
      → InProgress run.condition rest st
      → EndOfStages (stages_from S run rest context (st, site))
  unfolding stages_from
  stages_from_lem [] context st site p = answered (finished p)
  stages_from_lem (role ∷ rest) context st site p =
      proceed-After (turn_lem role rest st p context site)
        (λ turn x q. turned_lem rest (stages_from_lem rest) turn x.0 x.1 q)

  pub run_stages-Reached :
      (st : RunState) (site : Site S)
      → InProgress run.condition (condition_stages run.condition) st
      → EndOfStages (run_stages S run (st, site))
  unfolding run_stages
  run_stages-Reached st site p = stages_from_lem (condition_stages run.condition) _ st site p
