-- ===== src/Run/Justified.antt =====
-- What the end of a run stands for (src/model_council/runner.py, `execute`): the status of success needs
-- every stage and the evaluation.
use model_council_lab.Action.Triple.{
  After, Triple, answered, raised, proceed-After, triple_bind, triple_weaken,
}
use model_council_lab.Action.{Action, reading}
use model_council_lab.Run.Progress.{InProgress, Sealed, total_retries, Reached, finished, failed_at}
use model_council_lab.Errors.{ok, err, Check, Result, Exc, is_exception}
use model_council_lab.Evaluator.{EvaluationOutcome}
use model_council_lab.Roles.{Condition, condition_stages}
use model_council_lab.Run.{
  RunState, Store, RunEnv, evaluation_event, evaluation_error_event, integrity_event,
}
use model_council_lab.Prelude.{
  [], some, true, ◌≡◌, Bool-cases, false, if◌then◌else◌, inl, ◌∙◌, sym, append-nil, inr, refl,
}
use model_council_lab.Run.Stages.{run_stages}
use model_council_lab.Run.Results.{is_succeeded}
use model_council_lab.Run.Commit.{Site}
use model_council_lab.Run.Finish.{
  after_evaluation, finalize_evaluation, exc_text, on_store, read_candidate,
}
use model_council_lab.Stage.Terminal.{status_failed_evaluation}
use model_council_lab.Run.Setup.{
  on_store-After, Fresh, result-After, establish_authority-Maintains, check_configuration-Maintains,
}
use model_council_lab.Run.Execute.{evaluate_success, run_work}
use model_council_lab.Run.Turns.{run_stages-Reached}

-- A run whose workflow is complete and whose candidate the evaluator passed.
pub record Evaluated (c : Condition) (st : RunState) : Type 0 where
  pub outcome : EvaluationOutcome
  pub stored : st.evaluation_outcome ≡ some outcome
  pub passed : outcome.passed ≡ true
  pub sealed : Sealed st.stage_results (condition_stages c)
  pub counted : st.retries_used ≡ total_retries st.stage_results

-- The status of the run is no success, or it is earned.
pub data Justified (c : Condition) (st : RunState) : Type 0 where
  unsuccessful : is_succeeded st.status ≡ false → Justified c st
  earned : Evaluated c st → Justified c st

abbrev pub IsOpen : RunState → Type 0
IsOpen st = st.evaluation_committed ≡ false

committed-Justified :
    (c : Condition) (st : RunState)
    → Justified c st
    → Justified c (record st { evaluation_committed = true })
committed-Justified c st (unsuccessful h) = unsuccessful h
committed-Justified c st (earned e) = earned (record {
  outcome = e.outcome;
  stored = e.stored;
  passed = e.passed;
  sealed = e.sealed;
  counted = e.counted;
})

started-InProgress :
    (c : Condition) (st : RunState)
    → InProgress c [] st
    → InProgress c [] (record st { evaluation_started = true })
started-InProgress c st p = record {
  running = p.running;
  in_order = p.in_order;
  sealed = p.sealed;
  counted = p.counted;
  unevaluated = p.unevaluated;
}

-- the state after the evaluator's outcome
abbrev decided : EvaluationOutcome → RunState → RunState
decided outcome st = record st {
  evaluation_outcome = some outcome;
  status = (if outcome.passed then st.status else status_failed_evaluation);
}

decided-Justified :
    (c : Condition) (outcome : EvaluationOutcome) (st : RunState)
    → InProgress c [] st
    → Justified c (decided outcome st)
decided-Justified c outcome st p = elim (Bool-cases outcome.passed) [
  | inl t ↦ earned (record {
    outcome = outcome;
    stored = refl;
    passed = t;
    sealed = (p.sealed.0 ∙ sym (append-nil st.executed_roles) ∙ p.in_order, p.sealed.1);
    counted = p.counted;
  })
  | inr f ↦ unsuccessful (rw f refl)
]

abbrev unevaluated_state : Exc → RunState → RunState
unevaluated_state e st = record st {
  status = status_failed_evaluation;
  evaluation_error = some (exc_text e);
}

module _ (S : Store) (run : RunEnv) where
  abbrev pub EndsJustified : Check × (RunState × Site S) → Type 0
  EndsJustified end_of_work =
      After (λ t x. Justified run.condition x.0) (λ e x. IsOpen x.0) end_of_work.0 end_of_work.1

  after_evaluation_lem :
      (r : Result EvaluationOutcome) (st : RunState) (site : Site S)
      → InProgress run.condition [] st
      → EndsJustified (after_evaluation S run r (st, site))
  unfolding after_evaluation
  after_evaluation_lem (ok outcome) st site p =
      proceed-After
        (on_store-After S run (Justified run.condition) (λ t. t.evaluation_committed ≡ false)
          (S.record_event false (evaluation_event outcome)) (decided outcome st) site
          (decided-Justified run.condition outcome st p) p.unevaluated)
        (λ t x j. answered (committed-Justified run.condition x.0 j))
  after_evaluation_lem (err e) st site p = elim (Bool-cases (is_exception e)) [
    | inl t ↦ rw t (
        proceed-After
          (on_store-After S run (Justified run.condition) (λ t. t.evaluation_committed ≡ false)
            (S.record_event false (evaluation_error_event (exc_text e))) (unevaluated_state e st)
            site (unsuccessful refl) p.unevaluated)
          (λ t x j. answered (committed-Justified run.condition x.0 j)))
    | inr f ↦ rw f (raised p.unevaluated)
  ]

  abbrev IsComplete : RunState × Site S → Type 0
  IsComplete x = InProgress run.condition [] x.0

  abbrev AnyOpen : Exc → RunState × Site S → Type 0
  AnyOpen e x = IsOpen x.0

  stored :
      (step : Action S.State Unit)
      → Triple IsComplete (on_store S run step) (λ t. IsComplete) AnyOpen
  stored step (st, site) p =
      on_store-After S run (InProgress run.condition []) (λ t. t.evaluation_committed ≡ false) step
        st site p p.unevaluated

  answered_from :
      {A : Type 0} (f : RunState × Site S → Result A)
      → Triple IsComplete (reading f) (λ t. IsComplete) AnyOpen
  answered_from f (st, site) p =
      result-After S run (InProgress run.condition []) (λ t. t.evaluation_committed ≡ false) st
        (f (st, site)) site p p.unevaluated

  finalize_evaluation_lem :
      (st : RunState) (site : Site S)
      → InProgress run.condition [] st
      → EndsJustified (finalize_evaluation S run (st, site))
  unfolding finalize_evaluation
  finalize_evaluation_lem st site p =
      triple_bind (answered_from (λ (x : RunState × Site S). S.verify_completed_run x.1.0))
        (λ _. triple_bind (stored (S.record_event false integrity_event)) λ _.
          triple_bind
            (answered_from
              (λ (x : RunState × Site S). read_candidate S run x.0.final_candidate_ref x.1.0))
            λ candidate. λ x q. after_evaluation_lem (run.evaluate candidate) x.0 x.1 q)
        (record st { evaluation_started = true }, site) (started-InProgress run.condition st p)

  run_stages-Open :
      (x : RunState × Site S)
      → Fresh run.condition x.0
      → After
          (λ t y. Reached run.condition y.0)
          (λ e y. IsOpen y.0)
          (run_stages S run x).0
          (run_stages S run x).1
  run_stages-Open =
      triple_weaken (λ x p. run_stages-Reached S run x.0 x.1 p) (λ e x p. p.1.unevaluated)

  evaluate_success_lem :
      (st : RunState) (site : Site S)
      → Reached run.condition st
      → EndsJustified (evaluate_success S run (st, site))
  unfolding evaluate_success
  evaluate_success_lem st site (finished p) = rw p.running (finalize_evaluation_lem st site p)
  evaluate_success_lem st site (failed_at p) = rw p.failing (answered (unsuccessful p.failing))

  -- The body of `execute`: it ends with a success that is earned, or with another status; and where it
  -- raises, no evaluation has been committed.
  pub run_work-Justified :
      (q : RunState × Site S) → Fresh run.condition q.0 → EndsJustified (run_work S run q)
  unfolding run_work
  run_work-Justified =
      triple_bind (triple_weaken (establish_authority-Maintains S run) λ e x p. p.unevaluated) λ _.
        triple_bind (triple_weaken (check_configuration-Maintains S run) λ e x p. p.unevaluated)
          λ _. triple_bind run_stages-Open λ _. λ x p. evaluate_success_lem x.0 x.1 p
