-- ===== src/Run/Recorded.antt =====
-- What `execute` of src/model_council/runner.py returns, and the terminal record that stands behind it.
use model_council_lab.Errors.{is_governance, ok, err, Check, Result, Exc, is_exception}
use model_council_lab.Roles.{Condition, condition_stages}
use model_council_lab.Run.{Store, RunEnv, RunState, run_result, initial_state}
use model_council_lab.Run.Execute.{
  build_result, RunResult, Request, execute, returned, after_opening, run_opened, after_terminal,
  settle, terminated, write_terminal_record, is_pending, after_interrupt, after_raise,
  after_exception, run_work,
}
use model_council_lab.Run.Commit.{Site}
use model_council_lab.Run.Justified.{Justified, unsuccessful, earned}
use model_council_lab.Run.Results.{is_succeeded}
use model_council_lab.Evaluator.{EvaluationOutcome}
use model_council_lab.Run.Terminal.{run_opened-Justified, if_of, terminated_state}
use model_council_lab.Run.Progress.{Sealed, total_retries}
use model_council_lab.Run.Finish.{completed_stage_topology, finalize_interrupted_run}
use model_council_lab.Prelude.{
  Bool, false, ◌≡◌, arith, not, some, subst, true, refl, sym, ◌&&◌, ◌||◌, ◌∙◌, ap,
}

-- The result of `execute` reports no success, or a success with every stage and the evaluation.
pub data JustifiedResult (c : Condition) (r : RunResult) : Type 0 where
  failing : is_succeeded r.status ≡ false → JustifiedResult c r
  passing :
      (outcome : EvaluationOutcome)
      → r.evaluation ≡ some outcome
      → outcome.passed ≡ true
      → Sealed r.stage_results (condition_stages c)
      → r.retries_used ≡ total_retries r.stage_results
      → JustifiedResult c r

-- The status of a result is no success, or it is earned.
justified_result :
    (c : Condition) (st : RunState) → Justified c st → JustifiedResult c (build_result st)
unfolding build_result
justified_result c st (unsuccessful h) = failing h
justified_result c st (earned e) = passing e.outcome e.stored e.passed e.sealed e.counted

module _ (S : Store) (run : RunEnv) where
  returned-ok :
      (w : Check × (RunState × Site S)) (r : RunResult)
      → returned S run w ≡ ok r
      → (w.0 ≡ ok tt) × (build_result w.1.0 ≡ r)
  returned-ok (ok t, x) r h = (refl, grind arith)
  returned-ok (err e, x) r h = grind arith

  -- A store was opened, and the run on it ended without a raise, in a state that the result shows.
  abbrev Returned : Request S → RunResult → Result S.State → Type 0
  Returned q r o =
      (d : S.State) × (o ≡ ok d)
      × ((run_opened S run q d).0 ≡ ok tt)
      × (build_result (run_opened S run q d).1.0 ≡ r)

  after_opening-ok :
      (q : Request S) (o : Result S.State) (r : RunResult)
      → after_opening S run q o ≡ ok r
      → (d : S.State) × (o ≡ ok d)
        × ((run_opened S run q d).0 ≡ ok tt)
        × (build_result (run_opened S run q d).1.0 ≡ r)
  after_opening-ok q (ok d) r h =
      let (a, b) = returned-ok (run_opened S run q d) r h in (d, refl, a, b)
  after_opening-ok q (err e) r h = grind arith

  execute-ok : (q : Request S) (r : RunResult) → execute S run q ≡ ok r → Returned q r q.opened
  unfolding execute
  execute-ok q r h =
      if_of (λ (w : Result RunResult). w ≡ ok r → Returned q r q.opened) q.same_task
        (λ t. after_opening-ok q q.opened r) (λ f k. grind arith) h

  -- A run that execute returns with the status of success has the results of every stage of the
  -- workflow, in order and all successes, an outcome that the evaluator passed, and as its retries the
  -- attempts of the stages after the first ones.
  pub execute-JustifiedResult :
      (q : Request S) (r : RunResult) → execute S run q ≡ ok r → JustifiedResult run.condition r
  execute-JustifiedResult q r h =
      let (d, o, a, b) = execute-ok q r h in
      subst (JustifiedResult run.condition) b
        (justified_result run.condition _ (run_opened-Justified S run q d))

  -- The record of the state was accepted.
  abbrev RecordAccepted : RunState × Site S → Type 0
  RecordAccepted x = (S.record_event false (run_result x.0) x.1.0).0 ≡ ok tt

  write_terminal_record-ok :
      (x : RunState × Site S) → (write_terminal_record S run x).0 ≡ ok tt → RecordAccepted x
  unfolding write_terminal_record
  write_terminal_record-ok (st, (d, w)) h = grind arith

  after_terminal-ok :
      (b : Bool) (t r : Check)
      → (b ≡ true → ¬ (r ≡ ok tt))
      → after_terminal S run b t r ≡ ok tt
      → (r ≡ ok tt) × (t ≡ ok tt)
  after_terminal-ok b (ok u) r k h = (h, refl)
  after_terminal-ok true (err e) r k h = absurd (k refl h)
  after_terminal-ok false (err e) r k h = grind arith

  terminated-ok :
      (b : Bool) (r : Check) (x : RunState × Site S)
      → (b ≡ true → ¬ (r ≡ ok tt))
      → (terminated S run b (r, x)).0 ≡ ok tt
      → (r ≡ ok tt) × RecordAccepted x
  unfolding terminated
  terminated-ok b r x k h =
      let (a, t) = after_terminal-ok b (write_terminal_record S run x).0 r k h in
      (a, write_terminal_record-ok x t)

  -- An interrupt is raised again, whatever its settlement does.
  pub after_interrupt_raises :
      (e : Exc) (w : Check × (RunState × Site S)) → (after_interrupt S run e w).0 ≡ err e
  unfolding after_interrupt
  after_interrupt_raises e (ok t, x) = refl
  after_interrupt_raises e (err m, (st, site)) =
      if_of (λ (w : Check × (RunState × Site S)). w.0 ≡ err e)
        (not st.evaluation_committed && is_succeeded st.status)
        (λ t.
          if_of (λ (w : Check × (RunState × Site S)). w.0 ≡ err e)
            (st.evaluation_started || completed_stage_topology run.condition st) (λ s. refl)
            (λ f. refl))
        (λ f. refl)

  pub violation_exception : (e : Exc) → is_governance e ≡ true → is_exception e ≡ true
  violation_exception e h = grind arith

  pub after_exception_raises :
      (e : Exc) (x : RunState × Site S) → (after_exception S run e false x).0 ≡ err e
  after_exception_raises e x = after_interrupt_raises e (finalize_interrupted_run S run x)

  pub after_raise_pending :
      (e : Exc) (b : Bool) (x : RunState × Site S)
      → is_exception e ≡ false
      → is_governance e ≡ b
      → (after_raise S run e b x).0 ≡ err e
  after_raise_pending e true x h g = absurd (ground (arith, h, violation_exception e g))
  after_raise_pending e false x h g = rw h (after_exception_raises e x)

  settle_pending :
      (r : Check) (x : RunState × Site S)
      → is_pending S run r ≡ true
      → ¬ ((settle S run (r, x)).0 ≡ ok tt)
  unfolding settle
  settle_pending (ok t) x h k = grind arith
  settle_pending (err e) x h k =
      let f : is_exception e ≡ false = ground (arith, h) in
      let raises : (settle S run (err e, x)).0 ≡ err e =
        after_raise_pending e (is_governance e) x f refl in
      absurd (ground (arith, sym raises ∙ k))

  -- What a run returns is on record: the store accepted a terminal record of the very state that the
  -- result shows, and the status of that state is no success or is earned.
  pub execute_recorded :
      (q : Request S) (r : RunResult)
      → execute S run q ≡ ok r
      → (x : RunState × Site S) × (build_result x.0 ≡ r)
        × RecordAccepted x
        × Justified run.condition x.0
  unfolding run_opened
  execute_recorded q r h =
      let (d, o, a, b) = execute-ok q r h in
      let w = run_work S run (initial_state, (d, q.world)) in
      let x = (settle S run w).1 in
      let same = terminated_state S run (is_pending S run w.0) (settle S run w).0 x in
      let (u, v) =
        terminated-ok (is_pending S run w.0) (settle S run w).0 x (settle_pending w.0 w.1) a in
      (
        x,
        ap build_result (sym same) ∙ b,
        v,
        subst (Justified run.condition) same (run_opened-Justified S run q d),
      )
