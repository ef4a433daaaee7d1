-- ===== src/Run/Ending.antt =====
-- How `execute` of src/model_council/runner.py ends: what an interrupt leaves, which runs return, and what
-- the others raise.
use model_council_lab.Run.{Store, RunEnv, RunState, initial_state, governance_event}
use model_council_lab.Errors.{
  is_governance, ok, err, Check, Exc, Result, is_exception, other_exception,
}
use model_council_lab.Run.Execute.{
  Request, execute, settle, run_opened, terminated, run_work, is_pending, RunResult, after_raise,
  after_exception, after_terminal, write_terminal_record, build_result, returned, after_opening,
}
use model_council_lab.Prelude.{
  Bool, ◌≡◌, true, false, arith, ◌∙◌, refl, ◌⊎◌, inl, inr, Bool-cases, sym, subst,
}
use model_council_lab.Run.Commit.{Site}
use model_council_lab.Run.Finish.{exc_text}
use model_council_lab.Run.Terminal.{
  if_of, IsFailing, after_interrupt_lem, finalize_interrupted_run_lem, terminated_state,
  after_decision_lem,
}
use model_council_lab.Run.Recorded.{
  after_exception_raises, after_raise_pending, violation_exception,
}

module _ (S : Store) (run : RunEnv) where
  -- The body of a run, from an opened store on.
  abbrev pub work_of : Request S → S.State → Check × (RunState × Site S)
  work_of q d = run_work S run (initial_state, (d, q.world))

  -- The status after an interrupt that finds the first state and leaves the second: it stays if an
  -- evaluation was committed, and is no success otherwise.
  abbrev pub StatusAfter : RunState → RunState → Type 0
  StatusAfter before after =
      ((before.evaluation_committed ≡ true) × (after.status ≡ before.status))
      ⊎ ((before.evaluation_committed ≡ false) × IsFailing after)

  after_raise-StatusAfter :
      (e : Exc) (b : Bool) (x : RunState × Site S)
      → is_exception e ≡ false
      → is_governance e ≡ b
      → StatusAfter x.0 (after_raise S run e b x).1.0
  after_raise-StatusAfter e true x h g = absurd (ground (arith, h, violation_exception S run e g))
  after_raise-StatusAfter e false x h g = elim (Bool-cases x.0.evaluation_committed) [
    | inl t ↦ rw h (inl (t, after_decision_lem S run e x.0.status x (t, refl)))
    | inr f ↦
        rw h (inr (f, after_interrupt_lem S run e _ _ (finalize_interrupted_run_lem S run x f)))
  ]

  after_terminal_pending : (b : Bool) (t r : Check) → b ≡ true → after_terminal S run b t r ≡ r
  after_terminal_pending true (ok t) r h = refl
  after_terminal_pending true (err e) r h = refl
  after_terminal_pending false t r h = absurd (ground (arith, h))

  -- An exception that is no `Exception`, such as KeyboardInterrupt, is raised again as it was, whatever
  -- state of the run and of the store it finds, and whatever its settlement and the terminal record
  -- raise. If an evaluation was committed before it, the run keeps its status, and else the run has no
  -- status of success.
  pub interrupt_reraised :
      (e : Exc) (x : RunState × Site S)
      → is_exception e ≡ false
      → ((terminated S run (is_pending S run (err e)) (settle S run (err e, x))).0 ≡ err e)
        × StatusAfter x.0
            (terminated S run (is_pending S run (err e)) (settle S run (err e, x))).1.0
  unfolding settle terminated
  interrupt_reraised e x h =
      let pending : is_pending S run (err e) ≡ true = ground (arith, h) in
      let settled = settle S run (err e, x) in
      (
        after_terminal_pending (is_pending S run (err e)) (write_terminal_record S run settled.1).0
              settled.0 pending
            ∙ after_raise_pending S run e (is_governance e) x h refl,
        subst (StatusAfter x.0)
            (sym (terminated_state S run (is_pending S run (err e)) settled.0 settled.1))
            (after_raise-StatusAfter e (is_governance e) x h refl),
      )

  -- Why a run raises: the task is another one; no store was opened; the body was interrupted; or the
  -- store refused the record of a governance violation, or the terminal record.
  pub data Raises (q : Request S) (e : Exc) : Type 0 where
    other_task :
        q.same_task ≡ false
        → e ≡ other_exception "ValueError" "run_spec.task_id does not match task"
        → Raises q e
    unopened : q.opened ≡ err e → Raises q e
    interrupted :
        (d : S.State)
        → q.opened ≡ ok d
        → (work_of q d).0 ≡ err e
        → is_exception e ≡ false
        → Raises q e
    violation_unrecorded :
        (d : S.State) (violation : Exc)
        → q.opened ≡ ok d
        → (work_of q d).0 ≡ err violation
        → is_governance violation ≡ true
        → (S.record_event false
            (governance_event (work_of q d).1.0.executed_roles (exc_text violation))
            (work_of q d).1.1.0).0
          ≡ err e
        → Raises q e
    end_unrecorded :
        (d : S.State)
        → q.opened ≡ ok d
        → is_pending S run (work_of q d).0 ≡ false
        → (write_terminal_record S run (settle S run (work_of q d)).1).0 ≡ err e
        → Raises q e

  module _ (q : Request S) (d : S.State) (opened : q.opened ≡ ok d) where
    not_governed :
        (m e : Exc)
        → (work_of q d).0 ≡ err m
        → (after_raise S run m false (work_of q d).1).0 ≡ err e
        → Raises q e
    not_governed m e h r = elim (Bool-cases (is_exception m)) [
      | inl x ↦
          let none_left = subst (λ b. (after_exception S run m b (work_of q d).1).0 ≡ err e) x r in
          absurd (grind arith)
      | inr x ↦
          let again : err m ≡ err e =
            sym (after_exception_raises S run m (work_of q d).1)
            ∙ subst (λ b. (after_exception S run m b (work_of q d).1).0 ≡ err e) x r in
          let same : m ≡ e = ground (arith, again) in
          interrupted d opened (h ∙ again) (subst (λ y. is_exception y ≡ false) same x)
    ]

    after_settled :
        (w : Check) (e : Exc)
        → (work_of q d).0 ≡ w
        → (settle S run (w, (work_of q d).1)).0 ≡ err e
        → Raises q e
    unfolding settle
    after_settled (ok t) e h r = absurd (ground arith)
    after_settled (err m) e h r = elim (Bool-cases (is_governance m)) [
      | inl g ↦
          violation_unrecorded d m opened h g
            (subst (λ b. (after_raise S run m b (work_of q d).1).0 ≡ err e) g r)
      | inr g ↦
          not_governed m e h (subst (λ b. (after_raise S run m b (work_of q d).1).0 ≡ err e) g r)
    ]

    after_terminal_raises :
        (pending : Bool) (t r : Check) (e : Exc)
        → after_terminal S run pending t r ≡ err e
        → (r ≡ err e) ⊎ ((pending ≡ false) × (t ≡ err e))
    after_terminal_raises pending (ok u) r e h = inl h
    after_terminal_raises true (err x) r e h = inl h
    after_terminal_raises false (err x) r e h = inr (refl, h)

    run_opened-Raises : (e : Exc) → (run_opened S run q d).0 ≡ err e → Raises q e
    unfolding run_opened terminated
    run_opened-Raises e h =
        elim (after_terminal_raises (is_pending S run (work_of q d).0)
          (write_terminal_record S run (settle S run (work_of q d)).1).0
          (settle S run (work_of q d)).0 e h) [
            | inl r ↦ after_settled (work_of q d).0 e refl r
            | inr (p, t) ↦ end_unrecorded d opened p t
          ]

  -- The two ends of a run.
  abbrev Ends : Request S → Result RunResult → Type 0
  Ends q r = ((result : RunResult) × (r ≡ ok result)) ⊎ ((e : Exc) × (r ≡ err e) × Raises q e)

  returned-Ends :
      (q : Request S) (w : Check × (RunState × Site S))
      → ((e : Exc) → w.0 ≡ err e → Raises q e)
      → Ends q (returned S run w)
  returned-Ends q (ok t, x) h = inl (build_result x.0, refl)
  returned-Ends q (err e, x) h = inr (e, refl, h e refl)

  after_opening-Ends :
      (q : Request S) (o : Result S.State) → q.opened ≡ o → Ends q (after_opening S run q o)
  after_opening-Ends q (ok d) h = returned-Ends q (run_opened S run q d) (run_opened-Raises q d h)
  after_opening-Ends q (err e) h = inr (e, refl, unopened h)

  -- Every run returns a result, or raises for one of the reasons of `Raises`. So an `Exception` of its
  -- body, a governance violation or any other, does not leave execute if the store accepts the records of
  -- the violation and of the run's end.
  pub execute_returns :
      (q : Request S)
      → ((result : RunResult) × (execute S run q ≡ ok result))
        ⊎ ((e : Exc) × (execute S run q ≡ err e) × Raises q e)
  unfolding execute
  execute_returns q =
      if_of (Ends q) q.same_task (λ t. after_opening-Ends q q.opened refl)
        (λ f. inr (
          other_exception "ValueError" "run_spec.task_id does not match task",
          refl,
          other_task f refl,
        ))
