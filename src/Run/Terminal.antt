-- ===== src/Run/Terminal.antt =====
-- How a run ends (src/model_council/runner.py, `execute`): an interrupt, the `except` clauses and the
-- terminal record.
use model_council_lab.Action.Triple.{
  After, answered, raised, proceed-After, triple_bind, after_both,
}
use model_council_lab.Action.{Action}
use model_council_lab.Run.Finish.{
  aborted_evaluation, finalize_interrupted_run, reconcile_from, settle_interrupted, reconcile,
  completed_stage_topology, interrupted_evaluation, interrupted_state, reconcile_one,
}
use model_council_lab.Run.Reconcile.{
  reconcile_final, reconcile_role, last_role, is_missing, role_succeeded,
}
use model_council_lab.Run.Execute.{
  after_interrupt, after_governance, settle, run_opened, terminated, Request, after_exception,
  after_raise, write_terminal_record, run_work, is_pending,
}
use model_council_lab.Run.Justified.{
  Justified, unsuccessful, IsOpen, EndsJustified, run_work-Justified,
}
use model_council_lab.Roles.{Role, condition_stages}
use model_council_lab.Run.{
  RunState, Store, RunEnv, evaluation_error_event, initial_state, run_result,
}
use model_council_lab.Run.Results.{is_succeeded}
use model_council_lab.Stage.Terminal.{RunStatus}
use model_council_lab.Prelude.{
  String, ◌≡◌, Option, false, List, ◌||◌, some, ◌∷◌, true, ◌&&◌, [], none, Bool, arith, not,
  if◌then◌else◌, refl, ℕ, subst, sym,
}
use model_council_lab.Run.Commit.{Site}
use model_council_lab.Run.Setup.{
  on_store-After, on_store-Maintains, when-Maintains, initial_state-Fresh,
}
use model_council_lab.Errors.{is_governance, Check, Exc, Result, err, is_exception, ok}

abbrev pub IsFailing : RunState → Type 0
IsFailing st = is_succeeded st.status ≡ false

-- A property of both branches.
pub if_of :
    {A : Type 0} (P : A → Type 0) (b : Bool) {x y : A}
    → (b ≡ true → P x)
    → (b ≡ false → P y)
    → P (if b then x else y)
if_of P true h k = h refl
if_of P false h k = k refl

module _ (S : Store) (run : RunEnv) where
  -- What a reconciliation keeps of the state.
  abbrev pub Kept : (RunState → Type 0) → Type 0
  Kept P =
      ((role : Role) (attempt : ℕ) (st : RunState) → P st → P (reconcile_role role attempt st))
      × ((last : Option Role) (st : RunState) → P st → P (reconcile_final last st))

  abbrev Stays : (RunState → Type 0) → Check × (RunState × Site S) → Type 0
  Stays P w = After (λ t x. P x.0) (λ e x. P x.0) w.0 w.1

  reconcile_one_lem :
      (P : RunState → Type 0) (kept : Kept P) (role : Role) (next : Action (RunState × Site S) Unit)
      → ((x : RunState × Site S) → P x.0 → Stays P (next x))
      → (r : Result (Option ℕ)) (x : RunState × Site S) → P x.0
      → Stays P (reconcile_one S run role next r x)
  reconcile_one_lem P kept role next h (err e) x o = raised o
  reconcile_one_lem P kept role next h (ok none) x o =
      on_store-Maintains S run P (S.abort_uncommitted_stage role) x o
  reconcile_one_lem P kept role next h (ok (some attempt)) (st, (d, w)) o =
      h _ (kept.0 role attempt st o)

  reconcile_from_lem :
      (P : RunState → Type 0) (kept : Kept P) (roles : List Role) (x : RunState × Site S)
      → P x.0
      → Stays P (reconcile_from S run roles x)
  unfolding reconcile_from
  reconcile_from_lem P kept [] x o = answered o
  reconcile_from_lem P kept (role ∷ rest) x o =
      reconcile_one_lem P kept role _ (reconcile_from_lem P kept rest) _ x o

  pub reconcile_lem :
      (P : RunState → Type 0) (kept : Kept P) (x : RunState × Site S)
      → P x.0
      → Stays P (reconcile S run x)
  unfolding reconcile
  reconcile_lem P kept =
      triple_bind (reconcile_from_lem P kept (condition_stages run.condition))
        λ _. λ x o. answered (kept.1 (last_role (condition_stages run.condition)) x.0 o)

  reconcile_final_lem :
      (P : RunState → Type 0)
      → ((ref : Option String) (st : RunState) → P st → P (record st { final_candidate_ref = ref }))
      → (last : Option Role) (st : RunState) → P st
      → P (reconcile_final last st)
  unfolding reconcile_final
  reconcile_final_lem P kept none st o = o
  reconcile_final_lem P kept (some last) st o =
      if_of P (is_missing st.final_candidate_ref && role_succeeded last st.stage_results)
        (λ t. kept _ st o) (λ f. o)

  -- The reconciliation commits no evaluation.
  keeps_opening : Kept IsOpen
  unfolding reconcile_role
  keeps_opening = (λ role attempt st o. o, reconcile_final_lem IsOpen (λ ref st o. o))

  settle_interrupted_lem :
      (st : RunState) (site : Site S)
      → IsOpen st
      → After
          (λ t (x : RunState × Site S). IsFailing x.0)
          (λ e x. IsOpen x.0)
          (settle_interrupted S run (st, site)).0
          (settle_interrupted S run (st, site)).1
  unfolding settle_interrupted
  settle_interrupted_lem st site o =
      if_of
        (λ (w : Check × (RunState × Site S)).
          After (λ t (x : RunState × Site S). IsFailing x.0) (λ e x. IsOpen x.0) w.0 w.1)
        st.evaluation_committed (λ t. ground (arith, t, o))
        (λ f.
          if_of
            (λ (w : Check × (RunState × Site S)).
              After (λ t (x : RunState × Site S). IsFailing x.0) (λ e x. IsOpen x.0) w.0 w.1)
            (st.evaluation_started || completed_stage_topology run.condition st)
            (λ t.
              proceed-After
                (on_store-After S run IsFailing IsOpen
                  (S.record_event true (evaluation_error_event interrupted_evaluation))
                  (aborted_evaluation st) site refl o)
                (λ a x p. answered p))
            (λ f.
              on_store-After S run IsFailing IsOpen S.ensure_manifest (interrupted_state st) site
                refl o))

  -- An interrupted run that no evaluation has ended is given a status other than success.
  pub finalize_interrupted_run_lem :
      (x : RunState × Site S)
      → IsOpen x.0
      → After
          (λ t (y : RunState × Site S). IsFailing y.0)
          (λ e y. IsOpen y.0)
          (finalize_interrupted_run S run x).0
          (finalize_interrupted_run S run x).1
  unfolding finalize_interrupted_run
  finalize_interrupted_run_lem =
      triple_bind (reconcile_lem IsOpen keeps_opening) λ _. λ x o. settle_interrupted_lem x.0 x.1 o

  -- An evaluation was committed, and the run has this status.
  abbrev pub Decided : RunStatus → RunState → Type 0
  Decided status st = (st.evaluation_committed ≡ true) × (st.status ≡ status)

  keeps_decision : (status : RunStatus) → Kept (Decided status)
  unfolding reconcile_role
  keeps_decision status =
      (λ role attempt st o. o, reconcile_final_lem (Decided status) (λ ref st o. o))

  settle_decision :
      (status : RunStatus) (st : RunState) (site : Site S)
      → Decided status st
      → Stays (Decided status) (settle_interrupted S run (st, site))
  unfolding settle_interrupted
  settle_decision status st site o =
      if_of (Stays (Decided status)) st.evaluation_committed (λ t. answered o)
        (λ f. absurd (ground (arith, f, o.0)))

  -- An interrupt changes no status that a committed evaluation has decided.
  pub after_decision_lem :
      (e : Exc) (status : RunStatus) (x : RunState × Site S)
      → Decided status x.0
      → (after_interrupt S run e (finalize_interrupted_run S run x)).1.0.status ≡ status
  unfolding finalize_interrupted_run after_interrupt
  after_decision_lem e status x o = left _ _ (
      triple_bind (reconcile_lem (Decided status) (keeps_decision status))
        (λ _. λ y o. settle_decision status y.0 y.1 o) x o)
    where
      left :
          (r : Check) (y : RunState × Site S)
          → Stays (Decided status) (r, y)
          → (after_interrupt S run e (r, y)).1.0.status ≡ status
      left (ok t) y (answered d) = d.1
      left (err m) (st, site) (raised d) =
          if_of (λ (w : Check × (RunState × Site S)). w.1.0.status ≡ status)
            (not st.evaluation_committed && is_succeeded st.status)
            (λ t. absurd (ground (arith, t, d.0))) (λ f. d.1)

  pub after_interrupt_lem :
      (e : Exc) (r : Check) (x : RunState × Site S)
      → After (λ t (y : RunState × Site S). IsFailing y.0) (λ e y. IsOpen y.0) r x
      → IsFailing (after_interrupt S run e (r, x)).1.0
  unfolding after_interrupt
  after_interrupt_lem e (ok t) x (answered p) = p
  after_interrupt_lem e (err m) (st, site) (raised o) =
      if_of (λ (w : Check × (RunState × Site S)). IsFailing w.1.0)
        (not st.evaluation_committed && is_succeeded st.status)
        (λ t.
          if_of (λ (w : Check × (RunState × Site S)). IsFailing w.1.0)
            (st.evaluation_started || completed_stage_topology run.condition st) (λ s. refl)
            (λ f. refl))
        (λ f. ground arith)

  abbrev pub RunJustified : RunState × Site S → Type 0
  RunJustified x = Justified run.condition x.0

  after_governance_lem :
      (e : Exc) (x : RunState × Site S) → RunJustified (after_governance S run e x).1
  after_governance_lem e (st, site) = unsuccessful refl

  after_exception_lem :
      (e : Exc) (b : Bool) (x : RunState × Site S)
      → IsOpen x.0
      → RunJustified (after_exception S run e b x).1
  after_exception_lem e true x o = unsuccessful refl
  after_exception_lem e false x o =
      unsuccessful (after_interrupt_lem e _ _ (finalize_interrupted_run_lem x o))

  after_raise_lem :
      (e : Exc) (b : Bool) (x : RunState × Site S)
      → IsOpen x.0
      → RunJustified (after_raise S run e b x).1
  after_raise_lem e true x o = after_governance_lem e x
  after_raise_lem e false x o = after_exception_lem e (is_exception e) x o

  settle_lem :
      (r : Check) (x : RunState × Site S)
      → EndsJustified S run (r, x)
      → RunJustified (settle S run (r, x)).1
  unfolding settle
  settle_lem (ok t) x (answered j) = j
  settle_lem (err e) x (raised o) = after_raise_lem e (is_governance e) x o

  -- The terminal record leaves the state of the run.
  pub terminated_state :
      (b : Bool) (r : Check) (x : RunState × Site S) → (terminated S run b (r, x)).1.0 ≡ x.0
  unfolding terminated write_terminal_record
  terminated_state b r (st, site) = after_both (
      triple_bind (on_store-Maintains S run (λ t. t ≡ st) (S.record_event false (run_result st)))
        (λ a.
          when-Maintains S run (λ t. t ≡ st) run.is_openai _
            (on_store-Maintains S run (λ t. t ≡ st) S.sync_tree))
        (st, site) refl)

  pub run_opened-Justified : (q : Request S) (d : S.State) → RunJustified (run_opened S run q d).1
  unfolding run_opened
  run_opened-Justified q d =
      let start : RunState × Site S = (initial_state, (d, q.world)) in
      let w = run_work S run start in
      subst (Justified run.condition)
        (sym (terminated_state (is_pending S run w.0) (settle S run w).0 (settle S run w).1))
        (settle_lem w.0 w.1 (run_work-Justified S run start (initial_state-Fresh run.condition)))
