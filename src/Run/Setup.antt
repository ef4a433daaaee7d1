-- ===== src/Run/Setup.antt =====
-- The set-up of a run (src/model_council/runner.py, `execute`): what its steps keep of the state.
use model_council_lab.Action.Triple.{Triple, answered, raised, triple_bind, After}
use model_council_lab.Action.{throw, Action}
use model_council_lab.Run.Progress.{InProgress, total_retries}
use model_council_lab.Errors.{ok, err, Exc, Result, governance_violation}
use model_council_lab.Roles.{Condition, condition_stages}
use model_council_lab.Run.{Store, RunEnv, RunState, initial_state}
use model_council_lab.Prelude.{Option, Bool, true, refl, some, false, ◌&&◌, not, ◌==◌, str_eq}
use model_council_lab.Identity.{IdentityPolicy, key}
use model_council_lab.Run.Commit.{Site}
use model_council_lab.Run.Execute.{
  check_configuration, choose_policy, establish_authority, Running, discard, take_policy, when,
}
use model_council_lab.Run.Finish.{on_store}

-- What holds before a step holds after it, whether it answers or raises.
abbrev pub Maintains : {S A : Type 0} → (S → Type 0) → Action S A → Type 0
Maintains I step = Triple I step (λ _. I) (λ _. I)

-- A run before its first stage.
abbrev pub Fresh : Condition → RunState → Type 0
Fresh c st = InProgress c (condition_stages c) st

pub initial_state-Fresh : (c : Condition) → Fresh c initial_state
unfolding total_retries
initial_state-Fresh c = record {
  running = refl;
  in_order = refl;
  sealed = (refl, refl);
  counted = refl;
  unevaluated = refl;
}

policy-Fresh :
    (c : Condition) (policy : Option IdentityPolicy) (st : RunState)
    → Fresh c st
    → Fresh c (record st { provider_identity_policy = policy })
policy-Fresh c policy st p = record {
  running = p.running;
  in_order = p.in_order;
  sealed = p.sealed;
  counted = p.counted;
  unevaluated = p.unevaluated;
}

authority-Fresh :
    (c : Condition) (st : RunState)
    → Fresh c st
    → Fresh c (record st { authority_committed = true })
authority-Fresh c st p = record {
  running = p.running;
  in_order = p.in_order;
  sealed = p.sealed;
  counted = p.counted;
  unevaluated = p.unevaluated;
}

module _ (S : Store) (run : RunEnv) where
  pub result-After :
      {A : Type 0} (Q E : RunState → Type 0) (st : RunState) (r : Result A) (site : Site S)
      → Q st
      → E st
      → After (λ a (x : RunState × Site S). Q x.0) (λ e x. E x.0) r (st, site)
  result-After Q E st (ok a) site q x = answered q
  result-After Q E st (err e) site q x = raised x

  -- A step on the store leaves the state of the run.
  pub on_store-After :
      {A : Type 0} (Q E : RunState → Type 0) (step : Action S.State A) (st : RunState)
      (site : Site S)
      → Q st
      → E st
      → After
          (λ a (x : RunState × Site S). Q x.0)
          (λ e x. E x.0)
          (on_store S run step (st, site)).0
          (on_store S run step (st, site)).1
  on_store-After Q E step st (d, w) q x = result-After Q E st (step d).0 ((step d).1, w) q x

  pub on_store-Maintains :
      {A : Type 0} (I : RunState → Type 0) (step : Action S.State A)
      → Maintains (λ (x : RunState × Site S). I x.0) (on_store S run step)
  on_store-Maintains I step (st, site) p = on_store-After I I step st site p p

  pub when-Maintains :
      (I : RunState → Type 0) (b : Bool) (step : Running S run Unit)
      → Maintains (λ (x : RunState × Site S). I x.0) step
      → Maintains (λ (x : RunState × Site S). I x.0) (when S run b step)
  when-Maintains I true step h x p = h x p
  when-Maintains I false step h x p = answered p

  abbrev IsFresh : RunState × Site S → Type 0
  IsFresh x = Fresh run.condition x.0

  discard-Maintains : {A : Type 0} (r : Result A) → Maintains IsFresh (discard S run r)
  discard-Maintains (ok a) x p = answered p
  discard-Maintains (err e) x p = raised p

  take_policy-Maintains : (r : Result IdentityPolicy) → Maintains IsFresh (take_policy S run r)
  take_policy-Maintains (ok policy) x p = answered (policy-Fresh run.condition (some policy) x.0 p)
  take_policy-Maintains (err e) x p = raised p

  choose_policy-Maintains : Maintains IsFresh (choose_policy S run)
  choose_policy-Maintains =
      when-Maintains (Fresh run.condition) run.is_openai _ (take_policy-Maintains _)

  stored : (step : Action S.State Unit) → Maintains IsFresh (on_store S run step)
  stored = on_store-Maintains (Fresh run.condition)

  pub establish_authority-Maintains : Maintains IsFresh (establish_authority S run)
  unfolding establish_authority
  establish_authority-Maintains = triple_bind (stored S.write_source_provenance) λ _.
      triple_bind (stored S.write_task_record) λ _. triple_bind (discard-Maintains run.profile) λ _.
        triple_bind choose_policy-Maintains λ _. triple_bind (stored S.write_execution_binding) λ _.
          triple_bind (stored S.write_evaluator_binding) λ _.
            triple_bind (stored S.write_treatment_declaration) λ _.
              triple_bind (stored S.freeze_run_authority)
                λ _. λ x p. answered (authority-Fresh run.condition x.0 p)

  refused : (e : Exc) → Maintains {A = Unit} IsFresh (throw e)
  refused e x p = raised p

  pub check_configuration-Maintains : Maintains IsFresh (check_configuration S run)
  unfolding check_configuration
  check_configuration-Maintains =
      triple_bind (when-Maintains (Fresh run.condition) run.is_openai _ (stored S.create_manifest))
        λ _.
          triple_bind
            (when-Maintains (Fresh run.condition)
              (run.is_openai && not (run.limits.max_stage_retries == 0)) _
              (refused (
                governance_violation
                  "F5 production OpenAI attempts require zero automatic retries")))
            λ _.
              when-Maintains (Fresh run.condition)
                (not (str_eq (key run.adapter_identity) run.model_identifier)) _
                (refused (governance_violation "adapter identity mismatch"))
