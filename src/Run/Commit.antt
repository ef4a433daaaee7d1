-- ===== src/Run/Commit.antt =====
-- `_execute_stage` and `_commit_stage_transaction` of src/model_council/runner.py: what a stage does to
-- the store and to the world of its attempts.
use model_council_lab.Prelude.{
  String, none, some, ◌∷◌, [], true, suc, List, Option, ℕ, ℤ, if◌then◌else◌, is_positive, str_eq,
  sub_ℕ, ◌+++◌,
}
use model_council_lab.Errors.{
  ok, err, other_exception, governance_violation, stage_timeout, Result, Check,
}
use model_council_lab.Action.{Action, ◌>>=◌, ◌>>◌, yield, throw, reading, on_first, on_second}
use model_council_lab.Stage.{
  Env, World, promote, stage_succeeded, stop, retry_budget_exhausted, passed_check, timeout,
  StageSuccess, InvocationRecord, StageOutcome,
}
use model_council_lab.Run.{Store, RunEnv, stage_env, select}
use model_council_lab.Json.{Fields, Json, keys, field, end}
use model_council_lab.Roles.{Role, allowed_input_keys}
use model_council_lab.Identity.{IdentityPolicy}
use model_council_lab.Stage.Handlers.{record_stage_invocation}
use model_council_lab.Stage.Attempt.{is_some}
use model_council_lab.Stage.Loop.{execute_stage_body}
use model_council_lab.Structured.{is_empty, minus}

-- The artifacts of a success, as the pairs that `items()` gives.
unfoldable pub items : Fields → List (String × Json)
items end = []
items (field k v fs) = (k, v) ∷ items fs

-- promoted[name]
unfoldable pub lookup_ref : String → List (String × String) → Result String
lookup_ref name [] = err (other_exception "KeyError" name)
lookup_ref name ((k, ref) ∷ promoted) = if str_eq k name then ok ref else lookup_ref name promoted

-- [promoted[name] for name in outcome.artifacts]
unfoldable pub refs_of : List String → List (String × String) → Result (List String)
refs_of [] promoted = ok []
refs_of (name ∷ names) promoted = elim (lookup_ref name promoted) [
  | err e ↦ err e
  | ok ref ↦ elim (refs_of names promoted) [ err e ↦ err e | ok refs ↦ ok (ref ∷ refs) ]
]

-- the record of a promoted success, and that of a success that the deadline undid
abbrev pub success_record : StageSuccess → InvocationRecord
success_record s = record {
  attempt = s.attempt;
  attempt_timeout = s.attempt_timeout;
  tokens_in = s.tokens_in;
  tokens_out = s.tokens_out;
  cumulative_tokens_in = s.cumulative_tokens_in;
  consumed_tokens_in = s.tokens_in;
  invocation_began = true;
  response_latency = s.response_latency;
  retry_decision = promote;
  retry_rationale = stage_succeeded;
  contract_verdict = passed_check;
  identity_verdict = passed_check;
  failure_class = none;
  error_category = none;
}

abbrev pub undone_record : StageSuccess → ℤ → InvocationRecord
undone_record s remaining = record (success_record s) {
  attempt_timeout = remaining;
  retry_decision = stop;
  retry_rationale = retry_budget_exhausted;
  failure_class = some timeout;
}

-- The calls of a stage are counted from its start.
abbrev pub begin_stage : World → World
begin_stage w = record w { calls = [] }

-- The stored state and the world of the stages.
abbrev pub Site : Store → Type 0
Site S = S.State × World

module _ (S : Store) (run : RunEnv) where
  -- deadline.require, on the stage's clock
  unfoldable pub require_deadline : Env → ℕ → String → Action (Site S) Unit
  require_deadline env deadline where_ (d, w) =
      let t = env.clock w.reads in
      (
        (if is_positive (sub_ℕ deadline t)
            then ok tt
            else err (stage_timeout ("stage deadline expired " +++ where_))),
        (d, record w { reads = suc w.reads }),
      )

  -- for artifact_name, content in outcome.artifacts.items()
  unfoldable pub write_artifacts : Env → Role → ℕ → List (String × Json) → Action (Site S) Unit
  unfolding require_deadline
  write_artifacts env role deadline [] = yield tt
  write_artifacts env role deadline ((name, content) ∷ rest) = do
    on_first (S.write_staged role name content)
    require_deadline env deadline "during artifact persistence"
    write_artifacts env role deadline rest

  -- _record_stage_invocation for the stage's success
  abbrev pub record_success : Env → StageSuccess → InvocationRecord → Action (Site S) Unit
  record_success env s r =
      on_second (record_stage_invocation env (is_some env s.provider_outcome) r)

  -- _commit_stage_transaction
  unfoldable pub commit_stage_transaction :
      Env → Role → StageSuccess → Action (Site S) (List String)
  unfolding write_artifacts
  commit_stage_transaction env role s = do
    require_deadline env s.deadline "before promoted artifact writes"
    write_artifacts env role s.deadline (items s.artifacts)
    require_deadline env s.deadline "before promoted artifact commit"
    promoted ← on_first (S.commit_staged_artifacts role)
    refs ← reading (λ _. refs_of (keys s.artifacts) promoted)
    require_deadline env s.deadline "before invocation evidence bind"
    record_success env s (success_record s)
    require_deadline env s.deadline "before successful stage sealing"
    reading (λ (site : Site S). S.check_seal role s.attempt site.0)
    require_deadline env s.deadline "before seal persist"
    on_first (S.persist_seal role s.attempt)
    require_deadline env s.deadline "before declaring stage success"
    reading (λ (site : Site S). S.verify_sealed_stage role site.0)
    yield refs

  -- The transaction, and the check before the success is applied.
  unfoldable pub commit_stage : Env → Role → StageSuccess → Action (Site S) (List String)
  commit_stage env role s = do
    refs ← commit_stage_transaction env role s
    require_deadline env s.deadline "before applying stage success"
    yield refs

  -- The inputs of _execute_stage_body, or its refusal of a context that lacks one.
  unfoldable pub stage_inputs : Role → Fields → Result Fields
  stage_inputs role context = elim (allowed_input_keys run.condition role) [
    | none ↦ err (other_exception "KeyError" "no context policy")
    | some allowed ↦
        if is_empty (minus allowed (keys context))
        then ok (select allowed context)
        else err (governance_violation "stage requires context keys not produced by prior stages")
  ]

  -- The inputs that the policy selects of a context that has them.
  unfoldable pub inputs_of : Role → Fields → Fields
  inputs_of role context = elim (allowed_input_keys run.condition role) [
    | none ↦ end
    | some allowed ↦ select allowed context
  ]

  abbrev pub run_body : Option IdentityPolicy → Role → Result Fields → Action (Site S) StageOutcome
  run_body policy role (err e) (d, w) = (err e, (d, record w { reads = suc w.reads }))
  run_body policy role (ok inputs) (d, w) =
      on_second (execute_stage_body (stage_env run policy role inputs)) (d, begin_stage w)

  -- `finally`: what the settlement raises takes the place of the body's end
  abbrev pub after_settlement : Result StageOutcome → Check → Result StageOutcome
  after_settlement r (ok t) = r
  after_settlement r (err e) = err e

  abbrev pub settled : Role → Result StageOutcome × Site S → Result StageOutcome × Site S
  settled role (r, (d, w)) =
      (after_settlement r (S.settle_attempt role d).0, ((S.settle_attempt role d).1, w))

  -- The part of _execute_stage that only the OpenAI adapter takes; a missing key is a KeyError here.
  abbrev pub journaled : Option IdentityPolicy → Role → Result Fields → Action (Site S) StageOutcome
  journaled policy role (err e) = throw (other_exception "KeyError" "context")
  journaled policy role (ok inputs) = do
    on_first (S.prepare_attempt role inputs)
    λ site. settled role (run_body policy role (ok inputs) site)

  -- _execute_stage
  unfoldable pub execute_stage :
      Option IdentityPolicy → Role → Fields → Action (Site S) StageOutcome
  execute_stage policy role context =
      if run.is_openai
      then journaled policy role (stage_inputs role context)
      else run_body policy role (stage_inputs role context)
