-- ===== src/Stage/Settled.antt =====
-- What the phases of an attempt after its call leave to the loop (src/model_council/runner.py): which
-- calls were made, what was consumed, and what was persisted.
use model_council_lab.Prelude.{
  String, none, some, ◌∷◌, [], true, false, ◌≡◌, arith, Bool, ℕ, List, ◌++◌, ◌⊎◌, Bool-cases, not,
  ◌==◌, ◌&&◌, inl, inr, Option-cases, refl, ℤ, Option, ◌≢◌,
}
use model_council_lab.Errors.{
  Exc, Result, ok, err, stage_timeout, model_failure, protocol_error, infrastructure_error,
  governance_violation, Check, neutral_provider_failure,
}
use model_council_lab.Stage.{
  Env, World, InvocationRecord, continue, retry, stop, StageFailure, pure, raise,
  retry_candidate_remaining, failure_outcome, StageSuccess, success_outcome, negative, is_legacy,
  timeout, model, provider,
}
use model_council_lab.Stage.Handlers.{
  Next, again, done, record_stage_invocation, retry_or_exhaust, max_attempts, handle,
  input_budget_failure,
}
use model_council_lab.Contract.{check_identity, check_output_and_tool_budget, check_contract}
use model_council_lab.Stage.Attempt.{elapsed_of, promoted_artifacts, object_fields}
use model_council_lab.Category.{ProviderErrorCategory}
use model_council_lab.Findings.{Finding}
use model_council_lab.Category.Retry.{is_transient, is_retry_candidate-total}
use model_council_lab.Json.{get}

-- A failure that the runner may retry: a timeout, a model failure, or a provider failure of one of the
-- transient categories.
abbrev pub IsRetryable : InvocationRecord → Type 0
IsRetryable x =
    (x.failure_class ≡ some timeout)
    ⊎ (x.failure_class ≡ some model)
    ⊎ ((x.failure_class ≡ some provider)
        × (c : ProviderErrorCategory) × (x.error_category ≡ some c)
        × (is_transient c ≡ true))

-- What the checks found of a response that became the stage's success.
pub record Accepted (env : Env) (s : StageSuccess) : Type 0 where
  pub identity :
      check_identity env.render env.adapter_identity env.model_identifier env.role s.response
        s.provider_outcome env.policy s.attempt_timeout
        (elapsed_of env s.response_latency)
      ≡ ok none
  pub budgets :
      check_output_and_tool_budget env.role env.limits.max_output_tokens_per_stage
        env.limits.max_tool_calls_per_stage s.response
      ≡ none
  pub known : List Finding
  pub findings : List Finding
  pub contract :
      check_contract env.render env.condition env.role s.response known ≡ ok (none, findings)
  pub artifacts :
      s.artifacts
      ≡ promoted_artifacts env env.role (object_fields env (get "artifacts" s.response)) findings

-- A record of attempt `a` that goes on to the next attempt, and one that stops the stage.
pub record Retried (env : Env) (a : ℕ) (r : InvocationRecord) : Type 0 where
  pub attempt : r.attempt ≡ a
  pub decision : r.retry_decision ≡ retry
  pub rationale : r.retry_rationale ≡ retry_candidate_remaining
  pub retryable : IsRetryable r
  pub not_last : a ≢ max_attempts env

pub record Stopped (a : ℕ) (r : InvocationRecord) : Type 0 where
  pub attempt : r.attempt ≡ a
  pub decision : r.retry_decision ≡ stop

-- The result of an attempt `a` that started with the records `old` and consumed up to `cumulative`:
-- a retry, a failure and a success leave one record, one record and none; an exception leaves one
-- or none.
pub data Trail (env : Env) (a cumulative : ℕ) (old new : List InvocationRecord) (r : Result Next)
    : Type 0 where
  retried :
      (x : InvocationRecord)
      → Retried env a x
      → new ≡ old ++ (x ∷ [])
      → r ≡ ok (again cumulative)
      → Trail env a cumulative old new r
  stopped :
      (x : InvocationRecord) (f : StageFailure)
      → Stopped a x
      → f.attempt ≡ a
      → new ≡ old ++ (x ∷ [])
      → r ≡ ok (done (failure_outcome f))
      → Trail env a cumulative old new r
  finished :
      (s : StageSuccess)
      → s.attempt ≡ a
      → Accepted env s
      → new ≡ old
      → r ≡ ok (done (success_outcome s))
      → Trail env a cumulative old new r
  raised : (e : Exc) → new ≡ old → r ≡ err e → Trail env a cumulative old new r
  raised_after :
      (e : Exc) (x : InvocationRecord)
      → Stopped a x
      → new ≡ old ++ (x ∷ [])
      → r ≡ err e
      → Trail env a cumulative old new r

-- A phase that makes no call, and leaves a trail.
abbrev pub Settled : Env → ℕ → ℕ → World → Result Next × World → Type 0
Settled env a cumulative w r =
    (r.1.calls ≡ w.calls) × Trail env a cumulative w.records r.1.records r.0

-- What a write does: it appends its record, or raises and appends nothing.
pub data Persisted (x : InvocationRecord) (w : World) (q : Check × World) : Type 0 where
  written :
      q.0 ≡ ok tt → q.1.calls ≡ w.calls → q.1.records ≡ w.records ++ (x ∷ []) → Persisted x w q
  refused :
      (e : Exc) → q.0 ≡ err e → q.1.calls ≡ w.calls → q.1.records ≡ w.records → Persisted x w q

pub record-Persisted :
    (env : Env) (o : Bool) (x : InvocationRecord) (w : World)
    → Persisted x w (record_stage_invocation env o x w)
unfolding record_stage_invocation
record-Persisted env o x w =
    elim (Bool-cases (not x.invocation_began && not (x.consumed_tokens_in == 0))) [
      | inl a ↦
          refused (governance_violation "consumed input must be zero when invocation did not begin")
            (ground (arith, a)) (ground (arith, a)) (ground (arith, a))
      | inr a ↦ elim (Bool-cases (negative x.response_latency)) [
        | inl b ↦
            refused (governance_violation "harness_observed_latency_seconds must be non-negative")
              (ground (arith, a, b)) (ground (arith, a, b)) (ground (arith, a, b))
        | inr b ↦ elim (Bool-cases (o && is_legacy env.profile)) [
          | inl c ↦
              refused
                (governance_violation
                  "legacy compatibility evidence must not carry a ProviderCallOutcome")
                (ground (arith, a, b, c)) (ground (arith, a, b, c)) (ground (arith, a, b, c))
          | inr c ↦ elim (Option-cases (env.persist w.writes)) [
            | inl d ↦
                written (ground (arith, a, b, c, d)) (ground (arith, a, b, c, d))
                  (ground (arith, a, b, c, d))
            | inr (e, d) ↦
                refused e (ground (arith, a, b, c, d)) (ground (arith, a, b, c, d))
                  (ground (arith, a, b, c, d))
          ]
        ]
      ]
    ]

-- A write that is followed by a result, and a write that is followed by a raise.
pub then_pure :
    (env : Env) (a c : ℕ) (x : InvocationRecord) (n : Next) (w : World) (q : Check × World)
    → Persisted x w q
    → Trail env a c w.records (w.records ++ (x ∷ [])) (ok n)
    → Settled env a c w (continue q.0 (λ _. pure n) q.1)
then_pure env a c x n w (ok t, w') (written p k e) s = (k, rw e s)
then_pure env a c x n w (err x', w') (written p k e) s = cc
then_pure env a c x n w (ok t, w') (refused d p k e) s = cc
then_pure env a c x n w (err x', w') (refused d p k e) s = (k, raised x' e refl)

pub then_raise :
    (env : Env) (a c : ℕ) (x : InvocationRecord) (f : Exc) (w : World) (q : Check × World)
    → Persisted x w q
    → Stopped a x
    → Settled env a c w (continue q.0 (λ _. raise {A = Next} f) q.1)
then_raise env a c x f w (ok t, w') (written p k e) s = (k, raised_after f x s e refl)
then_raise env a c x f w (err x', w') (written p k e) s = cc
then_raise env a c x f w (ok t, w') (refused d p k e) s = cc
then_raise env a c x f w (err x', w') (refused d p k e) s = (k, raised x' e refl)

module _ (env : Env) where
  pub retry_or_exhaust-Settled :
      (o : Bool) (x : InvocationRecord) (kind m : String) (c : ℕ) (w : World)
      → IsRetryable x
      → Settled env x.attempt c w (retry_or_exhaust env o x kind m c w)
  unfolding retry_or_exhaust
  retry_or_exhaust-Settled o x kind m c w j = elim (Bool-cases (x.attempt == max_attempts env)) [
    | inl last ↦ rw last (
        then_pure env x.attempt c _ _ w _ (record-Persisted env o _ w)
          (stopped _ _ (record { attempt = refl; decision = refl }) refl refl refl))
    | inr more ↦ rw more (
        then_pure env x.attempt c _ _ w _ (record-Persisted env o _ w) (
          retried _
            (record {
              attempt = refl;
              decision = refl;
              rationale = refl;
              retryable = j;
              not_last = ground (arith, more);
            })
            refl refl))
  ]

  -- The write and result of a stage that stops with a failure.
  stop_with :
      (o : Bool) (x : InvocationRecord) (f : StageFailure) (c : ℕ) (w : World)
      → x.retry_decision ≡ stop
      → f.attempt ≡ x.attempt
      → Settled env x.attempt c w (
          continue
            (record_stage_invocation env o x w).0
            (λ _. pure (done (failure_outcome f)))
            (record_stage_invocation env o x w).1)
  stop_with o x f c w d e =
      then_pure env x.attempt c x _ w _ (record-Persisted env o x w)
        (stopped x f (record { attempt = refl; decision = d }) e refl refl)

  pub input_budget_failure-Settled :
      (a : ℕ) (left : ℤ) (c : ℕ) (w : World)
      → Settled env a c w (input_budget_failure env a left c w)
  unfolding input_budget_failure
  input_budget_failure-Settled a left c w = stop_with false _ _ c w refl refl

  -- Whatever the call raised, the handlers make no further call and leave a trail.
  pub handle-Settled :
      (a : ℕ) (left : ℤ) (c : ℕ) (latency : Option ℤ) (o : Bool) (e : Exc) (w : World)
      → Settled env a c w (handle env a left c latency o e w)
  unfolding handle
  handle-Settled a left c latency o (stage_timeout m) w =
      retry_or_exhaust-Settled o _ "timeout" m c w (inl refl)
  handle-Settled a left c latency o (model_failure m) w =
      retry_or_exhaust-Settled false _ "model" m c w (inr (inl refl))
  handle-Settled a left c latency o (neutral_provider_failure k m carried) w =
      rw (is_retry_candidate-total k).0 (elim (Bool-cases (is_transient k)) [
        | inl e ↦
            rw e
              (retry_or_exhaust-Settled carried _ "provider" _ c w (inr (inr (refl, k, refl, e))))
        | inr e ↦ rw e (stop_with carried _ _ c w refl refl)
      ])
  handle-Settled a left c latency o (protocol_error m) w =
      then_raise env a c _ _ w _ (record-Persisted env o _ w)
        (record { attempt = refl; decision = refl })
  handle-Settled a left c latency o (infrastructure_error m) w =
      then_raise env a c _ _ w _ (record-Persisted env o _ w)
        (record { attempt = refl; decision = refl })
  handle-Settled a left c latency o e w = (refl, raised e refl refl)
