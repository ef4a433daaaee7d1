-- ===== src/Stage/Handlers.antt =====
-- The ends of an attempt of `_execute_stage_body` (src/model_council/runner.py): what is persisted, the
-- retry or stop of a retryable failure, and the `except` clauses of the adapter call.
use model_council_lab.Prelude.{
  String, none, some, ◌∷◌, [], true, false, ◌+++◌, ℕ, Bool, Option, ℤ, ◌+◌, suc, if◌then◌else◌, not,
  ◌==◌, decimal, ◌&&◌, ◌++◌,
}
use model_council_lab.Errors.{
  Exc, ok, err, governance_violation, stage_timeout, model_failure, neutral_provider_failure,
  protocol_error, infrastructure_error,
}
use model_council_lab.Stage.{
  provider, timeout, model, budget, infrastructure, retry, stop, ◌>>=◌, ◌>>◌, pure, raise, lift,
  Env, Stage, StageOutcome, InvocationRecord, failed_budget, failure_outcome, failed_stage,
  retry_exhausted, retry_budget_exhausted, unchecked, negative, provider_nonretryable,
  retry_candidate_remaining, infrastructure_failure, is_legacy,
}
use model_council_lab.Category.Retry.{is_retry_candidate}
use model_council_lab.Contract.{quoted}
use model_council_lab.Category.{category_value}

-- What an attempt leaves to the loop: the next attempt, with the input consumed so far, or a result.
pub data Next : Type 0 where
  again : ℕ → Next
  done : StageOutcome → Next

module _ (env : Env) where
  -- monotonic()
  unfoldable pub now : Stage ℕ
  now w = (ok (env.clock w.reads), record w { reads = suc w.reads })

  -- _record_stage_invocation, with the tests of build_invocation_record that can fail here: a
  -- legacy record with a provider outcome, input consumed by a call that did not begin, and a
  -- negative latency
  unfoldable pub record_stage_invocation : Bool → InvocationRecord → Stage Unit
  record_stage_invocation has_outcome r w =
      if not r.invocation_began && not (r.consumed_tokens_in == 0)
      then (
        err (governance_violation "consumed input must be zero when invocation did not begin"),
        w,
      )
      else if negative r.response_latency
      then (err (governance_violation "harness_observed_latency_seconds must be non-negative"), w)
      else if has_outcome && is_legacy env.profile
      then (
        err (
            governance_violation
              "legacy compatibility evidence must not carry a ProviderCallOutcome"),
        w,
      )
      else elim (env.persist w.writes) [
        | some e ↦ (err e, record w { writes = suc w.writes })
        | none ↦ (ok tt, record w { writes = suc w.writes; records = w.records ++ (r ∷ []) })
      ]

  -- `persist` of an attempt, before and after its call began, with nothing checked
  abbrev pub idle_record : ℕ → ℤ → ℕ → InvocationRecord
  idle_record attempt remaining cumulative = record {
    attempt = attempt;
    attempt_timeout = remaining;
    tokens_in = env.estimated_in;
    tokens_out = 0;
    cumulative_tokens_in = cumulative;
    consumed_tokens_in = 0;
    invocation_began = false;
    response_latency = none;
    retry_decision = stop;
    retry_rationale = retry_budget_exhausted;
    contract_verdict = unchecked;
    identity_verdict = unchecked;
    failure_class = some timeout;
    error_category = none;
  }

  abbrev pub began_record : ℕ → ℤ → ℕ → Option ℤ → InvocationRecord
  began_record attempt remaining cumulative latency =
      record (idle_record attempt remaining cumulative) {
        consumed_tokens_in = env.estimated_in;
        invocation_began = true;
        response_latency = latency;
      }

  abbrev pub max_attempts : ℕ
  max_attempts = env.limits.max_stage_retries + 1

  -- _StageOutcome.retry_exhausted
  abbrev pub exhausted : ℕ → String → String → StageOutcome
  exhausted attempt kind message = failure_outcome (record {
    role = env.role;
    attempt = attempt;
    status = retry_exhausted;
    error = "retry budget exhausted (" +++ (kind +++ ("); last error: " +++ message));
    tokens_in = none;
    tokens_out = none;
  })

  -- _StageOutcome.hard_failure
  abbrev pub hard_failure : ℕ → String → Option ℕ → Option ℕ → StageOutcome
  hard_failure attempt error tokens_in tokens_out = failure_outcome (record {
    role = env.role;
    attempt = attempt;
    status = failed_stage;
    error = error;
    tokens_in = tokens_in;
    tokens_out = tokens_out;
  })

  -- The two ends that every retryable failure of an attempt has: the last attempt stops the stage,
  -- and an earlier one goes on with the input consumed so far.
  unfoldable pub retry_or_exhaust : Bool → InvocationRecord → String → String → ℕ → Stage Next
  retry_or_exhaust has_outcome r kind message cumulative =
      if r.attempt == max_attempts
      then (do
        record_stage_invocation has_outcome
            (record r { retry_decision = stop; retry_rationale = retry_budget_exhausted })
        pure (done (exhausted r.attempt kind message)))
      else (do
        record_stage_invocation has_outcome
            (record r { retry_decision = retry; retry_rationale = retry_candidate_remaining })
        pure (again cumulative))

  -- The input ceiling is passed: the stage stops before the call.
  unfoldable pub input_budget_failure : ℕ → ℤ → ℕ → Stage Next
  input_budget_failure attempt remaining cumulative = do
    record_stage_invocation false (record (idle_record attempt remaining cumulative) {
      retry_rationale = failed_budget;
      failure_class = some budget;
    })
    pure (
        done (
          hard_failure attempt
            ("input budget exceeded in stage "
              +++ (quoted env.role
                  +++ (" (harness-estimated): "
                      +++ (decimal (cumulative + env.estimated_in)
                          +++ (" > " +++ decimal env.limits.max_input_tokens_per_stage)))))
            (some 0) (some 0)))

  -- The `except` clauses of the call; `cumulative` already counts the call.
  unfoldable pub handle : ℕ → ℤ → ℕ → Option ℤ → Bool → Exc → Stage Next
  handle attempt remaining cumulative latency has_outcome (stage_timeout m) =
      retry_or_exhaust has_outcome (began_record attempt remaining cumulative latency) "timeout" m
        cumulative
  handle attempt remaining cumulative latency has_outcome (model_failure m) =
      retry_or_exhaust false
        (record (began_record attempt remaining cumulative latency) { failure_class = some model })
        "model" m cumulative
  handle attempt remaining cumulative latency has_outcome (neutral_provider_failure c m carried) =
      do
        candidate ← lift (is_retry_candidate c)
        if candidate
            then retry_or_exhaust carried
                (record (began_record attempt remaining cumulative latency) {
                  failure_class = some provider;
                  error_category = some c;
                })
                "provider" (category_value c +++ (": " +++ m)) cumulative
            else do
              record_stage_invocation carried
                  (record (began_record attempt remaining cumulative latency) {
                    retry_rationale = provider_nonretryable;
                    failure_class = some provider;
                    error_category = some c;
                  })
              pure (
                  done (
                    hard_failure attempt
                      ("provider/transport failure in stage "
                        +++ (quoted env.role +++ (" (" +++ (category_value c +++ ("): " +++ m)))))
                      none none))
  handle attempt remaining cumulative latency has_outcome (protocol_error m) = do
    record_stage_invocation has_outcome
        (record (began_record attempt remaining cumulative latency) {
          retry_rationale = infrastructure_failure;
          failure_class = some infrastructure;
        })
    raise (protocol_error m)
  handle attempt remaining cumulative latency has_outcome (infrastructure_error m) = do
    record_stage_invocation has_outcome
        (record (began_record attempt remaining cumulative latency) {
          retry_rationale = infrastructure_failure;
          failure_class = some infrastructure;
        })
    raise (infrastructure_error m)
  handle attempt remaining cumulative latency has_outcome e = raise e
