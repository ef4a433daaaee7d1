-- ===== src/Stage/Call.antt =====
-- The call of one attempt, `_invoke_authorized_attempt` of src/model_council/runner.py.
use model_council_lab.Prelude.{
  none, some, ◌∷◌, true, false, ◌+++◌, Bool, Option, ℕ, if◌then◌else◌, str_eq, ◌&&◌,
}
use model_council_lab.Errors.{
  Result, ok, err, protocol_error, neutral_provider_failure, other_exception,
}
use model_council_lab.Stage.{pre_live_legacy, live_contract_v1, Env, Stage}
use model_council_lab.Identity.{ProviderCallOutcome, is_success}
use model_council_lab.Json.{Fields}
use model_council_lab.Live.{map_live_outcome_to_stage_response}

-- `except LiveContractError as exc: raise ProtocolError(...)`, and the outcome beside the response
abbrev pub mapped_response :
    ProviderCallOutcome → Result Fields → Result (Fields × Option ProviderCallOutcome)
mapped_response outcome (ok response) = ok (response, some outcome)
mapped_response outcome (err (other_exception name m)) =
    if str_eq name "LiveContractError"
    then err (protocol_error ("live outcome could not map to stage artifacts: " +++ m))
    else err (other_exception name m)
mapped_response outcome (err e) = err e

-- _assert_lifecycle_outcome, of the outcome that a call gave; only the OpenAI adapter has a journal
abbrev pub lifecycle_asserted {ℓ} : {A : Type ℓ} → Bool → Result Bool → Result A → Result A
lifecycle_asserted false matches r = r
lifecycle_asserted true (ok true) r = r
lifecycle_asserted true (ok false) r =
    err (protocol_error "provider outcome lacks matching closed lifecycle evidence")
lifecycle_asserted true (err e) r = err e

module _ (env : Env) where
  -- The live branch of _invoke_authorized_attempt, on what `invoke_live` did.
  unfoldable pub live_response :
      ℕ → Result ProviderCallOutcome → Result (Fields × Option ProviderCallOutcome)
  live_response attempt (ok outcome) =
      lifecycle_asserted env.is_openai (env.lifecycle_matches attempt) (
        if is_success outcome.kind
        then mapped_response outcome
            (map_live_outcome_to_stage_response env.condition env.role outcome)
        else err (protocol_error "invoke_live returned a non-success outcome without raising"))
  live_response attempt (err (neutral_provider_failure c m carried)) =
      lifecycle_asserted (env.is_openai && carried) (env.lifecycle_matches attempt)
        (err (neutral_provider_failure c m carried))
  live_response attempt (err e) = err e

  abbrev pub legacy_response : Result Fields → Result (Fields × Option ProviderCallOutcome)
  legacy_response (ok response) = ok (response, none)
  legacy_response (err e) = err e

  -- _invoke_authorized_attempt
  unfoldable pub invoke_authorized_attempt : ℕ → Result (Fields × Option ProviderCallOutcome)
  invoke_authorized_attempt attempt = elim env.profile [
    | live_contract_v1 ↦ live_response attempt (env.invoke_live attempt)
    | pre_live_legacy ↦ legacy_response (env.invoke attempt)
  ]

  -- The call, which the world counts whatever it does.
  unfoldable pub call : ℕ → Stage (Result (Fields × Option ProviderCallOutcome))
  call attempt w = (ok (invoke_authorized_attempt attempt), record w { calls = attempt ∷ w.calls })
