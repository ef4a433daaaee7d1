-- ===== src/Stage/Loop.antt =====
-- The attempt loop of `_execute_stage_body` (src/model_council/runner.py).
pub mod Budget
pub mod History
use model_council_lab.Prelude.{
  refl, String, none, some, ◌∷◌, [], true, false, ◌+++◌, Option, ℕ, suc, ◌+◌, zero, ◌≡◌,
}
use model_council_lab.Errors.{Exc, Result, ok, err, infrastructure_error}
use model_council_lab.Stage.{
  ◌>>=◌, ◌>>◌, pure, raise, lift, Env, Stage, StageOutcome, World, continue,
}
use model_council_lab.Stage.Handlers.{Next, again, done, now, max_attempts}
use model_council_lab.Stage.Attempt.{attempt_body}

-- The end of a round: return the outcome, or go on with what was consumed.
abbrev pub resume : (ℕ → Stage (Option StageOutcome)) → Next → Stage (Option StageOutcome)
resume next_round (again consumed) = next_round consumed
resume next_round (done outcome) = pure (some outcome)

abbrev pub returned_outcome : Option StageOutcome → Stage StageOutcome
returned_outcome (some outcome) = pure outcome
returned_outcome none = raise (infrastructure_error "unreachable retry loop exit")

-- Returning changes nothing.
pub returned_outcome-world :
    (q : Result (Option StageOutcome) × World) → (continue q.0 returned_outcome q.1).1 ≡ q.1
returned_outcome-world (ok (some o), w) = refl
returned_outcome-world (ok none, w) = refl
returned_outcome-world (err e, w) = refl

module _ (env : Env) where
  -- `for attempt in range(1, max_attempts + 1)`, with the attempts left; `none` means that the loop
  -- ran out without returning.
  unfoldable pub attempts_from : ℕ → ℕ → ℕ → ℕ → Stage (Option StageOutcome)
  attempts_from deadline zero attempt cumulative = pure none
  attempts_from deadline (suc left) attempt cumulative = do
    next ← attempt_body env deadline attempt cumulative
    resume (attempts_from deadline left (suc attempt)) next

  -- _execute_stage_body, from the stage inputs that the context has
  unfoldable pub execute_stage_body : Stage StageOutcome
  execute_stage_body = do
    started ← now env
    outcome ← attempts_from (started + env.limits.stage_timeout) (max_attempts env) 1 0
    returned_outcome outcome
