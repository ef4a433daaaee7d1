-- ===== src/Stage/Attempted.antt =====
-- What one attempt does to the budget, the calls and the records (src/model_council/runner.py).
use model_council_lab.Prelude.{
  none, ◌∷◌, true, false, ◌≡◌, arith, inl, inr, refl, ℕ, Bool-cases, Option, ◌+◌, is_positive, ℤ,
  ◌∙◌, ◌≤◌, Bool, sub_ℕ, suc, ltb, List,
}
use model_council_lab.Errors.{Result, ok, err}
use model_council_lab.Stage.{Env, World, Stage, continue, InvocationRecord}
use model_council_lab.Stage.Settled.{
  raised, Settled, Trail, handle-Settled, retry_or_exhaust-Settled, input_budget_failure-Settled,
}
use model_council_lab.Stage.Attempt.{after_call, after_timely, attempt_body, launch, timely}
use model_council_lab.Stage.Handlers.{Next, now}
use model_council_lab.Json.{Fields}
use model_council_lab.Identity.{ProviderCallOutcome}
use model_council_lab.Stage.Checked.{check_response-Settled}
use model_council_lab.Stage.Call.{call}

-- An attempt `a` that started with `c` consumed: it makes no call and consumes nothing, or it makes
-- one call, whose input fits the stage's ceiling, and consumes that.
pub data Attempted (env : Env) (a c : ℕ) (calls : List ℕ) (old : List InvocationRecord)
    (r : Result Next × World) : Type 0 where
  no_call : r.1.calls ≡ calls → Trail env a c old r.1.records r.0 → Attempted env a c calls old r
  one_call :
      c + env.estimated_in ≤ env.limits.max_input_tokens_per_stage
      → r.1.calls ≡ a ∷ calls
      → Trail env a (c + env.estimated_in) old r.1.records r.0
      → Attempted env a c calls old r

-- A step that leaves calls and records alone, followed by one that settles.
bind-Settled :
    {A : Type 0} (env : Env) (a c : ℕ) (w : World) (m : Result A × World) (f : A → Stage Next)
    → m.1.calls ≡ w.calls
    → m.1.records ≡ w.records
    → ((x : A) (v : World) → Settled env a c v (f x v))
    → Settled env a c w (continue m.0 f m.1)
bind-Settled env a c w (ok x, v) f k e s = let (j, t) = s x v in (j ∙ k, rw (← e) t)
bind-Settled env a c w (err x, v) f k e s = (k, raised x e refl)

quiet :
    (env : Env) (a c : ℕ) (w : World) (r : Result Next × World)
    → Settled env a c w r
    → Attempted env a c w.calls w.records r
quiet env a c w r s = no_call s.0 s.1

module _ (env : Env) (deadline : ℕ) where
  timely-quiet :
      (started : ℕ) (outcome : Option ProviderCallOutcome) (w : World)
      → ((timely env deadline started outcome w).1.calls ≡ w.calls)
        × ((timely env deadline started outcome w).1.records ≡ w.records)
  unfolding timely now
  timely-quiet started outcome w = (refl, refl)

  after_timely-Settled :
      (started a c : ℕ) (response : Fields) (outcome : Option ProviderCallOutcome)
      (found : Bool × Option ℤ) (w : World)
      → Settled env a c w (after_timely env deadline started a c response outcome found w)
  unfolding after_timely
  after_timely-Settled started a c response outcome (true, latency) w =
      check_response-Settled env deadline a _ c latency response outcome w
  after_timely-Settled started a c response outcome (false, latency) w =
      handle-Settled env a _ c latency _ _ w

  after_call-Settled :
      (started a c : ℕ) (reply : Result (Fields × Option ProviderCallOutcome)) (w : World)
      → Settled env a c w (after_call env deadline started a c reply w)
  unfolding after_call
  after_call-Settled started a c (err e) w = handle-Settled env a _ c none false e w
  after_call-Settled started a c (ok (response, outcome)) w =
      let (k, e) = timely-quiet started outcome w in
      bind-Settled env a c w _ _ k e (after_timely-Settled started a c response outcome)

  launch-Attempted :
      (a : ℕ) (left : ℤ) (c : ℕ) (w : World)
      → c + env.estimated_in ≤ env.limits.max_input_tokens_per_stage
      → Attempted env a c w.calls w.records (launch env deadline a left c w)
  unfolding launch now call
  launch-Attempted a left c w fits =
      elim (Bool-cases (is_positive (sub_ℕ deadline (env.clock w.reads)))) [
        | inl e ↦
            rw e
              (let (k, t) = after_call-Settled _ a (c + env.estimated_in) _ _ in one_call fits k t)
        | inr e ↦
            rw e (quiet env a c w _ (retry_or_exhaust-Settled env _ _ "timeout" _ c _ (inl refl)))
      ]

  -- Every attempt makes no call, or one that fits the budget, and leaves a trail.
  pub attempt_body-Attempted :
      (a c : ℕ) (w : World) → Attempted env a c w.calls w.records (attempt_body env deadline a c w)
  unfolding attempt_body now
  attempt_body-Attempted a c w =
      elim (Bool-cases (is_positive (sub_ℕ deadline (env.clock (suc w.reads))))) [
        | inr e ↦
            rw e (quiet env a c w _ (retry_or_exhaust-Settled env _ _ "timeout" _ c _ (inl refl)))
        | inl e ↦
            elim (Bool-cases (ltb env.limits.max_input_tokens_per_stage (c + env.estimated_in))) [
              | inl over ↦
                  rw (e, over) (quiet env a c w _ (input_budget_failure-Settled env a _ c _))
              | inr fits ↦ rw (e, fits) (launch-Attempted a _ c _ (ground (arith, fits)))
            ]
      ]
