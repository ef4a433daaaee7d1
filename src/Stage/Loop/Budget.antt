-- ===== src/Stage/Loop/Budget.antt =====
-- The budget of a whole stage (src/model_council/runner.py): what its calls consume, and how many
-- calls it makes.
use model_council_lab.Prelude.{
  [], ◌≡◌, arith, refl, zero, suc, ℕ, length, ◌*◌, ◌≤◌, ◌+◌, List, Option, ap,
}
use model_council_lab.Errors.{Result, ok, err}
use model_council_lab.Stage.{Env, World, InvocationRecord, Stage, StageOutcome, continue}
use model_council_lab.Stage.Settled.{retried, finished, raised, raised_after, stopped, Trail}
use model_council_lab.Stage.Attempted.{no_call, one_call, attempt_body-Attempted, Attempted}
use model_council_lab.Stage.Handlers.{again, done, Next, now, max_attempts}
use model_council_lab.Stage.Loop.{attempts_from, execute_stage_body, resume, returned_outcome-world}

Trail-again :
    (env : Env) (a c d : ℕ) (old new : List InvocationRecord) (r : Result Next)
    → Trail env a c old new r
    → r ≡ ok (again d)
    → d ≡ c
Trail-again env a c d old new r (retried x j n e) h = ground arith
Trail-again env a c d old new r (stopped x f j k n e) h = absurd (ground arith)
Trail-again env a c d old new r (finished s j k n e) h = absurd (ground arith)
Trail-again env a c d old new r (raised x n e) h = absurd (ground arith)
Trail-again env a c d old new r (raised_after x y j n e) h = absurd (ground arith)

module _ (env : Env) where
  -- The input of the calls made so far, each of the estimate of the stage's input.
  abbrev pub called : List ℕ → ℕ
  called calls = length calls * env.estimated_in

  abbrev ceiling : ℕ
  ceiling = env.limits.max_input_tokens_per_stage

  record Affordable (c : ℕ) (calls : List ℕ) (q : Result Next × World) : Type 0 where
    within : called q.1.calls ≤ ceiling
    one_more : length q.1.calls ≤ length calls + 1
    carried : (d : ℕ) → q.0 ≡ ok (again d) → (called q.1.calls ≡ d)

  Attempted-Affordable :
      (a c : ℕ) (calls : List ℕ) (old : List InvocationRecord) (q : Result Next × World)
      → called calls ≡ c
      → c ≤ ceiling
      → Attempted env a c calls old q
      → Affordable c calls q
  Attempted-Affordable a c calls old q e fits (no_call k t) = record {
    within = rw k (omega arith);
    one_more = rw k (omega arith);
    carried = λ d h. rw (k, Trail-again env a c d _ _ _ t h) e;
  }
  Attempted-Affordable a c calls old q e fits (one_call room k t) = record {
    within = rw k (grind arith);
    one_more = rw k (omega arith);
    carried = λ d h. rw (k, Trail-again env a _ d _ _ _ t h) (grind arith);
  }

  module _ (deadline : ℕ) where
    -- From calls that consumed `c`, within the ceiling, the loop stays within the ceiling and makes at
    -- most one call for each attempt left.
    abbrev Fits : ℕ → List ℕ → Result (Option StageOutcome) × World → Type 0
    Fits left calls q = (called q.1.calls ≤ ceiling) × (length q.1.calls ≤ length calls + left)

    resume-Fits :
        (left c : ℕ) (calls : List ℕ) (k : ℕ → Stage (Option StageOutcome))
        (q : Result Next × World)
        → Affordable c calls q
        → ((d : ℕ) → q.0 ≡ ok (again d) → Fits left q.1.calls (k d q.1))
        → Fits (suc left) calls (continue q.0 (resume k) q.1)
    resume-Fits left c calls k (err e, v) h s = (h.within, omega (arith, h.one_more))
    resume-Fits left c calls k (ok (done o), v) h s = (h.within, omega (arith, h.one_more))
    resume-Fits left c calls k (ok (again d), v) h s =
        ((s d refl).0, omega (arith, h.one_more, (s d refl).1))

    attempts_from-Fits :
        (left a c : ℕ) (w : World)
        → called w.calls ≡ c
        → c ≤ ceiling
        → Fits left w.calls (attempts_from env deadline left a c w)
    unfolding attempts_from
    attempts_from-Fits zero a c w e fits = (omega arith, omega arith)
    attempts_from-Fits (suc left) a c w e fits =
        let h =
          Attempted-Affordable a c w.calls w.records _ e fits
            (attempt_body-Attempted env deadline a c w) in
        resume-Fits left c w.calls (attempts_from env deadline left (suc a)) _ h (λ d g.
          attempts_from-Fits left (suc a) d _ (h.carried d g) (rw (h.carried d g) at h.within))

  -- A stage that starts with no calls makes at most one call for each of its attempts, and the input of
  -- its calls, each counted with the stage's estimate, stays within the stage's ceiling, whatever the
  -- adapter, the clock and the store do.
  pub execute_stage_body-budget :
      (w : World)
      → w.calls ≡ []
      → (called (execute_stage_body env w).1.calls ≤ env.limits.max_input_tokens_per_stage)
        × (length (execute_stage_body env w).1.calls ≤ env.limits.max_stage_retries + 1)
  unfolding execute_stage_body now
  execute_stage_body-budget w e =
      let start = record w { reads = suc w.reads } in
      let q =
        attempts_from env (env.clock w.reads + env.limits.stage_timeout) (max_attempts env) 1 0
          start in
      let f =
        attempts_from-Fits (env.clock w.reads + env.limits.stage_timeout) (max_attempts env) 1 0
          start (rw e (omega arith)) (omega arith) in
      rw (returned_outcome-world q) (f.0, omega (arith, f.1, ap length e))
