-- ===== src/Stage/Loop/History.antt =====
-- What a whole stage persists and returns (src/model_council/runner.py): the attempts before the last
-- are retries, and the last one decides.
use model_council_lab.Prelude.{
  ◌∷◌, [], ◌≡◌, arith, refl, zero, suc, Option, ℕ, List, ◌++◌, ◌≤◌, ◌∙◌, append_assoc, append-nil,
  subst, ◌+◌,
}
use model_council_lab.Errors.{Exc, Result, ok, err}
use model_council_lab.Stage.{
  Env, World, success_outcome, failure_outcome, InvocationRecord, StageOutcome, Stage, StageSuccess,
  continue, StageFailure,
}
use model_council_lab.Stage.Settled.{
  retried, finished, raised, raised_after, stopped, Retried, Accepted, Trail, Stopped,
}
use model_council_lab.Stage.Attempted.{no_call, one_call, attempt_body-Attempted}
use model_council_lab.Stage.Handlers.{Next, max_attempts, now}
use model_council_lab.Stage.Loop.{
  returned_outcome, resume, attempts_from, execute_stage_body, returned_outcome-world,
}
use model_council_lab.Stage.Attempt.{attempt_body}

-- The records are the retries of the attempts a, a + 1, …, up to and without b.
abbrev pub Retries : Env → ℕ → List InvocationRecord → ℕ → Type 0
Retries env a [] b = b ≡ a
Retries env a (x ∷ xs) b = Retried env a x × Retries env (suc a) xs b

-- The result `r` of the loop that started at attempt `a` with the records `old`.
pub data History (env : Env) (a : ℕ) (old new : List InvocationRecord) (r : Result StageOutcome)
    : Type 0 where
  succeeds :
      (xs : List InvocationRecord) (s : StageSuccess)
      → Retries env a xs s.attempt
      → s.attempt ≤ max_attempts env
      → Accepted env s
      → new ≡ old ++ xs
      → r ≡ ok (success_outcome s)
      → History env a old new r
  fails :
      (xs : List InvocationRecord) (x : InvocationRecord) (f : StageFailure)
      → Retries env a xs f.attempt
      → f.attempt ≤ max_attempts env
      → Stopped f.attempt x
      → new ≡ old ++ (xs ++ (x ∷ []))
      → r ≡ ok (failure_outcome f)
      → History env a old new r
  raises :
      (xs : List InvocationRecord) (b : ℕ) (e : Exc)
      → Retries env a xs b
      → b ≤ max_attempts env
      → new ≡ old ++ xs
      → r ≡ err e
      → History env a old new r
  raises_after :
      (xs : List InvocationRecord) (x : InvocationRecord) (b : ℕ) (e : Exc)
      → Retries env a xs b
      → b ≤ max_attempts env
      → Stopped b x
      → new ≡ old ++ (xs ++ (x ∷ []))
      → r ≡ err e
      → History env a old new r

-- One more retry in front of a history.
History-retry :
    (env : Env) (a : ℕ) (x : InvocationRecord) (old new : List InvocationRecord)
    (r : Result StageOutcome)
    → Retried env a x
    → History env (suc a) (old ++ (x ∷ [])) new r
    → History env a old new r
History-retry env a x old new r j (succeeds xs s t m c n e) =
    succeeds (x ∷ xs) s (j, t) m c (n ∙ append_assoc old (x ∷ []) xs) e
History-retry env a x old new r j (fails xs y f t m k n e) =
    fails (x ∷ xs) y f (j, t) m k (n ∙ append_assoc old (x ∷ []) (xs ++ (y ∷ []))) e
History-retry env a x old new r j (raises xs b f t m n e) =
    raises (x ∷ xs) b f (j, t) m (n ∙ append_assoc old (x ∷ []) xs) e
History-retry env a x old new r j (raises_after xs y b f t m k n e) =
    raises_after (x ∷ xs) y b f (j, t) m k (n ∙ append_assoc old (x ∷ []) (xs ++ (y ∷ []))) e

-- The loop's result as the stage returns it.
abbrev outcome_of : Result (Option StageOutcome) × World → Result StageOutcome
outcome_of q = (continue q.0 returned_outcome q.1).0

-- The round's trail, and the history of the rest, are the history of the loop.
round-History :
    (env : Env) (a c : ℕ) (old : List InvocationRecord) (k : ℕ → Stage (Option StageOutcome))
    (q : Result Next × World)
    → a ≤ max_attempts env
    → Trail env a c old q.1.records q.0
    → ((d : ℕ) (x : InvocationRecord)
        → suc a ≤ max_attempts env
        → q.1.records ≡ old ++ (x ∷ [])
        → History env (suc a) q.1.records (k d q.1).1.records (outcome_of (k d q.1)))
    → History env a old
        (continue q.0 (resume k) q.1).1.records
        (outcome_of (continue q.0 (resume k) q.1))
round-History env a c old k (r, w) m (retried x j n e) h = rw e (
    History-retry env a x old _ _ j (
      subst (λ o. History env (suc a) o (k c w).1.records (outcome_of (k c w))) n
        (h c x (omega (arith, j.not_last)) n)))
round-History env a c old k (r, w) m (stopped x f j p n e) h =
    rw e (fails [] x f p (rw p m) (rw p j) n refl)
round-History env a c old k (r, w) m (finished s p j n e) h =
    rw e (succeeds [] s p (rw p m) j (rw (append-nil old) n) refl)
round-History env a c old k (r, w) m (raised f n e) h =
    rw e (raises [] a f refl m (rw (append-nil old) n) refl)
round-History env a c old k (r, w) m (raised_after f y j n e) h =
    rw e (raises_after [] y a f refl m j n refl)

module _ (env : Env) where
  attempts_from-History :
      (deadline left a c : ℕ) (w : World)
      → a + left ≡ suc (max_attempts env)
      → a ≤ max_attempts env
      → History env a w.records
          (attempts_from env deadline left a c w).1.records
          (outcome_of (attempts_from env deadline left a c w))
  unfolding attempts_from
  attempts_from-History deadline zero a c w e m = absurd (omega arith)
  attempts_from-History deadline (suc left) a c w e m =
      let rest =
        λ (d : ℕ) (x : InvocationRecord) (more : suc a ≤ max_attempts env)
            (n : (attempt_body env deadline a c w).1.records ≡ w.records ++ (x ∷ [])).
          attempts_from-History deadline left (suc a) d (attempt_body env deadline a c w).1
            (omega arith) more in
      elim (attempt_body-Attempted env deadline a c w) [
        | no_call k t ↦ round-History env a c w.records _ _ m t rest
        | one_call room k t ↦ round-History env a (c + env.estimated_in) w.records _ _ m t rest
      ]

  -- A stage persists the retries of its attempts from the first on, one record each, numbered one by
  -- one, with a retryable failure and never for the last allowed attempt. Then it returns a success
  -- that every check accepted and that leaves its record to the commit, or a failure whose one record
  -- stops the stage, or it raises with at most one such record. It never runs out of attempts
  -- without a result, and no attempt is beyond the allowed retries.
  pub execute_stage_body-History :
      (w : World)
      → History env 1 w.records (execute_stage_body env w).1.records (execute_stage_body env w).0
  unfolding execute_stage_body now
  execute_stage_body-History w =
      let start = record w { reads = suc w.reads } in
      let q =
        attempts_from env (env.clock w.reads + env.limits.stage_timeout) (max_attempts env) 1 0
          start in
      rw (returned_outcome-world q) (
        attempts_from-History (env.clock w.reads + env.limits.stage_timeout) (max_attempts env) 1 0
          start (omega arith) (omega arith))
