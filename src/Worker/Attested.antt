-- ===== src/Worker/Attested.antt =====
-- What a result of the collector of a worker (src/model_council/executor.py) attests.
use model_council_lab.Prelude.{
  length, ◌≤◌, ◌≡◌, Bool, Option, if◌then◌else◌, none, ℤ, List, false, some, true, ℕ, arith, pos,
  negsuc, refl, leb, ◌+◌, subst, sym,
}
use model_council_lab.Worker.{
  Os, is_set, Collector, all_eof, initial_collector, put, Endpoint, max_worker_protocol_bytes,
  protocol, ticked, stdin, stdout, stderr,
}
use model_council_lab.Worker.Collect.{
  WorkerCollection, completed, conclude, failure_of, latched, is_zero, collect_openai_worker,
  collected, communicate, latch, release, may_accept, released, set_up, salvage,
}
use model_council_lab.Run.Terminal.{if_of}
use model_council_lab.Worker.Invariant.{IsBounded, IsCancelled, IsOwned, flag, moves-IsBounded}
use model_council_lab.Worker.Machine.{Moves, moves_after}
use model_council_lab.Errors.{Result, ok, err}
use model_council_lab.Worker.Traced.{proceed-Moves, turns-Moves}
use model_council_lab.Worker.Serve.{turns}
use model_council_lab.Worker.Closing.{latch-Moves, set_up-Moves, salvage-Moves}

-- A worker that ended by itself with status 0, whose pipes were read to their end and closed, without
-- an abort or an interrupt.
pub record IsAttested (r : WorkerCollection) : Type 0 where
  pub no_failure : r.failure ≡ none
  pub no_abort : r.abort_reason ≡ none
  pub no_interruption : r.interruption ≡ none
  pub was_reaped : r.reaped ≡ true
  pub succeeded : r.returncode ≡ some (pos 0)
  pub read_to_end : r.pipes_eof ≡ true
  pub cleaned_up : r.cleanup_complete ≡ true

unset_lem : {A : Type 0} (o : Option A) → is_set o ≡ false → o ≡ none
unset_lem none h = refl
unset_lem (some a) h = grind arith

zero_lem : (o : Option ℤ) → is_zero o ≡ true → o ≡ some (pos 0)
zero_lem none h = grind arith
zero_lem (some (pos n)) h = let e : n ≡ 0 = ground arith in rw e refl
zero_lem (some (negsuc n)) h = grind arith

vetoed_lem :
    {A : Type 0} (b : Bool) (o : Option A) (a : A)
    → (if b then none else o) ≡ some a
    → (b ≡ false) × (o ≡ some a)
vetoed_lem true o a h = grind arith
vetoed_lem false o a h = (refl, h)

module _ (os : Os) where
  pub failure_lem :
      (s : Collector)
      → is_set (failure_of os s) ≡ false
      → (completed os s ≡ true)
        × ((is_set s.interruption ≡ false)
            × ((is_set s.abort_reason ≡ false) × (is_zero s.returncode ≡ true)))
  unfolding failure_of
  failure_lem s h = ground arith

  pub completed_lem :
      (s : Collector) → completed os s ≡ true → (s.reaped ≡ true) × (all_eof s.eof ≡ true)
  unfolding completed
  completed_lem s h = ground arith

  conclude-IsAttested :
      (accepted : Option (List ℕ)) (s : Collector)
      → is_set (failure_of os s) ≡ false
      → IsAttested (conclude os accepted s)
  unfolding conclude
  conclude-IsAttested accepted s h =
      let f = failure_lem s h in
      let c = completed_lem s f.0 in
      record {
        no_failure = unset_lem _ h;
        no_abort = unset_lem _ f.1.1.0;
        no_interruption = unset_lem _ f.1.0;
        was_reaped = c.0;
        succeeded = zero_lem _ f.1.1.1;
        read_to_end = c.1;
        cleaned_up = f.0;
      }

  -- What the latch accepts was held.
  latched_accepts :
      (deadline now : ℕ) (s : Collector) (p : List ℕ)
      → (latched os deadline now s).0 ≡ some p
      → p ≡ s.protocol_bytes
  unfolding latched
  latched_accepts deadline now s p h =
      if_of (λ (x : Option (List ℕ) × Collector). x.0 ≡ some p → p ≡ s.protocol_bytes)
        (leb deadline now) (λ t h. grind arith) (λ f h. grind arith) h

  latch_accepts :
      (deadline : ℕ) (s : Collector) (p : List ℕ)
      → (latch os deadline s).0 ≡ some p
      → p ≡ s.protocol_bytes
  unfolding latch
  latch_accepts deadline s p h =
      if_of (λ (x : Option (List ℕ) × Collector). x.0 ≡ some p → p ≡ s.protocol_bytes)
        (may_accept os s) (λ t h. latched_accepts deadline (os.clock s.readings) (ticked s) p h)
        (λ f h. grind arith) h

  -- The collector that owns the protocol's descriptor.
  abbrev pub start : Collector
  start = record initial_collector { is_open = put protocol true initial_collector.is_open }

  pub start-IsBounded : IsBounded start
  unfolding initial_collector
  start-IsBounded =
      (omega arith, (omega arith, (omega arith, λ x. (omega arith, (omega arith, omega arith)))))

  pub start-IsOwned : IsOwned start
  unfolding initial_collector
  start-IsOwned = ((λ name. start_owned name), refl)
    where
      start_owned : (name : Endpoint) → 0 + flag (put protocol true (λ x. false) name) ≤ 1
      start_owned stdin = omega arith
      start_owned stdout = omega arith
      start_owned stderr = omega arith
      start_owned protocol = omega arith

  pub start-IsCancelled : IsCancelled start
  unfolding initial_collector
  start-IsCancelled h = grind arith

  -- How a collection ended: the collector that was released, and what had been accepted of it.
  pub record IsOutcome (r : WorkerCollection) (s : Collector) : Type 0 where
    pub ended : Collector
    pub accepted : Option (List ℕ)
    pub concluded : r ≡ conclude os accepted (release os ended)
    pub last : s ≡ release os ended
    pub reached : Moves start ended
    pub held : (p : List ℕ) → accepted ≡ some p → length p ≤ max_worker_protocol_bytes

  module _ (input : List ℕ) (deadline : ℕ) where
    communicate-Moves : (fuel : ℕ) → Moves start (communicate os input deadline fuel start).1
    unfolding communicate initial_collector
    communicate-Moves fuel =
        let set = set_up os input start in
        proceed-Moves (λ t. turns os input deadline fuel) set.0 set.1
          (set_up-Moves os input start (λ name. refl))
          (λ t. turns-Moves os input deadline fuel set.1)

    collected-IsOutcome :
        (q : Result Bool × Collector) (r : WorkerCollection) (s : Collector)
        → Moves start q.1
        → collected os input deadline q ≡ some (r, s)
        → IsOutcome r s
    unfolding collected released
    collected-IsOutcome (ok true, t) r s m h = record {
      ended = (latch os deadline t).1;
      accepted = (latch os deadline t).0;
      concluded = grind arith;
      last = grind arith;
      reached = moves_after m (latch-Moves os deadline t);
      held = λ p e. rw (latch_accepts deadline t p e) (moves-IsBounded m start-IsBounded).0;
    }
    collected-IsOutcome (ok false, t) r s m h = grind arith
    collected-IsOutcome (err e, t) r s m h = record {
      ended = salvage os e t;
      accepted = none;
      concluded = grind arith;
      last = grind arith;
      reached = moves_after m (salvage-Moves os e t);
      held = λ p x. grind arith;
    }

    pub collect-IsOutcome :
        (fuel : ℕ) (r : WorkerCollection) (s : Collector)
        → collect_openai_worker os input deadline fuel ≡ some (r, s)
        → IsOutcome r s
    unfolding collect_openai_worker
    collect-IsOutcome fuel r s h = collected-IsOutcome _ r s (communicate-Moves fuel) h

    attested_lem :
        (r : WorkerCollection) (s : Collector) (p : List ℕ)
        → IsOutcome r s
        → r.accepted ≡ some p
        → IsAttested r × (length p ≤ max_worker_protocol_bytes)
    unfolding conclude
    attested_lem r s p o h =
        let last = release os o.ended in
        let e : (conclude os o.accepted last).accepted ≡ some p =
          subst (λ x. x.accepted ≡ some p) o.concluded h in
        let v = vetoed_lem (is_set (failure_of os last)) o.accepted p e in
        (subst IsAttested (sym o.concluded) (conclude-IsAttested o.accepted last v.0), o.held p v.1)

    -- A collection that hands over a protocol reports no failure, no abort and no interrupt: the worker
    -- was reaped with status 0, the three pipes were read to their end and the cleanup is complete;
    -- and the protocol has at most 8,000,000 bytes.
    pub collect_openai_worker-IsAttested :
        (fuel : ℕ) (r : WorkerCollection) (s : Collector) (p : List ℕ)
        → collect_openai_worker os input deadline fuel ≡ some (r, s)
        → r.accepted ≡ some p
        → IsAttested r × (length p ≤ max_worker_protocol_bytes)
    collect_openai_worker-IsAttested fuel r s p h a =
        attested_lem r s p (collect-IsOutcome fuel r s h) a
