-- ===== src/Worker/Accepted.antt =====
-- When the collector of a worker (src/model_council/executor.py) hands over the protocol.
use model_council_lab.Errors.{
  protocol_error, Check, Exc, ok, err, interrupt, governance_violation, integrity_violation,
  contract_violation, model_failure, stage_timeout, infrastructure_error, neutral_provider_failure,
  other_exception, Result,
}
use model_council_lab.Prelude.{
  ◌≡◌, true, ◌∙◌, Option, subst, String, refl, sym, false, Bool, List, arith, ℕ, leb, none, some,
}
use model_council_lab.Worker.{
  Collector, Os, cleaned, interruption_of, close_endpoint, closed, unregistered, Endpoint, is_set,
  protocol, put, stdin, stdout, stderr, all_eof, ticked,
}
use model_council_lab.Worker.Collect.{
  may_accept, release, selector_closed, completed, failure_of, conclude, latch, latched, salvage,
  collect_openai_worker, collected, WorkerCollection, is_zero, released,
}
use model_council_lab.Run.Terminal.{if_of}
use model_council_lab.Worker.Attested.{failure_lem, completed_lem}
use model_council_lab.Worker.Serve.{abort_now}
use model_council_lab.Worker.Invariant.{moves_aborted}
use model_council_lab.Worker.Closing.{confirm-Moves}
use model_council_lab.Worker.Ends.{abort_aborted}

-- What the closes of the `finally` leave as it was, and what they may add.
record KeepsVerdict (s t : Collector) : Type 0 where
  pub same_reaped : t.reaped ≡ s.reaped
  pub same_eof : t.eof ≡ s.eof
  pub same_code : t.returncode ≡ s.returncode
  pub same_reason : t.abort_reason ≡ s.abort_reason
  pub same_fault : s.cleanup_error ≡ true → t.cleanup_error ≡ true
  pub same_signal : is_set s.interruption ≡ true → is_set t.interruption ≡ true

kept_all : (s : Collector) → KeepsVerdict s s
kept_all s = record {
  same_reaped = refl;
  same_eof = refl;
  same_code = refl;
  same_reason = refl;
  same_fault = λ h. h;
  same_signal = λ h. h;
}

and_then : {s t u : Collector} → KeepsVerdict s t → KeepsVerdict t u → KeepsVerdict s u
and_then v w = record {
  same_reaped = w.same_reaped ∙ v.same_reaped;
  same_eof = w.same_eof ∙ v.same_eof;
  same_code = w.same_code ∙ v.same_code;
  same_reason = w.same_reason ∙ v.same_reason;
  same_fault = λ h. w.same_fault (v.same_fault h);
  same_signal = λ h. w.same_signal (v.same_signal h);
}

signal_lem :
    (e : Exc) (old : Option String) → is_set old ≡ true → is_set (interruption_of e old) ≡ true
unfolding interruption_of
signal_lem (interrupt m) old h = ground arith
signal_lem (governance_violation m) old h = h
signal_lem (integrity_violation m) old h = h
signal_lem (contract_violation m) old h = h
signal_lem (model_failure m) old h = h
signal_lem (stage_timeout m) old h = h
signal_lem (infrastructure_error m) old h = h
signal_lem (protocol_error m) old h = h
signal_lem (neutral_provider_failure c m o) old h = h
signal_lem (other_exception n m) old h = h

-- A step of the cleanup, from a collector that differs only in what no verdict reads.
cleaned-KeepsVerdict :
    (r : Check) (s t : Collector) → KeepsVerdict s t → KeepsVerdict s (cleaned r t)
unfolding cleaned
cleaned-KeepsVerdict (ok x) s t v = v
cleaned-KeepsVerdict (err e) s t v = record {
  same_reaped = v.same_reaped;
  same_eof = v.same_eof;
  same_code = v.same_code;
  same_reason = v.same_reason;
  same_fault = λ h. refl;
  same_signal = λ h. signal_lem e t.interruption (v.same_signal h);
}

-- A change of what no verdict reads.
untouched :
    {s t : Collector}
    → t.reaped ≡ s.reaped
    → t.eof ≡ s.eof
    → t.returncode ≡ s.returncode
    → t.abort_reason ≡ s.abort_reason
    → t.cleanup_error ≡ s.cleanup_error
    → t.interruption ≡ s.interruption
    → KeepsVerdict s t
untouched a b c d e f = record {
  same_reaped = a;
  same_eof = b;
  same_code = c;
  same_reason = d;
  same_fault = λ h. e ∙ h;
  same_signal = λ h. subst (λ x. is_set x ≡ true) (sym f) h;
}

module _ (os : Os) where
  closed-KeepsVerdict : (name : Endpoint) (s : Collector) → KeepsVerdict s (closed os name s)
  unfolding closed
  closed-KeepsVerdict name s =
      cleaned-KeepsVerdict (os.close s.calls name) s _ (untouched refl refl refl refl refl refl)

  unregistered-KeepsVerdict :
      (name : Endpoint) (s : Collector) → KeepsVerdict s (unregistered os name s)
  unfolding unregistered
  unregistered-KeepsVerdict name s =
      if_of (KeepsVerdict s) (s.registered name)
        (λ t.
          cleaned-KeepsVerdict (os.unregister s.calls name) s _
            (untouched refl refl refl refl refl refl))
        (λ f. kept_all s)

  close_endpoint-KeepsVerdict :
      (name : Endpoint) (s : Collector) → KeepsVerdict s (close_endpoint os name s)
  unfolding close_endpoint
  close_endpoint-KeepsVerdict name s =
      if_of (KeepsVerdict s) (s.is_open name)
        (λ t.
          let popped = record s { is_open = put name false s.is_open } in
          and_then
            (and_then (untouched {s = s} {t = popped} refl refl refl refl refl refl)
              (unregistered-KeepsVerdict name popped))
            (closed-KeepsVerdict name (unregistered os name popped)))
        (λ f. kept_all s)

  selector_closed-KeepsVerdict : (s : Collector) → KeepsVerdict s (selector_closed os s)
  unfolding selector_closed
  selector_closed-KeepsVerdict s =
      if_of (KeepsVerdict s) s.has_selector
        (λ t.
          cleaned-KeepsVerdict (os.close_selector s.calls) s _
            (untouched refl refl refl refl refl refl))
        (λ f. kept_all s)

  release-KeepsVerdict : (s : Collector) → KeepsVerdict s (release os s)
  unfolding release
  release-KeepsVerdict s = and_then (close_endpoint-KeepsVerdict protocol s) (
      and_then (close_endpoint-KeepsVerdict stdin _) (
        and_then (close_endpoint-KeepsVerdict stdout _)
          (and_then (close_endpoint-KeepsVerdict stderr _) (selector_closed-KeepsVerdict _))))

  clean_lem : (s : Collector) → completed os s ≡ true → s.cleanup_error ≡ false
  unfolding completed
  clean_lem s h = ground arith

  -- What a result without a failure had when it was released.
  no_failure_lem :
      (s : Collector) → is_set (failure_of os (release os s)) ≡ false → may_accept os s ≡ true
  unfolding may_accept
  no_failure_lem s h =
      let last = release os s in
      let v = release-KeepsVerdict s in
      let f = failure_lem os last h in
      let c = completed_lem os last f.0 in
      let a : s.reaped ≡ true = sym v.same_reaped ∙ c.0 in
      let b : all_eof s.eof ≡ true = subst (λ x. all_eof x ≡ true) v.same_eof c.1 in
      let d : is_set s.abort_reason ≡ false = subst (λ x. is_set x ≡ false) v.same_reason f.1.1.0 in
      let e : is_zero s.returncode ≡ true = subst (λ x. is_zero x ≡ true) v.same_code f.1.1.1 in
      let g : s.cleanup_error ≡ false = backwards v.same_fault (clean_lem last f.0) in
      let i : is_set s.interruption ≡ false = backwards v.same_signal f.1.0 in
      ground (arith, a, b, d, e, g, i)
    where
      backwards : {a b : Bool} → (a ≡ true → b ≡ true) → b ≡ false → a ≡ false
      backwards {a = true} k h = absurd (ground (arith, k refl, h))
      backwards {a = false} k h = refl

  aborted_refuses : (s : Collector) → is_set s.abort_reason ≡ true → may_accept os s ≡ false
  unfolding may_accept
  aborted_refuses s h = ground arith

  latched_lem :
      (deadline now : ℕ) (s : Collector)
      → may_accept os (latched os deadline now s).1 ≡ true
      → is_set (latched os deadline now s).0 ≡ true
  unfolding latched abort_now
  latched_lem deadline now s h =
      if_of (λ (x : Option (List ℕ) × Collector). may_accept os x.1 ≡ true → is_set x.0 ≡ true)
        (leb deadline now)
        (λ t h. absurd (
          ground (
            arith,
            h,
            aborted_refuses (abort_now os "deadline" s)
                (abort_aborted os "deadline" (os.clock s.readings) (ticked s)),
          )))
        (λ f h. refl) h

  latch_lem :
      (deadline : ℕ) (s : Collector)
      → may_accept os (latch os deadline s).1 ≡ true
      → is_set (latch os deadline s).0 ≡ true
  unfolding latch may_accept
  latch_lem deadline s h =
      if_of (λ (x : Option (List ℕ) × Collector). may_accept os x.1 ≡ true → is_set x.0 ≡ true)
        (may_accept os s) (λ t h. latched_lem deadline (os.clock s.readings) (ticked s) h)
        (λ f h. absurd (ground (arith, f, h))) h

  salvage_refuses : (e : Exc) (s : Collector) → may_accept os (salvage os e s) ≡ false
  unfolding salvage abort_now
  salvage_refuses e s =
      aborted_refuses (salvage os e s) (moves_aborted (confirm-Moves os _) (abort_aborted os _ _ _))

  -- What is accepted, where the verdict has no failure.
  conclude_lem :
      (accepted : Option (List ℕ)) (s : Collector)
      → (may_accept os s ≡ true → is_set accepted ≡ true)
      → (conclude os accepted (release os s)).failure ≡ none
      → is_set (conclude os accepted (release os s)).accepted ≡ true
  unfolding conclude
  conclude_lem accepted s k h =
      let f : is_set (failure_of os (release os s)) ≡ false = rw h refl in
      rw f (k (no_failure_lem s f))

  module _ (input : List ℕ) (deadline : ℕ) where
    collected_lem :
        (q : Result Bool × Collector) (r : WorkerCollection) (s : Collector)
        → collected os input deadline q ≡ some (r, s)
        → r.failure ≡ none
        → is_set r.accepted ≡ true
    unfolding collected released
    collected_lem (ok true, t) r s h f =
        let l = latch os deadline t in
        let e : conclude os l.0 (release os l.1) ≡ r = grind arith in
        subst (λ x. is_set x.accepted ≡ true) e
          (conclude_lem l.0 l.1 (latch_lem deadline t) (subst (λ x. x.failure ≡ none) (sym e) f))
    collected_lem (ok false, t) r s h f = grind arith
    collected_lem (err x, t) r s h f =
        let e : conclude os none (release os (salvage os x t)) ≡ r = grind arith in
        subst (λ x. is_set x.accepted ≡ true) e
          (conclude_lem none (salvage os x t) (λ m. absurd (ground (arith, m, salvage_refuses x t)))
            (subst (λ x. x.failure ≡ none) (sym e) f))

    -- A collection that reports no failure hands over the protocol.
    pub collect_openai_worker_accepts :
        (fuel : ℕ) (r : WorkerCollection) (s : Collector)
        → collect_openai_worker os input deadline fuel ≡ some (r, s)
        → r.failure ≡ none
        → is_set r.accepted ≡ true
    unfolding collect_openai_worker
    collect_openai_worker_accepts fuel r s h f = collected_lem _ r s h f
