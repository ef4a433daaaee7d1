-- ===== src/Worker/Released.antt =====
-- What a collection of a worker (src/model_council/executor.py) leaves, whether it succeeds or not.
use model_council_lab.Prelude.{
  ◌≤◌, ◌≡◌, Bool, List, false, ℕ, ap, subst, ◌∙◌, ◌+◌, refl, arith, some, sym, true, Option, none,
  ◌||◌,
}
use model_council_lab.Worker.{
  Endpoint, Os, cleaned, close_endpoint, closed, unregistered, Collector, put, stdout, called,
  same_endpoint, stdin, protocol, stderr, is_set, max_worker_protocol_bytes,
}
use model_council_lab.Errors.{Check, ok, err}
use model_council_lab.Worker.Collect.{
  release, selector_closed, WorkerCollection, collect_openai_worker, conclude, failure_of,
}
use model_council_lab.Run.Terminal.{if_of}
use model_council_lab.Worker.Attested.{
  IsOutcome, start-IsOwned, collect-IsOutcome, start-IsBounded, start-IsCancelled,
}
use model_council_lab.Worker.Invariant.{
  same_endpoint-eq, flag, IsOwned, moves-IsOwned, IsBounded, moves-IsBounded, IsCancelled,
  moves-IsCancelled,
}
use model_council_lab.Worker.Machine.{moves_after}
use model_council_lab.Worker.Closing.{release-Moves}

cleaned_open : (r : Check) (s : Collector) → (cleaned r s).is_open ≡ s.is_open
unfolding cleaned
cleaned_open (ok t) s = refl
cleaned_open (err e) s = refl

abbrev removed : Endpoint → (Endpoint → Bool) → Endpoint → Bool
removed name members other = put name false members other

module _ (os : Os) where
  closed_open : (name : Endpoint) (s : Collector) → (closed os name s).is_open ≡ s.is_open
  unfolding closed
  closed_open name s = cleaned_open (os.close s.calls name) _

  unregistered_open :
      (name : Endpoint) (s : Collector) → (unregistered os name s).is_open ≡ s.is_open
  unfolding unregistered
  unregistered_open name s =
      if_of (λ (x : Collector). x.is_open ≡ s.is_open) (s.registered name)
        (λ t. cleaned_open (os.unregister s.calls name) _) (λ f. refl)

  kept_out :
      (name other : Endpoint) (is_open : Endpoint → Bool)
      → is_open name ≡ false
      → is_open other ≡ put name false is_open other
  kept_out name other is_open h =
      if_of (λ x. is_open other ≡ x) (same_endpoint name other)
        (λ t. subst (λ x. is_open x ≡ false) (same_endpoint-eq name other t) h) (λ f. refl)

  close_endpoint_open :
      (name other : Endpoint) (s : Collector)
      → (close_endpoint os name s).is_open other ≡ put name false s.is_open other
  unfolding close_endpoint
  close_endpoint_open name other s =
      if_of (λ (x : Collector). x.is_open other ≡ put name false s.is_open other) (s.is_open name)
        (λ t.
          ap (λ m. m other)
            (closed_open name _
              ∙ unregistered_open name (record s { is_open = put name false s.is_open })))
        (λ f. kept_out name other s.is_open f)

  selector_closed_open : (s : Collector) → (selector_closed os s).is_open ≡ s.is_open
  unfolding selector_closed
  selector_closed_open s =
      if_of (λ (x : Collector). x.is_open ≡ s.is_open) s.has_selector
        (λ t. cleaned_open (os.close_selector s.calls) (called s)) (λ f. refl)

  -- The `finally` leaves no endpoint open.
  release_open : (name : Endpoint) (s : Collector) → (release os s).is_open name ≡ false
  unfolding release
  release_open name s =
      let a = close_endpoint os protocol s in
      let b = close_endpoint os stdin a in
      let c = close_endpoint os stdout b in
      ap (λ m. m name) (selector_closed_open (close_endpoint os stderr c))
      ∙ (close_endpoint_open stderr name c
          ∙ left name a b c (close_endpoint_open stdout name b) (close_endpoint_open stdin name a)
              (close_endpoint_open protocol name s))
    where
      left :
          (name : Endpoint) (a b c : Collector)
          → c.is_open name ≡ put stdout false b.is_open name
          → b.is_open name ≡ put stdin false a.is_open name
          → a.is_open name ≡ put protocol false s.is_open name
          → put stderr false c.is_open name ≡ false
      left stdin a b c h i j = h ∙ i
      left stdout a b c h i j = h
      left stderr a b c h i j = refl
      left protocol a b c h i j = h ∙ (i ∙ j)

  counted : (n : ℕ) (b : Bool) → n + flag b ≡ 1 → b ≡ false → n ≡ 1
  counted n true h e = grind arith
  counted n false h e = omega arith

  released_lem :
      (r : WorkerCollection) (s : Collector)
      → IsOutcome os r s
      → ((name : Endpoint) → (s.is_open name ≡ false) × (s.closes name ≤ 1))
        × (s.closes protocol ≡ 1)
  released_lem r s o =
      let last = release os o.ended in
      let w : IsOwned last =
        moves-IsOwned (moves_after o.reached (release-Moves os o.ended)) (start-IsOwned os) in
      subst
        (λ (s : Collector).
          ((name : Endpoint) → (s.is_open name ≡ false) × (s.closes name ≤ 1))
          × (s.closes protocol ≡ 1))
        (sym o.last)
        (
          (λ name. (release_open name o.ended, omega (arith, w.0 name))),
          counted _ _ w.1 (release_open protocol o.ended),
        )

  aborted_lem :
      (accepted : Option (List ℕ)) (s : Collector)
      → is_set s.abort_reason ≡ true
      → (conclude os accepted s).accepted ≡ none
  unfolding conclude failure_of
  aborted_lem accepted s h = ground arith

  cancelled_lem :
      (r : WorkerCollection) (s : Collector)
      → IsOutcome os r s
      → is_set r.abort_reason ≡ true
      → (r.accepted ≡ none) × ((r.reaped || s.kill_attempted) ≡ true)
  unfolding conclude
  cancelled_lem r s o h =
      let last = release os o.ended in
      let w : IsCancelled last =
        moves-IsCancelled (moves_after o.reached (release-Moves os o.ended))
          (start-IsCancelled os) in
      let e : is_set last.abort_reason ≡ true =
        subst (λ x. is_set x.abort_reason ≡ true) o.concluded h in
      (
        subst (λ x. x.accepted ≡ none) (sym o.concluded) (aborted_lem o.accepted last e),
        subst (λ x. (x.reaped || s.kill_attempted) ≡ true) (sym o.concluded)
            (subst (λ t. (last.reaped || t.kill_attempted) ≡ true) (sym o.last) (w e).1.1),
      )

  accounted_lem :
      (r : WorkerCollection) (s : Collector)
      → IsOutcome os r s
      → (r.protocol_high_water ≤ max_worker_protocol_bytes)
        × (r.diagnostic_observed ≡ r.stdout_observed + r.stderr_observed)
  unfolding conclude
  accounted_lem r s o =
      let last = release os o.ended in
      let w : IsBounded last =
        moves-IsBounded (moves_after o.reached (release-Moves os o.ended)) (start-IsBounded os) in
      subst
        (λ (x : WorkerCollection).
          (x.protocol_high_water ≤ max_worker_protocol_bytes)
          × (x.diagnostic_observed ≡ x.stdout_observed + x.stderr_observed))
        (sym o.concluded) (w.1.0, w.1.1.0)

  module _ (input : List ℕ) (deadline fuel : ℕ) (r : WorkerCollection) (s : Collector) where
    -- However a collection ends, it leaves no endpoint open, has closed none twice and the protocol's
    -- descriptor once.
    pub collect_openai_worker-released :
        collect_openai_worker os input deadline fuel ≡ some (r, s)
        → ((name : Endpoint) → (s.is_open name ≡ false) × (s.closes name ≤ 1))
          × (s.closes protocol ≡ 1)
    collect_openai_worker-released h =
        released_lem r s (collect-IsOutcome os input deadline fuel r s h)

    -- An aborted collection hands over no protocol, and its worker was reaped or signalled.
    pub collect_openai_worker-cancelled :
        collect_openai_worker os input deadline fuel ≡ some (r, s)
        → is_set r.abort_reason ≡ true
        → (r.accepted ≡ none) × ((r.reaped || s.kill_attempted) ≡ true)
    collect_openai_worker-cancelled h a =
        cancelled_lem r s (collect-IsOutcome os input deadline fuel r s h) a

    -- However a collection ends, it never held more than 8,000,000 bytes of protocol, and the bytes
    -- of diagnostics that it reports are those of the two streams.
    pub collect_openai_worker-accounted :
        collect_openai_worker os input deadline fuel ≡ some (r, s)
        → (r.protocol_high_water ≤ max_worker_protocol_bytes)
          × (r.diagnostic_observed ≡ r.stdout_observed + r.stderr_observed)
    collect_openai_worker-accounted h =
        accounted_lem r s (collect-IsOutcome os input deadline fuel r s h)
