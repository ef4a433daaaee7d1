-- ===== src/Lifecycle/Safety.antt =====
-- What a closed journal says of a retry (src/model_council/attempt_lifecycle.py).
use model_council_lab.Prelude.{
  some, ◌∷◌, [], true, false, ◌≡◌, arith, inl, inr, refl, Bool, List, sym, ◌↔◌, length,
  Option-cases, ◌==◌, ◌∙◌, ap, Option,
}
use model_council_lab.Errors.{ok, Result-cases}
use model_council_lab.Lifecycle.{attempt_prepared, Closure, Codec, Event}
use model_council_lab.Lifecycle.Journal.{
  absent, malformed, stored, Attempt, same_bool, ClosureFile, is_not_started, first_event,
  last_event,
}
use model_council_lab.Lifecycle.Closed.{
  safe_not_dispatched, inspect, read_closure, retry_safety_of, check_closure, Snapshot, is_closed,
  observed_outcome, snapshot, ends,
}
use model_council_lab.Lifecycle.Decode.{decode}
use model_council_lab.Lifecycle.Chain.{decode-chain}
use model_council_lab.Json.{Json}
use model_council_lab.Lifecycle.Order.{kinds}

same_bool-eq : (a b : Bool) → same_bool a b ≡ true → a ≡ b
same_bool-eq true b h = sym h
same_bool-eq false true h = absurd (ground arith)
same_bool-eq false false h = refl

same_bool_refl : (a : Bool) → same_bool a a ≡ true
same_bool_refl true = refl
same_bool_refl false = refl

-- An inspected journal: it is accepted, and its closure agrees with it.
pub record Inspected (codec : Codec) (j : Attempt) (s : Snapshot) : Type 0 where
  pub accepted : decode codec j.file ≡ ok s.events
  pub read : read_closure s.events j.closed ≡ ok s.closure
  pub judged : s.retry_safety ≡ retry_safety_of s.closure (observed_outcome s.events)

inspect-Inspected :
    (codec : Codec) (require_closed : Bool) (j : Attempt) (s : Snapshot)
    → inspect codec require_closed j ≡ ok s
    → Inspected codec j s
unfolding inspect
inspect-Inspected codec require_closed j s h = elim (Result-cases (decode codec j.file)) [
  | inr (x, r) ↦ absurd (ground (arith, r))
  | inl (events, r) ↦ elim (Result-cases (read_closure events j.closed)) [
    | inr (x, q) ↦ absurd (ground (arith, r, q))
    | inl (closure, q) ↦
        let e : snapshot codec events closure ≡ s = ground (arith, r, q) in
        rw (← e) (record { accepted = r; read = q; judged = refl })
  ]
]

-- A closure that was read says not_started exactly if the journal has one event.
read_closure-single :
    (events : List Event) (file : ClosureFile) (c : Closure)
    → read_closure events file ≡ ok (some c)
    → is_not_started c.reason ≡ (length events == 1)
unfolding read_closure check_closure
read_closure-single events absent c h = absurd (ground arith)
read_closure-single events malformed c h = absurd (ground arith)
read_closure-single events (stored d) c h =
    elim (Result-cases (ends (first_event events) (last_event events))) [
      | inr (x, r) ↦ absurd (ground (arith, r))
      | inl (both, r) ↦
          let same : d ≡ c = ground (arith, r) in same_bool-eq _ _ (ground (arith, r, same))
    ]

safe_iff :
    (c : Closure) (outcome : Option Json)
    → (retry_safety_of (some c) outcome ≡ safe_not_dispatched) ↔ (is_not_started c.reason ≡ true)
unfolding retry_safety_of
safe_iff c outcome = (λ h. ground (arith, h), λ h. ground (arith, h))

one_event : (es : List Event) → kinds es ≡ attempt_prepared ∷ [] → length es ≡ 1
one_event [] h = absurd (ground (arith, h))
one_event (e ∷ []) h = refl
one_event (e ∷ f ∷ es) h = absurd (ground (arith, h))

-- An inspected attempt is judged safe to retry exactly if it is closed and its journal has the
-- preparation and nothing else, so that no dispatch was permitted.
pub inspect-safe :
    (codec : Codec) (require_closed : Bool) (j : Attempt) (s : Snapshot)
    → inspect codec require_closed j ≡ ok s
    → (s.retry_safety ≡ safe_not_dispatched)
      ↔ ((is_closed s.closure ≡ true) × (kinds s.events ≡ attempt_prepared ∷ []))
unfolding retry_safety_of
inspect-safe codec require_closed j s h =
    let i = inspect-Inspected codec require_closed j s h in
    let (least, most, (returned, run), id) = decode-chain codec j.file s.events i.accepted in
    elim (Option-cases s.closure) [
      | inl n ↦ (λ p. absurd (ground (arith, n, i.judged)), λ p. absurd (ground (arith, n)))
      | inr (c, e) ↦
          let single = read_closure-single s.events j.closed c (i.read ∙ ap ok e) in
          (
            λ p.
                let alone : length s.events ≡ 1 =
                  ground (arith, single, e, i.judged, p, safe_iff c (observed_outcome s.events)) in
                (ground (arith, e), rw alone at run),
            λ p. ground (
              arith,
              single,
              e,
              i.judged,
              one_event s.events p.1,
              safe_iff c (observed_outcome s.events),
            ),
          )
    ]
