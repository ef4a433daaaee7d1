-- ===== src/Lifecycle/Sealed.antt =====
-- A closure that was written is one that an inspection accepts
-- (src/model_council/attempt_lifecycle.py).
use model_council_lab.Prelude.{
  String, none, some, ◌∷◌, [], true, false, ◌≡◌, arith, inl, inr, refl, List, Option, Bool, ◌≤◌,
  length, any, eq_refl, elem, not, ◌==◌, subst, Bool-cases, ap,
}
use model_council_lab.Errors.{ok, Result-cases}
use model_council_lab.Lifecycle.{
  attempt_prepared, dispatch_permitted, Closure, Codec, follows, Event,
}
use model_council_lab.Lifecycle.Journal.{
  absent, malformed, stored, written, unsynced, torn, Attempt, require_owner, prepared_event,
  first_event, last_event, closure_event, is_permission, closure_reasons, same_bool, is_not_started,
  Written, ClosureFile,
}
use model_council_lab.Lifecycle.Closed.{
  close, check_prepared, closing, read_closure, check_closure, ends, closing_payload, inspect,
  write_closure, check_committed, close_as, Snapshot, snapshot,
}
use model_council_lab.Lifecycle.Chain.{decode-Accepted, decode-chain, check_events-Follows}
use model_council_lab.Lifecycle.Decode.{decode, nothing_seen}
use model_council_lab.Lifecycle.Order.{Follows}

-- A permission was given exactly if there is more than one event.
permission-single :
    (es : List Event)
    → Follows none es
    → 1 ≤ length es
    → any is_permission es ≡ not (length es == 1)
unfolding follows
permission-single [] h n = absurd (omega (arith, n))
permission-single (e ∷ []) h n =
    let k : e.body.kind ≡ attempt_prepared = grind (arith, h.0) in rw k refl
permission-single (e ∷ f ∷ es) h n =
    let k : e.body.kind ≡ attempt_prepared = grind (arith, h.0) in
    let l : f.body.kind ≡ dispatch_permitted =
      grind (arith, subst (λ p. follows (some p) f.body.kind ≡ true) k h.1.0) in
    rw (k, l) (ground arith)

-- What the tests of close establish.
record Closing (codec : Codec) (reason : String) (j : Attempt) (c : Closure) : Type 0 where
  events : List Event
  first : Event
  last : Event
  accepted : decode codec j.file ≡ ok events
  working : j.persistence_failed ≡ false
  prepared : check_prepared j.prepared_digest events ≡ ok tt
  ended : ends (first_event events) (last_event events) ≡ ok (first, last)
  known : elem reason closure_reasons ≡ true
  agrees : same_bool (is_not_started reason) (not (any is_permission events)) ≡ true
  payload : c ≡ closing_payload reason events first last

prepared-check :
    (digest : Option String) (events : List Event) (first : Event)
    → prepared_event digest events ≡ ok first
    → check_prepared digest events ≡ ok tt
unfolding check_prepared
prepared-check none events first h = refl
prepared-check (some d) events first h = rw h refl

closing-Closing :
    (codec : Codec) (reason : String) (reaped : Bool) (j : Attempt) (c : Closure)
    → closing codec reason reaped j ≡ ok c
    → Closing codec reason j c
unfolding closing require_owner
closing-Closing codec reason reaped j c h = elim (Result-cases (decode codec j.file)) [
  | inr (x, r) ↦ absurd (ground (arith, r))
  | inl (events, r) ↦ elim (Result-cases (prepared_event j.prepared_digest events)) [
    | inr (x, q) ↦ absurd (ground (arith, r, q))
    | inl (head, q) ↦ elim (Result-cases (ends (first_event events) (last_event events))) [
      | inr (x, t) ↦ absurd (ground (arith, r, q, t))
      | inl ((first, last), t) ↦ record {
        events = events;
        first = first;
        last = last;
        accepted = r;
        working = ground (arith, r, q, t);
        prepared = prepared-check j.prepared_digest events head q;
        ended = t;
        known = ground (arith, r, q, t);
        agrees = ground (arith, r, q, t);
        payload = ground (arith, r, q, t);
      }
    ]
  ]
]

-- The closure of an accepted journal passes the tests of a reader.
read_closure-accepts :
    (codec : Codec) (reason : String) (j : Attempt) (c : Closure)
    → (q : Closing codec reason j c) → read_closure q.events (stored c) ≡ ok (some c)
unfolding read_closure check_closure
read_closure-accepts codec reason j c q =
    let a = decode-Accepted codec j.file q.events q.accepted in
    let least = (decode-chain codec j.file q.events q.accepted).0 in
    let p =
      permission-single q.events (check_events-Follows codec nothing_seen q.events a.checked)
        least in
    rw (q.payload, q.ended)
      (ground (
        arith,
        p,
        q.known,
        q.agrees,
        eq_refl q.first.body.attempt_id,
        eq_refl q.last.digest,
        eq_refl (closure_event (any is_permission q.events)),
      ))

write_closure-ok :
    (codec : Codec) (w : Written) (j : Attempt) (file : ClosureFile) (c : Closure)
    → (write_closure codec w j file c).0 ≡ ok tt
    → (write_closure codec w j file c).1
      ≡ record j { closed = stored c; closure_digest = some (codec.digest_closure c) }
unfolding write_closure
write_closure-ok codec written j absent c h = refl
write_closure-ok codec unsynced j absent c h = absurd (ground arith)
write_closure-ok codec torn j absent c h = absurd (ground arith)
write_closure-ok codec w j malformed c h = absurd (ground arith)
write_closure-ok codec w j (stored d) c h = absurd (ground arith)

-- The attempt after a closure was written is inspected as closed, by the closure that was written.
inspect-sealed :
    (codec : Codec) (reason : String) (j : Attempt) (c : Closure) (q : Closing codec reason j c)
    → inspect codec true
        (record j { closed = stored c; closure_digest = some (codec.digest_closure c) })
      ≡ ok (snapshot codec q.events (some c))
unfolding inspect check_committed
inspect-sealed codec reason j c q =
    rw (q.accepted, read_closure-accepts codec reason j c q)
      (ground (arith, q.working, q.prepared, eq_refl (codec.digest_closure c)))

-- After a successful close, an inspection that requires a closure succeeds, and its closure has the
-- reason that the close was given.
pub inspect-close :
    (codec : Codec) (reason : String) (reaped synced : Bool) (w : Written) (j : Attempt)
    → (close codec reason reaped synced w j).0 ≡ ok tt
    → (s : Snapshot) × (c : Closure) × (inspect codec true (close codec reason reaped synced w j).1
        ≡ ok s)
      × (s.closure ≡ some c)
      × (c.reason ≡ reason)
unfolding close close_as
inspect-close codec reason reaped synced w j h =
    elim (Result-cases (closing codec reason reaped j)) [
      | inr (x, r) ↦ absurd (ground (arith, r))
      | inl (c, r) ↦ elim (Bool-cases synced) [
        | inr n ↦ absurd (ground (arith, r, n))
        | inl y ↦
            let q = closing-Closing codec reason reaped j c r in
            let sealed = write_closure-ok codec w j j.closed c (ground (arith, r, y)) in
            (
              snapshot codec q.events (some c),
              c,
              rw (r, y, sealed) (inspect-sealed codec reason j c q),
              refl,
              ap (λ (d : Closure). d.reason) q.payload,
            )
      ]
    ]
