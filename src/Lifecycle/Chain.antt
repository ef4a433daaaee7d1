-- ===== src/Lifecycle/Chain.antt =====
-- What an accepted journal is: a prefix of the one chain of events, linked by digests
-- (src/model_council/attempt_lifecycle.py).
use model_council_lab.Prelude.{
  String, none, some, ◌∷◌, [], true, ◌≡◌, arith, inl, inr, refl, suc, Option, ℕ, List, eq_iff, Bool,
  subst, ◌∙◌, ap, take, length, ◌≤◌, Option-cases,
}
use model_council_lab.Errors.{ok, Result-cases}
use model_council_lab.Lifecycle.{Codec, Event, follows, File, Frame}
use model_council_lab.Lifecycle.Decode.{
  check_event, Seen, same_digest, check_events, decode, nothing_seen, parse_frames, size,
}
use model_council_lab.Lifecycle.Order.{Follows, kinds, chain, from_start}

-- The events are linked: each has the id, its number, the digest of the one before and its own.
abbrev pub Linked : Codec → String → Option String → ℕ → List Event → Type 0
Linked codec id head index [] = Unit
Linked codec id head index (e ∷ es) =
    (e.body.attempt_id ≡ id)
    × (e.body.sequence ≡ index)
    × (e.body.previous_digest ≡ head)
    × (e.digest ≡ codec.digest_body e.body)
    × Linked codec id (some e.digest) (suc index) es

-- What a round of the loop establishes of its event, and the state it leaves.
pub record Checked (codec : Codec) (seen : Seen) (e : Event) (next : Seen) : Type 0 where
  pub numbered : e.body.sequence ≡ seen.index
  pub chained : e.body.previous_digest ≡ seen.head
  pub digested : e.digest ≡ codec.digest_body e.body
  pub allowed : follows seen.previous e.body.kind ≡ true
  pub named : (id : String) → seen.attempt_id ≡ some id → e.body.attempt_id ≡ id
  pub then_previous : next.previous ≡ some e.body.kind
  pub then_head : next.head ≡ some e.digest
  pub then_named : next.attempt_id ≡ some e.body.attempt_id
  pub then_index : next.index ≡ suc seen.index

same_digest-eq : (a b : Option String) → same_digest a b ≡ true → a ≡ b
same_digest-eq none none h = refl
same_digest-eq none (some b) h = absurd (ground arith)
same_digest-eq (some a) none h = absurd (ground arith)
same_digest-eq (some a) (some b) h = ground (arith, eq_iff a b)

check_event-Checked :
    (codec : Codec) (seen : Seen) (e : Event) (next : Seen)
    → check_event codec seen e ≡ ok next
    → Checked codec seen e next
unfolding check_event
check_event-Checked codec seen e next h = record {
  numbered = ground arith;
  chained = ground (arith, same_digest-eq e.body.previous_digest seen.head);
  digested = ground (arith, eq_iff e.digest (codec.digest_body e.body));
  allowed = ground arith;
  named = λ id n. ground (arith, n, eq_iff e.body.attempt_id id);
  then_previous = ground arith;
  then_head = ground arith;
  then_named = ground arith;
  then_index = ground arith;
}

pub check_events-Follows :
    (codec : Codec) (seen : Seen) (es : List Event)
    → check_events codec seen es ≡ ok tt
    → Follows seen.previous es
unfolding check_events
check_events-Follows codec seen [] h = tt
check_events-Follows codec seen (e ∷ es) h = elim (Result-cases (check_event codec seen e)) [
  | inr (x, r) ↦ absurd (ground (arith, r))
  | inl (next, r) ↦
      let c = check_event-Checked codec seen e next r in
      (
        c.allowed,
        subst (λ p. Follows p es) c.then_previous
            (check_events-Follows codec next es (ground (arith, r))),
      )
]

check_events-Linked :
    (codec : Codec) (seen : Seen) (id : String) (es : List Event)
    → seen.attempt_id ≡ some id
    → check_events codec seen es ≡ ok tt
    → Linked codec id seen.head seen.index es
unfolding check_events
check_events-Linked codec seen id [] n h = tt
check_events-Linked codec seen id (e ∷ es) n h = elim (Result-cases (check_event codec seen e)) [
  | inr (x, r) ↦ absurd (ground (arith, r))
  | inl (next, r) ↦
      let c = check_event-Checked codec seen e next r in
      let rest =
        check_events-Linked codec next id es (c.then_named ∙ ap some (c.named id n))
          (ground (arith, r)) in
      (
        c.named id n,
        c.numbered,
        c.chained,
        c.digested,
        subst (λ k. Linked codec id (some e.digest) k es) c.then_index
            (subst (λ d. Linked codec id d next.index es) c.then_head rest),
      )
]

parse_frames-length :
    (fs : List Frame) (es : List Event) → parse_frames fs ≡ ok es → length es ≡ length fs
unfolding parse_frames
parse_frames-length [] es h = ground arith
parse_frames-length (f ∷ fs) es h = elim (Option-cases f.parsed) [
  | inl n ↦ absurd (ground (arith, n))
  | inr (e, p) ↦ elim (Result-cases (parse_frames fs)) [
    | inr (x, r) ↦ absurd (ground (arith, p, r))
    | inl (rest, r) ↦ ground (arith, p, r, parse_frames-length fs rest r)
  ]
]

-- What an accepted journal passed.
pub record Accepted (codec : Codec) (file : File) (es : List Event) : Type 0 where
  pub parsed : parse_frames file.lines ≡ ok es
  pub checked : check_events codec nothing_seen es ≡ ok tt
  pub whole : file.complete ≡ true
  pub some_bytes : 1 ≤ size file.lines
  pub few : length file.lines ≤ 5

pub decode-Accepted :
    (codec : Codec) (file : File) (es : List Event)
    → decode codec file ≡ ok es
    → Accepted codec file es
unfolding decode
decode-Accepted codec file es h = elim (Result-cases (parse_frames file.lines)) [
  | inr (x, r) ↦ absurd (ground (arith, r))
  | inl (events, r) ↦ record {
    parsed = ground (arith, r);
    checked = ground (arith, r);
    whole = ground (arith, r);
    some_bytes = ground (arith, r);
    few = ground (arith, r);
  }
]

Linked-start :
    (codec : Codec) (es : List Event)
    → check_events codec nothing_seen es ≡ ok tt
    → (id : String) × Linked codec id none 0 es
unfolding check_events
Linked-start codec [] h = ("", tt)
Linked-start codec (e ∷ es) h = elim (Result-cases (check_event codec nothing_seen e)) [
  | inr (x, r) ↦ absurd (ground (arith, r))
  | inl (next, r) ↦
      let c = check_event-Checked codec nothing_seen e next r in
      let rest =
        check_events-Linked codec next e.body.attempt_id es c.then_named (ground (arith, r)) in
      (
        e.body.attempt_id,
        (
          refl,
          c.numbered,
          c.chained,
          c.digested,
          subst (λ k. Linked codec e.body.attempt_id (some e.digest) k es) c.then_index
              (subst (λ d. Linked codec e.body.attempt_id d next.index es) c.then_head rest),
        ),
      )
]

not_empty : (fs : List Frame) → 1 ≤ size fs → 1 ≤ length fs
unfolding size
not_empty [] h = absurd (omega (arith, h))
not_empty (f ∷ fs) h = omega arith

-- An accepted journal has one to five events. Their kinds are a beginning of the one chain, from the
-- preparation over the permission, the call and its return or exception to the outcome; they all
-- have one attempt id, are numbered from zero, and each carries its own digest and that of the
-- event before it.
pub decode-chain :
    (codec : Codec) (file : File) (es : List Event)
    → decode codec file ≡ ok es
    → (1 ≤ length es)
      × (length es ≤ 5)
      × ((returned : Bool) × (kinds es ≡ take (length es) (chain returned)))
      × ((id : String) × Linked codec id none 0 es)
decode-chain codec file es h =
    let a = decode-Accepted codec file es h in
    let n = parse_frames-length file.lines es a.parsed in
    (
      omega (arith, n, not_empty file.lines a.some_bytes),
      omega (arith, n, a.few),
      from_start es (check_events-Follows codec nothing_seen es a.checked),
      Linked-start codec es a.checked,
    )
