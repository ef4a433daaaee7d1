-- ===== src/Lifecycle/Once.antt =====
-- What an append does to a journal (src/model_council/attempt_lifecycle.py).
use model_council_lab.Prelude.{
  String, none, some, ◌∷◌, [], ◌≡◌, arith, inl, inr, refl, List, ℤ, ◌++◌, Option-cases, Option,
  Bool-cases, str_eq, length,
}
use model_council_lab.Errors.{ok, err, Result-cases, Result, Exc}
use model_council_lab.Lifecycle.{Codec, EventKind, File, Frame, Payload, Event, Timestamp}
use model_council_lab.Lifecycle.Journal.{
  written, unsynced, torn, commit, Written, extended, append_after, append, framed, next_event,
  append_decoded, first_event, last_event,
}
use model_council_lab.Lifecycle.Decode.{parse_frames, decode}
use model_council_lab.Lifecycle.Chain.{decode-Accepted}

pub parse_frames-append :
    (fs : List Frame) (f : Frame) (e : Event) (old new : List Event)
    → parse_frames fs ≡ ok old
    → f.parsed ≡ some e
    → parse_frames (fs ++ (f ∷ [])) ≡ ok new
    → new ≡ old ++ (e ∷ [])
unfolding parse_frames
parse_frames-append [] f e old new h p n = ground (arith, p)
parse_frames-append (g ∷ gs) f e old new h p n = elim (Option-cases g.parsed) [
  | inl q ↦ absurd (ground (arith, q))
  | inr (d, q) ↦ elim (Result-cases (parse_frames gs)) [
    | inr (x, r) ↦ absurd (ground (arith, q, r))
    | inl (ds, r) ↦ elim (Result-cases (parse_frames (gs ++ (f ∷ [])))) [
      | inr (x, t) ↦ absurd (ground (arith, q, t))
      | inl (more, t) ↦ ground (arith, q, r, t, parse_frames-append gs f e ds more r p t)
    ]
  ]
]

-- The event that an append writes.
pub record Appended (codec : Codec) (kind : EventKind) (payload : Payload) (file new : File)
    : Type 0 where
  pub events : List Event
  pub event : Event
  pub had : decode codec file ≡ ok events
  pub has : decode codec new ≡ ok (events ++ (event ∷ []))
  pub of_kind : event.body.kind ≡ kind
  pub with_payload : event.body.payload ≡ payload

commit-ok :
    (w : Written) (file : File) (f : Frame) (r : Result (List Event))
    → (commit w file f r).0 ≡ ok tt
    → ((es : List Event) × (r ≡ ok es)) × ((commit w file f r).1 ≡ extended file f)
unfolding commit
commit-ok w file f (err e) h = absurd (ground arith)
commit-ok written file f (ok es) h = ((es, refl), refl)
commit-ok unsynced file f (ok es) h = absurd (ground arith)
commit-ok torn file f (ok es) h = absurd (ground arith)

committed :
    (codec : Codec) (w : Written) (file : File) (events : List Event) (e : Event)
    → decode codec file ≡ ok events
    → (commit w file (framed codec e) (decode codec (extended file (framed codec e)))).0 ≡ ok tt
    → Appended codec e.body.kind e.body.payload file
        (commit w file (framed codec e) (decode codec (extended file (framed codec e)))).1
committed codec w file events e d h =
    let ((es, r), x) =
      commit-ok w file (framed codec e) (decode codec (extended file (framed codec e))) h in
    let grown =
      parse_frames-append file.lines (framed codec e) e events es
        (decode-Accepted codec file events d).parsed refl
        (decode-Accepted codec (extended file (framed codec e)) es r).parsed in
    record {
      events = events;
      event = e;
      had = d;
      has = rw (x, r, grown) refl;
      of_kind = refl;
      with_payload = refl;
    }

module _ (codec : Codec) (id : String) (kind : EventKind) (payload : Payload) (observed : Timestamp)
    (tick : ℤ) (w : Written) where
  append_after-Appended :
      (file : File) (events : List Event) (first last : Option Event)
      → decode codec file ≡ ok events
      → (append_after codec id kind payload observed tick w file events first last).0 ≡ ok tt
      → Appended codec kind payload file
          (append_after codec id kind payload observed tick w file events first last).1
  unfolding append_after
  append_after-Appended file events none last d h = absurd (ground arith)
  append_after-Appended file events (some first) none d h = absurd (ground arith)
  append_after-Appended file events (some first) (some last) d h =
      elim (Bool-cases (str_eq first.body.attempt_id id)) [
        | inr n ↦ absurd (ground (arith, n))
        | inl y ↦ rw y (
            committed codec w file events
              (next_event codec id kind payload observed tick (length events) last) d
              (ground (arith, y, h)))
      ]

  -- A successful append leaves a journal that is accepted and has one more event, of the kind and with
  -- the data appended, after the events that it had.
  pub append-Appended :
      (file : File)
      → (append codec id kind payload observed tick w file).0 ≡ ok tt
      → Appended codec kind payload file (append codec id kind payload observed tick w file).1
  unfolding append append_decoded
  append-Appended file h = elim (Result-cases (decode codec file)) [
    | inr (x, r) ↦ absurd (ground (arith, r))
    | inl (events, r) ↦ rw r (
        append_after-Appended file events (first_event events) (last_event events) r
          (ground (arith, r)))
  ]

  append_after-kept :
      (file : File) (events : List Event) (first last : Option Event) (x : Exc)
      → (append_after codec id kind payload observed tick written file events first last).0 ≡ err x
      → (append_after codec id kind payload observed tick written file events first last).1 ≡ file
  unfolding append_after commit
  append_after-kept file events none last x h = refl
  append_after-kept file events (some first) none x h = refl
  append_after-kept file events (some first) (some last) x h =
      elim (Result-cases (
        decode codec (
          extended file (
            framed codec (next_event codec id kind payload observed tick (length events) last))))) [
              | inr (y, r) ↦ ground (arith, r)
              | inl (es, r) ↦ ground (arith, r)
            ]

  -- An append that fails with no fault of the disk leaves the journal as it was.
  pub append-kept :
      (file : File) (x : Exc)
      → (append codec id kind payload observed tick written file).0 ≡ err x
      → (append codec id kind payload observed tick written file).1 ≡ file
  unfolding append append_decoded
  append-kept file x h = elim (Result-cases (decode codec file)) [
    | inr (y, r) ↦ ground (arith, r)
    | inl (events, r) ↦ rw r (
        append_after-kept file events (first_event events) (last_event events) x
          (ground (arith, r)))
  ]
