-- ===== src/Lifecycle/Permit.antt =====
-- Why a dispatch is permitted once (src/model_council/attempt_lifecycle.py, `AttemptJournal.permit`).
use model_council_lab.Prelude.{
  String, none, some, ◌∷◌, [], true, ◌≡◌, arith, inl, inr, refl, List, ℤ, ◌++◌, Option, Bool-cases,
  str_eq, length, sym, ◌≢◌, ◌∙◌, ◌≤◌, length-append,
}
use model_council_lab.Errors.{ok, err, Result-cases, Result, Check}
use model_council_lab.Lifecycle.{
  permission, dispatch_permitted, Codec, EventKind, File, Payload, Event, Timestamp, follows,
}
use model_council_lab.Lifecycle.Journal.{
  written, unsynced, torn, commit, Written, extended, append_after, append, framed, next_event,
  append_decoded, first_event, last_event, Attempt, permit, permit_as, granted, open_writer,
  grant_of,
}
use model_council_lab.Lifecycle.Decode.{decode, nothing_seen}
use model_council_lab.Lifecycle.Chain.{decode-Accepted, check_events-Follows}
use model_council_lab.Lifecycle.Order.{Follows}
use model_council_lab.Lifecycle.Once.{Appended, append-Appended, parse_frames-append}

-- A permission is no later than the second event of a journal.
late_permission :
    (previous : EventKind) (f : Event) (es : List Event) (e : Event)
    → Follows (some previous) (f ∷ (es ++ (e ∷ [])))
    → e.body.kind ≢ dispatch_permitted
unfolding follows
late_permission previous f [] e h k = absurd (ground (arith, h.0, h.1.0, k))
late_permission previous f (g ∷ es) e h k = late_permission f.body.kind g es e h.1 k

-- A journal that is accepted only with two events or more.
abbrev Late : Codec → File → Type 0
Late codec file = (events : List Event) → decode codec file ≡ ok events → 2 ≤ length events

-- No append to such a journal writes a permission.
no_second :
    (codec : Codec) (payload : Payload) (file new : File)
    → Late codec file
    → Appended codec dispatch_permitted payload file new
    → ⊥
no_second codec payload file new late a =
    let run =
      check_events-Follows codec nothing_seen _ (decode-Accepted codec new _ a.has).checked in
    third a.events a.event (late a.events a.had) run a.of_kind
  where
    third :
        (es : List Event) (e : Event)
        → 2 ≤ length es
        → Follows none (es ++ (e ∷ []))
        → e.body.kind ≢ dispatch_permitted
    third [] e n h k = absurd (ground (arith, n))
    third (f ∷ []) e n h k = absurd (ground (arith, n))
    third (f ∷ g ∷ es) e n h k = late_permission f.body.kind g es e h.1 k

extended-Late :
    (codec : Codec) (file : File) (e : Event) (events : List Event)
    → decode codec file ≡ ok events
    → Late codec file
    → Late codec (extended file (framed codec e))
extended-Late codec file e events d late new n =
    let grown =
      parse_frames-append file.lines (framed codec e) e events new
        (decode-Accepted codec file events d).parsed refl
        (decode-Accepted codec (extended file (framed codec e)) new n).parsed in
    rw grown (omega (arith, late events d, length-append events (e ∷ [])))

-- Whatever becomes of a write, the journal stays late.
commit-Late :
    (codec : Codec) (w : Written) (file : File) (e : Event) (events : List Event)
    → decode codec file ≡ ok events
    → Late codec file
    → (r : Result (List Event)) → r ≡ decode codec (extended file (framed codec e))
    → Late codec (commit w file (framed codec e) r).1
unfolding commit
commit-Late codec w file e events d late (err x) h = late
commit-Late codec written file e events d late (ok es) h = extended-Late codec file e events d late
commit-Late codec unsynced file e events d late (ok es) h = extended-Late codec file e events d late
commit-Late codec torn file e events d late (ok es) h =
    λ new n. absurd (ground (arith, (decode-Accepted codec _ new n).whole))

module _ (codec : Codec) (id : String) (kind : EventKind) (payload : Payload) (observed : Timestamp)
    (tick : ℤ) (w : Written) where
  append_after-Late :
      (file : File) (events : List Event) (first last : Option Event)
      → decode codec file ≡ ok events
      → Late codec file
      → Late codec (append_after codec id kind payload observed tick w file events first last).1
  unfolding append_after
  append_after-Late file events none last d late = late
  append_after-Late file events (some first) none d late = late
  append_after-Late file events (some first) (some last) d late =
      elim (Bool-cases (str_eq first.body.attempt_id id)) [
        | inl y ↦ rw y (
            commit-Late codec w file
              (next_event codec id kind payload observed tick (length events) last) events d late _
              refl)
        | inr n ↦ rw n late
      ]

  append-Late :
      (file : File)
      → Late codec file
      → Late codec (append codec id kind payload observed tick w file).1
  unfolding append append_decoded
  append-Late file late = elim (Result-cases (decode codec file)) [
    | inr (x, r) ↦ rw r late
    | inl (events, r) ↦
        rw r (append_after-Late file events (first_event events) (last_event events) r late)
  ]

-- What becomes of a journal by appends, of any events and however each of them ends.
pub data Grown (codec : Codec) (start : File) : File → Type 0 where
  unchanged : Grown codec start start
  appended :
      {file : File} (id : String) (kind : EventKind) (payload : Payload) (observed : Timestamp)
      (tick : ℤ) (w : Written)
      → Grown codec start file
      → Grown codec start (append codec id kind payload observed tick w file).1

Grown-Late :
    (codec : Codec) (start file : File)
    → Late codec start
    → Grown codec start file
    → Late codec file
Grown-Late codec start _ late unchanged = late
Grown-Late codec start _ late (appended id kind payload observed tick w grown) =
    append-Late codec id kind payload observed tick w _ (Grown-Late codec start _ late grown)

-- A journal is late once a permission was appended to it.
permitted-Late :
    (codec : Codec) (payload : Payload) (file new : File)
    → Appended codec dispatch_permitted payload file new
    → Late codec new
unfolding follows
permitted-Late codec payload file new a events d =
    let same : ok events ≡ ok (a.events ++ (a.event ∷ [])) = sym d ∙ a.has in
    let grown : events ≡ a.events ++ (a.event ∷ []) = ground (arith, same) in
    let run =
      check_events-Follows codec nothing_seen _ (decode-Accepted codec new _ a.has).checked in
    rw grown (second a.events a.event run a.of_kind)
  where
    second :
        (es : List Event) (e : Event)
        → Follows none (es ++ (e ∷ []))
        → e.body.kind ≡ dispatch_permitted
        → 2 ≤ length (es ++ (e ∷ []))
    second [] e h k = absurd (ground (arith, h.0, k))
    second (f ∷ es) e h k = omega (arith, length-append es (e ∷ []))

module _ (codec : Codec) (grant : Option (Option ℤ)) (observed : Timestamp) (tick : ℤ)
    (w : Written) where
  granted-file :
      (j : Attempt) (q : Check × File)
      → (granted j q).0 ≡ ok tt
      → (q.0 ≡ ok tt) × ((granted j q).1.file ≡ q.1) × ((granted j q).1.permission_granted ≡ true)
  granted-file j (ok t, file) h = (refl, refl, refl)
  granted-file j (err e, file) h = absurd (ground arith)

  -- What a granted permission wrote.
  pub permit-Appended :
      (j : Attempt)
      → (permit codec grant observed tick w j).0 ≡ ok tt
      → (payload : Payload) × Appended codec dispatch_permitted payload j.file
          (permit codec grant observed tick w j).1.file
  unfolding permit permit_as
  permit-Appended j h = elim (Result-cases (open_writer codec j)) [
    | inr (x, r) ↦ absurd (ground (arith, r))
    | inl (first, r) ↦
        let payload = permission (grant_of grant first.body.payload) in
        let q =
          append codec first.body.attempt_id dispatch_permitted payload observed tick w j.file in
        let (written_ok, file, flag) = granted-file j q (ground (arith, r, h)) in
        (
          payload,
          rw (r, file)
              (append-Appended codec first.body.attempt_id dispatch_permitted payload observed tick
                w j.file written_ok),
        )
  ]

-- A dispatch is permitted once: after a permission was granted, and whatever was appended to its
-- journal since, and however each of these appends ended, no permission is granted on the journal, with
-- whatever grant, clock and disk.
pub permit_once :
    (codec : Codec) (grant again : Option (Option ℤ)) (observed later : Timestamp) (tick tock : ℤ)
    (w v : Written) (j k : Attempt)
    → (permit codec grant observed tick w j).0 ≡ ok tt
    → Grown codec (permit codec grant observed tick w j).1.file k.file
    → (permit codec again later tock v k).0 ≢ ok tt
permit_once codec grant again observed later tick tock w v j k h grown second =
    let (p, a) = permit-Appended codec grant observed tick w j h in
    let (q, b) = permit-Appended codec again later tock v k second in
    no_second codec q k.file _ (Grown-Late codec _ _ (permitted-Late codec p j.file _ a) grown) b
