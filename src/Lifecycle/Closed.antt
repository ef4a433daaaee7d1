-- ===== src/Lifecycle/Closed.antt =====
-- `AttemptJournal.close` and `AttemptJournal.inspect` of src/model_council/attempt_lifecycle.py.
use model_council_lab.Prelude.{
  String, none, some, ◌∷◌, [], true, false, List, Option, Bool, if◌then◌else◌, not, str_eq, any,
  ◌&&◌, elem, ◌==◌, ◌||◌, length,
}
use model_council_lab.Errors.{
  ok, err, Check, Result, other_exception, integrity_violation, ◌>>=◌, ◌>>◌,
}
use model_council_lab.Lifecycle.{outcome_observed, zoned, outcome_data, Closure, Codec, Event}
use model_council_lab.Lifecycle.Journal.{
  absent, malformed, stored, written, unsynced, torn, Attempt, ClosureFile, Written, prepared_event,
  closure_event, first_event, os_error, require_owner, is_not_started, last_event, is_permission,
  closure_reasons, same_bool,
}
use model_council_lab.Json.{Json}
use model_council_lab.Lifecycle.Decode.{
  demand, lifecycle_schema, is_success_outcome, same_digest, decode, is_zoned,
}

pub data RetrySafety : Type 0 where
  indeterminate safe_not_dispatched unsafe_response_observed : RetrySafety

-- The part of the snapshot that inspect returns which its callers decide by.
pub record Snapshot : Type 0 where
  pub events : List Event
  pub closure : Option Closure
  pub closure_digest : Option String
  pub outcome : Option Json
  pub outcome_digest : Option String
  pub retry_safety : RetrySafety

abbrev pub is_closed : Option Closure → Bool
is_closed none = false
is_closed (some c) = true

-- The payload of closed.json. Its time is that of an aware clock.
abbrev pub closing_payload : String → List Event → Event → Event → Closure
closing_payload reason events first last = record {
  schema = lifecycle_schema;
  event = closure_event (any is_permission events);
  attempt_id = first.body.attempt_id;
  head_digest = last.digest;
  event_count = length events;
  reason = reason;
  worker_reaped = true;
  observed_at = zoned;
}

-- `events[0]` and `events[-1]`
abbrev pub ends : Option Event → Option Event → Result (Event × Event)
ends (some first) (some last) = ok (first, last)
ends _ _ = err (other_exception "IndexError" "list index out of range")

-- the outcome of the event that observed one
abbrev pub outcome_of : Event → Option Json
outcome_of e = elim e.body.payload [ outcome_data outcome d ↦ some outcome | _ ↦ none ]

unfoldable pub observed_outcome : List Event → Option Json
observed_outcome [] = none
observed_outcome (e ∷ es) = elim e.body.kind [
  | outcome_observed ↦ outcome_of e
  | _ ↦ observed_outcome es
]

abbrev pub succeeded_outcome : Option Json → Bool
succeeded_outcome none = false
succeeded_outcome (some outcome) = is_success_outcome outcome

unfoldable pub retry_safety_of : Option Closure → Option Json → RetrySafety
retry_safety_of none outcome = indeterminate
retry_safety_of (some c) outcome =
    if is_not_started c.reason
    then safe_not_dispatched
    else if succeeded_outcome outcome
    then unsafe_response_observed
    else indeterminate

-- the tests of inspect on a closure that is stored
unfoldable pub check_closure : List Event → Closure → Event × Event → Check
check_closure events c (first, last) = do
  demand
      (str_eq c.schema lifecycle_schema
        && c.worker_reaped
        && str_eq c.attempt_id first.body.attempt_id
        && str_eq c.head_digest last.digest
        && c.event_count == length events)
      "closure binding mismatch"
  demand (elem c.reason closure_reasons) "invalid closure reason"
  demand (same_bool (is_not_started c.reason) (length events == 1)) "contradictory closure"
  demand (str_eq c.event (closure_event (not (length events == 1)))) "invalid closure event"
  demand (is_zoned c.observed_at) "invalid closure timestamp"

unfoldable pub read_closure : List Event → ClosureFile → Result (Option Closure)
read_closure events absent = ok none
read_closure events malformed = err (integrity_violation "attempt lifecycle: malformed closure")
read_closure events (stored c) = do
  both ← ends (first_event events) (last_event events)
  check_closure events c both
  ok (some c)

-- `if self._prepared_digest is not None`
unfoldable pub check_prepared : Option String → List Event → Check
check_prepared none events = ok tt
check_prepared (some digest) events = do first ← prepared_event (some digest) events; ok tt

module _ (codec : Codec) where
  abbrev pub digest_of : Option Closure → Option String
  digest_of none = none
  digest_of (some c) = some (codec.digest_closure c)

  -- `if self._closure_digest is not None`
  unfoldable pub check_committed : Option String → Option Closure → Check
  check_committed none closure = ok tt
  check_committed (some digest) closure =
      demand (same_digest (digest_of closure) (some digest)) "committed closure changed"

  abbrev pub outcome_digest_of : Option Json → Option String
  outcome_digest_of none = none
  outcome_digest_of (some outcome) = some (codec.digest_outcome outcome)

  abbrev pub snapshot : List Event → Option Closure → Snapshot
  snapshot events closure = record {
    events = events;
    closure = closure;
    closure_digest = digest_of closure;
    outcome = observed_outcome events;
    outcome_digest = outcome_digest_of (observed_outcome events);
    retry_safety = retry_safety_of closure (observed_outcome events);
  }

  -- AttemptJournal.inspect
  unfoldable pub inspect : Bool → Attempt → Result Snapshot
  inspect require_closed j = do
    demand (not j.persistence_failed) "attempt persistence previously failed"
    events ← decode codec j.file
    check_prepared j.prepared_digest events
    closure ← read_closure events j.closed
    check_committed j.closure_digest closure
    demand (not require_closed || is_closed closure) "attempt remains open"
    ok (snapshot events closure)

  -- the tests of close, up to the payload of the closure
  unfoldable pub closing : String → Bool → Attempt → Result Closure
  closing reason worker_reaped j = do
    require_owner j
    events ← decode codec j.file
    first ← prepared_event j.prepared_digest events
    demand (elem reason closure_reasons) "invalid closure"
    demand (same_bool (is_not_started reason) (not (any is_permission events)))
        "contradictory not-started closure"
    demand worker_reaped "worker quiescence not established"
    both ← ends (first_event events) (last_event events)
    ok (closing_payload reason events both.0 both.1)

  abbrev pub failed_attempt : Attempt → Attempt
  failed_attempt j = record j { persistence_failed = true }

  -- the write of closed.json, which must not exist
  unfoldable pub write_closure : Written → Attempt → ClosureFile → Closure → Check × Attempt
  write_closure written j absent c =
      (ok tt, record j { closed = stored c; closure_digest = some (codec.digest_closure c) })
  write_closure unsynced j absent c = (os_error, failed_attempt (record j { closed = stored c }))
  write_closure torn j absent c = (os_error, failed_attempt (record j { closed = malformed }))
  write_closure w j existing c = (err (other_exception "FileExistsError" "closed.json"), j)

  -- fsync of the journal, then the write
  unfoldable pub close_as : Bool → Written → Attempt → Result Closure → Check × Attempt
  close_as synced w j (err e) = (err e, j)
  close_as synced w j (ok c) =
      if synced then write_closure w j j.closed c else (os_error, failed_attempt j)

  -- AttemptJournal.close
  unfoldable pub close : String → Bool → Bool → Written → Attempt → Check × Attempt
  close reason worker_reaped synced w j = close_as synced w j (closing reason worker_reaped j)
