-- ===== src/Lifecycle/Journal.antt =====
-- `JournalWriter` and `AttemptJournal` of src/model_council/attempt_lifecycle.py, over one stored
-- journal. A write answers by how far it came, and the clocks by a timestamp and a tick.
use model_council_lab.Prelude.{
  String, none, some, ◌∷◌, [], true, false, Bool, List, ℕ, Option, not, str_eq, ℤ, ◌++◌,
  if◌then◌else◌, length,
}
use model_council_lab.Errors.{
  ok, err, Check, Result, other_exception, integrity_violation, ◌>>=◌, ◌>>◌,
}
use model_council_lab.Lifecycle.{
  dispatch_permitted, prepared_data, permission, Codec, Event, File, EventKind, Frame, Timestamp,
  Payload, Body, Closure,
}
use model_council_lab.Lifecycle.Decode.{demand, decode, same_digest, lifecycle_schema}

-- _write_all: the whole frame and its fsync, the whole frame without the fsync, or part of the frame;
-- the last two raise.
pub data Written : Type 0 where
  written unsynced torn : Written

-- closed.json: missing, no JSON, or an object of the closure's fields
pub data ClosureFile : Type 0 where
  absent malformed : ClosureFile
  stored : Closure → ClosureFile

-- An AttemptJournal and its files. `owned`: this process created it, and the path still names the
-- file that it created.
pub record Attempt : Type 0 where
  pub file : File
  pub closed : ClosureFile
  pub owned : Bool
  pub persistence_failed : Bool
  pub permission_granted : Bool
  pub prepared_digest : Option String
  pub closure_digest : Option String

abbrev pub first_event : List Event → Option Event
first_event [] = none
first_event (e ∷ es) = some e

unfoldable pub last_event : List Event → Option Event
last_event [] = none
last_event (e ∷ []) = some e
last_event (e ∷ f ∷ es) = last_event (f ∷ es)

abbrev pub os_error : {A : Type 0} → Result A
os_error = err (other_exception "OSError" "lifecycle write made no progress")

abbrev pub extended : File → Frame → File
extended file frame = record { lines = file.lines ++ (frame ∷ []); complete = file.complete }

abbrev pub with_torn : File → Frame → File
with_torn file frame = record { lines = file.lines ++ (frame ∷ []); complete = false }

-- `_write_all` after the validation of the extended journal
unfoldable pub commit : Written → File → Frame → Result (List Event) → Check × File
commit w file frame (err e) = (err e, file)
commit written file frame (ok events) = (ok tt, extended file frame)
commit unsynced file frame (ok events) = (os_error, extended file frame)
commit torn file frame (ok events) =
    (os_error, with_torn file (record { bytes = frame.bytes; parsed = none }))

abbrev pub is_not_started : String → Bool
is_not_started reason = str_eq reason "not_started"

abbrev pub closure_reasons : List String
closure_reasons = "not_started" ∷ "returned" ∷ "timeout" ∷ "infrastructure" ∷ "interrupted" ∷ []

-- a == b on Booleans
abbrev pub same_bool : Bool → Bool → Bool
same_bool true b = b
same_bool false b = not b

abbrev pub is_permission : Event → Bool
is_permission e = elim e.body.kind [ dispatch_permitted ↦ true | _ ↦ false ]

abbrev pub closure_event : Bool → String
closure_event true = "attempt_closed"
closure_event false = "closed_not_started"

-- _require_owner
unfoldable pub require_owner : Attempt → Check
require_owner j = do
  demand j.owned "reconstructed attempt is inspection only"
  demand (not j.persistence_failed) "attempt persistence previously failed"

abbrev pub is_open : ClosureFile → Bool
is_open absent = true
is_open _ = false

-- `events[0]`, and the test that it is still what `create` wrote
unfoldable pub prepared_event : Option String → List Event → Result Event
prepared_event digest [] = err (other_exception "IndexError" "list index out of range")
prepared_event digest (e ∷ es) = do
  demand (same_digest (some e.digest) digest) "prepared authority changed"
  ok e

-- the grant that permit writes: its argument, or the attempt's timeout
abbrev pub grant_of : Option (Option ℤ) → Payload → Option ℤ
grant_of (some grant) payload = grant
grant_of none (prepared_data b) = b.attempt_timeout
grant_of none _ = none

abbrev pub granted : Attempt → Check × File → Check × Attempt
granted j (ok t, file) = (ok tt, record j { file = file; permission_granted = true })
granted j (err e, file) = (err e, record j { file = file; persistence_failed = true })

module _ (codec : Codec) where
  -- the event of JournalWriter.append, and its line
  abbrev pub next_event : String → EventKind → Payload → Timestamp → ℤ → ℕ → Event → Event
  next_event id kind payload observed tick count last =
      let body : Body = record {
        schema = lifecycle_schema;
        attempt_id = id;
        sequence = count;
        previous_digest = some last.digest;
        kind = kind;
        payload = payload;
        observed_at = observed;
        monotonic = tick;
      } in
      record { body = body; digest = codec.digest_body body }

  abbrev pub framed : Event → Frame
  framed e = record { bytes = codec.encoded_bytes e; parsed = some e }

  -- append, from the events that the journal has; an accepted journal is never empty
  unfoldable pub append_after :
      String
      → EventKind
      → Payload
      → Timestamp
      → ℤ
      → Written
      → File
      → List Event
      → Option Event
      → Option Event
      → Check × File
  append_after id kind payload observed tick w file events (some first) (some last) =
      if str_eq first.body.attempt_id id
      then commit w file (framed (next_event id kind payload observed tick (length events) last)) (
          decode codec (
            extended file (framed (next_event id kind payload observed tick (length events) last))))
      else (err (integrity_violation "attempt lifecycle: wrong attempt descriptor"), file)
  append_after id kind payload observed tick w file events _ _ =
      (err (other_exception "IndexError" "list index out of range"), file)

  unfoldable pub append_decoded :
      String
      → EventKind
      → Payload
      → Timestamp
      → ℤ
      → Written
      → File
      → Result (List Event)
      → Check × File
  append_decoded id kind payload observed tick w file (err e) = (err e, file)
  append_decoded id kind payload observed tick w file (ok events) =
      append_after id kind payload observed tick w file events (first_event events)
        (last_event events)

  -- JournalWriter.append
  unfoldable pub append :
      String → EventKind → Payload → Timestamp → ℤ → Written → File → Check × File
  append id kind payload observed tick w file =
      append_decoded id kind payload observed tick w file (decode codec file)

  -- open_writer: the id that the writer appends under
  unfoldable pub open_writer : Attempt → Result Event
  open_writer j = do
    require_owner j
    demand (is_open j.closed) "attempt is closed"
    events ← decode codec j.file
    prepared_event j.prepared_digest events

  unfoldable pub permit_as :
      Option (Option ℤ) → Timestamp → ℤ → Written → Attempt → Result Event → Check × Attempt
  permit_as grant observed tick w j (err e) = (err e, j)
  permit_as grant observed tick w j (ok first) = granted j (
      append first.body.attempt_id dispatch_permitted
        (permission (grant_of grant first.body.payload)) observed tick w j.file)

  -- AttemptJournal.permit
  unfoldable pub permit : Option (Option ℤ) → Timestamp → ℤ → Written → Attempt → Check × Attempt
  permit grant observed tick w j = permit_as grant observed tick w j (open_writer j)
