-- ===== src/Lifecycle/Decode.antt =====
-- `_validate_binding` and `_decode` of src/model_council/attempt_lifecycle.py.
use model_council_lab.Prelude.{
  String, none, some, ◌∷◌, [], true, false, zero, suc, negsuc, pos, Bool, List, Option, ℕ, ◌==◌,
  all, leb, str_eq, ℤ, ◌&&◌, ◌+++◌, is_positive, ltb, ◌+◌, ◌||◌, at_least, length, not,
}
use model_council_lab.Errors.{ok, err, Check, Result, require, integrity_violation, ◌>>=◌, ◌>>◌}
use model_council_lab.Json.{text, object, Json, get}
use model_council_lab.Stage.{ResourceLimits, resource_limits}
use model_council_lab.Lifecycle.{
  attempt_prepared, dispatch_permitted, sdk_call_boundary, sdk_return_observed,
  sdk_exception_observed, outcome_observed, zoned, prepared_data, permission, wire_request,
  outcome_data, no_data, Binding, Codec, Timestamp, Event, EventKind, File, Frame, Payload, follows,
}
use Prim.Native.Char.{code}
use model_council_lab.Security.{safe_identifier}
use model_council_lab.Identity.{key}

-- _require
abbrev pub demand : Bool → String → Check
demand test message = require test (integrity_violation ("attempt lifecycle: " +++ message))

abbrev pub is_hex_code : ℕ → Bool
is_hex_code c = (leb 48 c && leb c 57) || (leb 97 c && leb c 102)

-- a string of n lower-case hexadecimal digits
unfoldable pub is_hex : ℕ → String → Bool
is_hex zero String.[] = true
is_hex (suc n) (String.◌∷◌ c s) = is_hex_code (code c) && is_hex n s
is_hex _ _ = false

-- _digest
unfoldable pub is_digest : String → Bool
is_digest value = is_hex 64 value

abbrev pub lifecycle_schema : String
lifecycle_schema = "m1-attempt-lifecycle-v1"

abbrev pub lifecycle_protocol : String
lifecycle_protocol = "m1-dev-harness-v15"

abbrev pub max_journal_bytes : ℕ
max_journal_bytes = 16000000

abbrev pub max_frame_bytes : ℕ
max_frame_bytes = 8000000

abbrev pub positive_time : Option ℤ → Bool
positive_time none = false
positive_time (some n) = is_positive n

abbrev pub is_absent : Option String → Bool
is_absent none = true
is_absent (some s) = false

-- `except (TypeError, ValueError)` around ResourceLimits, and the test that retries are disabled
unfoldable pub limits_without_retries : Result ResourceLimits → Check
limits_without_retries (ok limits) = demand (limits.max_stage_retries == 0) "retries are disabled"
limits_without_retries (err e) =
    err (integrity_violation "attempt lifecycle: invalid identity or budget")

-- _validate_binding; the tests of fields and types are the record's type
unfoldable pub validate_binding : Binding → Check
validate_binding b = do
  demand (all is_digest b.digests) "invalid binding digest"
  run_id ← safe_identifier b.run_id
  role ← safe_identifier b.role
  demand (at_least b.attempt (pos 1) && at_least (pos 1) b.attempt) "retries are disabled"
  demand (not (str_eq b.wire_model "")) "missing wire model"
  demand (str_eq b.identity_key (key b.configured_identity)) "invalid configured identity fields"
  limits_without_retries
      (resource_limits b.max_input b.max_output b.max_tools b.stage_timeout b.max_retries)
  demand (str_eq b.harness_protocol_version lifecycle_protocol) "invalid lifecycle protocol"
  demand (is_absent b.predecessor_attempt_id) "retry predecessor forbidden"
  demand (is_hex 32 b.execution_instance_id) "invalid execution instance"
  demand (positive_time b.attempt_timeout) "invalid timeout"

abbrev pub same_digest : Option String → Option String → Bool
same_digest none none = true
same_digest (some a) (some b) = str_eq a b
same_digest _ _ = false

-- outcome["kind"] == "success"
abbrev pub is_text : String → Option Json → Bool
is_text s (some (text t)) = str_eq t s
is_text s _ = false

unfoldable pub is_success_outcome : Json → Bool
is_success_outcome (object fs) = is_text "success" (get "kind" fs)
is_success_outcome _ = false

-- The time grant lies within the attempt's timeout.
abbrev pub granted_within : Option ℤ → Option ℤ → Bool
granted_within (some grant) (some timeout) = is_positive grant && at_least timeout grant
granted_within _ _ = false

abbrev pub returned_before : Option EventKind → Bool
returned_before (some sdk_return_observed) = true
returned_before _ = false

-- What the loop of _decode has seen: the event before, the head of the digest chain, the attempt, the
-- clock, the number of events and the attempt's timeout.
pub record Seen : Type 0 where
  pub previous : Option EventKind
  pub head : Option String
  pub attempt_id : Option String
  pub elapsed : ℤ
  pub index : ℕ
  pub timeout : Option ℤ

abbrev pub nothing_seen : Seen
nothing_seen = record {
  previous = none;
  head = none;
  attempt_id = none;
  elapsed = negsuc 0;
  index = 0;
  timeout = none;
}

-- The first event fixes the attempt's id, and the others have it.
abbrev pub attempt_named : Option String → String → Check
attempt_named none id = demand (is_hex 32 id) "invalid attempt ID"
attempt_named (some expected) id = demand (str_eq id expected) "attempt ID changed"

abbrev pub is_zoned : Timestamp → Bool
is_zoned zoned = true
is_zoned _ = false

-- The timeout that the binding grants, from the first event on.
abbrev pub bound_timeout : Option ℤ → Payload → Option ℤ
bound_timeout timeout (prepared_data b) = b.attempt_timeout
bound_timeout timeout _ = timeout

module _ (codec : Codec) where
  -- The tests on the payload. The first event is the prepared one and no other is, so that
  -- `index == 0` is the first clause.
  unfoldable pub check_payload : Seen → EventKind → Payload → Check
  check_payload seen attempt_prepared (prepared_data b) = validate_binding b
  check_payload seen dispatch_permitted (permission grant) =
      demand (granted_within grant seen.timeout) "invalid time grant"
  check_payload seen sdk_call_boundary (wire_request d) = demand (is_digest d) "invalid wire digest"
  check_payload seen outcome_observed (outcome_data outcome d) = do
    demand (codec.parses_outcome outcome) "invalid normalized outcome"
    demand (str_eq d (codec.digest_outcome outcome)) "outcome digest mismatch"
    demand (returned_before seen.previous || not (is_success_outcome outcome))
        "success after SDK exception"
  check_payload seen sdk_return_observed no_data = ok tt
  check_payload seen sdk_exception_observed no_data = ok tt
  check_payload seen _ _ = err (integrity_violation "attempt lifecycle: unexpected event data")

  -- One round of the loop of _decode.
  unfoldable pub check_event : Seen → Event → Result Seen
  check_event seen e = do
    demand (str_eq e.body.schema lifecycle_schema) "unknown schema"
    demand (e.body.sequence == seen.index) "invalid sequence"
    demand (same_digest e.body.previous_digest seen.head) "broken digest chain"
    demand (str_eq e.digest (codec.digest_body e.body)) "event digest mismatch"
    demand (follows seen.previous e.body.kind) "contradictory transition"
    demand (is_zoned e.body.observed_at) "invalid timestamp"
    demand (at_least e.body.monotonic seen.elapsed) "contradictory monotonic timing"
    attempt_named seen.attempt_id e.body.attempt_id
    check_payload seen e.body.kind e.body.payload
    ok (record {
      previous = some e.body.kind;
      head = some e.digest;
      attempt_id = some e.body.attempt_id;
      elapsed = e.body.monotonic;
      index = suc seen.index;
      timeout = bound_timeout seen.timeout e.body.payload;
    })

  unfoldable pub check_events : Seen → List Event → Check
  check_events seen [] = ok tt
  check_events seen (e ∷ es) = do next ← check_event seen e; check_events next es

-- The bytes of the journal, with a newline for each line.
unfoldable pub size : List Frame → ℕ
size [] = 0
size (f ∷ fs) = suc f.bytes + size fs

-- json.loads of every line, and the test that the line is its canonical form
unfoldable pub parse_frames : List Frame → Result (List Event)
parse_frames [] = ok []
parse_frames (f ∷ fs) = elim f.parsed [
  | none ↦ err (integrity_violation "attempt lifecycle: malformed journal")
  | some e ↦ do es ← parse_frames fs; ok (e ∷ es)
]

module _ (codec : Codec) where
  -- _decode
  unfoldable pub decode : File → Result (List Event)
  decode file = do
    demand (ltb 0 (size file.lines) && leb (size file.lines) max_journal_bytes && file.complete)
        "incomplete journal"
    demand
        (leb (length file.lines) 5 && all (λ (f : Frame). leb f.bytes max_frame_bytes) file.lines)
        "frame bound exceeded"
    events ← parse_frames file.lines
    check_events codec nothing_seen events
    ok events
