-- ===== src/Lifecycle.antt =====
-- src/model_council/attempt_lifecycle.py: the journal of one attempt. This file has its events and what
-- is stored; Decode validates a stored journal, and Journal has the writer, the permission, closure
-- and inspection.
-- Times are whole ticks, and a number that is not finite is none.
pub mod Decode
pub mod Journal
pub mod Order
pub mod Chain
pub mod Once
pub mod Permit
pub mod Closed
pub mod Safety
pub mod Sealed
use model_council_lab.Prelude.{
  String, none, some, ◌∷◌, [], true, false, ◌≡◌, arith, inl, inr, refl, zero, suc, negsuc, pos,
  Bool, List, Option, all, str_eq, ℕ, ◌==◌, at_least, leb, ltb, ℤ, ◌&&◌, ◌+++◌, ◌+◌, ◌||◌,
  is_positive, length, not,
}
use model_council_lab.Errors.{ok, err, Check, Result, require, integrity_violation, ◌>>=◌, ◌>>◌}
use model_council_lab.Json.{text, object, Json, get}
use model_council_lab.Stage.{ResourceLimits, resource_limits}
use Prim.Native.Char.{code}
use model_council_lab.Security.{safe_identifier}
use model_council_lab.Identity.{AdapterIdentity, key}

-- The names of events, the keys of _NEXT; `unrecognized` is any other string.
pub data EventKind : Type 0 where
  attempt_prepared dispatch_permitted sdk_call_boundary : EventKind
  sdk_return_observed sdk_exception_observed outcome_observed : EventKind
  unrecognized : String → EventKind

-- `event["event"] in _NEXT.get(previous, set())`
unfoldable pub follows : Option EventKind → EventKind → Bool
follows none attempt_prepared = true
follows (some attempt_prepared) dispatch_permitted = true
follows (some dispatch_permitted) sdk_call_boundary = true
follows (some sdk_call_boundary) sdk_return_observed = true
follows (some sdk_call_boundary) sdk_exception_observed = true
follows (some sdk_return_observed) outcome_observed = true
follows (some sdk_exception_observed) outcome_observed = true
follows _ _ = false

-- What datetime.fromisoformat makes of a timestamp.
pub data Timestamp : Type 0 where
  zoned naive unparsable : Timestamp

-- The binding that the parent prepares. `limits` are the arguments of ResourceLimits, and
-- `identity_key` is the entry that AdapterIdentity.to_dict adds.
pub record Binding : Type 0 where
  pub digests : List String
  pub run_id : String
  pub role : String
  pub attempt : ℤ
  pub configured_identity : AdapterIdentity
  pub identity_key : String
  pub wire_model : String
  pub max_input : ℤ
  pub max_output : ℤ
  pub max_tools : ℤ
  pub stage_timeout : ℤ
  pub max_retries : ℤ
  pub attempt_timeout : Option ℤ
  pub execution_instance_id : String
  pub harness_protocol_version : String
  pub predecessor_attempt_id : Option String

-- event["data"], by its keys; `other_data` has other keys, or is no object.
pub data Payload : Type 0 where
  prepared_data : Binding → Payload
  permission : Option ℤ → Payload
  wire_request : String → Payload
  outcome_data : Json → String → Payload
  no_data other_data : Payload

-- An event without its digest, and with it.
pub record Body : Type 0 where
  pub schema : String
  pub attempt_id : String
  pub sequence : ℕ
  pub previous_digest : Option String
  pub kind : EventKind
  pub payload : Payload
  pub observed_at : Timestamp
  pub monotonic : ℤ

pub record Event : Type 0 where
  pub body : Body
  pub digest : String

-- A line of the journal: its bytes, and the event that it is the canonical JSON of, if there is one.
pub record Frame : Type 0 where
  pub bytes : ℕ
  pub parsed : Option Event

-- The stored bytes: the lines, and whether the last one ends in a newline.
pub record File : Type 0 where
  pub lines : List Frame
  pub complete : Bool

-- closed.json
pub record Closure : Type 0 where
  pub schema : String
  pub event : String
  pub attempt_id : String
  pub head_digest : String
  pub event_count : ℕ
  pub reason : String
  pub worker_reaped : Bool
  pub observed_at : Timestamp

-- digest_json, the parser of outcomes and the length of a canonical encoding.
pub record Codec : Type 0 where
  pub digest_body : Body → String
  pub digest_outcome : Json → String
  pub digest_closure : Closure → String
  pub parses_outcome : Json → Bool
  pub encoded_bytes : Event → ℕ
