-- ===== src/Examples/Journals.antt =====
-- The theorems on identifiers and on the attempt journal at concrete inputs.
use model_council_lab.Prelude.{
  join, elem, String, none, some, ◌∷◌, [], true, false, ◌≡◌, arith, refl, pos, if◌then◌else◌, ◌≤◌,
  length, ◌+++◌, ◌==◌, ◌≢◌, Bool, take, ◌↔◌,
}
use model_council_lab.Errors.{ok}
use model_council_lab.Lifecycle.{
  attempt_prepared, dispatch_permitted, sdk_call_boundary, sdk_exception_observed, zoned, no_data,
  wire_request, prepared_data, permission, Closure, Codec, Event, File, Body, Binding, follows,
}
use model_council_lab.Lifecycle.Journal.{
  absent, written, stored, Attempt, permit, permit_as, open_writer, require_owner, prepared_event,
  append, append_decoded, append_after, last_event, commit,
}
use model_council_lab.Lifecycle.Closed.{
  safe_not_dispatched, close, close_as, closing, write_closure, inspect, check_prepared,
  read_closure, check_closure, check_committed, Snapshot, snapshot, is_closed,
}
use model_council_lab.Lifecycle.Decode.{
  decode, parse_frames, size, check_events, check_event, check_payload, validate_binding, is_digest,
  is_hex, limits_without_retries,
}
use model_council_lab.Security.{
  safe_identifier, matches_identifier, matches_tail, is_identifier_code, is_alphanumeric,
}
use model_council_lab.Examples.{openai_identity}
use model_council_lab.Lifecycle.Once.{Appended, append-Appended}
use model_council_lab.Lifecycle.Permit.{permit_once, appended, unchanged}
use model_council_lab.Identity.{key}
use model_council_lab.Lifecycle.Chain.{Linked, decode-chain}
use model_council_lab.Security.Identifier.{has_code, safe_identifier-codes, safe_identifier-newline}
use model_council_lab.Stage.{resource_limits}
use model_council_lab.Lifecycle.Sealed.{inspect-close}
use model_council_lab.Lifecycle.Safety.{inspect-safe}
use model_council_lab.Lifecycle.Order.{kinds, chain}

abbrev run_name : String
run_name = "run-1"

safe_identifier-codes_example :
    (run_name ≡ run_name)
    × (has_code 47 run_name ≡ false)
    × (run_name ≢ "")
    × (run_name ≢ ".")
    × (run_name ≢ "..")
unfolding safe_identifier matches_identifier matches_tail is_identifier_code is_alphanumeric
safe_identifier-codes_example =
    safe_identifier-codes 47 run_name run_name refl refl (λ e. absurd (omega (arith, e)))

safe_identifier-newline_example : safe_identifier (run_name +++ "\n") ≡ ok (run_name +++ "\n")
unfolding safe_identifier matches_identifier matches_tail is_identifier_code is_alphanumeric
    has_code
safe_identifier-newline_example = safe_identifier-newline run_name refl refl

abbrev plain_codec : Codec
plain_codec = record {
  digest_body = λ b. if b.sequence == 0 then "d0" else "d1";
  digest_outcome = λ o. "o";
  digest_closure = λ c. "c";
  parses_outcome = λ o. true;
  encoded_bytes = λ e. 100;
}

abbrev instance_id : String
instance_id = "0123456789abcdef0123456789abcdef"

abbrev solver_binding : Binding
solver_binding = record {
  digests = (instance_id +++ instance_id) ∷ [];
  run_id = "run-1";
  role = "solver";
  attempt = pos 1;
  configured_identity = openai_identity;
  identity_key = key openai_identity;
  wire_model = "m-1";
  max_input = pos 10;
  max_output = pos 10;
  max_tools = pos 0;
  stage_timeout = pos 60;
  max_retries = pos 0;
  attempt_timeout = some (pos 60);
  execution_instance_id = instance_id;
  harness_protocol_version = "m1-dev-harness-v15";
  predecessor_attempt_id = none;
}

abbrev prepared_body : Body
prepared_body = record {
  schema = "m1-attempt-lifecycle-v1";
  attempt_id = instance_id;
  sequence = 0;
  previous_digest = none;
  kind = attempt_prepared;
  payload = prepared_data solver_binding;
  observed_at = zoned;
  monotonic = pos 5;
}

abbrev prepared : Event
prepared = record { body = prepared_body; digest = "d0" }

abbrev prepared_file : File
prepared_file = record {
  lines = record { bytes = 100; parsed = some prepared } ∷ [];
  complete = true;
}

abbrev prepared_attempt : Attempt
prepared_attempt = record {
  file = prepared_file;
  closed = absent;
  owned = true;
  persistence_failed = false;
  permission_granted = false;
  prepared_digest = some "d0";
  closure_digest = none;
}

prepared_accepted : decode plain_codec prepared_file ≡ ok (prepared ∷ [])
unfolding decode parse_frames size check_events check_event check_payload follows validate_binding
    is_digest is_hex safe_identifier matches_identifier matches_tail is_identifier_code
    is_alphanumeric limits_without_retries resource_limits key join
prepared_accepted = refl

decode-chain_example :
    (1 ≤ length (prepared ∷ []))
    × (length (prepared ∷ []) ≤ 5)
    × ((returned : Bool) × (kinds (prepared ∷ []) ≡ take 1 (chain returned)))
    × ((id : String) × Linked plain_codec id none 0 (prepared ∷ []))
decode-chain_example = decode-chain plain_codec prepared_file (prepared ∷ []) prepared_accepted

permitted : (permit plain_codec none zoned (pos 7) written prepared_attempt).0 ≡ ok tt
unfolding decode parse_frames size check_events check_event check_payload follows validate_binding
    is_digest is_hex safe_identifier matches_identifier matches_tail is_identifier_code
    is_alphanumeric limits_without_retries resource_limits key join permit permit_as open_writer
    require_owner prepared_event append append_decoded append_after last_event commit
permitted = refl

-- the attempt after its permission
abbrev dispatched : Attempt
dispatched = (permit plain_codec none zoned (pos 7) written prepared_attempt).1

-- its file after the events of a call that raised
abbrev called_file : File
called_file =
    (append plain_codec instance_id sdk_exception_observed no_data zoned (pos 9) written
      (append plain_codec instance_id sdk_call_boundary (wire_request "w") zoned (pos 8) written
        dispatched.file).1).1

permit_once_example :
    (permit plain_codec none zoned (pos 10) written (record dispatched { file = called_file })).0
    ≢ ok tt
permit_once_example =
    permit_once plain_codec none none zoned zoned (pos 7) (pos 10) written written prepared_attempt
      (record dispatched { file = called_file }) permitted
      (appended instance_id sdk_exception_observed no_data zoned (pos 9) written
        (appended instance_id sdk_call_boundary (wire_request "w") zoned (pos 8) written unchanged))

append-Appended_example :
    Appended plain_codec dispatch_permitted
      (permission (some (pos 60)))
      prepared_file
      (append plain_codec instance_id dispatch_permitted
        (permission (some (pos 60)))
        zoned
        (pos 7)
        written
        prepared_file).1
unfolding decode parse_frames size check_events check_event check_payload follows validate_binding
    is_digest is_hex safe_identifier matches_identifier matches_tail is_identifier_code
    is_alphanumeric limits_without_retries resource_limits key join permit permit_as open_writer
    require_owner prepared_event append append_decoded append_after last_event commit
append-Appended_example =
    append-Appended plain_codec instance_id dispatch_permitted (permission (some (pos 60))) zoned
      (pos 7) written prepared_file refl

abbrev not_started : Closure
not_started = record {
  schema = "m1-attempt-lifecycle-v1";
  event = "closed_not_started";
  attempt_id = instance_id;
  head_digest = "d0";
  event_count = 1;
  reason = "not_started";
  worker_reaped = true;
  observed_at = zoned;
}

inspect-safe_example :
    ((snapshot plain_codec (prepared ∷ []) (some not_started)).retry_safety ≡ safe_not_dispatched)
    ↔ ((is_closed (some not_started) ≡ true) × (kinds (prepared ∷ []) ≡ attempt_prepared ∷ []))
unfolding decode parse_frames size check_events check_event check_payload follows validate_binding
    is_digest is_hex safe_identifier matches_identifier matches_tail is_identifier_code
    is_alphanumeric limits_without_retries resource_limits key join permit permit_as open_writer
    require_owner prepared_event append append_decoded append_after last_event commit close close_as
    closing write_closure elem inspect check_prepared read_closure check_closure check_committed
inspect-safe_example =
    inspect-safe plain_codec true
      (record prepared_attempt { closed = stored not_started; closure_digest = some "c" })
      (snapshot plain_codec (prepared ∷ []) (some not_started)) refl

inspect-close_example :
    (s : Snapshot) × (c : Closure) × (inspect plain_codec true
        (close plain_codec "not_started" true true written prepared_attempt).1
      ≡ ok s)
    × (s.closure ≡ some c)
    × (c.reason ≡ "not_started")
unfolding decode parse_frames size check_events check_event check_payload follows validate_binding
    is_digest is_hex safe_identifier matches_identifier matches_tail is_identifier_code
    is_alphanumeric limits_without_retries resource_limits key join permit permit_as open_writer
    require_owner prepared_event append append_decoded append_after last_event commit close close_as
    closing write_closure elem inspect check_prepared read_closure check_closure check_committed
inspect-close_example =
    inspect-close plain_codec "not_started" true true written prepared_attempt refl
