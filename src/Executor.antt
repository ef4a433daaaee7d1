-- ===== src/Executor.antt =====
-- src/model_council/executor.py, `SubprocessAdapter._spawn_worker` for the OpenAI adapter: the worker's
-- call between the journal of the attempt and the payload that it answers.
pub mod Spawned
pub mod Payload
pub mod Envelope
pub mod Legacy
use model_council_lab.Json.{
  cons, Fields, Json, get, object, boolean, text, integer, float_bits, array, field, null, nil, end,
}
use model_council_lab.Action.{Action, ◌>>=◌, ◌>>◌, yield, throw, reading}
use model_council_lab.Prelude.{
  List, Bool, Option, String, false, not, some, ℕ, ℤ, ◌++◌, if◌then◌else◌, true, ◌&&◌, ◌∷◌, [],
  none, ◌+++◌, pos, ltb, negsuc, ◌%◌, ◌^◌, str_eq,
}
use model_council_lab.Errors.{
  Check, Exc, Result, err, ok, protocol_error, neutral_provider_failure, stage_timeout,
  infrastructure_error, is_exception, model_failure,
}
use model_council_lab.Worker.Launch.{Reaping, Launch, may_attest}
use model_council_lab.Category.{ProviderErrorCategory}
use model_council_lab.Worker.Collect.{WorkerCollection, is_zero}
use model_council_lab.Openai.{is_text}
use model_council_lab.Worker.{is_timeout_expired}

-- bool(value)
unfoldable pub is_truthy : Json → Bool
is_truthy null = false
is_truthy (boolean b) = b
is_truthy (integer (pos n)) = ltb 0 n
is_truthy (integer (negsuc n)) = true
is_truthy (float_bits bits) = ltb 0 (bits % 2 ^ 63)
is_truthy (text s) = not (str_eq s "")
is_truthy (array nil) = false
is_truthy (array (cons x xs)) = true
is_truthy (object end) = false
is_truthy (object (field k v fs)) = true

-- The text of the payload's message, or one that quotes its error class.
abbrev pub message_or : Option Json → String → String
message_or (some (text message)) quoted = message
message_or _ quoted = "worker reported " +++ quoted

abbrev pub neutral_failure : Option (ProviderErrorCategory × String) → Exc
neutral_failure none = protocol_error "NeutralProviderFailure payload was not a valid NeutralError"
neutral_failure (some (category, message)) = neutral_provider_failure category message false

-- What the caller of the worker relies on: how Python prints a value, parse_neutral_error of
-- live_contract.py (none where it raises), and the decoding of UTF-8 and JSON (none where it fails).
pub record Decoder : Type 0 where
  pub render : Option Json → String
  pub parse_neutral_error : Option Json → Option (ProviderErrorCategory × String)
  pub read_json : List ℕ → Option Json

module _ (decoder : Decoder) where
  unfoldable pub reported_failure : Fields → Exc
  reported_failure payload =
      let error_class = get "error_class" payload in
      let message = message_or (get "message" payload) (decoder.render error_class) in
      if is_text "ProtocolError" error_class
      then protocol_error message
      else if is_text "InfrastructureError" error_class
      then infrastructure_error message
      else if is_text "ModelFailure" error_class
      then model_failure message
      else if is_text "NeutralProviderFailure" error_class
      then neutral_failure (decoder.parse_neutral_error (get "error" payload))
      else infrastructure_error
          ("worker reported " +++ (decoder.render error_class +++ (": " +++ message)))

  abbrev pub judged_payload : Option Json → Fields → Result Fields
  judged_payload none payload = err (protocol_error "worker response missing required 'ok' field")
  judged_payload (some good) payload =
      if is_truthy good then ok payload else err (reported_failure payload)

  unfoldable pub payload_result : Json → Result Fields
  payload_result (object payload) = judged_payload (get "ok" payload) payload
  payload_result _ = err (protocol_error "worker response missing required 'ok' field")

  abbrev pub decoded : Option Json → Result Fields
  decoded none = err (protocol_error "worker stdout was not valid JSON")
  decoded (some value) = payload_result value

  -- The payload that the accepted bytes decode to.
  unfoldable pub payload_of : Option (List ℕ) → Result Fields
  payload_of none = err (protocol_error "worker stdout was not valid JSON")
  payload_of (some bytes) = decoded (decoder.read_json bytes)

-- The journal of the attempt, as the caller of the worker uses it.
pub record AttemptJournal : Type 1 where
  pub State : Type 0
  pub close : String → Action State Unit
  pub persistence_failed : State → Bool
  pub is_closed : State → Bool

-- The journal, the status of the reaping, and the reasons with which a close was asked for.
pub record Spawn (J : AttemptJournal) : Type 0 where
  pub journal : J.State
  pub reaping : Reaping
  pub requests : List String

module _ (J : AttemptJournal) where
  -- attempt_journal.close(reason, worker_reaped=True)
  unfoldable pub ask_close : String → Action (Spawn J) Unit
  ask_close reason s =
      let answer = J.close reason s.journal in
      (answer.0, record s { journal = answer.1; requests = s.requests ++ (reason ∷ []) })

  unfoldable pub close_if : Bool → String → Action (Spawn J) Unit
  close_if true reason s = ask_close reason s
  close_if false reason s = (ok tt, s)

  -- The test before a close after an exception.
  unfoldable pub may_close : Spawn J → Bool
  may_close s =
      not (J.persistence_failed s.journal) && may_attest s.reaping && not (J.is_closed s.journal)

  abbrev pub close_reason : Option ℤ → String
  close_reason code = if is_zero code then "returned" else "infrastructure"

  -- The end of the `try`, from what the wrapper answered.
  unfoldable pub returned_worker : Result WorkerCollection → Action (Spawn J) WorkerCollection
  returned_worker (err e) s = (err e, s)
  returned_worker (ok r) s =
      if may_attest s.reaping
      then (ask_close (close_reason r.returncode) >>= λ t. yield r) s
      else (err (infrastructure_error "worker termination unconfirmed"), s)

  -- The `try`: what precedes the wrapper may raise.
  unfoldable pub attempt_worker :
      Check → Result WorkerCollection × Launch → Action (Spawn J) WorkerCollection
  attempt_worker (err e) run s = (err e, s)
  attempt_worker (ok t) run s = returned_worker run.0 (record s { reaping = run.1.reaping })

  module _ (is_os_error : Exc → Bool) (timeout_text spawn_text : String) where
    -- The `except` clauses, with the exceptions that are raised after them.
    unfoldable pub except_worker : Exc → Action (Spawn J) WorkerCollection
    except_worker e s =
        if is_timeout_expired e
        then (close_if (may_attest s.reaping) "timeout" >> throw (stage_timeout timeout_text)) s
        else if is_os_error e
        then (close_if (may_close s) "infrastructure" >> throw (infrastructure_error spawn_text)) s
        else (close_if (may_close s) (if is_exception e then "infrastructure" else "interrupted")
              >> throw e)
            s

    unfoldable pub handle_worker : Result WorkerCollection → Action (Spawn J) WorkerCollection
    handle_worker (ok r) s = (ok r, s)
    handle_worker (err e) s = except_worker e s

    module _ (decoder : Decoder) where
      abbrev pub read_payload : WorkerCollection → Action (Spawn J) Fields
      read_payload r = reading (λ s. payload_of decoder r.accepted)

      -- _spawn_worker, from whether time is left, what precedes the wrapper, and what it answers
      unfoldable pub spawn_worker :
          Bool → Check → Result WorkerCollection × Launch → Action (Spawn J) Fields
      spawn_worker time_left setup run s =
          let attempted = attempt_worker setup run s in
          if time_left
          then (handle_worker attempted.0 >>= read_payload) attempted.1
          else (err (stage_timeout timeout_text), s)
