-- ===== src/Examples/Calls.antt =====
-- The executor of src/model_council/executor.py with a journal that accepts every close.
use model_council_lab.Openai.{is_null}
use model_council_lab.Examples.Workers.{
  returned_run, confirmed_launch, answered_run, answered_run_accepted, answering_os, two_bytes,
}
use model_council_lab.Prelude.{
  length, ◌≤◌, ◌≡◌, List, false, none, ℕ, [], some, true, ◌+◌, ◌⊎◌, ltb, refl, ◌∷◌, ◌++◌, pos, ◌↔◌,
}
use model_council_lab.Errors.{Result, err, ok, other_exception}
use model_council_lab.Executor.{
  AttemptJournal, Decoder, Spawn, spawn_worker, attempt_worker, returned_worker, handle_worker,
  ask_close, except_worker, close_if, payload_of, is_truthy, payload_result,
}
use model_council_lab.Json.{Fields, field, boolean, end, object, Json, get, integer, text}
use model_council_lab.Worker.Collect.{WorkerCollection}
use model_council_lab.Worker.Launch.{Launch, unstarted, may_attest}
use model_council_lab.Worker.Attested.{IsAttested}
use model_council_lab.Worker.{max_worker_protocol_bytes, is_timeout_expired}
use model_council_lab.Executor.Spawned.{spawn_worker-closes}
use model_council_lab.Executor.Payload.{spawn_worker-IsAttested}
use model_council_lab.Executor.Envelope.{
  parse_legacy_payload, validate_response, validate_usage_fields, validate_usage_field,
  validate_identity_used, validate_names, is_legacy_profile, is_name,
}
use model_council_lab.Executor.Legacy.{IsLegacyResponse, parse_legacy_payload_iff}

abbrev plain_journal : AttemptJournal
plain_journal = record {
  State = ℕ;
  close = λ reason n. (ok tt, n + 1);
  persistence_failed = λ n. false;
  is_closed = λ n. ltb 0 n;
}

abbrev fresh_spawn : Spawn plain_journal
fresh_spawn = record { journal = 0; reaping = unstarted; requests = [] }

abbrev good_payload : Fields
good_payload = field "ok" (boolean true) end

abbrev plain_decoder : Decoder
plain_decoder = record {
  render = λ value. "?";
  parse_neutral_error = λ value. none;
  read_json = λ bytes. some (object good_payload);
}

good_spawn :
    (spawn_worker plain_journal
      (λ e. false)
      "timed out"
      "not spawned"
      plain_decoder
      true
      (ok tt)
      (ok answered_run.0, confirmed_launch)
      fresh_spawn).0
    ≡ ok good_payload
unfolding spawn_worker attempt_worker returned_worker handle_worker ask_close may_attest payload_of
    payload_result get is_truthy
good_spawn = rw answered_run_accepted refl

spawn_worker-IsAttested_example :
    (r : WorkerCollection) × ((p : List ℕ) × ((IsAttested r
          × ((r.accepted ≡ some p) × (length p ≤ max_worker_protocol_bytes)))
        × ((plain_decoder.read_json p ≡ some (object good_payload))
            × (((good : Json) × ((get "ok" good_payload ≡ some good) × (is_truthy good ≡ true)))
                × ((spawn_worker plain_journal
                      (λ e. false)
                      "timed out"
                      "not spawned"
                      plain_decoder
                      true
                      (ok tt)
                      (ok answered_run.0, confirmed_launch)
                      fresh_spawn).1.requests
                    ≡ [] ++ ("returned" ∷ []))))))
spawn_worker-IsAttested_example =
    spawn_worker-IsAttested plain_journal (λ e. false) "timed out" "not spawned" plain_decoder
      answering_os two_bytes 1000 4 (ok tt) (ok tt) true (ok tt) (ok answered_run.0)
      confirmed_launch fresh_spawn good_payload returned_run good_spawn

-- a worker whose communication timed out and which was reaped
abbrev timed_out_call : Result WorkerCollection × Launch
timed_out_call = (err (other_exception "TimeoutExpired" ""), confirmed_launch)

spawn_worker-closes_example :
    ((spawn_worker plain_journal
        (λ e. false)
        "timed out"
        "not spawned"
        plain_decoder
        true
        (ok tt)
        timed_out_call
        fresh_spawn).1.requests
      ≡ [])
    ⊎ (may_attest
          (spawn_worker plain_journal
            (λ e. false)
            "timed out"
            "not spawned"
            plain_decoder
            true
            (ok tt)
            timed_out_call
            fresh_spawn).1.reaping
        ≡ true)
spawn_worker-closes_example =
    spawn_worker-closes plain_journal (λ e. false) "timed out" "not spawned" plain_decoder true
      (ok tt) timed_out_call fresh_spawn refl

timed_out_closed :
    (spawn_worker plain_journal
      (λ e. false)
      "timed out"
      "not spawned"
      plain_decoder
      true
      (ok tt)
      timed_out_call
      fresh_spawn).1.requests
    ≡ "timeout" ∷ []
unfolding spawn_worker attempt_worker returned_worker handle_worker except_worker ask_close close_if
    may_attest is_timeout_expired
timed_out_closed = refl

abbrev legacy_identity : Fields
legacy_identity = field "provider" (text "p") (
    field "model_id" (text "m") (
      field "model_version" (text "v")
        (field "adapter_name" (text "a") (field "adapter_version" (text "1") end))))

abbrev worker_response : Fields
worker_response = field "tokens_in" (integer (pos 3)) (
    field "tokens_out" (integer (pos 4))
      (field "tool_uses" (integer (pos 0)) (field "identity_used" (object legacy_identity) end)))

abbrev legacy_payload : Fields
legacy_payload = field "ok" (boolean true) (field "response" (object worker_response) end)

legacy_parsed : parse_legacy_payload legacy_payload ≡ ok worker_response
unfolding parse_legacy_payload validate_response validate_usage_fields validate_usage_field
    validate_identity_used validate_names is_legacy_profile is_null is_name get
legacy_parsed = refl

parse_legacy_payload_iff_example :
    (parse_legacy_payload legacy_payload ≡ ok worker_response)
    ↔ IsLegacyResponse legacy_payload worker_response
parse_legacy_payload_iff_example = parse_legacy_payload_iff legacy_payload worker_response
