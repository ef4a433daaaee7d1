-- ===== src/Worker/Collect.antt =====
-- `_collect_openai_worker` (src/model_council/executor.py) from its set-up to its result: the loop, the
-- latch of the protocol, the handler of an exception, the closes of the `finally` and the verdict.
use model_council_lab.Action.{Action, ◌>>◌}
use model_council_lab.Prelude.{
  Option, List, ℕ, ℤ, Bool, String, if◌then◌else◌, some, true, false, leb, none, not, pos, ◌&&◌,
  ◌-◌, ◌∷◌, [], ltb, ◌==◌,
}
use model_council_lab.Worker.Serve.{abort_now, turns}
use model_council_lab.Worker.{
  Os, Collector, Endpoint, called, close_endpoint, initial_collector, note_exception, put, stdin,
  cleaned, is_set, protocol, stderr, stdout, ticked, all_eof,
}
use model_council_lab.Errors.{Check, Exc, Result, ok, err}

-- _WorkerCollection; `diagnostic_high_water` is never set
pub record WorkerCollection : Type 0 where
  pub accepted : Option (List ℕ)
  pub failure : Option String
  pub abort_reason : Option String
  pub returncode : Option ℤ
  pub reaped : Bool
  pub pipes_eof : Bool
  pub cleanup_complete : Bool
  pub interruption : Option String
  pub stdout_observed : ℕ
  pub stderr_observed : ℕ
  pub diagnostic_observed : ℕ
  pub protocol_high_water : ℕ
  pub read_high_water : ℕ

-- returncode == 0
abbrev pub is_zero : Option ℤ → Bool
is_zero (some (pos n)) = n == 0
is_zero _ = false

module _ (os : Os) where
  -- A call whose failure leaves the setup, and what follows it.
  abbrev pub setting : Check → (Collector → Collector) → Action Collector Unit
  setting (ok t) change s = (ok tt, change s)
  setting (err e) change s = (err e, s)

  -- endpoints[name] = (stream.fileno(), stream)
  unfoldable pub take_endpoint : Endpoint → Action Collector Unit
  take_endpoint name s =
      setting (os.fileno s.calls name) (λ x. record x { is_open = put name true x.is_open })
        (called s)

  unfoldable pub select_endpoint : Endpoint → Action Collector Unit
  select_endpoint name s =
      setting (os.register s.calls name) (λ x. record x { registered = put name true x.registered })
        (called s)

  -- os.set_blocking, selector.register and registered.add
  unfoldable pub register_endpoint : Endpoint → Action Collector Unit
  register_endpoint name s =
      (setting (os.set_blocking s.calls name) (λ x. x) >> select_endpoint name) (called s)

  unfoldable pub take_selector : Action Collector Unit
  take_selector s =
      setting (os.new_selector s.calls) (λ x. record x { has_selector = true }) (called s)

  unfoldable pub skip_empty_input : List ℕ → Action Collector Unit
  skip_empty_input [] s = (ok tt, close_endpoint os stdin s)
  skip_empty_input (byte ∷ bytes) s = (ok tt, s)

  -- The steps before the `while`, once the protocol's descriptor is owned.
  unfoldable pub set_up : List ℕ → Action Collector Unit
  set_up input = do
    take_endpoint stdin
    take_endpoint stdout
    take_endpoint stderr
    take_selector
    register_endpoint stdin
    register_endpoint stdout
    register_endpoint stderr
    register_endpoint protocol
    skip_empty_input input

  -- selector.close() in the `finally`
  unfoldable pub selector_closed : Collector → Collector
  selector_closed s = if s.has_selector then cleaned (os.close_selector s.calls) (called s) else s

  -- The `finally`, which closes what is still owned in the order in which it was taken.
  unfoldable pub release : Collector → Collector
  release s = selector_closed (
      close_endpoint os stderr
        (close_endpoint os stdout (close_endpoint os stdin (close_endpoint os protocol s))))

  -- The confirmed wait of the `except`, within the cleanup allowance.
  unfoldable pub waited : Result ℤ → Collector → Collector
  waited (ok code) s = record s { returncode = some code; reaped = true }
  waited (err e) s = note_exception e s

  abbrev pub allowance : Option ℕ → ℕ → ℕ
  allowance none now = 0
  allowance (some limit) now = limit - now

  unfoldable pub confirm : Collector → Collector
  confirm s =
      if s.reaped
      then s
      else waited (os.wait s.calls (allowance s.cleanup_deadline (os.clock s.readings)))
          (called (ticked s))

  -- `except BaseException`
  unfoldable pub salvage : Exc → Collector → Collector
  salvage e s =
      let noted = note_exception e s in
      confirm (abort_now os (if is_set noted.interruption then "interrupted" else "io_error") noted)

  unfoldable pub may_accept : Collector → Bool
  may_accept s =
      s.reaped
      && all_eof s.eof
      && not (is_set s.abort_reason)
      && not s.cleanup_error
      && not (is_set s.interruption)
      && is_zero s.returncode

  -- The end of the communication: what is accepted, from the reading after the copy.
  unfoldable pub latched : ℕ → ℕ → Collector → Option (List ℕ) × Collector
  latched deadline now s =
      if leb deadline now
      then (none, abort_now os "deadline" s)
      else (some s.protocol_bytes, record s { protocol_bytes = [] })

  unfoldable pub latch : ℕ → Collector → Option (List ℕ) × Collector
  latch deadline s =
      if may_accept s
      then latched deadline (os.clock s.readings) (ticked s)
      else (none, record s { protocol_bytes = [] })

  -- `monotonic() > cleanup_deadline`, if there is one
  abbrev pub is_late : Option ℕ → ℕ → Bool
  is_late none now = false
  is_late (some limit) now = ltb limit now

  unfoldable pub completed : Collector → Bool
  completed s =
      s.reaped
      && all_eof s.eof
      && not s.cleanup_error
      && not (is_late s.cleanup_deadline (os.clock s.readings))

  unfoldable pub failure_of : Collector → Option String
  failure_of s =
      if not (completed s)
      then some "cleanup_uncertain"
      else if is_set s.interruption
      then some "interrupted"
      else if is_set s.abort_reason
      then s.abort_reason
      else if not (is_zero s.returncode)
      then some "worker_exit"
      else none

  -- The result, from what the communication accepted.
  unfoldable pub conclude : Option (List ℕ) → Collector → WorkerCollection
  conclude accepted s = record {
    accepted = (if is_set (failure_of s) then none else accepted);
    failure = failure_of s;
    abort_reason = s.abort_reason;
    returncode = s.returncode;
    reaped = s.reaped;
    pipes_eof = all_eof s.eof;
    cleanup_complete = completed s;
    interruption = s.interruption;
    stdout_observed = s.stdout_count;
    stderr_observed = s.stderr_count;
    diagnostic_observed = s.diagnostic_count;
    protocol_high_water = s.protocol_high_water;
    read_high_water = s.read_high_water;
  }

  module _ (input : List ℕ) (deadline : ℕ) where
    -- The steps of the `try` up to the end of the loop, from the collector that owns the protocol.
    unfoldable pub communicate : ℕ → Action Collector Bool
    communicate fuel = set_up input >> turns os input deadline fuel

    unfoldable pub released : Option (List ℕ) × Collector → WorkerCollection × Collector
    released (accepted, s) = (conclude accepted (release s), release s)

    unfoldable pub collected : Result Bool × Collector → Option (WorkerCollection × Collector)
    collected (ok true, s) = some (released (latch deadline s))
    collected (ok false, s) = none
    collected (err e, s) = some (released (none, salvage e s))

    -- _collect_openai_worker; none means that the fuel ran out
    unfoldable pub collect_openai_worker : ℕ → Option (WorkerCollection × Collector)
    collect_openai_worker fuel = collected (
        communicate fuel
          (record initial_collector { is_open = put protocol true initial_collector.is_open }))
