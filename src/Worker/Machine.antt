-- ===== src/Worker/Machine.antt =====
-- The collector of a worker (src/model_council/executor.py, `_collect_openai_worker`) as an abstract
-- machine on its local variables: what may change them, and when.
use model_council_lab.Prelude.{
  length, ◌≤◌, ◌≡◌, String, ℕ, Option, ◌+◌, ◌||◌, [], arith, true, Bool, false, ℤ, some,
  if◌then◌else◌, List, ◌++◌, max, not, ◌&&◌, leb,
}
use model_council_lab.Worker.{
  max_worker_protocol_bytes, max_worker_stdout_bytes, max_worker_stderr_bytes,
  max_worker_diagnostic_bytes, kept_or, Collector, cleaned, called, interruption_of, start_cleanup,
  Endpoint, is_set, put, same_endpoint, Os, closed, note_exception, unregistered, abort,
  close_endpoint, killed, kill_once, stdin, arbitrate, exit_observed, observe_exit, past_deadline,
  ticked, is_timeout_expired, past_error,
}
use model_council_lab.Errors.{Check, ok, err, Exc, Result}
use model_council_lab.Run.Terminal.{if_of}
use model_council_lab.Worker.Serve.{abort_now}

abbrev pub IsArmed : Collector → Type 0
IsArmed s = (s.reaped || s.kill_attempted) ≡ true

-- The start of an abort: the first reason is kept, the protocol is dropped and the cleanup starts.
abbrev pub aborting : String → ℕ → Collector → Collector
aborting reason now s =
    start_cleanup now
      (record s { abort_reason = kept_or s.abort_reason reason; protocol_bytes = [] })

abbrev pub with_counts : ℕ → ℕ → ℕ → Collector → Collector
with_counts out errors total s = record s {
  stdout_count = out;
  stderr_count = errors;
  diagnostic_count = total;
}

pub data Move : Collector → Collector → Type 0 where
  quietly :
      {s : Collector} {readings calls offset high : ℕ} {interruption : Option String}
      {eof registered : Endpoint → Bool} {selector : Bool}
      → s.readings ≤ readings
      → Move s (record s {
        readings = readings;
        calls = calls;
        offset = offset;
        read_high_water = high;
        interruption = interruption;
        eof = eof;
        registered = registered;
        has_selector = selector;
      })
  fault : {s : Collector} → Move s (record s { cleanup_error = true })
  arm : {s : Collector} → s.reaped ≡ false → Move s (record s { kill_attempted = true })
  begin :
      {s : Collector} (reason : String) (now out errors total : ℕ)
      → IsArmed s
      → s.stdout_count ≤ out
      → s.stderr_count ≤ errors
      → total + (s.stdout_count + s.stderr_count) ≡ s.diagnostic_count + (out + errors)
      → Move s (aborting reason now (with_counts out errors total s))
  reap :
      {s : Collector} (code : ℤ) (now : ℕ)
      → s.reaped ≡ false
      → Move s (start_cleanup now (record s { returncode = some code; reaped = true }))
  confirm_reap :
      {s : Collector} (code : ℤ)
      → s.reaped ≡ false
      → Move s (record s { returncode = some code; reaped = true })
  take_end :
      {s : Collector} (name : Endpoint)
      → s.closes name ≡ 0
      → Move s (record s { is_open = put name true s.is_open })
  drop_end :
      {s : Collector} (name : Endpoint)
      → s.is_open name ≡ true
      → Move s (record s {
        is_open = put name false s.is_open;
        closes = λ other. if same_endpoint name other then s.closes other + 1 else s.closes other;
      })
  receive :
      {s : Collector} (chunk : List ℕ)
      → is_set s.abort_reason ≡ false
      → length s.protocol_bytes + length chunk ≤ max_worker_protocol_bytes
      → Move s (record s {
        protocol_bytes = s.protocol_bytes ++ chunk;
        protocol_high_water = max s.protocol_high_water (length (s.protocol_bytes ++ chunk));
      })
  hear :
      {s : Collector} (out errors total : ℕ)
      → (s.stdout_count ≤ max_worker_stdout_bytes → out ≤ max_worker_stdout_bytes)
      → (s.stderr_count ≤ max_worker_stderr_bytes → errors ≤ max_worker_stderr_bytes)
      → total ≤ max_worker_diagnostic_bytes
      → s.stdout_count ≤ out
      → s.stderr_count ≤ errors
      → total + (s.stdout_count + s.stderr_count) ≡ s.diagnostic_count + (out + errors)
      → Move s (with_counts out errors total s)
  clear : {s : Collector} → Move s (record s { protocol_bytes = [] })

pub data Moves : Collector → Collector → Type 0 where
  stay : {s : Collector} → Moves s s
  go : {s t u : Collector} → Move s t → Moves t u → Moves s u

pub moves_after : {s t u : Collector} → Moves s t → Moves t u → Moves s u
moves_after stay n = n
moves_after (go m ms) n = go m (moves_after ms n)

cleaned-Moves : (r : Check) (s : Collector) → Moves s (cleaned r s)
unfolding cleaned interruption_of
cleaned-Moves (ok t) s = stay
cleaned-Moves (err e) s = go (quietly (omega arith)) (go fault stay)

called-Moves : (s : Collector) → Moves s (called s)
called-Moves s = go (quietly (omega arith)) stay

pub clean_call-Moves : (r : Check) (s : Collector) → Moves s (cleaned r (called s))
clean_call-Moves r s = moves_after (called-Moves s) (cleaned-Moves r (called s))

pub note_exception-Moves : (e : Exc) (s : Collector) → Moves s (note_exception e s)
note_exception-Moves e s = go (quietly (omega arith)) stay

module _ (os : Os) where
  -- The close of an endpoint that is owned.
  dropped_lem :
      (name : Endpoint) (s : Collector)
      → s.is_open name ≡ true
      → Moves s (closed os name (record s { is_open = put name false s.is_open }))
  unfolding closed
  dropped_lem name s h = go (drop_end name h) (clean_call-Moves (os.close s.calls name) _)

  unregistered_lem :
      (name : Endpoint) (r : Check) (s : Collector)
      → s.is_open name ≡ true
      → Moves s (
          closed os name (
            cleaned r (record (called s) {
              is_open = put name false s.is_open;
              registered = put name false s.registered;
            })))
  unfolding cleaned interruption_of
  unregistered_lem name (ok t) s h =
      go (quietly (omega arith))
        (dropped_lem name (record (called s) { registered = put name false s.registered }) h)
  unregistered_lem name (err e) s h = go (quietly (omega arith)) (
      go fault (
        dropped_lem name
          (record (note_exception e (called s)) {
            registered = put name false s.registered;
            cleanup_error = true;
          })
          h))

  pub close_endpoint-Moves : (name : Endpoint) (s : Collector) → Moves s (close_endpoint os name s)
  unfolding close_endpoint unregistered
  close_endpoint-Moves name s =
      if_of (Moves s) (s.is_open name)
        (λ h.
          if_of (λ x. Moves s (closed os name x)) (s.registered name)
            (λ t. unregistered_lem name (os.unregister s.calls name) s h)
            (λ f. dropped_lem name s h))
        (λ f. stay)

  kill_lem :
      (r : Check) (reason : String) (now out errors total : ℕ) (s : Collector)
      → s.reaped ≡ false
      → s.stdout_count ≤ out
      → s.stderr_count ≤ errors
      → total + (s.stdout_count + s.stderr_count) ≡ s.diagnostic_count + (out + errors)
      → Moves s (
          killed r (record (called (aborting reason now (with_counts out errors total s))) {
            kill_attempted = true;
          }))
  unfolding killed interruption_of start_cleanup
  kill_lem (ok t) reason now out errors total s h i j k =
      go (quietly (omega arith))
        (go (arm h) (go (begin reason now out errors total (grind arith) i j k) stay))
  kill_lem (err e) reason now out errors total s h i j k =
      go (quietly (omega arith))
        (go (arm h) (go (begin reason now out errors total (grind arith) i j k) stay))

  -- An abort, with what was read before it.
  abort_counting :
      (reason : String) (now out errors total : ℕ) (s : Collector)
      → s.stdout_count ≤ out
      → s.stderr_count ≤ errors
      → total + (s.stdout_count + s.stderr_count) ≡ s.diagnostic_count + (out + errors)
      → Moves s (abort os reason now (with_counts out errors total s))
  unfolding abort kill_once start_cleanup
  abort_counting reason now out errors total s i j k =
      moves_after
        (if_of (Moves s) (not s.reaped && not s.kill_attempted)
          (λ t. kill_lem (os.kill s.calls) reason now out errors total s (grind arith) i j k)
          (λ f. go (begin reason now out errors total (grind arith) i j k) stay))
        (close_endpoint-Moves stdin _)

  pub abort-Moves : (reason : String) (now : ℕ) (s : Collector) → Moves s (abort os reason now s)
  abort-Moves reason now s =
      abort_counting reason now s.stdout_count s.stderr_count s.diagnostic_count s (omega arith)
        (omega arith) (omega arith)

  pub abort_now_counting :
      (reason : String) (out errors total : ℕ) (s : Collector)
      → s.stdout_count ≤ out
      → s.stderr_count ≤ errors
      → total + (s.stdout_count + s.stderr_count) ≡ s.diagnostic_count + (out + errors)
      → Moves s (abort_now os reason (with_counts out errors total s))
  unfolding abort_now
  abort_now_counting reason out errors total s i j k =
      go (quietly (omega arith))
        (abort_counting reason (os.clock s.readings) out errors total (ticked s) i j k)

  pub abort_now-Moves : (reason : String) (s : Collector) → Moves s (abort_now os reason s)
  abort_now-Moves reason s =
      abort_now_counting reason s.stdout_count s.stderr_count s.diagnostic_count s (omega arith)
        (omega arith) (omega arith)

  exit_observed-Moves :
      (r : Result ℤ) (now : ℕ) (s : Collector)
      → s.reaped ≡ false
      → Moves s (exit_observed os r now s)
  unfolding exit_observed
  exit_observed-Moves (ok code) now s h = go (reap code now h) (close_endpoint-Moves stdin _)
  exit_observed-Moves (err e) now s h =
      if_of (Moves s) (is_timeout_expired e) (λ t. stay)
        (λ f. moves_after (note_exception-Moves e s) (abort-Moves "process_error" now _))

  observe_exit-Moves : (now : ℕ) (s : Collector) → Moves s (observe_exit os now s)
  unfolding observe_exit
  observe_exit-Moves now s =
      if_of (Moves s) s.reaped (λ t. stay)
        (λ f.
          moves_after (called-Moves s) (exit_observed-Moves (os.wait s.calls 0) now (called s) f))

  -- From the reading that arbitrate starts with.
  pub arbitrate_ticked :
      (deadline : ℕ) (s : Collector) → Moves (ticked s) (arbitrate os deadline s).1
  unfolding arbitrate past_deadline past_error
  arbitrate_ticked deadline s =
      let now = os.clock s.readings in
      let seen = observe_exit os now (ticked s) in
      let later = past_deadline os deadline now seen in
      moves_after (observe_exit-Moves now (ticked s)) (
        moves_after
          (if_of (Moves seen) (not (is_set seen.abort_reason) && leb deadline now)
            (λ t. abort-Moves "deadline" now seen) (λ f. stay))
          (if_of (Moves later) later.cleanup_error (λ t. abort-Moves "io_error" now later)
            (λ f. stay)))

  pub arbitrate-Moves : (deadline : ℕ) (s : Collector) → Moves s (arbitrate os deadline s).1
  arbitrate-Moves deadline s = go (quietly (omega arith)) (arbitrate_ticked deadline s)
