-- ===== src/Worker/Serve.antt =====
-- The loop of `_collect_openai_worker` (src/model_council/executor.py): its set-up, one turn, and what
-- it does with each endpoint that is ready.
use model_council_lab.Action.{Action, ◌>>=◌, ◌>>◌, yield}
use model_council_lab.Prelude.{
  length, ℕ, Bool, List, String, false, if◌then◌else◌, ltb, none, take, true, max, some, str_eq,
  suc, ◌&&◌, ◌+◌, ◌-◌, ◌∷◌, [], drop, min, zero, ◌++◌, ◌==◌, ◌||◌,
}
use model_council_lab.Errors.{Exc, Check, Result, ok, other_exception, err}
use model_council_lab.Worker.{
  Endpoint, Os, Collector, abort, arbitrate, called, max_worker_protocol_bytes, protocol,
  max_worker_diagnostic_bytes, max_worker_stderr_bytes, max_worker_stdout_bytes, put, reached,
  stdout, ticked, worker_io_quantum_bytes, all_eof, close_endpoint, stdin, worker_status_poll,
  is_set,
}

-- (BlockingIOError, InterruptedError)
unfoldable pub would_block : Exc → Bool
would_block (other_exception name m) =
    str_eq name "BlockingIOError" || str_eq name "InterruptedError"
would_block _ = false

unfoldable pub is_broken_pipe : Exc → Bool
is_broken_pipe (other_exception name m) = str_eq name "BrokenPipeError"
is_broken_pipe _ = false

-- What may still be accepted from an endpoint.
unfoldable pub remaining : Endpoint → Collector → ℕ
remaining protocol s = max_worker_protocol_bytes - length s.protocol_bytes
remaining stdout s =
    min (max_worker_stdout_bytes - s.stdout_count)
      (max_worker_diagnostic_bytes - s.diagnostic_count)
remaining _ s =
    min (max_worker_stderr_bytes - s.stderr_count)
      (max_worker_diagnostic_bytes - s.diagnostic_count)

unfoldable pub read_size : Endpoint → Collector → ℕ
read_size name s =
    if is_set s.abort_reason
    then worker_io_quantum_bytes
    else min worker_io_quantum_bytes (remaining name s + 1)

-- The time that the selector is given.
unfoldable pub wait_until : ℕ → Collector → ℕ
wait_until deadline s = elim s.cleanup_deadline [
  | none ↦ deadline
  | some limit ↦ if is_set s.abort_reason then limit else min deadline limit
]

module _ (os : Os) where
  -- abort(reason, monotonic())
  unfoldable pub abort_now : String → Collector → Collector
  abort_now reason s = abort os reason (os.clock s.readings) (ticked s)

  unfoldable pub accept_protocol : List ℕ → Collector → Collector
  accept_protocol chunk s =
      if ltb max_worker_protocol_bytes (length s.protocol_bytes + length chunk)
      then abort_now "protocol_limit" s
      else record s {
        protocol_bytes = s.protocol_bytes ++ chunk;
        protocol_high_water = max s.protocol_high_water (length (s.protocol_bytes ++ chunk));
      }

  -- the limits of the diagnostics, from the reason and whether the endpoint's own limit is passed
  unfoldable pub limited : String → Bool → Collector → Collector
  limited reason over s =
      if over
      then abort_now reason s
      else if ltb max_worker_diagnostic_bytes s.diagnostic_count
      then abort_now "diagnostic_limit" s
      else s

  unfoldable pub accept_stdout : ℕ → Collector → Collector
  accept_stdout size s =
      limited "stdout_limit" (ltb max_worker_stdout_bytes (s.stdout_count + size)) (record s {
        stdout_count = s.stdout_count + size;
        diagnostic_count = s.diagnostic_count + size;
      })

  unfoldable pub accept_stderr : ℕ → Collector → Collector
  accept_stderr size s =
      limited "stderr_limit" (ltb max_worker_stderr_bytes (s.stderr_count + size)) (record s {
        stderr_count = s.stderr_count + size;
        diagnostic_count = s.diagnostic_count + size;
      })

  unfoldable pub accept_chunk : Endpoint → List ℕ → Collector → Collector
  accept_chunk protocol chunk s = accept_protocol chunk s
  accept_chunk stdout chunk s = accept_stdout (length chunk) s
  accept_chunk _ chunk s = accept_stderr (length chunk) s

  -- What leaves the `try` of a read.
  unfoldable pub read_failed : Exc → Action Collector Unit
  read_failed e s = if would_block e then (ok tt, s) else (err e, s)

  -- selector.unregister(fd); registered.remove(name)
  unfoldable pub ended : Endpoint → Check → Action Collector Unit
  ended name (ok t) s =
      if s.registered name
      then (ok tt, record s { registered = put name false s.registered })
      else (err (other_exception "KeyError" ""), s)
  ended name (err e) s = read_failed e s

  unfoldable pub take_chunk : Endpoint → List ℕ → Action Collector Unit
  take_chunk name [] s =
      ended name (os.unregister s.calls name) (record (called s) { eof = put name true s.eof })
  take_chunk name (byte ∷ bytes) s =
      (ok tt, if is_set s.abort_reason then s else accept_chunk name (byte ∷ bytes) s)

  unfoldable pub after_read : Endpoint → Result (List ℕ) → Action Collector Unit
  after_read name (ok chunk) s =
      take_chunk name chunk (record s { read_high_water = max s.read_high_water (length chunk) })
  after_read name (err e) s = read_failed e s

  module _ (input : List ℕ) where
    unfoldable pub after_write : Result ℕ → Action Collector Unit
    after_write (ok written) s = (
      ok tt,
      (if s.offset + written == length input
          then close_endpoint os stdin (record s { offset = s.offset + written })
          else record s { offset = s.offset + written }),
    )
    after_write (err e) s =
        if would_block e
        then (ok tt, s)
        else if is_broken_pipe e
        then (ok tt, close_endpoint os stdin s)
        else (err e, s)

    -- The `try` of the loop, for an endpoint that is ready.
    unfoldable pub serve : Endpoint → Action Collector Unit
    serve stdin s =
        after_write (os.write s.calls (take worker_io_quantum_bytes (drop s.offset input)))
          (called s)
    serve name s = after_read name (os.read s.calls name (read_size name s)) (called s)

    module _ (deadline : ℕ) where
      -- One round of the `for`, from what arbitrate returned.
      unfoldable pub serve_next :
          Endpoint → Action Collector Unit → ℕ × Collector → Check × Collector
      serve_next name rest (now, s) =
          if reached s.cleanup_deadline now
          then (ok tt, s)
          else if s.is_open name
          then (serve name >> rest) s
          else rest s

      unfoldable pub serve_all : List Endpoint → Action Collector Unit
      serve_all [] s = (ok tt, s)
      serve_all (name ∷ ready) s = serve_next name (serve_all ready) (arbitrate os deadline s)

      unfoldable pub polled : Result (List Endpoint) → Action Collector Bool
      polled (ok ready) s = (serve_all ready >>= λ t. yield false) s
      polled (err e) s = (err e, s)

      -- A turn of the `while`, from what arbitrate returned; true means that it broke.
      unfoldable pub turn_at : ℕ × Collector → Result Bool × Collector
      turn_at (now, s) =
          if (s.reaped && all_eof s.eof) || reached s.cleanup_deadline now
          then (ok true, s)
          else polled (os.select s.calls (min worker_status_poll (wait_until deadline s - now)))
              (called s)

      unfoldable pub turn : Action Collector Bool
      turn s = turn_at (arbitrate os deadline s)

      abbrev pub next_turn : Action Collector Bool → Bool → Action Collector Bool
      next_turn rest true = yield true
      next_turn rest false = rest

      -- The `while True`; false means that the fuel ran out.
      unfoldable pub turns : ℕ → Action Collector Bool
      turns zero = yield false
      turns (suc fuel) = turn >>= next_turn (turns fuel)
