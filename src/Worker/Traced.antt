-- ===== src/Worker/Traced.antt =====
-- The steps of the collector (src/model_council/executor.py) in its loop, as moves of the abstract
-- machine.
use model_council_lab.Action.{Action, proceed}
use model_council_lab.Prelude.{
  length, ◌≡◌, List, ℕ, ◌+◌, Bool, false, ltb, ◌==◌, arith, suc, ◌&&◌, ◌∷◌, [], ◌||◌, true, zero,
}
use model_council_lab.Worker.{
  Collector, Os, Endpoint, is_set, reached, max_worker_protocol_bytes, max_worker_stderr_bytes,
  max_worker_stdout_bytes, all_eof, arbitrate, called, max_worker_diagnostic_bytes, stdin, stdout,
  stderr, protocol,
}
use model_council_lab.Errors.{Result, Exc, Check, ok, err}
use model_council_lab.Worker.Serve.{
  accept_protocol, accept_stderr, accept_stdout, after_read, ended, read_failed, take_chunk,
  limited, after_write, polled, serve, serve_all, serve_next, turn, turn_at, turns, would_block,
  next_turn, is_broken_pipe, accept_chunk,
}
use model_council_lab.Worker.Machine.{
  Moves, go, moves_after, quietly, stay, arbitrate-Moves, abort_now-Moves, abort_now_counting,
  close_endpoint-Moves, receive, hear,
}
use model_council_lab.Run.Terminal.{if_of}

pub proceed-Moves :
    {A B : Type 0} {s : Collector} (next : A → Action Collector B) (r : Result A) (t : Collector)
    → Moves s t
    → ((a : A) → Moves t (next a t).1)
    → Moves s (proceed r next t).1
proceed-Moves next (ok a) t m k = moves_after m (k a)
proceed-Moves next (err e) t m k = m

module _ (os : Os) where
  accept_protocol-Moves :
      (chunk : List ℕ) (s : Collector)
      → is_set s.abort_reason ≡ false
      → Moves s (accept_protocol os chunk s)
  unfolding accept_protocol
  accept_protocol-Moves chunk s h =
      if_of (Moves s) (ltb max_worker_protocol_bytes (length s.protocol_bytes + length chunk))
        (λ t. abort_now-Moves os "protocol_limit" s) (λ f. go (receive chunk h (ground arith)) stay)

  accept_stdout-Moves : (size : ℕ) (s : Collector) → Moves s (accept_stdout os size s)
  unfolding accept_stdout limited
  accept_stdout-Moves size s =
      let out = s.stdout_count + size in
      let total = s.diagnostic_count + size in
      if_of (Moves s) (ltb max_worker_stdout_bytes out)
        (λ t.
          abort_now_counting os "stdout_limit" out s.stderr_count total s (omega arith)
            (omega arith) (omega arith))
        (λ f.
          if_of (Moves s) (ltb max_worker_diagnostic_bytes total)
            (λ t.
              abort_now_counting os "diagnostic_limit" out s.stderr_count total s (omega arith)
                (omega arith) (omega arith))
            (λ g.
              go
                (hear out s.stderr_count total (λ x. ground arith) (λ x. x) (ground arith)
                  (omega arith) (omega arith) (omega arith))
                stay))

  accept_stderr-Moves : (size : ℕ) (s : Collector) → Moves s (accept_stderr os size s)
  unfolding accept_stderr limited
  accept_stderr-Moves size s =
      let errors = s.stderr_count + size in
      let total = s.diagnostic_count + size in
      if_of (Moves s) (ltb max_worker_stderr_bytes errors)
        (λ t.
          abort_now_counting os "stderr_limit" s.stdout_count errors total s (omega arith)
            (omega arith) (omega arith))
        (λ f.
          if_of (Moves s) (ltb max_worker_diagnostic_bytes total)
            (λ t.
              abort_now_counting os "diagnostic_limit" s.stdout_count errors total s (omega arith)
                (omega arith) (omega arith))
            (λ g.
              go
                (hear s.stdout_count errors total (λ x. x) (λ x. ground arith) (ground arith)
                  (omega arith) (omega arith) (omega arith))
                stay))

  accept_chunk-Moves :
      (name : Endpoint) (chunk : List ℕ) (s : Collector)
      → is_set s.abort_reason ≡ false
      → Moves s (accept_chunk os name chunk s)
  unfolding accept_chunk
  accept_chunk-Moves protocol chunk s h = accept_protocol-Moves chunk s h
  accept_chunk-Moves stdout chunk s h = accept_stdout-Moves (length chunk) s
  accept_chunk-Moves stderr chunk s h = accept_stderr-Moves (length chunk) s
  accept_chunk-Moves stdin chunk s h = accept_stderr-Moves (length chunk) s

  read_failed-Moves : (e : Exc) (s : Collector) → Moves s (read_failed os e s).1
  unfolding read_failed
  read_failed-Moves e s =
      if_of (λ (x : Check × Collector). Moves s x.1) (would_block e) (λ t. stay) (λ f. stay)

  ended-Moves : (name : Endpoint) (r : Check) (s : Collector) → Moves s (ended os name r s).1
  unfolding ended
  ended-Moves name (ok t) s =
      if_of (λ (x : Check × Collector). Moves s x.1) (s.registered name)
        (λ t. go (quietly (omega arith)) stay) (λ f. stay)
  ended-Moves name (err e) s = read_failed-Moves e s

  take_chunk-Moves :
      (name : Endpoint) (chunk : List ℕ) (s : Collector) → Moves s (take_chunk os name chunk s).1
  unfolding take_chunk
  take_chunk-Moves name [] s =
      go (quietly (omega arith)) (ended-Moves name (os.unregister s.calls name) _)
  take_chunk-Moves name (byte ∷ bytes) s =
      if_of (Moves s) (is_set s.abort_reason) (λ t. stay)
        (λ f. accept_chunk-Moves name (byte ∷ bytes) s f)

  after_read-Moves :
      (name : Endpoint) (r : Result (List ℕ)) (s : Collector) → Moves s (after_read os name r s).1
  unfolding after_read
  after_read-Moves name (ok chunk) s = go (quietly (omega arith)) (take_chunk-Moves name chunk _)
  after_read-Moves name (err e) s = read_failed-Moves e s

  module _ (input : List ℕ) where
    after_write-Moves : (r : Result ℕ) (s : Collector) → Moves s (after_write os input r s).1
    unfolding after_write
    after_write-Moves (ok written) s =
        if_of (Moves s) (s.offset + written == length input)
          (λ t. go (quietly (omega arith)) (close_endpoint-Moves os stdin _))
          (λ f. go (quietly (omega arith)) stay)
    after_write-Moves (err e) s =
        if_of (λ (x : Check × Collector). Moves s x.1) (would_block e) (λ t. stay)
          (λ f.
            if_of (λ (x : Check × Collector). Moves s x.1) (is_broken_pipe e)
              (λ t. close_endpoint-Moves os stdin s) (λ f. stay))

    serve-Moves : (name : Endpoint) (s : Collector) → Moves s (serve os input name s).1
    unfolding serve
    serve-Moves stdin s = go (quietly (omega arith)) (after_write-Moves _ (called s))
    serve-Moves stdout s = go (quietly (omega arith)) (after_read-Moves stdout _ (called s))
    serve-Moves stderr s = go (quietly (omega arith)) (after_read-Moves stderr _ (called s))
    serve-Moves protocol s = go (quietly (omega arith)) (after_read-Moves protocol _ (called s))

    module _ (deadline : ℕ) where
      serve_next-Moves :
          (name : Endpoint) (rest : Action Collector Unit) (x : ℕ × Collector)
          → ((t : Collector) → Moves t (rest t).1)
          → Moves x.1 (serve_next os input deadline name rest x).1
      unfolding serve_next
      serve_next-Moves name rest (now, s) k =
          if_of (λ (x : Check × Collector). Moves s x.1) (reached s.cleanup_deadline now)
            (λ t. stay)
            (λ f.
              if_of (λ (x : Check × Collector). Moves s x.1) (s.is_open name)
                (λ t.
                  proceed-Moves _ (serve os input name s).0 (serve os input name s).1
                    (serve-Moves name s) (λ a. k (serve os input name s).1))
                (λ f. k s))

      serve_all-Moves :
          (ready : List Endpoint) (s : Collector) → Moves s (serve_all os input deadline ready s).1
      unfolding serve_all
      serve_all-Moves [] s = stay
      serve_all-Moves (name ∷ ready) s = moves_after (arbitrate-Moves os deadline s) (
          serve_next-Moves name (serve_all os input deadline ready) (arbitrate os deadline s)
            (λ t. serve_all-Moves ready t))

      polled-Moves :
          (r : Result (List Endpoint)) (s : Collector) → Moves s (polled os input deadline r s).1
      unfolding polled
      polled-Moves (ok ready) s =
          proceed-Moves _ (serve_all os input deadline ready s).0
            (serve_all os input deadline ready s).1 (serve_all-Moves ready s) (λ t. stay)
      polled-Moves (err e) s = stay

      pub turn_at-Moves : (x : ℕ × Collector) → Moves x.1 (turn_at os input deadline x).1
      unfolding turn_at
      turn_at-Moves (now, s) =
          if_of (λ (x : Result Bool × Collector). Moves s x.1)
            ((s.reaped && all_eof s.eof) || reached s.cleanup_deadline now) (λ t. stay)
            (λ f. go (quietly (omega arith)) (polled-Moves _ (called s)))

      pub turn-Moves : (s : Collector) → Moves s (turn os input deadline s).1
      unfolding turn
      turn-Moves s =
          moves_after (arbitrate-Moves os deadline s) (turn_at-Moves (arbitrate os deadline s))

      next_turn-Moves :
          (rest : Action Collector Bool) (over : Bool) (s : Collector)
          → ((t : Collector) → Moves t (rest t).1)
          → Moves s (next_turn os input deadline rest over s).1
      next_turn-Moves rest true s k = stay
      next_turn-Moves rest false s k = k s

      pub turns-Moves : (fuel : ℕ) (s : Collector) → Moves s (turns os input deadline fuel s).1
      unfolding turns
      turns-Moves zero s = stay
      turns-Moves (suc fuel) s =
          proceed-Moves _ (turn os input deadline s).0 (turn os input deadline s).1 (turn-Moves s)
            (λ over.
              next_turn-Moves (turns os input deadline fuel) over (turn os input deadline s).1
                (λ t. turns-Moves fuel t))
