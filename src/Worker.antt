-- ===== src/Worker.antt =====
-- src/model_council/executor.py, `_collect_openai_worker`: the state of the collector of a worker and
-- the steps that its nested functions take. The operating system answers by the number of the call.
pub mod Serve
pub mod Collect
pub mod Machine
pub mod Traced
pub mod Closing
pub mod Invariant
pub mod Attested
pub mod Released
pub mod Ends
pub mod Launch
pub mod Accepted
pub mod Returned
use model_council_lab.Prelude.{
  String, none, some, [], true, false, Bool, List, Option, if◌then◌else◌, ℕ, ℤ, str_eq, ◌+◌, not,
  ◌&&◌, leb,
}
use model_council_lab.Errors.{Exc, Result, ok, err, Check, interrupt, other_exception}

pub data Endpoint : Type 0 where
  stdin stdout stderr protocol : Endpoint

abbrev pub same_endpoint : Endpoint → Endpoint → Bool
same_endpoint stdin stdin = true
same_endpoint stdout stdout = true
same_endpoint stderr stderr = true
same_endpoint protocol protocol = true
same_endpoint _ _ = false

-- A set of endpoints, and one with an endpoint added or removed.
abbrev pub put : Endpoint → Bool → (Endpoint → Bool) → Endpoint → Bool
put name b members other = if same_endpoint name other then b else members other

abbrev pub max_worker_protocol_bytes : ℕ
max_worker_protocol_bytes = 8000000

abbrev pub max_worker_stdout_bytes : ℕ
max_worker_stdout_bytes = 65536

abbrev pub max_worker_stderr_bytes : ℕ
max_worker_stderr_bytes = 65536

abbrev pub max_worker_diagnostic_bytes : ℕ
max_worker_diagnostic_bytes = 98304

abbrev pub worker_io_quantum_bytes : ℕ
worker_io_quantum_bytes = 65536

-- Times are milliseconds.
abbrev pub worker_status_poll : ℕ
worker_status_poll = 50

abbrev pub worker_cleanup_timeout : ℕ
worker_cleanup_timeout = 5000

-- What the operating system and the modules of Python answer: the clock by the number of the reading,
-- the calls by their number. `wait` and `select` take their timeout, `write` the bytes that are
-- offered, `read` the endpoint and the size.
pub record Os : Type 0 where
  pub clock : ℕ → ℕ
  pub wait : ℕ → ℕ → Result ℤ
  pub kill : ℕ → Check
  pub fileno : ℕ → Endpoint → Check
  pub new_selector : ℕ → Check
  pub set_blocking : ℕ → Endpoint → Check
  pub register : ℕ → Endpoint → Check
  pub select : ℕ → ℕ → Result (List Endpoint)
  pub write : ℕ → List ℕ → Result ℕ
  pub read : ℕ → Endpoint → ℕ → Result (List ℕ)
  pub unregister : ℕ → Endpoint → Check
  pub close : ℕ → Endpoint → Check
  pub close_selector : ℕ → Check

-- The local variables of the collector. `is_open` is the set of the names in `endpoints`; `readings`
-- and `calls` number what is asked next, and `closes` counts the closes of an endpoint.
pub record Collector : Type 0 where
  pub readings : ℕ
  pub calls : ℕ
  pub closes : Endpoint → ℕ
  pub protocol_bytes : List ℕ
  pub stdout_count : ℕ
  pub stderr_count : ℕ
  pub diagnostic_count : ℕ
  pub protocol_high_water : ℕ
  pub read_high_water : ℕ
  pub offset : ℕ
  pub abort_reason : Option String
  pub interruption : Option String
  pub cleanup_deadline : Option ℕ
  pub cleanup_error : Bool
  pub reaped : Bool
  pub returncode : Option ℤ
  pub kill_attempted : Bool
  pub eof : Endpoint → Bool
  pub is_open : Endpoint → Bool
  pub registered : Endpoint → Bool
  pub has_selector : Bool

unfoldable pub initial_collector : Collector
initial_collector = record {
  readings = 0;
  calls = 0;
  closes = λ name. 0;
  protocol_bytes = [];
  stdout_count = 0;
  stderr_count = 0;
  diagnostic_count = 0;
  protocol_high_water = 0;
  read_high_water = 0;
  offset = 0;
  abort_reason = none;
  interruption = none;
  cleanup_deadline = none;
  cleanup_error = false;
  reaped = false;
  returncode = none;
  kill_attempted = false;
  eof = λ name. false;
  is_open = λ name. false;
  registered = λ name. false;
  has_selector = false;
}

abbrev pub is_set {ℓ} : {A : Type ℓ} → Option A → Bool
is_set none = false
is_set (some a) = true

-- The value that is set once and kept.
abbrev pub kept_or {ℓ} : {A : Type ℓ} → Option A → A → Option A
kept_or none a = some a
kept_or (some old) a = some old

-- What note_exception makes of the interruption.
unfoldable pub interruption_of : Exc → Option String → Option String
interruption_of (interrupt m) old =
    if str_eq m "KeyboardInterrupt"
    then some "keyboard_interrupt"
    else if str_eq m "SystemExit"
    then some "system_exit"
    else some "base_exception"
interruption_of _ old = old

abbrev pub note_exception : Exc → Collector → Collector
note_exception e s = record s { interruption = interruption_of e s.interruption }

-- isinstance(exc, subprocess.TimeoutExpired)
unfoldable pub is_timeout_expired : Exc → Bool
is_timeout_expired (other_exception name m) = str_eq name "TimeoutExpired"
is_timeout_expired _ = false

-- `eof == {"stdout", "stderr", "protocol"}`
abbrev pub all_eof : (Endpoint → Bool) → Bool
all_eof eof = eof stdout && eof stderr && eof protocol && not (eof stdin)

-- cleanup_deadline is not None and now >= cleanup_deadline
abbrev pub reached : Option ℕ → ℕ → Bool
reached none now = false
reached (some limit) now = leb limit now

abbrev pub called : Collector → Collector
called s = record s { calls = s.calls + 1 }

-- monotonic(), the reading
abbrev pub ticked : Collector → Collector
ticked s = record s { readings = s.readings + 1 }

-- `except BaseException` around a step of the cleanup
unfoldable pub cleaned : Check → Collector → Collector
cleaned (ok t) s = s
cleaned (err e) s = record (note_exception e s) { cleanup_error = true }

unfoldable pub start_cleanup : ℕ → Collector → Collector
start_cleanup now s = record s {
  cleanup_deadline = kept_or s.cleanup_deadline (now + worker_cleanup_timeout);
}

-- process.kill() with its `except BaseException`
unfoldable pub killed : Check → Collector → Collector
killed (ok t) s = s
killed (err e) s = note_exception e s

module _ (os : Os) where
  unfoldable pub unregistered : Endpoint → Collector → Collector
  unregistered name s =
      if s.registered name
      then cleaned (os.unregister s.calls name)
          (record (called s) { registered = put name false s.registered })
      else s

  unfoldable pub closed : Endpoint → Collector → Collector
  closed name s = cleaned (os.close s.calls name) (record (called s) {
    closes = λ other. if same_endpoint name other then s.closes other + 1 else s.closes other;
  })

  unfoldable pub close_endpoint : Endpoint → Collector → Collector
  close_endpoint name s =
      if s.is_open name
      then closed name (unregistered name (record s { is_open = put name false s.is_open }))
      else s

  unfoldable pub kill_once : Collector → Collector
  kill_once s =
      if not s.reaped && not s.kill_attempted
      then killed (os.kill s.calls) (record (called s) { kill_attempted = true })
      else s

  unfoldable pub abort : String → ℕ → Collector → Collector
  abort reason now s = close_endpoint stdin (
      kill_once (
        start_cleanup now
          (record s { abort_reason = kept_or s.abort_reason reason; protocol_bytes = [] })))

  -- observe_exit, from the answer of process.wait(timeout=0)
  unfoldable pub exit_observed : Result ℤ → ℕ → Collector → Collector
  exit_observed (ok code) now s =
      close_endpoint stdin (start_cleanup now (record s { returncode = some code; reaped = true }))
  exit_observed (err e) now s =
      if is_timeout_expired e then s else abort "process_error" now (note_exception e s)

  unfoldable pub observe_exit : ℕ → Collector → Collector
  observe_exit now s = if s.reaped then s else exit_observed (os.wait s.calls 0) now (called s)

  -- arbitrate: the time that it returns, and the state
  unfoldable pub past_deadline : ℕ → ℕ → Collector → Collector
  past_deadline deadline now s =
      if not (is_set s.abort_reason) && leb deadline now then abort "deadline" now s else s

  unfoldable pub past_error : ℕ → Collector → Collector
  past_error now s = if s.cleanup_error then abort "io_error" now s else s

  unfoldable pub arbitrate : ℕ → Collector → ℕ × Collector
  arbitrate deadline s =
      let now = os.clock s.readings in
      (now, past_error now (past_deadline deadline now (observe_exit now (ticked s))))
