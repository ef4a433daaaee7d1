-- ===== src/Worker/Launch.antt =====
-- src/model_council/executor.py `_run_openai_worker`: the launch of a worker, the hand-over of its
-- pipes to the collector, and what the caller learns of its end.
use model_council_lab.Prelude.{
  Bool, Option, String, List, false, if◌then◌else◌, some, true, ℤ, none, pos, str_eq, ℕ, ◌&&◌,
  ◌+++◌, decimal, ◌||◌, negsuc, ◌+◌,
}
use model_council_lab.Errors.{
  Exc, Result, infrastructure_error, interrupt, err, Check, ok, other_exception, protocol_error,
}
use model_council_lab.Worker.{Os, Collector}
use model_council_lab.Worker.Collect.{WorkerCollection, collect_openai_worker}

-- _WorkerReaping.status; `confirmed` is "reaped"
pub data Reaping : Type 0 where
  unstarted uncertain confirmed : Reaping

unfoldable pub may_attest : Reaping → Bool
may_attest uncertain = false
may_attest _ = true

-- What the wrapper has done: the status of the reaping, whether it closed the reader of the protocol,
-- and the cleanup of a launch that failed. The writer is closed on every path.
pub record Launch : Type 0 where
  pub reaping : Reaping
  pub read_closed : Bool
  pub process_killed : Bool
  pub process_waited : Bool
  pub streams_closed : Bool

-- (KeyboardInterrupt, SystemExit)
unfoldable pub is_launch_interrupt : Exc → Bool
is_launch_interrupt (interrupt m) = str_eq m "KeyboardInterrupt" || str_eq m "SystemExit"
is_launch_interrupt _ = false

abbrev pub worker_crash_summary : String
worker_crash_summary = "worker process crashed"

-- str of an exit status
abbrev pub exit_text : Option ℤ → String
exit_text none = "None"
exit_text (some (pos n)) = decimal n
exit_text (some (negsuc n)) = "-" +++ decimal (n + 1)

unfoldable pub openai_nonzero_worker_failure : Option ℤ → ℕ → Exc
openai_nonzero_worker_failure exit_status stderr_observed = infrastructure_error (
    worker_crash_summary
    +++ (" (exit "
        +++ (exit_text exit_status
            +++ ("; stderr_bytes_observed="
                +++ (decimal stderr_observed +++ "; suppressed=True)")))))

-- The signal that is raised again.
unfoldable pub signal_of : String → Exc
signal_of interruption =
    if str_eq interruption "keyboard_interrupt"
    then interrupt "KeyboardInterrupt"
    else if str_eq interruption "system_exit"
    then interrupt "SystemExit"
    else interrupt "worker communication interrupted"

abbrev pub or_none : Option String → String
or_none none = "none"
or_none (some reason) = reason

unfoldable pub uncertain_failure : Option String → Exc
uncertain_failure reason =
    infrastructure_error
      ("worker cleanup_uncertain (communication_reason=" +++ (or_none reason +++ ")"))

-- The exception of a failed communication.
unfoldable pub communication_failure : String → WorkerCollection → Exc
communication_failure failure r =
    if str_eq failure "deadline"
    then other_exception "TimeoutExpired" ""
    else if str_eq failure "protocol_limit"
    then protocol_error "worker communication failed: protocol_limit"
    else if str_eq failure "worker_exit"
    then openai_nonzero_worker_failure r.returncode r.stderr_observed
    else infrastructure_error ("worker communication failed: " +++ failure)

unfoldable pub reaping_after : WorkerCollection → Reaping → Reaping
reaping_after r old = if r.reaped && r.cleanup_complete then confirmed else old

-- What the wrapper answers: from the interruption, whether it may attest, and the failure.
unfoldable pub answer_from :
    Option String → Bool → Option String → WorkerCollection → Result WorkerCollection
answer_from (some interruption) attests failure r = err (signal_of interruption)
answer_from none false failure r = err (uncertain_failure r.abort_reason)
answer_from none true (some failure) r = err (communication_failure failure r)
answer_from none true none r = ok r

unfoldable pub answer_of : Reaping → WorkerCollection → Result WorkerCollection
answer_of reaping r = answer_from r.interruption (may_attest reaping) r.failure r

-- The end of a collection, whose pipes are no more the wrapper's.
unfoldable pub judged :
    Launch → Option (WorkerCollection × Collector) → Option (Result WorkerCollection × Launch)
judged launch none = none
judged launch (some (r, s)) =
    let reaping = reaping_after r launch.reaping in
    some (answer_of reaping r, record launch { reaping = reaping })

-- The `finally` of a launch that failed before the hand-over, with the process if it was started.
unfoldable pub abandoned : Bool → Launch → Launch
abandoned started launch = record launch {
  read_closed = true;
  process_killed = started;
  process_waited = started;
  streams_closed = started;
}

unfoldable pub launch_failure : Exc → Exc
launch_failure e =
    if is_launch_interrupt e
    then infrastructure_error "worker launch interrupted; exit unconfirmed"
    else e

module _ (os : Os) (input : List ℕ) (deadline fuel : ℕ) where
  -- From what os.close of the write descriptor answers.
  unfoldable pub handed_over : Check → Launch → Option (Result WorkerCollection × Launch)
  handed_over (ok t) launch = judged launch (collect_openai_worker os input deadline fuel)
  handed_over (err e) launch = some (err e, abandoned true launch)

  -- From what Popen and os.close answer.
  unfoldable pub launched : Check → Check → Launch → Option (Result WorkerCollection × Launch)
  launched (ok t) closing launch = handed_over closing launch
  launched (err e) closing launch = some (err (launch_failure e), abandoned false launch)

  -- _run_openai_worker; none means that the fuel ran out
  unfoldable pub run_openai_worker : Check → Check → Option (Result WorkerCollection × Launch)
  run_openai_worker popen closing = launched popen closing (record {
    reaping = uncertain;
    read_closed = false;
    process_killed = false;
    process_waited = false;
    streams_closed = false;
  })
