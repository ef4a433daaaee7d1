-- ===== src/Examples/Workers.antt =====
-- The collector of src/model_council/executor.py on a worker that answers one byte and ends.
use model_council_lab.Worker.{
  initial_collector, cleaned, close_endpoint, closed, is_timeout_expired, kill_once, killed,
  start_cleanup, unregistered, abort, arbitrate, past_error, past_deadline, observe_exit,
  exit_observed, interruption_of, Os, Collector, stdin, protocol, stdout, stderr, Endpoint, is_set,
  max_worker_protocol_bytes,
}
use model_council_lab.Worker.Serve.{
  turns, turn, turn_at, accept_chunk, accept_protocol, after_read, after_write, ended, limited,
  polled, read_size, remaining, serve, serve_all, serve_next, take_chunk, wait_until, abort_now,
  read_failed, accept_stdout, accept_stderr, would_block, is_broken_pipe,
}
use model_council_lab.Worker.Collect.{
  collect_openai_worker, collected, communicate, set_up, take_endpoint, take_selector,
  register_endpoint, select_endpoint, skip_empty_input, completed, conclude, failure_of, latch,
  latched, may_accept, release, released, selector_closed, salvage, confirm, waited,
  WorkerCollection,
}
use model_council_lab.Prelude.{
  ◌≡◌, List, Option, if◌then◌else◌, some, ℕ, ltb, none, refl, ◌∷◌, [], pos, ◌==◌, ◌≤◌, false,
  length, true, ◌+◌, arith, ◌&&◌,
}
use model_council_lab.Errors.{err, other_exception, ok}
use model_council_lab.Worker.Attested.{IsAttested, collect_openai_worker-IsAttested}
use model_council_lab.Worker.Ends.{collect_openai_worker-ends}
use model_council_lab.Worker.Released.{collect_openai_worker-released}
use model_council_lab.Worker.Launch.{
  Launch, confirmed, judged, run_openai_worker, answer_of, launched, answer_from, handed_over,
  reaping_after, may_attest, uncertain,
}
use model_council_lab.Worker.Returned.{run_openai_worker-returned}

-- A worker that takes its input, writes one byte of protocol and ends with status 0.
abbrev pub answering_os : Os
answering_os = record {
  clock = λ n. n;
  wait = λ n timeout. if ltb n 20 then err (other_exception "TimeoutExpired" "") else ok (pos 0);
  kill = λ n. ok tt;
  fileno = λ n name. ok tt;
  new_selector = λ n. ok tt;
  set_blocking = λ n name. ok tt;
  register = λ n name. ok tt;
  select =
      λ n timeout. ok (if n == 13 then stdin ∷ protocol ∷ [] else stdout ∷ stderr ∷ protocol ∷ []);
  write = λ n bytes. ok 2;
  read = λ n name size. ok (if n == 19 then 7 ∷ [] else []);
  unregister = λ n name. ok tt;
  close = λ n name. ok tt;
  close_selector = λ n. ok tt;
}

abbrev pub two_bytes : List ℕ
two_bytes = 1 ∷ 2 ∷ []

abbrev pub one_byte : List ℕ
one_byte = 7 ∷ []

abbrev pub no_result : WorkerCollection × Collector
no_result = (conclude answering_os none initial_collector, initial_collector)

abbrev pub or_else : Option (WorkerCollection × Collector) → WorkerCollection × Collector
or_else none = no_result
or_else (some x) = x

abbrev pub answered_run : WorkerCollection × Collector
answered_run = or_else (collect_openai_worker answering_os two_bytes 1000 4)

pub answered_run_accepted : answered_run.0.accepted ≡ some one_byte
unfolding collect_openai_worker collected communicate set_up take_endpoint take_selector
    register_endpoint select_endpoint skip_empty_input turns turn turn_at arbitrate past_error
    past_deadline observe_exit initial_collector exit_observed completed conclude failure_of latch
    latched may_accept release released selector_closed accept_chunk accept_protocol after_read
    after_write ended limited polled read_size remaining serve serve_all serve_next take_chunk
    wait_until abort cleaned close_endpoint closed is_timeout_expired kill_once killed start_cleanup
    unregistered salvage confirm abort_now read_failed accept_stdout accept_stderr would_block
    is_broken_pipe interruption_of waited
answered_run_accepted = refl

collected_lem :
    (o : Option (WorkerCollection × Collector))
    → is_set o ≡ true
    → o ≡ some ((or_else o).0, (or_else o).1)
collected_lem none h = grind arith
collected_lem (some (r, s)) h = refl

answered_run_ended : is_set (collect_openai_worker answering_os two_bytes 1000 4) ≡ true
unfolding collect_openai_worker collected communicate set_up take_endpoint take_selector
    register_endpoint select_endpoint skip_empty_input turns turn turn_at arbitrate past_error
    past_deadline observe_exit initial_collector exit_observed completed conclude failure_of latch
    latched may_accept release released selector_closed accept_chunk accept_protocol after_read
    after_write ended limited polled read_size remaining serve serve_all serve_next take_chunk
    wait_until abort cleaned close_endpoint closed is_timeout_expired kill_once killed start_cleanup
    unregistered salvage confirm abort_now read_failed accept_stdout accept_stderr would_block
    is_broken_pipe interruption_of waited
answered_run_ended = refl

answered_run_collected :
    collect_openai_worker answering_os two_bytes 1000 4 ≡ some (answered_run.0, answered_run.1)
answered_run_collected = collected_lem _ answered_run_ended

collect_openai_worker-IsAttested_example :
    IsAttested answered_run.0 × (length one_byte ≤ max_worker_protocol_bytes)
collect_openai_worker-IsAttested_example =
    collect_openai_worker-IsAttested answering_os two_bytes 1000 4 answered_run.0 answered_run.1
      one_byte answered_run_collected answered_run_accepted

collect_openai_worker-released_example :
    ((name : Endpoint) → (answered_run.1.is_open name ≡ false) × (answered_run.1.closes name ≤ 1))
    × (answered_run.1.closes protocol ≡ 1)
collect_openai_worker-released_example =
    collect_openai_worker-released answering_os two_bytes 1000 4 answered_run.0 answered_run.1
      answered_run_collected

collect_openai_worker-ends_example :
    (fuel : ℕ) × ((more : ℕ)
      → is_set (collect_openai_worker answering_os two_bytes 1000 (fuel + more)) ≡ true)
collect_openai_worker-ends_example =
    collect_openai_worker-ends answering_os two_bytes 1000 (λ time. time) (λ time n h. h)

-- The same worker with a deadline that passes while it is set up.
abbrev late_run : WorkerCollection × Collector
late_run = or_else (collect_openai_worker answering_os two_bytes 0 9)

late_run_ended : is_set (collect_openai_worker answering_os two_bytes 0 9) ≡ true
unfolding collect_openai_worker collected communicate set_up take_endpoint take_selector
    register_endpoint select_endpoint skip_empty_input turns turn turn_at arbitrate past_error
    past_deadline observe_exit initial_collector exit_observed completed conclude failure_of latch
    latched may_accept release released selector_closed accept_chunk accept_protocol after_read
    after_write ended limited polled read_size remaining serve serve_all serve_next take_chunk
    wait_until abort cleaned close_endpoint closed is_timeout_expired kill_once killed start_cleanup
    unregistered salvage confirm abort_now read_failed accept_stdout accept_stderr would_block
    is_broken_pipe interruption_of waited
late_run_ended = refl

late_run_aborted : is_set late_run.0.abort_reason ≡ true
unfolding collect_openai_worker collected communicate set_up take_endpoint take_selector
    register_endpoint select_endpoint skip_empty_input turns turn turn_at arbitrate past_error
    past_deadline observe_exit initial_collector exit_observed completed conclude failure_of latch
    latched may_accept release released selector_closed accept_chunk accept_protocol after_read
    after_write ended limited polled read_size remaining serve serve_all serve_next take_chunk
    wait_until abort cleaned close_endpoint closed is_timeout_expired kill_once killed start_cleanup
    unregistered salvage confirm abort_now read_failed accept_stdout accept_stderr would_block
    is_broken_pipe interruption_of waited
late_run_aborted = refl

answered_run_clean :
    (answered_run.0.interruption ≡ none)
    × ((answered_run.0.failure ≡ none)
        × ((answered_run.0.reaped && answered_run.0.cleanup_complete) ≡ true))
unfolding collect_openai_worker collected communicate set_up take_endpoint take_selector
    register_endpoint select_endpoint skip_empty_input turns turn turn_at arbitrate past_error
    past_deadline observe_exit initial_collector exit_observed completed conclude failure_of latch
    latched may_accept release released selector_closed accept_chunk accept_protocol after_read
    after_write ended limited polled read_size remaining serve serve_all serve_next take_chunk
    wait_until abort cleaned close_endpoint closed is_timeout_expired kill_once killed start_cleanup
    unregistered salvage confirm abort_now read_failed accept_stdout accept_stderr would_block
    is_broken_pipe interruption_of waited
answered_run_clean = (refl, (refl, refl))

abbrev pub confirmed_launch : Launch
confirmed_launch = record {
  reaping = confirmed;
  read_closed = false;
  process_killed = false;
  process_waited = false;
  streams_closed = false;
}

returned_run_lem :
    (o : Option (WorkerCollection × Collector)) (r : WorkerCollection) (s : Collector)
    → o ≡ some (r, s)
    → r.interruption ≡ none
    → r.failure ≡ none
    → (r.reaped && r.cleanup_complete) ≡ true
    → judged (record confirmed_launch { reaping = uncertain }) o ≡ some (ok r, confirmed_launch)
unfolding judged answer_of answer_from reaping_after may_attest
returned_run_lem o r s h i f c = rw (h, c, i, f) refl

pub returned_run :
    run_openai_worker answering_os two_bytes 1000 4 (ok tt) (ok tt)
    ≡ some (ok answered_run.0, confirmed_launch)
unfolding run_openai_worker launched handed_over
returned_run =
    returned_run_lem _ answered_run.0 answered_run.1 answered_run_collected answered_run_clean.0
      answered_run_clean.1.0 answered_run_clean.1.1

run_openai_worker-returned_example :
    (p : List ℕ) × ((answered_run.0.accepted ≡ some p)
      × ((length p ≤ max_worker_protocol_bytes)
          × (IsAttested answered_run.0 × (confirmed_launch.reaping ≡ confirmed))))
run_openai_worker-returned_example =
    run_openai_worker-returned answering_os two_bytes 1000 4 (ok tt) (ok tt) answered_run.0
      confirmed_launch returned_run
