-- ===== src/Worker/Ends.antt =====
-- When the collector of a worker (src/model_council/executor.py) ends.
use model_council_lab.Action.{proceed}
use model_council_lab.Prelude.{
  ◌≤◌, ◌≡◌, Bool, List, ℕ, String, some, true, Option-cases, false, suc, ◌+◌, arith, inl, not, ◌&&◌,
  inr, leb, zero, refl, ◌||◌,
}
use model_council_lab.Errors.{Result, ok, Check, err}
use model_council_lab.Worker.{
  Os, abort, arbitrate, kill_once, past_deadline, Collector, past_error, start_cleanup, is_set,
  observe_exit, killed, ticked, all_eof, stdin, reached, initial_collector,
}
use model_council_lab.Worker.Invariant.{
  IsCancelled, moves_aborted, moves_limit, moves-IsCancelled, kept_lem, moves_readings,
}
use model_council_lab.Worker.Serve.{turn, turn_at, turns, next_turn}
use model_council_lab.Run.Terminal.{if_of}
use model_council_lab.Worker.Machine.{
  Moves, arbitrate-Moves, close_endpoint-Moves, moves_after, arbitrate_ticked,
}
use model_council_lab.Worker.Traced.{turn-Moves, turn_at-Moves}
use model_council_lab.Worker.Collect.{collect_openai_worker, collected, communicate, set_up}
use model_council_lab.Worker.Attested.{start, start-IsCancelled}
use model_council_lab.Worker.Closing.{set_up-Moves}

-- The loop stopped for want of fuel.
abbrev pub is_running : Result Bool → Bool
is_running (ok false) = true
is_running _ = false

killed_aborted :
    (r : Check) (s : Collector)
    → is_set s.abort_reason ≡ true
    → is_set (killed r s).abort_reason ≡ true
unfolding killed
killed_aborted (ok t) s h = h
killed_aborted (err e) s h = h

module _ (os : Os) where
  -- An abort sets its reason, and so the deadline of the cleanup.
  kill_once_aborted :
      (s : Collector) → is_set s.abort_reason ≡ true → is_set (kill_once os s).abort_reason ≡ true
  unfolding kill_once
  kill_once_aborted s h =
      if_of (λ (x : Collector). is_set x.abort_reason ≡ true) (not s.reaped && not s.kill_attempted)
        (λ t. killed_aborted (os.kill s.calls) _ h) (λ f. h)

  pub abort_aborted :
      (reason : String) (now : ℕ) (s : Collector)
      → is_set (abort os reason now s).abort_reason ≡ true
  unfolding abort start_cleanup
  abort_aborted reason now s =
      moves_aborted (close_endpoint-Moves os stdin _)
        (kill_once_aborted _ (kept_lem s.abort_reason reason))

  past_deadline_aborted :
      (deadline now : ℕ) (s : Collector)
      → deadline ≤ now
      → is_set (past_deadline os deadline now s).abort_reason ≡ true
  unfolding past_deadline
  past_deadline_aborted deadline now s h =
      if_of (λ (x : Collector). is_set x.abort_reason ≡ true)
        (not (is_set s.abort_reason) && leb deadline now) (λ t. abort_aborted "deadline" now s)
        (λ f. ground (arith, h))

  -- At a reading past the deadline the communication is aborted.
  arbitrate_aborted :
      (deadline : ℕ) (s : Collector)
      → deadline ≤ os.clock s.readings
      → is_set (arbitrate os deadline s).1.abort_reason ≡ true
  unfolding arbitrate past_error
  arbitrate_aborted deadline s h =
      let now = os.clock s.readings in
      let later = past_deadline os deadline now (observe_exit os now (ticked s)) in
      let a = past_deadline_aborted deadline now (observe_exit os now (ticked s)) h in
      if_of (λ (x : Collector). is_set x.abort_reason ≡ true) later.cleanup_error
        (λ t. abort_aborted "io_error" now later) (λ f. a)

  module _ (input : List ℕ) (deadline : ℕ) where
    -- The loop is over with some fuel, and with any more.
    abbrev pub EndsBy : Collector → Type 0
    EndsBy s =
        (fuel : ℕ) × ((more : ℕ)
          → fuel ≤ more
          → is_running (turns os input deadline more s).0 ≡ false)

    next_turn_lem :
        (r : Result Bool) (t : Collector) (more : ℕ)
        → is_running (turns os input deadline more t).0 ≡ false
        → is_running (proceed r (next_turn os input deadline (turns os input deadline more)) t).0
          ≡ false
    next_turn_lem (ok true) t more h = refl
    next_turn_lem (ok false) t more h = h
    next_turn_lem (err e) t more h = refl

    -- A turn more.
    turn_before : (s : Collector) → EndsBy (turn os input deadline s).1 → EndsBy s
    unfolding turns
    turn_before s (fuel, k) = (suc fuel, λ more h. one_more more h)
      where
        one_more :
            (more : ℕ) → suc fuel ≤ more → is_running (turns os input deadline more s).0 ≡ false
        one_more zero h = absurd (omega arith)
        one_more (suc more) h =
            next_turn_lem (turn os input deadline s).0 (turn os input deadline s).1 more
              (k more (omega arith))

    turn_at_over :
        (now limit : ℕ) (s : Collector)
        → s.cleanup_deadline ≡ some limit
        → limit ≤ now
        → (turn_at os input deadline (now, s)).0 ≡ ok true
    unfolding turn_at
    turn_at_over now limit s h i =
        if_of (λ (x : Result Bool × Collector). x.0 ≡ ok true)
          ((s.reaped && all_eof s.eof) || reached s.cleanup_deadline now) (λ t. refl)
          (λ f. absurd (ground (arith, h, i, f)))

    -- A turn after the cleanup's deadline ends the loop.
    turn_over :
        (limit : ℕ) (s : Collector)
        → s.cleanup_deadline ≡ some limit
        → limit ≤ os.clock s.readings
        → (turn os input deadline s).0 ≡ ok true
    unfolding turn arbitrate
    turn_over limit s h i =
        turn_at_over (os.clock s.readings) limit (arbitrate os deadline s).1
          (moves_limit limit (arbitrate-Moves os deadline s) h) i

    ends_now : (s : Collector) → (turn os input deadline s).0 ≡ ok true → EndsBy s
    unfolding turns
    ends_now s h = (1, λ more g. at_once more g)
      where
        at_once : (more : ℕ) → 1 ≤ more → is_running (turns os input deadline more s).0 ≡ false
        at_once zero g = absurd (omega arith)
        at_once (suc more) g = rw h refl

    turn_later : (s : Collector) → Moves (ticked s) (turn os input deadline s).1
    unfolding turn
    turn_later s =
        moves_after (arbitrate_ticked os deadline s)
          (turn_at-Moves os input deadline (arbitrate os deadline s))

    module _ (reach : ℕ → ℕ) (passes : (time n : ℕ) → reach time ≤ n → time ≤ os.clock n) where
      cleanup_ends :
          (rounds limit : ℕ) (s : Collector)
          → s.cleanup_deadline ≡ some limit
          → reach limit ≤ s.readings + rounds
          → EndsBy s
      cleanup_ends zero limit s h i =
          ends_now s (turn_over limit s h (passes limit s.readings (omega arith)))
      cleanup_ends (suc rounds) limit s h i = turn_before s (
          cleanup_ends rounds limit (turn os input deadline s).1
            (moves_limit limit (turn-Moves os input deadline s) h)
            (omega (arith, moves_readings (s.readings + 1) (turn_later s) (omega arith))))

      -- From a collection whose cleanup has started.
      limit_cases : (s : Collector) → is_set s.cleanup_deadline ≡ true → EndsBy s
      limit_cases s h = elim (Option-cases s.cleanup_deadline) [
        | inl e ↦ absurd (ground (arith, h, e))
        | inr (limit, e) ↦ cleanup_ends (reach limit) limit s e (omega arith)
      ]

      -- After a turn past the deadline of the communication.
      past_ends :
          (s : Collector)
          → IsCancelled s
          → deadline ≤ os.clock s.readings
          → EndsBy (turn os input deadline s).1
      unfolding turn
      past_ends s w h =
          let arbitrated = (arbitrate os deadline s).1 in
          let a =
            moves_aborted (turn_at-Moves os input deadline (arbitrate os deadline s))
              (arbitrate_aborted deadline s h) in
          limit_cases (turn os input deadline s).1
            (moves-IsCancelled (turn-Moves os input deadline s) w a).1.0

      loop_ends :
          (rounds : ℕ) (s : Collector)
          → IsCancelled s
          → reach deadline ≤ s.readings + rounds
          → EndsBy s
      loop_ends zero s w i =
          turn_before s (past_ends s w (passes deadline s.readings (omega arith)))
      loop_ends (suc rounds) s w i = turn_before s (
          loop_ends rounds (turn os input deadline s).1
            (moves-IsCancelled (turn-Moves os input deadline s) w)
            (omega (arith, moves_readings (s.readings + 1) (turn_later s) (omega arith))))

      collected_lem :
          (q : Result Bool × Collector)
          → is_running q.0 ≡ false
          → is_set (collected os input deadline q) ≡ true
      unfolding collected
      collected_lem (ok true, s) h = refl
      collected_lem (ok false, s) h = grind arith
      collected_lem (err e, s) h = refl

      communicated_lem :
          (r : Check) (s : Collector) (fuel : ℕ)
          → is_running (turns os input deadline fuel s).0 ≡ false
          → is_running (proceed r (λ t. turns os input deadline fuel) s).0 ≡ false
      communicated_lem (ok t) s fuel h = h
      communicated_lem (err e) s fuel h = refl

      collect_ends :
          EndsBy (set_up os input (start os)).1
          → (fuel : ℕ) × ((more : ℕ)
              → is_set (collect_openai_worker os input deadline (fuel + more)) ≡ true)
      unfolding collect_openai_worker communicate
      collect_ends (fuel, k) =
          let set = set_up os input (start os) in
          (
            fuel,
            λ more.
                collected_lem _
                  (communicated_lem set.0 set.1 (fuel + more) (k (fuel + more) (omega arith))),
          )

  -- If the clock passes every time from some reading on, then the collection ends: some number of
  -- turns is enough, and so is any greater one, whatever the other calls answer or raise.
  pub collect_openai_worker-ends :
      (input : List ℕ) (deadline : ℕ) (reach : ℕ → ℕ)
      → ((time n : ℕ) → reach time ≤ n → time ≤ os.clock n)
      → (fuel : ℕ) × ((more : ℕ)
          → is_set (collect_openai_worker os input deadline (fuel + more)) ≡ true)
  unfolding initial_collector
  collect_openai_worker-ends input deadline reach passes =
      let set = set_up os input (start os) in
      collect_ends input deadline reach passes (
        loop_ends input deadline reach passes (reach deadline) set.1
          (moves-IsCancelled (set_up-Moves os input (start os) (λ name. refl))
            (start-IsCancelled os))
          (omega arith))
