-- ===== src/Executor/Spawned.antt =====
-- When the executor (src/model_council/executor.py, `_spawn_worker`) closes the journal of an attempt,
-- and what its payload rests on.
use model_council_lab.Action.{Action, ◌>>◌, yield, throw, proceed}
use model_council_lab.Prelude.{◌≡◌, Bool, [], true, String, ◌⊎◌, arith, inr, false, inl, refl}
use model_council_lab.Executor.{
  AttemptJournal, Spawn, attempt_worker, close_if, may_close, returned_worker, ask_close, Decoder,
  except_worker, handle_worker, close_reason, spawn_worker, read_payload,
}
use model_council_lab.Errors.{Exc, Result, Check, ok, err}
use model_council_lab.Worker.Collect.{WorkerCollection}
use model_council_lab.Worker.Launch.{may_attest, Launch}
use model_council_lab.Run.Terminal.{if_of}
use model_council_lab.Worker.{is_timeout_expired}
use model_council_lab.Json.{Fields}

module _ (J : AttemptJournal) where
  -- No close was asked for, or the worker may be attested to be gone.
  abbrev IsAttestedClose : Spawn J → Type 0
  IsAttestedClose s = (s.requests ≡ []) ⊎ (may_attest s.reaping ≡ true)

  -- Whatever a close answers.
  closed_lem :
      (good : Bool) (reason : String) (s : Spawn J)
      → (good ≡ true → may_attest s.reaping ≡ true)
      → IsAttestedClose s
      → IsAttestedClose (close_if J good reason s).1
  unfolding close_if ask_close
  closed_lem true reason s k h = inr (k refl)
  closed_lem false reason s k h = h

  proceed_lem :
      {A B : Type 0} (r : Result A) (next : A → Action (Spawn J) B) (s : Spawn J)
      → IsAttestedClose s
      → ((a : A) → IsAttestedClose (next a s).1)
      → IsAttestedClose (proceed r next s).1
  proceed_lem (ok a) next s h k = k a
  proceed_lem (err e) next s h k = h

  returned_lem :
      (r : Result WorkerCollection) (s : Spawn J)
      → IsAttestedClose s
      → IsAttestedClose (returned_worker J r s).1
  unfolding returned_worker ask_close
  returned_lem (err e) s h = h
  returned_lem (ok r) s h =
      if_of (λ (x : Result WorkerCollection × Spawn J). IsAttestedClose x.1) (may_attest s.reaping)
        (λ t.
          proceed_lem (ask_close J (close_reason J r.returncode) s).0 (λ a. yield r)
            (ask_close J (close_reason J r.returncode) s).1 (inr t) (λ a. inr t))
        (λ f. h)

  attempt_lem :
      (setup : Check) (run : Result WorkerCollection × Launch) (s : Spawn J)
      → s.requests ≡ []
      → IsAttestedClose (attempt_worker J setup run s).1
  unfolding attempt_worker
  attempt_lem (err e) run s h = inl h
  attempt_lem (ok t) run s h = returned_lem run.0 (record s { reaping = run.1.reaping }) (inl h)

  may_close_lem : (s : Spawn J) → may_close J s ≡ true → may_attest s.reaping ≡ true
  unfolding may_close
  may_close_lem s h = ground (arith, h)

  module _ (is_os_error : Exc → Bool) (timeout_text spawn_text : String) where
    except_lem :
        (e : Exc) (s : Spawn J)
        → IsAttestedClose s
        → IsAttestedClose (except_worker J is_os_error timeout_text spawn_text e s).1
    unfolding except_worker
    except_lem e s h =
        if_of P (is_timeout_expired e)
          (λ t. after_close (may_attest s.reaping) "timeout" _ (λ x. x))
          (λ f.
            if_of P (is_os_error e)
              (λ t. after_close (may_close J s) "infrastructure" _ (may_close_lem s))
              (λ f. after_close (may_close J s) _ _ (may_close_lem s)))
      where
        P : Result WorkerCollection × Spawn J → Type 0
        P x = IsAttestedClose x.1

        after_close :
            (good : Bool) (reason : String) (raised : Exc)
            → (good ≡ true → may_attest s.reaping ≡ true)
            → IsAttestedClose ((close_if J good reason >> throw {A = WorkerCollection} raised) s).1
        after_close good reason raised k =
            let c = close_if J good reason s in
            proceed_lem c.0 (λ a. throw raised) c.1 (closed_lem good reason s k h)
              (λ a. closed_lem good reason s k h)

    handle_lem :
        (r : Result WorkerCollection) (s : Spawn J)
        → IsAttestedClose s
        → IsAttestedClose (handle_worker J is_os_error timeout_text spawn_text r s).1
    unfolding handle_worker
    handle_lem (ok r) s h = h
    handle_lem (err e) s h = except_lem e s h

    module _ (decoder : Decoder) where
      -- A close of the journal is asked for only when the worker may be attested to be gone: it was
      -- not started, or it was reaped with a complete cleanup.
      pub spawn_worker-closes :
          (time_left : Bool) (setup : Check) (run : Result WorkerCollection × Launch) (s : Spawn J)
          → s.requests ≡ []
          → ((spawn_worker J is_os_error timeout_text spawn_text decoder time_left setup run
                s).1.requests
              ≡ [])
            ⊎ (may_attest
                  (spawn_worker J is_os_error timeout_text spawn_text decoder time_left setup run
                    s).1.reaping
                ≡ true)
      unfolding spawn_worker
      spawn_worker-closes time_left setup run s h =
          let attempted = attempt_worker J setup run s in
          let handled =
            handle_worker J is_os_error timeout_text spawn_text attempted.0 attempted.1 in
          let a = handle_lem attempted.0 attempted.1 (attempt_lem setup run s h) in
          if_of (λ (x : Result Fields × Spawn J). IsAttestedClose x.1) time_left
            (λ t.
              proceed_lem handled.0 (read_payload J is_os_error timeout_text spawn_text decoder)
                handled.1 a (λ r. a))
            (λ f. inl h)
