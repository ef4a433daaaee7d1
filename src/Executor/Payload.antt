-- ===== src/Executor/Payload.antt =====
-- What a payload that the executor (src/model_council/executor.py, `_spawn_worker`) returns rests on.
use model_council_lab.Json.{integer, Json, Fields, object, get, null}
use model_council_lab.Action.{Action, yield, throw, proceed}
use model_council_lab.Prelude.{
  length, ◌≤◌, ◌≡◌, Bool, List, Option, String, arith, ℕ, refl, some, ◌++◌, subst, none, ◌∷◌, [],
  ap, true, ◌∙◌, false,
}
use model_council_lab.Errors.{Result, Exc, ok, Check, err}
use model_council_lab.Executor.{
  AttemptJournal, payload_of, payload_result, Decoder, attempt_worker, returned_worker, ask_close,
  Spawn, except_worker, handle_worker, decoded, close_reason, is_truthy, judged_payload, boolean,
  float_bits, spawn_worker, read_payload, text, array,
}
use model_council_lab.Worker.Collect.{WorkerCollection}
use model_council_lab.Worker.Launch.{Launch, may_attest, run_openai_worker}
use model_council_lab.Run.Terminal.{if_of}
use model_council_lab.Worker.{is_timeout_expired, Os, max_worker_protocol_bytes}
use model_council_lab.Worker.Attested.{IsAttested}
use model_council_lab.Worker.Returned.{run_openai_worker-returned}

decoded_lem :
    (decoder : Decoder) (o : Option Json) (payload : Fields)
    → decoded decoder o ≡ ok payload
    → (o ≡ some (object payload))
      × ((good : Json) × ((get "ok" payload ≡ some good) × (is_truthy good ≡ true)))
unfolding payload_result
decoded_lem decoder (some (object fs)) payload h = good_lem (get "ok" fs) refl h
  where
    good_lem :
        (o : Option Json)
        → get "ok" fs ≡ o
        → judged_payload decoder o fs ≡ ok payload
        → (some (object fs) ≡ some (object payload))
          × ((good : Json) × ((get "ok" payload ≡ some good) × (is_truthy good ≡ true)))
    good_lem none e h = grind arith
    good_lem (some good) e h =
        if_of
          (λ x.
            x ≡ ok payload
            → (some (object fs) ≡ some (object payload))
              × ((good : Json) × ((get "ok" payload ≡ some good) × (is_truthy good ≡ true))))
          (is_truthy good)
          (λ t h.
            let same : fs ≡ payload = grind arith in
            (
              ap (λ x. some (object x)) same,
              (good, (subst (λ x. get "ok" x ≡ some good) same e, t)),
            ))
          (λ f h. grind arith) h
decoded_lem decoder none payload h = grind arith
decoded_lem decoder (some null) payload h = grind arith
decoded_lem decoder (some (boolean b)) payload h = grind arith
decoded_lem decoder (some (integer n)) payload h = grind arith
decoded_lem decoder (some (float_bits n)) payload h = grind arith
decoded_lem decoder (some (text t)) payload h = grind arith
decoded_lem decoder (some (array xs)) payload h = grind arith

payload_of_lem :
    (decoder : Decoder) (p : List ℕ) (o : Option (List ℕ)) (payload : Fields)
    → o ≡ some p
    → payload_of decoder o ≡ ok payload
    → decoded decoder (decoder.read_json p) ≡ ok payload
unfolding payload_of
payload_of_lem decoder p none payload e h = grind arith
payload_of_lem decoder p (some q) payload e h =
    let i : q ≡ p = grind arith in
    subst (λ x. decoded decoder (decoder.read_json x) ≡ ok payload) i h

-- A chain that answers has answered in its first part.
proceed_ok :
    {S A B : Type 0} (r : Result A) (next : A → Action S B) (s : S) (b : B)
    → (proceed r next s).0 ≡ ok b
    → (a : A) × ((r ≡ ok a) × ((next a s).0 ≡ ok b))
proceed_ok (ok a) next s b h = (a, (refl, h))
proceed_ok (err e) next s b h = grind arith

module _ (J : AttemptJournal) where
  returned_ok :
      (q : Result WorkerCollection) (s : Spawn J) (r : WorkerCollection)
      → (returned_worker J q s).0 ≡ ok r
      → (q ≡ ok r)
        × ((returned_worker J q s).1.requests ≡ s.requests ++ (close_reason J r.returncode ∷ []))
  unfolding returned_worker ask_close
  returned_ok (err e) s r h = grind arith
  returned_ok (ok x) s r h =
      if_of
        (λ (y : Result WorkerCollection × Spawn J).
          y.0 ≡ ok r
          → (ok x ≡ ok r) × (y.1.requests ≡ s.requests ++ (close_reason J r.returncode ∷ [])))
        (may_attest s.reaping)
        (λ t h. closed_lem (J.close (close_reason J x.returncode) s.journal) h) (λ f h. grind arith)
        h
    where
      after : Check × J.State → Spawn J
      after answer = record s {
        journal = answer.1;
        requests = s.requests ++ (close_reason J x.returncode ∷ []);
      }

      closed_lem :
          (answer : Check × J.State)
          → (proceed answer.0 (λ t. yield x) (after answer)).0 ≡ ok r
          → (ok x ≡ ok r)
            × ((proceed answer.0 (λ t. yield x) (after answer)).1.requests
                ≡ s.requests ++ (close_reason J r.returncode ∷ []))
      closed_lem (ok t, j) h =
          let e : x ≡ r = grind arith in
          (ap (λ y. ok y) e, ap (λ y. s.requests ++ (close_reason J y.returncode ∷ [])) e)
      closed_lem (err e, j) h = grind arith

  attempt_ok :
      (setup : Check) (run : Result WorkerCollection × Launch) (s : Spawn J) (r : WorkerCollection)
      → (attempt_worker J setup run s).0 ≡ ok r
      → (run.0 ≡ ok r)
        × ((attempt_worker J setup run s).1.requests
            ≡ s.requests ++ (close_reason J r.returncode ∷ []))
  unfolding attempt_worker
  attempt_ok (err e) run s r h = grind arith
  attempt_ok (ok t) run s r h = returned_ok run.0 (record s { reaping = run.1.reaping }) r h

  module _ (is_os_error : Exc → Bool) (timeout_text spawn_text : String) where
    throws :
        (q : Check) (e : Exc) (s : Spawn J) (r : WorkerCollection)
        → (proceed q (λ a. throw e) s).0 ≡ ok r
        → ⊥
    throws (ok t) e s r h = grind arith
    throws (err x) e s r h = grind arith

    except_raises :
        (e : Exc) (s : Spawn J) (r : WorkerCollection)
        → (except_worker J is_os_error timeout_text spawn_text e s).0 ≡ ok r
        → ⊥
    unfolding except_worker
    except_raises e s r h =
        if_of P (is_timeout_expired e) (λ t. throws _ _ _ r)
          (λ f. if_of P (is_os_error e) (λ t. throws _ _ _ r) (λ f. throws _ _ _ r)) h
      where
        P : Result WorkerCollection × Spawn J → Type 0
        P x = x.0 ≡ ok r → ⊥

    handle_ok :
        (q : Result WorkerCollection) (s : Spawn J) (r : WorkerCollection)
        → (handle_worker J is_os_error timeout_text spawn_text q s).0 ≡ ok r
        → (q ≡ ok r) × ((handle_worker J is_os_error timeout_text spawn_text q s).1 ≡ s)
    unfolding handle_worker
    handle_ok (ok x) s r h = (h, refl)
    handle_ok (err e) s r h = absurd (except_raises e s r h)

    module _ (decoder : Decoder) where
      -- Reading the payload changes nothing.
      read_same :
          (q : Result WorkerCollection) (s : Spawn J)
          → (proceed q (read_payload J is_os_error timeout_text spawn_text decoder) s).1 ≡ s
      read_same (ok r) s = refl
      read_same (err e) s = refl

      -- What a payload was read from.
      spawned_lem :
          (time_left : Bool) (setup : Check) (run : Result WorkerCollection × Launch) (s : Spawn J)
          (payload : Fields)
          → (spawn_worker J is_os_error timeout_text spawn_text decoder time_left setup run s).0
            ≡ ok payload
          → (r : WorkerCollection) × ((run.0 ≡ ok r)
              × ((payload_of decoder r.accepted ≡ ok payload)
                  × ((spawn_worker J is_os_error timeout_text spawn_text decoder time_left setup run
                        s).1.requests
                      ≡ s.requests ++ (close_reason J r.returncode ∷ []))))
      unfolding spawn_worker
      spawned_lem false setup run s payload h = grind arith
      spawned_lem true setup run s payload h =
          let attempted = attempt_worker J setup run s in
          let handled =
            handle_worker J is_os_error timeout_text spawn_text attempted.0 attempted.1 in
          let (r, (e, p)) =
            proceed_ok handled.0 (read_payload J is_os_error timeout_text spawn_text decoder)
              handled.1 payload h in
          let (a, same) = handle_ok attempted.0 attempted.1 r e in
          let (run_is, requested) = attempt_ok setup run s r a in
          (
            r,
            (run_is, (p, ap (λ x. x.requests) (read_same handled.0 handled.1 ∙ same) ∙ requested)),
          )

      module _ (os : Os) (input : List ℕ) (deadline fuel : ℕ) (popen closing : Check) where
        -- A payload that the executor returns for a worker rests on the collection of this worker: it
        -- is attested, it hands over at most 8,000,000 bytes, which decode to the payload, with a true
        -- value of ok, and the journal was asked for one close, as returned.
        pub spawn_worker-IsAttested :
            (time_left : Bool) (setup : Check) (answer : Result WorkerCollection) (last : Launch)
            (s : Spawn J) (payload : Fields)
            → run_openai_worker os input deadline fuel popen closing ≡ some (answer, last)
            → (spawn_worker J is_os_error timeout_text spawn_text decoder time_left setup
                (answer, last)
                s).0
              ≡ ok payload
            → (r : WorkerCollection) × ((p : List ℕ) × ((IsAttested r
                    × ((r.accepted ≡ some p) × (length p ≤ max_worker_protocol_bytes)))
                  × ((decoder.read_json p ≡ some (object payload))
                      × (((good : Json) × ((get "ok" payload ≡ some good)
                              × (is_truthy good ≡ true)))
                          × ((spawn_worker J is_os_error timeout_text spawn_text decoder time_left
                                setup
                                (answer, last)
                                s).1.requests
                              ≡ s.requests ++ ("returned" ∷ []))))))
        spawn_worker-IsAttested time_left setup answer last s payload h k =
            let (r, (answer_is, (read, requested))) =
              spawned_lem time_left setup (answer, last) s payload k in
            let ran =
              subst (λ x. run_openai_worker os input deadline fuel popen closing ≡ some (x, last))
                answer_is h in
            let (p, (accepted, (bound, (attested, confirmed)))) =
              run_openai_worker-returned os input deadline fuel popen closing r last ran in
            let d =
              decoded_lem decoder (decoder.read_json p) payload
                (payload_of_lem decoder p r.accepted payload accepted read) in
            (
              r,
              (
                p,
                (
                  (attested, (accepted, bound)),
                  (
                    d.0,
                    (
                      d.1,
                      requested
                          ∙ ap (λ c. s.requests ++ (close_reason J c ∷ [])) attested.succeeded,
                    ),
                  ),
                ),
              ),
            )
