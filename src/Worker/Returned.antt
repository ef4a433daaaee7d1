-- ===== src/Worker/Returned.antt =====
-- What `_run_openai_worker` (src/model_council/executor.py) returns, and when it lets its caller attest
-- that the worker was reaped.
use model_council_lab.Prelude.{
  length, ◌≤◌, ◌≡◌, Option, String, true, none, ◌&&◌, arith, Bool, List, some, ℕ, false, inl, refl,
  sym, inr, subst, Option-cases, ◌∙◌, ◌⊎◌,
}
use model_council_lab.Worker.Launch.{
  answer_of, reaping_after, may_attest, uncertain, confirmed, answer_from, judged, Launch,
  run_openai_worker, launched, handed_over, abandoned, launch_failure,
}
use model_council_lab.Worker.Collect.{WorkerCollection, collect_openai_worker}
use model_council_lab.Errors.{ok, Check, Result, Exc, err}
use model_council_lab.Worker.{Os, Collector, max_worker_protocol_bytes}
use model_council_lab.Worker.Attested.{IsAttested, collect_openai_worker-IsAttested}
use model_council_lab.Worker.Accepted.{collect_openai_worker_accepts}

answer_lem :
    (o : Option String) (attests : Bool) (f : Option String) (x r : WorkerCollection)
    → answer_from o attests f x ≡ ok r
    → (x ≡ r) × ((f ≡ none) × (attests ≡ true))
unfolding answer_from
answer_lem (some i) attests f x r h = grind arith
answer_lem none false f x r h = grind arith
answer_lem none true (some f) x r h = grind arith
answer_lem none true none x r h = (grind arith, (refl, refl))

reaping_lem :
    (r : WorkerCollection)
    → may_attest (reaping_after r uncertain) ≡ true
    → ((r.reaped && r.cleanup_complete) ≡ true) × (reaping_after r uncertain ≡ confirmed)
unfolding reaping_after may_attest
reaping_lem r h = ground arith

-- A collection that was judged, from its result.
judged_lem :
    (launch last : Launch) (o : Option (WorkerCollection × Collector)) (a : Result WorkerCollection)
    → judged launch o ≡ some (a, last)
    → (r : WorkerCollection) × ((s : Collector) × ((o ≡ some (r, s))
          × ((a ≡ answer_of (reaping_after r launch.reaping) r)
              × (last.reaping ≡ reaping_after r launch.reaping))))
unfolding judged
judged_lem launch last none a h = grind arith
judged_lem launch last (some (r, s)) a h = (r, (s, (refl, (grind arith, grind arith))))

module _ (os : Os) (input : List ℕ) (deadline fuel : ℕ) where
  -- What a launch that ended shows: it was abandoned, or its collection was judged.
  launch_lem :
      (popen closing : Check) (a : Result WorkerCollection) (last : Launch)
      → run_openai_worker os input deadline fuel popen closing ≡ some (a, last)
      → ((last.reaping ≡ uncertain) × ((e : Exc) × (a ≡ err e)))
        ⊎ ((r : WorkerCollection) × ((s : Collector) × ((collect_openai_worker os input deadline
                    fuel
                  ≡ some (r, s))
                × ((a ≡ answer_of (reaping_after r uncertain) r)
                    × (last.reaping ≡ reaping_after r uncertain)))))
  unfolding run_openai_worker launched handed_over abandoned
  launch_lem (err e) closing a last h = inl (grind arith, (launch_failure e, grind arith))
  launch_lem (ok t) (err e) a last h = inl (grind arith, (e, grind arith))
  launch_lem (ok t) (ok u) a last h =
      inr (judged_lem _ last (collect_openai_worker os input deadline fuel) a h)

  Returns : WorkerCollection → Launch → Type 0
  Returns r last =
      (p : List ℕ) × ((r.accepted ≡ some p)
        × ((length p ≤ max_worker_protocol_bytes) × (IsAttested r × (last.reaping ≡ confirmed))))

  returned_lem :
      (x r : WorkerCollection) (s : Collector) (last : Launch)
      → collect_openai_worker os input deadline fuel ≡ some (x, s)
      → ok r ≡ answer_of (reaping_after x uncertain) x
      → last.reaping ≡ reaping_after x uncertain
      → Returns r last
  unfolding answer_of Returns
  returned_lem x r s last c a l =
      let v =
        answer_lem x.interruption (may_attest (reaping_after x uncertain)) x.failure x r (sym a) in
      let e : x ≡ r = v.0 in
      let t = collect_openai_worker_accepts os input deadline fuel x s c v.1.0 in
      subst (λ r. Returns r last) e
        (elim (Option-cases x.accepted) [
          | inl n ↦ absurd (ground (arith, n, t))
          | inr (p, q) ↦
              let w = collect_openai_worker-IsAttested os input deadline fuel x s p c q in
              (p, (q, (w.1, (w.0, l ∙ (reaping_lem x v.1.1).1))))
        ])

  -- A result that the wrapper returns is attested and hands over a protocol of at most 8,000,000
  -- bytes, and the caller may attest that the worker was reaped.
  pub run_openai_worker-returned :
      (popen closing : Check) (r : WorkerCollection) (last : Launch)
      → run_openai_worker os input deadline fuel popen closing ≡ some (ok r, last)
      → (p : List ℕ) × ((r.accepted ≡ some p)
          × ((length p ≤ max_worker_protocol_bytes) × (IsAttested r × (last.reaping ≡ confirmed))))
  unfolding Returns
  run_openai_worker-returned popen closing r last h =
      elim (launch_lem popen closing (ok r) last h) [
        | inl (u, (e, x)) ↦ grind arith
        | inr (x, (s, (c, (a, l)))) ↦ returned_lem x r s last c a l
      ]

  -- The wrapper lets its caller attest that the worker is gone only after a collection that reaped it
  -- and whose cleanup was complete, whatever it returns or raises.
  pub run_openai_worker-attests :
      (popen closing : Check) (a : Result WorkerCollection) (last : Launch)
      → run_openai_worker os input deadline fuel popen closing ≡ some (a, last)
      → may_attest last.reaping ≡ true
      → (r : WorkerCollection) × ((s : Collector) × ((collect_openai_worker os input deadline fuel
              ≡ some (r, s))
            × ((r.reaped ≡ true) × (r.cleanup_complete ≡ true))))
  unfolding may_attest
  run_openai_worker-attests popen closing a last h m = elim (launch_lem popen closing a last h) [
    | inl (u, e) ↦ absurd (ground (arith, m, u))
    | inr (r, (s, (c, (b, l)))) ↦
        let k = reaping_lem r (subst (λ x. may_attest x ≡ true) l m) in
        (r, (s, (c, (ground (arith, k.0), ground (arith, k.0)))))
  ]
