-- ===== src/Worker/Invariant.antt =====
-- What the collector of a worker (src/model_council/executor.py) keeps at every move.
use model_council_lab.Prelude.{
  length, ◌≤◌, ◌≡◌, Bool, ℕ, false, true, ◌+◌, [], ◌||◌, arith, length-append, Option,
  if◌then◌else◌, some, subst, Bool-cases, sym, inl, none, inr, refl,
}
use model_council_lab.Worker.{
  Collector, start_cleanup, Endpoint, is_set, max_worker_protocol_bytes, max_worker_stdout_bytes,
  protocol, max_worker_stderr_bytes, max_worker_diagnostic_bytes, put, same_endpoint, kept_or,
}
use model_council_lab.Worker.Machine.{
  Move, quietly, arm, begin, reap, confirm_reap, take_end, drop_end, receive, hear, fault, clear,
  Moves, go, stay,
}
use model_council_lab.Run.Terminal.{if_of}

-- The counts are within their limits.
abbrev pub IsLimited : Collector → Type 0
IsLimited s =
    (s.stdout_count ≤ max_worker_stdout_bytes)
    × ((s.stderr_count ≤ max_worker_stderr_bytes)
        × (s.diagnostic_count ≤ max_worker_diagnostic_bytes))

-- The counts and the protocol that are held.
abbrev pub IsBounded : Collector → Type 0
IsBounded s =
    (length s.protocol_bytes ≤ max_worker_protocol_bytes)
    × ((s.protocol_high_water ≤ max_worker_protocol_bytes)
        × ((s.diagnostic_count ≡ s.stdout_count + s.stderr_count)
            × (is_set s.abort_reason ≡ false → IsLimited s)))

-- What an abort has done: the protocol is dropped, the cleanup has a deadline, and the worker was
-- signalled unless it had ended.
abbrev pub IsCancelled : Collector → Type 0
IsCancelled s =
    is_set s.abort_reason ≡ true
    → (s.protocol_bytes ≡ [])
      × ((is_set s.cleanup_deadline ≡ true) × ((s.reaped || s.kill_attempted) ≡ true))

abbrev pub flag : Bool → ℕ
flag true = 1
flag false = 0

-- How often an endpoint was closed or is still owned.
abbrev pub owned : Collector → Endpoint → ℕ
owned s name = s.closes name + flag (s.is_open name)

-- An endpoint is closed at most once, and not while it is owned; the protocol is owned until then.
abbrev pub IsOwned : Collector → Type 0
IsOwned s = ((name : Endpoint) → owned s name ≤ 1) × (owned s protocol ≡ 1)

pub kept_lem : {A : Type 0} (old : Option A) (a : A) → is_set (kept_or old a) ≡ true
kept_lem none a = refl
kept_lem (some b) a = refl

pub same_endpoint-eq : (name other : Endpoint) → same_endpoint name other ≡ true → name ≡ other
same_endpoint-eq name other h = grind arith

taken :
    (closes : Endpoint → ℕ) (is_open : Endpoint → Bool) (name other : Endpoint)
    → closes name ≡ 0
    → closes other + flag (is_open other) ≤ 1
    → closes other + flag (put name true is_open other) ≤ 1
taken closes is_open name other h w =
    if_of (λ x. closes other + flag x ≤ 1) (same_endpoint name other)
      (λ t.
        let e : closes other ≡ 0 = subst (λ x. closes x ≡ 0) (same_endpoint-eq name other t) h in
        omega arith)
      (λ f. w)

taken_one :
    (closes : Endpoint → ℕ) (is_open : Endpoint → Bool) (name : Endpoint)
    → closes name ≡ 0
    → closes protocol + flag (is_open protocol) ≡ 1
    → closes protocol + flag (put name true is_open protocol) ≡ 1
taken_one closes is_open name h w =
    if_of (λ x. closes protocol + flag x ≡ 1) (same_endpoint name protocol)
      (λ t.
        let e : closes protocol ≡ 0 =
          subst (λ x. closes x ≡ 0) (same_endpoint-eq name protocol t) h in
        omega arith)
      (λ f. w)

-- The count of an endpoint that is closed stays as it was.
dropped_count :
    (closes : Endpoint → ℕ) (is_open : Endpoint → Bool) (name other : Endpoint)
    → is_open name ≡ true
    → (if same_endpoint name other then closes other + 1 else closes other)
        + flag (put name false is_open other)
      ≡ closes other + flag (is_open other)
dropped_count closes is_open name other h = elim (Bool-cases (same_endpoint name other)) [
  | inl t ↦
      let e : is_open other ≡ true =
        subst (λ x. is_open x ≡ true) (same_endpoint-eq name other t) h in
      rw (t, e) (omega arith)
  | inr f ↦ rw f refl
]

kept-IsBounded : {s t : Collector} → Move s t → IsBounded s → IsBounded t
unfolding start_cleanup
kept-IsBounded (quietly h) w = w
kept-IsBounded fault w = w
kept-IsBounded (arm h) w = w
kept-IsBounded {s} (begin reason now out errors total a i j k) (l, (h, (b, w))) =
    (omega arith, (h, (omega arith, λ x. absurd (ground (arith, x)))))
kept-IsBounded (reap code now h) w = w
kept-IsBounded (confirm_reap code h) w = w
kept-IsBounded (take_end name h) w = w
kept-IsBounded (drop_end name h) w = w
kept-IsBounded {s} (receive chunk h i) (l, (g, w)) = (
  omega (arith, length-append s.protocol_bytes chunk),
  (ground (arith, length-append s.protocol_bytes chunk), w),
)
kept-IsBounded (hear out errors total a b c i j k) (l, (h, (e, w))) =
    (l, (h, (omega arith, λ x. (a (w x).0, (b (w x).1.0, c)))))
kept-IsBounded clear (l, w) = (omega arith, w)

kept-IsCancelled : {s t : Collector} → Move s t → IsCancelled s → IsCancelled t
unfolding start_cleanup
kept-IsCancelled (quietly h) w = w
kept-IsCancelled fault w = w
kept-IsCancelled (arm h) w = λ x. ((w x).0, ((w x).1.0, grind arith))
kept-IsCancelled {s} (begin reason now out errors total a i j k) w =
    λ x. (refl, (kept_lem s.cleanup_deadline _, a))
kept-IsCancelled (reap code now h) w = λ x. ((w x).0, (kept_lem _ _, refl))
kept-IsCancelled (confirm_reap code h) w = λ x. ((w x).0, ((w x).1.0, refl))
kept-IsCancelled (take_end name h) w = w
kept-IsCancelled (drop_end name h) w = w
kept-IsCancelled (receive chunk h i) w = λ x. absurd (ground arith)
kept-IsCancelled (hear out errors total a b c i j k) w = w
kept-IsCancelled clear w = λ x. (refl, (w x).1)

kept-IsOwned : {s t : Collector} → Move s t → IsOwned s → IsOwned t
unfolding start_cleanup
kept-IsOwned (quietly h) w = w
kept-IsOwned fault w = w
kept-IsOwned (arm h) w = w
kept-IsOwned (begin reason now out errors total a i j k) w = w
kept-IsOwned (reap code now h) w = w
kept-IsOwned (confirm_reap code h) w = w
kept-IsOwned {s} (take_end name h) (w, p) = (
  λ other. taken s.closes s.is_open name other h (w other),
  taken_one s.closes s.is_open name h p,
)
kept-IsOwned {s} (drop_end name h) (w, p) = (
  (λ other. subst (λ x. x ≤ 1) (sym (dropped_count s.closes s.is_open name other h)) (w other)),
  subst (λ x. x ≡ 1) (sym (dropped_count s.closes s.is_open name protocol h)) p,
)
kept-IsOwned (receive chunk h i) w = w
kept-IsOwned (hear out errors total a b c i j k) w = w
kept-IsOwned clear w = w

-- A property that every move keeps.
abbrev pub IsKept : (Collector → Type 0) → Type 0
IsKept P = (s t : Collector) → Move s t → P s → P t

pub moves_keep : (P : Collector → Type 0) → IsKept P → (s t : Collector) → Moves s t → P s → P t
moves_keep P k s t stay p = p
moves_keep P k s u (go {t} m ms) p = moves_keep P k t u ms (k s t m p)

pub moves-IsBounded : {s t : Collector} → Moves s t → IsBounded s → IsBounded t
moves-IsBounded {s} {t} m w = moves_keep IsBounded (λ s t n. kept-IsBounded n) s t m w

pub moves-IsCancelled : {s t : Collector} → Moves s t → IsCancelled s → IsCancelled t
moves-IsCancelled {s} {t} m w = moves_keep IsCancelled (λ s t n. kept-IsCancelled n) s t m w

pub moves-IsOwned : {s t : Collector} → Moves s t → IsOwned s → IsOwned t
moves-IsOwned {s} {t} m w = moves_keep IsOwned (λ s t n. kept-IsOwned n) s t m w

kept_readings : (count : ℕ) (s t : Collector) → Move s t → count ≤ s.readings → count ≤ t.readings
unfolding start_cleanup
kept_readings count s t (quietly h) w = omega arith
kept_readings count s t fault w = w
kept_readings count s t (arm h) w = w
kept_readings count s t (begin reason now out errors total a i j k) w = w
kept_readings count s t (reap code now h) w = w
kept_readings count s t (confirm_reap code h) w = w
kept_readings count s t (take_end name h) w = w
kept_readings count s t (drop_end name h) w = w
kept_readings count s t (receive chunk h i) w = w
kept_readings count s t (hear out errors total a b c i j k) w = w
kept_readings count s t clear w = w

limit_lem : (limit : ℕ) (old : Option ℕ) (new : ℕ) → old ≡ some limit → kept_or old new ≡ some limit
limit_lem limit none new h = grind arith
limit_lem limit (some old) new h = h

kept_limit :
    (limit : ℕ) (s t : Collector)
    → Move s t
    → s.cleanup_deadline ≡ some limit
    → t.cleanup_deadline ≡ some limit
unfolding start_cleanup
kept_limit limit s t (quietly h) w = w
kept_limit limit s t fault w = w
kept_limit limit s t (arm h) w = w
kept_limit limit s t (begin reason now out errors total a i j k) w =
    limit_lem limit s.cleanup_deadline _ w
kept_limit limit s t (reap code now h) w = limit_lem limit s.cleanup_deadline _ w
kept_limit limit s t (confirm_reap code h) w = w
kept_limit limit s t (take_end name h) w = w
kept_limit limit s t (drop_end name h) w = w
kept_limit limit s t (receive chunk h i) w = w
kept_limit limit s t (hear out errors total a b c i j k) w = w
kept_limit limit s t clear w = w

-- Time does not go back, and the deadline of the cleanup stays.
pub moves_readings :
    {s t : Collector} (count : ℕ) → Moves s t → count ≤ s.readings → count ≤ t.readings
moves_readings {s} {t} count m h =
    moves_keep (λ x. count ≤ x.readings) (kept_readings count) s t m h

pub moves_limit :
    {s t : Collector} (limit : ℕ)
    → Moves s t
    → s.cleanup_deadline ≡ some limit
    → t.cleanup_deadline ≡ some limit
moves_limit {s} {t} limit m h =
    moves_keep (λ x. x.cleanup_deadline ≡ some limit) (kept_limit limit) s t m h

kept_aborted :
    (s t : Collector) → Move s t → is_set s.abort_reason ≡ true → is_set t.abort_reason ≡ true
unfolding start_cleanup
kept_aborted s t (quietly h) w = w
kept_aborted s t fault w = w
kept_aborted s t (arm h) w = w
kept_aborted s t (begin reason now out errors total a i j k) w = kept_lem s.abort_reason _
kept_aborted s t (reap code now h) w = w
kept_aborted s t (confirm_reap code h) w = w
kept_aborted s t (take_end name h) w = w
kept_aborted s t (drop_end name h) w = w
kept_aborted s t (receive chunk h i) w = w
kept_aborted s t (hear out errors total a b c i j k) w = w
kept_aborted s t clear w = w

-- An abort stays.
pub moves_aborted :
    {s t : Collector} → Moves s t → is_set s.abort_reason ≡ true → is_set t.abort_reason ≡ true
moves_aborted {s} {t} m h = moves_keep (λ x. is_set x.abort_reason ≡ true) kept_aborted s t m h
