-- ===== src/Run/Along.antt =====
-- The steps of the commit of a stage (src/model_council/runner.py, `_commit_stage_transaction`): time
-- checks, steps on the store, tests of the store and the write of a record.
use model_council_lab.Errors.{ok, err, Check, Result}
use model_council_lab.Action.{Action, reading, on_first}
use model_council_lab.Action.Triple.{After, Triple, answered, raised, triple_bind, answer_weaken}
use model_council_lab.Run.{Store, RunEnv}
use model_council_lab.Roles.{Role}
use model_council_lab.Run.Commit.{Site, require_deadline, write_artifacts, record_success}
use model_council_lab.Prelude.{
  ◌≡◌, ℕ, List, [], ◌∷◌, ◌++◌, ◌+◌, String, refl, suc, Bool-cases, is_positive, ◌<◌, sub_ℕ, inl,
  inr, arith, length, subst, ◌∙◌, Option-cases, not, ◌&&◌, ◌==◌, ap, Bool,
}
use model_council_lab.Stage.{Env, World, InvocationRecord, StageSuccess, negative, is_legacy}
use model_council_lab.Stage.Handlers.{record_stage_invocation}
use model_council_lab.Stage.Attempt.{is_some}
use model_council_lab.Stage.Settled.{Persisted, written, refused, record-Persisted}
use model_council_lab.Json.{Json}

-- A write of a record reads no clock.
record-reads :
    (env : Env) (o : Bool) (r : InvocationRecord) (w : World)
    → (record_stage_invocation env o r w).1.reads ≡ w.reads
unfolding record_stage_invocation
record-reads env o r w =
    elim (Bool-cases (not r.invocation_began && not (r.consumed_tokens_in == 0))) [
      | inl a ↦ ground (arith, a)
      | inr a ↦ elim (Bool-cases (negative r.response_latency)) [
        | inl b ↦ ground (arith, a, b)
        | inr b ↦ elim (Bool-cases (o && is_legacy env.profile)) [
          | inl c ↦ ground (arith, a, b, c)
          | inr c ↦ elim (Option-cases (env.persist w.writes)) [
            | inl n ↦ ground (arith, a, b, c, n)
            | inr (e, n) ↦ ground (arith, a, b, c, n)
          ]
        ]
      ]
    ]

module _ (S : Store) where
  -- The artifacts were staged, one after the other.
  pub data Staged (role : Role) : List (String × Json) → S.State → S.State → Type 0 where
    all_staged : {d : S.State} → Staged role [] d d
    then_staged :
        {name : String} {content : Json} {rest : List (String × Json)} {d e f : S.State}
        → S.write_staged role name content d ≡ (ok tt, e)
        → Staged role rest e f
        → Staged role ((name, content) ∷ rest) d f

  module _ (run : RunEnv) (env : Env) (deadline start : ℕ) where
    -- In a transaction: what holds of the stored state, the time checks that were passed, and the
    -- records.
    pub record Along (D : S.State → Type 0) (checks : ℕ) (records : List InvocationRecord)
        (x : Site S) : Type 0 where
      pub stored : D x.0
      pub read : x.1.reads ≡ start + checks
      pub early : (n : ℕ) → n < checks → env.clock (start + n) < deadline
      pub recorded : x.1.records ≡ records

    abbrev pub Leads :
        {A : Type 0} → (Site S → Type 0) → Action (Site S) A → (A → Site S → Type 0) → Type 0
    Leads P step Q = Triple P step Q (λ e x. Unit {0})

    one_more :
        (k reads : ℕ)
        → reads ≡ start + k
        → ((n : ℕ) → n < k → env.clock (start + n) < deadline)
        → env.clock reads < deadline
        → (n : ℕ) → n < suc k
        → env.clock (start + n) < deadline
    one_more k reads e early now n h = elim (Bool-cases (n == k)) [
      | inl t ↦
          let same : reads ≡ start + n = ground (arith, e, t) in
          subst (λ r. env.clock r < deadline) same now
      | inr f ↦ early n (ground (arith, h, f))
    ]

    -- A time check counts.
    pub time_check :
        {D : S.State → Type 0} {k : ℕ} {records : List InvocationRecord} (where_ : String)
        → Leads
            (Along D k records)
            (require_deadline S run env deadline where_)
            (λ t. Along D (suc k) records)
    unfolding require_deadline
    time_check {k = k} where_ (d, w) p =
        elim (Bool-cases (is_positive (sub_ℕ deadline (env.clock w.reads)))) [
          | inl t ↦
              let now : env.clock w.reads < deadline = ground (arith, t) in
              rw t (
                answered (record {
                  stored = p.stored;
                  read = omega (arith, p.read);
                  early = one_more k w.reads p.read p.early now;
                  recorded = p.recorded;
                }))
          | inr f ↦ rw f (raised tt)
        ]

    -- A step on the store.
    pub store_step :
        {A : Type 0} {D : S.State → Type 0} {k : ℕ} {records : List InvocationRecord}
        (step : Action S.State A)
        → Leads
            (Along D k records)
            (on_first step)
            (λ a. Along (λ e. (d : S.State) × D d × (step d ≡ (ok a, e))) k records)
    store_step {A = A} {D = D} {k = k} {records = records} step (d, w) p =
        taken (step d).0 (step d).1 refl
      where
        taken :
            (r : Result A) (e : S.State)
            → step d ≡ (r, e)
            → After
                (λ a. Along (λ e. (d : S.State) × D d × (step d ≡ (ok a, e))) k records)
                (λ e x. Unit {0})
                r
                (e, w)
        taken (ok a) e h = answered (record {
          stored = (d, p.stored, h);
          read = p.read;
          early = p.early;
          recorded = p.recorded;
        })
        taken (err x) e h = raised tt

    -- A test of the stored state.
    pub store_test :
        {A : Type 0} {D : S.State → Type 0} {k : ℕ} {records : List InvocationRecord}
        (test : S.State → Result A)
        → Leads
            (Along D k records)
            (reading (λ (x : Site S). test x.0))
            (λ a. Along (λ d. D d × (test d ≡ ok a)) k records)
    store_test {A = A} {D = D} {k = k} {records = records} test (d, w) p = told (test d) refl
      where
        told :
            (r : Result A)
            → test d ≡ r
            → After (λ a. Along (λ d. D d × (test d ≡ ok a)) k records) (λ e x. Unit {0}) r (d, w)
        told (ok a) h = answered (record {
          stored = (p.stored, h);
          read = p.read;
          early = p.early;
          recorded = p.recorded;
        })
        told (err x) h = raised tt

    -- The loop over the artifacts.
    pub write_artifacts-Staged :
        (role : Role) (artifacts : List (String × Json)) {D : S.State → Type 0} {k : ℕ}
        {records : List InvocationRecord}
        → Leads (Along D k records) (write_artifacts S run env role deadline artifacts) (λ t.
          Along
            (λ e. (d : S.State) × D d × Staged role artifacts d e)
            (length artifacts + k)
            records)
    unfolding write_artifacts
    write_artifacts-Staged role [] = λ x p. answered (record {
      stored = (x.0, p.stored, all_staged);
      read = omega (arith, p.read);
      early = λ n h. p.early n (omega (arith, h));
      recorded = p.recorded;
    })
    write_artifacts-Staged role ((name, content) ∷ rest) {k = k} =
        triple_bind (store_step (S.write_staged role name content)) λ _.
          triple_bind (time_check "during artifact persistence") λ _. λ x p.
            answer_weaken (write_artifacts-Staged role rest x p) λ t y q.
              let (e, (d, kept, staged), more) = q.stored in
              record {
                stored = (d, kept, then_staged staged more);
                read = omega (arith, q.read);
                early = λ n h. q.early n (omega (arith, h));
                recorded = q.recorded;
              }

    -- The record of the success.
    pub record_success-Along :
        {D : S.State → Type 0} {k : ℕ} {records : List InvocationRecord} (s : StageSuccess)
        (r : InvocationRecord)
        → Leads
            (Along D k records)
            (record_success S run env s r)
            (λ t. Along D k (records ++ (r ∷ [])))
    record_success-Along {D = D} {k = k} {records = records} s r (d, w) p =
        put _ (record-Persisted env (is_some env s.provider_outcome) r w)
          (record-reads env (is_some env s.provider_outcome) r w)
      where
        put :
            (q : Check × World)
            → Persisted r w q
            → q.1.reads ≡ w.reads
            → After (λ t. Along D k (records ++ (r ∷ []))) (λ e x. Unit {0}) q.0 (d, q.1)
        put (ok t, y) (written e c g) h = answered (record {
          stored = p.stored;
          read = h ∙ p.read;
          early = p.early;
          recorded = g ∙ ap (λ rs. rs ++ (r ∷ [])) p.recorded;
        })
        put (err x, y) q h = raised tt
        put (ok t, y) (refused x e c g) h = absurd (grind arith)
