-- ===== src/Run/Durable.antt =====
-- What the commit of a stage does (src/model_council/runner.py, `_commit_stage_transaction`).
use model_council_lab.Errors.{ok}
use model_council_lab.Action.{◌>>◌, on_first, reading, yield}
use model_council_lab.Action.Triple.{answered, triple_bind, after_ok}
use model_council_lab.Run.{Store, RunEnv}
use model_council_lab.Run.Along.{
  Staged, Leads, Along, time_check, store_step, store_test, write_artifacts-Staged,
  record_success-Along,
}
use model_council_lab.Roles.{Role}
use model_council_lab.Run.Commit.{
  Site, require_deadline, commit_stage, commit_stage_transaction, items, refs_of, success_record,
}
use model_council_lab.Prelude.{
  ◌≡◌, ℕ, List, [], ◌∷◌, ◌++◌, ◌+◌, String, refl, ◌<◌, arith, length, subst,
}
use model_council_lab.Stage.{Env, World, InvocationRecord, StageSuccess}
use model_council_lab.Json.{keys}

-- What a transaction did to the store: the artifacts were staged and promoted, the references of the
-- promoted ones are returned by their names, the tests of the seal passed, and the seal was written and
-- is accepted.
pub record Transacted (S : Store) (role : Role) (s : StageSuccess) (d : S.State)
    (refs : List String) (e : S.State) : Type 0 where
  pub staged : S.State
  pub kept : S.State
  pub promoted : List (String × String)
  pub stages : Staged S role (items s.artifacts) d staged
  pub promotes : S.commit_staged_artifacts role staged ≡ (ok promoted, kept)
  pub named : refs_of (keys s.artifacts) promoted ≡ ok refs
  pub sealable : S.check_seal role s.attempt kept ≡ ok tt
  pub seals : S.persist_seal role s.attempt kept ≡ (ok tt, e)
  pub verified : S.verify_sealed_stage role e ≡ ok tt

-- A stage was committed: besides, one record of the success was written, and so many readings of the
-- clock were all before the deadline.
pub record Committed (S : Store) (env : Env) (role : Role) (s : StageSuccess) (d : S.State)
    (w : World) (refs : List String) (x : Site S) : Type 0 where
  pub transacted : Transacted S role s d refs x.0
  pub recorded : x.1.records ≡ w.records ++ (success_record s ∷ [])
  pub timed : x.1.reads ≡ w.reads + (length (items s.artifacts) + 7)
  pub in_time : (n : ℕ) → n < length (items s.artifacts) + 7 → env.clock (w.reads + n) < s.deadline

module _ (S : Store) (run : RunEnv) (env : Env) (role : Role) (s : StageSuccess) (d : S.State)
    (w : World) where
  abbrev InTransaction : (S.State → Type 0) → ℕ → List InvocationRecord → Site S → Type 0
  InTransaction = Along S run env s.deadline w.reads

  -- What is known of the store before its seal is written.
  abbrev Ready : List (String × String) → List String → S.State → Type 0
  Ready promoted refs e =
      (((staged : S.State) × ((start : S.State) × (start ≡ d)
            × Staged S role (items s.artifacts) start staged)
          × (S.commit_staged_artifacts role staged ≡ (ok promoted, e)))
        × (refs_of (keys s.artifacts) promoted ≡ ok refs))
      × (S.check_seal role s.attempt e ≡ ok tt)

  transacted_lem :
      (promoted : List (String × String)) (refs : List String) (kept e : S.State)
      → Ready promoted refs kept
      → S.persist_seal role s.attempt kept ≡ (ok tt, e)
      → S.verify_sealed_stage role e ≡ ok tt
      → Transacted S role s d refs e
  transacted_lem promoted refs kept e (((staged, (f, start, stages), promotes), named), sealable)
        seals verified =
      record {
        staged = staged;
        kept = kept;
        promoted = promoted;
        stages = subst (λ y. Staged S role (items s.artifacts) y staged) start stages;
        promotes = promotes;
        named = named;
        sealable = sealable;
        seals = seals;
        verified = verified;
      }

  -- The last steps of a transaction.
  sealing_lem :
      (promoted : List (String × String)) (refs : List String)
      → Leads S run env s.deadline w.reads
          (InTransaction
            (Ready promoted refs)
            (length (items s.artifacts) + 4)
            (w.records ++ (success_record s ∷ [])))
          (do
            require_deadline S run env s.deadline "before seal persist"
            on_first (S.persist_seal role s.attempt)
            require_deadline S run env s.deadline "before declaring stage success"
            reading (λ (site : Site S). S.verify_sealed_stage role site.0)
            yield refs)
          (λ refs.
            InTransaction
              (Transacted S role s d refs)
              (length (items s.artifacts) + 6)
              (w.records ++ (success_record s ∷ [])))
  sealing_lem promoted refs =
      triple_bind (time_check S run env s.deadline w.reads "before seal persist") λ _.
        triple_bind (store_step S run env s.deadline w.reads (S.persist_seal role s.attempt)) λ _.
          triple_bind (time_check S run env s.deadline w.reads "before declaring stage success")
            λ _.
              triple_bind (store_test S run env s.deadline w.reads (S.verify_sealed_stage role))
                λ _. λ x p. answered (
                  let (kept, ready, seals) = p.stored.0 in
                  record {
                    stored = transacted_lem promoted refs kept x.0 ready seals p.stored.1;
                    read = omega (arith, p.read);
                    early = λ n h. p.early n (omega (arith, h));
                    recorded = p.recorded;
                  })

  counted :
      (D : S.State → Type 0) (k m : ℕ) (records : List InvocationRecord) (x : Site S)
      → k ≡ m
      → InTransaction D k records x
      → InTransaction D m records x
  counted D k m records x e p = subst (λ n. InTransaction D n records x) e p

  commit_stage_transaction_lem :
      Leads S run env s.deadline w.reads
        (InTransaction (λ e. e ≡ d) 0 w.records)
        (commit_stage_transaction S run env role s)
        (λ refs.
          InTransaction
            (Transacted S role s d refs)
            (length (items s.artifacts) + 6)
            (w.records ++ (success_record s ∷ [])))
  unfolding commit_stage_transaction
  commit_stage_transaction_lem =
      triple_bind (time_check S run env s.deadline w.reads "before promoted artifact writes") λ _.
        triple_bind (write_artifacts-Staged S run env s.deadline w.reads role (items s.artifacts))
          λ _.
            triple_bind (time_check S run env s.deadline w.reads "before promoted artifact commit")
              λ _.
                triple_bind
                  (store_step S run env s.deadline w.reads (S.commit_staged_artifacts role))
                  λ promoted.
                    triple_bind
                      (store_test S run env s.deadline w.reads
                        (λ _. refs_of (keys s.artifacts) promoted))
                      λ refs.
                        triple_bind
                          (time_check S run env s.deadline w.reads
                            "before invocation evidence bind")
                          λ _.
                            triple_bind
                              (record_success-Along S run env s.deadline w.reads s
                                (success_record s))
                              λ _.
                                triple_bind
                                  (time_check S run env s.deadline w.reads
                                    "before successful stage sealing")
                                  λ _.
                                    triple_bind
                                      (store_test S run env s.deadline w.reads
                                        (S.check_seal role s.attempt))
                                      λ _. λ x p. sealing_lem promoted refs x (
                                        counted (Ready promoted refs) _
                                          (length (items s.artifacts) + 4) _ x (omega arith) p)

  commit_stage_lem :
      Leads S run env s.deadline w.reads
        (InTransaction (λ e. e ≡ d) 0 w.records)
        (commit_stage S run env role s)
        (λ refs. Committed S env role s d w refs)
  unfolding commit_stage
  commit_stage_lem = triple_bind commit_stage_transaction_lem λ refs.
      triple_bind (time_check S run env s.deadline w.reads "before applying stage success") λ _.
        λ x p. answered (record {
          transacted = p.stored;
          recorded = p.recorded;
          timed = omega (arith, p.read);
          in_time = λ n h. p.early n (omega (arith, h));
        })

  -- A commit that succeeds does every step of the transaction, in this order: it stages the artifacts of
  -- the success one by one, promotes them, and returns the references of the promoted ones by their
  -- names; the tests of the seal pass in the promoted store; the seal is written, and the store that the
  -- commit leaves is the one with the seal, which verify_sealed_stage accepts. It writes one invocation
  -- record, that of the success. It reads the clock once for every artifact and seven times more, and
  -- each of these readings is before the deadline of the stage.
  pub commit_stage-Committed :
      (refs : List String)
      → (commit_stage S run env role s (d, w)).0 ≡ ok refs
      → Committed S env role s d w refs (commit_stage S run env role s (d, w)).1
  commit_stage-Committed refs h =
      after_ok
        (commit_stage_lem (d, w)
          (record {
            stored = refl;
            read = omega arith;
            early = λ n k. absurd (omega (arith, k));
            recorded = refl;
          }))
        h
