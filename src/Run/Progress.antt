-- ===== src/Run/Progress.antt =====
-- What the loop over the stages (src/model_council/runner.py, `_run_stages`) leaves in the run's state.
use model_council_lab.Prelude.{
  List, all, String, map, ℕ, ◌∷◌, ◌≡◌, false, true, ◌-◌, arith, ◌++◌, ◌+◌, [], ap, refl,
  append_assoc, ◌∙◌, sym,
}
use model_council_lab.Roles.{Condition, Role, condition_stages}
use model_council_lab.Stage.Terminal.{terminal_for_failure, terminal_of, RunStatus}
use model_council_lab.Run.{RunState, StageResult}
use model_council_lab.Stage.{StageFailure, StageStatus, StageSuccess}
use model_council_lab.Run.Results.{
  is_succeeded, Turn, apply_success, record_failure, failure_result, go_on, halt, success_result,
}
use model_council_lab.Run.Results.{succeeded_result}
use model_council_lab.Json.{Fields}

-- The results are those of the roles, in order, and all are successes.
abbrev pub Sealed : List StageResult → List Role → Type 0
Sealed results roles =
    (map (λ (r : StageResult). r.role) results ≡ roles) × (all succeeded_result results ≡ true)

-- the attempts after the first ones
unfoldable pub total_retries : List StageResult → ℕ
total_retries [] = 0
total_retries (r ∷ rs) = (r.attempt - 1) + total_retries rs

-- A run that has succeeded so far: the stages that it has executed are a beginning of the workflow, and
-- `rest` are the others.
pub record InProgress (c : Condition) (rest : List Role) (st : RunState) : Type 0 where
  pub running : is_succeeded st.status ≡ true
  pub in_order : st.executed_roles ++ rest ≡ condition_stages c
  pub sealed : Sealed st.stage_results st.executed_roles
  pub counted : st.retries_used ≡ total_retries st.stage_results
  pub unevaluated : st.evaluation_committed ≡ false

-- A run that a stage ended: the results are those of the executed stages and of the stage that failed.
pub record Stopped (c : Condition) (st : RunState) : Type 0 where
  pub failed_result : StageResult
  pub earlier : List StageResult
  pub unstarted : List Role
  pub failing : is_succeeded st.status ≡ false
  pub in_order : st.executed_roles ++ unstarted ≡ condition_stages c
  pub sealed : Sealed earlier st.executed_roles
  pub results : st.stage_results ≡ earlier ++ (failed_result ∷ [])
  pub counted : st.retries_used ≡ total_retries st.stage_results
  pub unevaluated : st.evaluation_committed ≡ false

-- What the loop has reached: the end of the workflow, or a stage that failed.
pub data Reached (c : Condition) (st : RunState) : Type 0 where
  finished : InProgress c [] st → Reached c st
  failed_at : Stopped c st → Reached c st

-- one stage more
all_snoc :
    (r : StageResult) (rs : List StageResult)
    → succeeded_result r ≡ true
    → all succeeded_result rs ≡ true
    → all succeeded_result (rs ++ (r ∷ [])) ≡ true
all_snoc r [] h k = grind arith
all_snoc r (s ∷ rs) h k = grind (arith, all_snoc r rs)

map_snoc :
    {A B : Type 0} (f : A → B) (xs : List A) (x : A)
    → map f (xs ++ (x ∷ [])) ≡ map f xs ++ (f x ∷ [])
map_snoc f [] x = refl
map_snoc f (y ∷ ys) x = ap (λ zs. f y ∷ zs) (map_snoc f ys x)

total_retries_snoc :
    (r : StageResult) (rs : List StageResult)
    → total_retries (rs ++ (r ∷ [])) ≡ total_retries rs + (r.attempt - 1)
unfolding total_retries
total_retries_snoc r [] = omega arith
total_retries_snoc r (s ∷ rs) = omega (arith, total_retries_snoc r rs)

terminal_of_failing :
    (s : StageStatus) (error : String) → is_succeeded (terminal_of s error) ≡ false
unfolding terminal_of
terminal_of_failing s error = grind arith

pub terminal_for_failure_failing :
    (f : StageFailure) → is_succeeded (terminal_for_failure f) ≡ false
unfolding terminal_for_failure
terminal_for_failure_failing f = terminal_of_failing f.status f.error

-- What one turn leaves: a run that has one stage less to do, or one that the stage ended.
pub data TurnEnd (c : Condition) (rest : List Role) : Turn → RunState → Type 0 where
  advanced :
      {context : Fields} {st : RunState} → InProgress c rest st → TurnEnd c rest (go_on context) st
  halted : {st : RunState} → Stopped c st → TurnEnd c rest halt st

-- A run that an exception left with some stages to do.
abbrev pub Underway : Condition → RunState → Type 0
Underway c st = (rest : List Role) × InProgress c rest st

pub apply_success-InProgress :
    (c : Condition) (role : Role) (rest : List Role) (s : StageSuccess) (refs : List String)
    (st : RunState)
    → InProgress c (role ∷ rest) st
    → InProgress c rest (apply_success c role s refs st)
unfolding apply_success
apply_success-InProgress c role rest s refs st p = record {
  running = p.running;
  in_order = append_assoc st.executed_roles (role ∷ []) rest ∙ p.in_order;
  sealed = (
    rw
        (
          map_snoc (λ (r : StageResult). r.role) st.stage_results (success_result role s refs),
          p.sealed.0,
        )
        refl,
    all_snoc (success_result role s refs) st.stage_results refl p.sealed.1,
  );
  counted =
      ap (λ n. n + (s.attempt - 1)) p.counted
      ∙ sym (total_retries_snoc (success_result role s refs) st.stage_results);
  unevaluated = p.unevaluated;
}

pub record_failure-Stopped :
    (c : Condition) (rest : List Role) (f : StageFailure) (status : RunStatus) (st : RunState)
    → is_succeeded status ≡ false
    → InProgress c rest st
    → Stopped c (record_failure f status st)
record_failure-Stopped c rest f status st h p = record {
  failed_result = failure_result f;
  earlier = st.stage_results;
  unstarted = rest;
  failing = h;
  in_order = p.in_order;
  sealed = p.sealed;
  results = refl;
  counted =
      ap (λ n. n + (f.attempt - 1)) p.counted
      ∙ sym (total_retries_snoc (failure_result f) st.stage_results);
  unevaluated = p.unevaluated;
}
