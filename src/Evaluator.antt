-- ===== src/Evaluator.antt =====
-- src/model_council/evaluator.py: the external evaluator's test of the final candidate. The time and the
-- digest of the configuration are left out of the outcome.
pub mod Markers
use model_council_lab.Prelude.{
  String, ◌∷◌, [], true, false, Bool, List, ◌++◌, if◌then◌else◌, contains, ◌+++◌,
}

pub record EvaluationConfig : Type 0 where
  pub required_markers : List String
  pub prohibited_markers : List String

pub record EvaluationOutcome : Type 0 where
  pub passed : Bool
  pub reasons : List String

-- The two loops that collect reasons.
unfoldable pub missing_reasons : String → List String → List String
missing_reasons candidate [] = []
missing_reasons candidate (m ∷ ms) =
    let rest = missing_reasons candidate ms in
    if contains m candidate then rest else ("missing required marker: " +++ m) ∷ rest

unfoldable pub prohibited_reasons : String → List String → List String
prohibited_reasons candidate [] = []
prohibited_reasons candidate (m ∷ ms) =
    let rest = prohibited_reasons candidate ms in
    if contains m candidate then ("prohibited content present: " +++ m) ∷ rest else rest

-- EvaluationOutcome of the collected reasons: `tuple(reasons) or (…)`
unfoldable pub outcome_of_reasons : List String → EvaluationOutcome
outcome_of_reasons [] = record { passed = true; reasons = "all hidden checks satisfied" ∷ [] }
outcome_of_reasons (r ∷ rs) = record { passed = false; reasons = r ∷ rs }

-- ExternalEvaluator.evaluate
unfoldable pub evaluate : EvaluationConfig → String → EvaluationOutcome
evaluate config candidate = outcome_of_reasons (
    missing_reasons candidate config.required_markers
    ++ prohibited_reasons candidate config.prohibited_markers)
