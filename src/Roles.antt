-- ===== src/Roles.antt =====
-- src/model_council/roles.py: the conditions, their stage sequences and the context policy.
-- A role is one of the five strings that the module declares; `role_name` is the string.
pub mod Isolation
use model_council_lab.Prelude.{
  String, Bool, List, Option, some, true, ◌∷◌, [], elem, false, none, take, ◌&&◌, length,
}
use model_council_lab.Errors.{Check, require, err, governance_violation}

pub data Condition : Type 0 where
  condition_a condition_b condition_c : Condition

pub data Role : Type 0 where
  solver verifier reviser draft self_review : Role

abbrev pub role_name : Role → String
role_name solver = "solver"
role_name verifier = "verifier"
role_name reviser = "reviser"
role_name draft = "draft"
role_name self_review = "self_review"

abbrev pub same_role : Role → Role → Bool
same_role solver solver = true
same_role verifier verifier = true
same_role reviser reviser = true
same_role draft draft = true
same_role self_review self_review = true
same_role _ _ = false

-- r == s on tuples of roles
unfoldable pub same_roles : List Role → List Role → Bool
same_roles [] [] = true
same_roles (r ∷ rs) (s ∷ ss) = same_role r s && same_roles rs ss
same_roles _ _ = false

-- CONDITION_STAGES
unfoldable pub condition_stages : Condition → List Role
condition_stages condition_a = solver ∷ []
condition_stages condition_b = draft ∷ self_review ∷ reviser ∷ []
condition_stages condition_c = solver ∷ verifier ∷ reviser ∷ []

-- PRIMARY_ARTIFACT
unfoldable pub primary_artifact : Role → String
primary_artifact solver = "candidate"
primary_artifact verifier = "findings"
primary_artifact reviser = "final_candidate"
primary_artifact draft = "draft"
primary_artifact self_review = "self_review"

-- EXTRA_ARTIFACTS.get(role, ())
unfoldable pub extra_artifacts : Role → List String
extra_artifacts solver = "evidence" ∷ []
extra_artifacts _ = []

-- EXPECTED_ARTIFACTS
unfoldable pub expected_artifacts : Role → List String
unfolding primary_artifact extra_artifacts
expected_artifacts role = primary_artifact role ∷ extra_artifacts role

-- STAGE_OUTPUT_KEYS: artifact name and context key
unfoldable pub stage_output_keys : Role → List (String × String)
stage_output_keys solver = ("candidate", "solver_candidate") ∷ ("evidence", "solver_evidence") ∷ []
stage_output_keys verifier = ("findings", "verifier_findings") ∷ []
stage_output_keys reviser = ("final_candidate", "final_candidate") ∷ []
stage_output_keys draft = ("draft", "draft") ∷ []
stage_output_keys self_review = ("self_review", "self_review") ∷ []

-- ALLOWED_INPUT_KEYS.get((condition, role))
unfoldable pub allowed_input_keys : Condition → Role → Option (List String)
allowed_input_keys condition_a solver = some ("task" ∷ [])
allowed_input_keys condition_b draft = some ("task" ∷ [])
allowed_input_keys condition_b self_review = some ("task" ∷ "draft" ∷ [])
allowed_input_keys condition_b reviser = some ("task" ∷ "draft" ∷ "self_review" ∷ [])
allowed_input_keys condition_c solver = some ("task" ∷ [])
allowed_input_keys condition_c verifier =
    some ("task" ∷ "solver_candidate" ∷ "solver_evidence" ∷ [])
allowed_input_keys condition_c reviser =
    some ("task" ∷ "solver_candidate" ∷ "verifier_findings" ∷ [])
allowed_input_keys _ _ = none

-- provided - allowed is empty
unfoldable pub all_allowed : List String → List String → Bool
all_allowed allowed [] = true
all_allowed allowed (k ∷ ks) = elem k allowed && all_allowed allowed ks

unfoldable pub validate_context : Condition → Role → List String → Check
unfolding all_allowed
validate_context condition role provided = elim (allowed_input_keys condition role) [
  | none ↦ err (governance_violation "no context policy defined")
  | some allowed ↦
      require (all_allowed allowed provided)
        (governance_violation "stage received keys outside its policy")
]

unfoldable pub validate_stage_sequence : Condition → List Role → Check
unfolding same_roles
validate_stage_sequence condition executed =
    require (same_roles executed (take (length executed) (condition_stages condition)))
      (governance_violation "invalid stage order")
