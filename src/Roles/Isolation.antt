-- ===== src/Roles/Isolation.antt =====
-- The role isolation of src/model_council/roles.py: what a stage may see, and in which order.
use model_council_lab.Prelude.{
  String, List, elem, ◌++◌, none, ◌∷◌, [], map, ◌≡◌, some, ◌≢◌, true, arith, eq_iff, eq_refl, take,
  length, ◌↔◌, Option-cases, inl, inr, refl,
}
use model_council_lab.Roles.{
  condition_a, condition_b, condition_c, Role, Condition, condition_stages, allowed_input_keys,
  all_allowed, stage_output_keys, same_role, same_roles, validate_context, validate_stage_sequence,
}
use model_council_lab.Errors.{ok}

-- The context keys that a list of finished stages has produced, the task's among them.
unfoldable pub produced : List Role → List String
produced [] = "task" ∷ []
produced (r ∷ rs) = map (λ (p : String × String). p.1) (stage_output_keys r) ++ produced rs

-- A stage's keys under the policy; none if there is no policy.
abbrev pub policy_keys : Condition → Role → List String
policy_keys c r = elim (allowed_input_keys c r) [ none ↦ [] | some ks ↦ ks ]

-- Whatever the condition and however many stages have finished, the next stage has a policy and every
-- key that the policy lets it see is the task or was produced by a finished stage.
pub policy_keys-produced :
    (c : Condition) (executed rest : List Role) (r : Role)
    → executed ++ (r ∷ rest) ≡ condition_stages c
    → (allowed_input_keys c r ≢ none) × (all_allowed (produced executed) (policy_keys c r) ≡ true)
unfolding condition_stages allowed_input_keys all_allowed elem produced stage_output_keys
policy_keys-produced condition_a [] rest r h = grind arith
policy_keys-produced condition_a (x ∷ xs) rest r h = grind arith
policy_keys-produced condition_b [] rest r h = grind arith
policy_keys-produced condition_b (x ∷ []) rest r h = grind arith
policy_keys-produced condition_b (x ∷ y ∷ []) rest r h = grind arith
policy_keys-produced condition_b (x ∷ y ∷ z ∷ more) rest r h = grind arith
policy_keys-produced condition_c [] rest r h = grind arith
policy_keys-produced condition_c (x ∷ []) rest r h = grind arith
policy_keys-produced condition_c (x ∷ y ∷ []) rest r h = grind arith
policy_keys-produced condition_c (x ∷ y ∷ z ∷ more) rest r h = grind arith

all_allowed-elem :
    (allowed ks : List String) (k : String)
    → all_allowed allowed ks ≡ true
    → elem k ks ≡ true
    → elem k allowed ≡ true
unfolding all_allowed elem
all_allowed-elem allowed [] k h e = cc
all_allowed-elem allowed (j ∷ ks) k h e = ground (arith, eq_iff j k, all_allowed-elem allowed ks k)

all_allowed-intro :
    (allowed ks : List String)
    → ((k : String) → elem k ks ≡ true → elem k allowed ≡ true)
    → all_allowed allowed ks ≡ true
unfolding all_allowed elem
all_allowed-intro allowed [] h = refl
all_allowed-intro allowed (j ∷ ks) h =
    ground (arith, h j, eq_refl j, all_allowed-intro allowed ks (λ k e. h k (ground arith)))

-- A context is accepted exactly when the condition and role have a policy and every key supplied is
-- one of the policy's.
pub validate_context_iff :
    (c : Condition) (r : Role) (ks : List String)
    → (validate_context c r ks ≡ ok tt) ↔ (
        (allowed_input_keys c r ≢ none)
        × ((k : String) → elem k ks ≡ true → elem k (policy_keys c r) ≡ true))
unfolding validate_context
validate_context_iff c r ks = elim (Option-cases (allowed_input_keys c r)) [
  | inl e ↦ (λ h. absurd (ground (arith, e)), λ p. absurd (p.0 e))
  | inr (allowed, e) ↦ (
    λ h. (ground (arith, e), λ k m. ground (arith, e, all_allowed-elem allowed ks k)),
    λ p. ground (arith, e, all_allowed-intro allowed ks (λ k m. ground (arith, e, p.1 k m))),
  )
]

same_role-eq : (r s : Role) → same_role r s ≡ true → r ≡ s
same_role-eq r s h = ground arith

same_role_refl : (r : Role) → same_role r r ≡ true
same_role_refl r = ground arith

prefix_of_same :
    (executed stages : List Role)
    → same_roles executed (take (length executed) stages) ≡ true
    → (rest : List Role) × (executed ++ rest ≡ stages)
unfolding same_roles
prefix_of_same [] stages h = (stages, refl)
prefix_of_same (r ∷ rs) [] h = absurd (ground arith)
prefix_of_same (r ∷ rs) (s ∷ ss) h =
    let (rest, e) = prefix_of_same rs ss (ground arith) in
    (rest, cc (e, same_role-eq r s (ground arith)))

same_of_prefix :
    (executed rest : List Role)
    → same_roles executed (take (length executed) (executed ++ rest)) ≡ true
unfolding same_roles
same_of_prefix [] rest = refl
same_of_prefix (r ∷ rs) rest = ground (arith, same_role_refl r, same_of_prefix rs rest)

-- An executed sequence of stages is accepted exactly when it is a prefix of the condition's workflow.
pub validate_stage_sequence_iff :
    (c : Condition) (executed : List Role)
    → (validate_stage_sequence c executed ≡ ok tt)
      ↔ ((rest : List Role) × (executed ++ rest ≡ condition_stages c))
unfolding validate_stage_sequence
validate_stage_sequence_iff c executed = (
  λ h. prefix_of_same executed (condition_stages c) (ground arith),
  λ p. rw (← p.1) (ground (arith, same_of_prefix executed p.0)),
)
