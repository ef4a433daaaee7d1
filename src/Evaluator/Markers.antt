-- ===== src/Evaluator/Markers.antt =====
-- When the external evaluator passes a candidate (src/model_council/evaluator.py).
use model_council_lab.Prelude.{
  String, ◌∷◌, [], true, false, ◌≡◌, arith, refl, inl, inr, List, elem, ◌++◌, ◌↔◌, contains,
  Bool-cases, eq_refl, eq_iff, ap,
}
use model_council_lab.Evaluator.{
  evaluate, missing_reasons, outcome_of_reasons, prohibited_reasons, EvaluationConfig,
}

missing-none :
    (candidate : String) (ms : List String)
    → missing_reasons candidate ms ≡ []
    → (m : String) → elem m ms ≡ true
    → contains m candidate ≡ true
unfolding missing_reasons elem
missing-none candidate [] h m e = absurd (ground arith)
missing-none candidate (k ∷ ms) h m e = elim (Bool-cases (contains k candidate)) [
  | inl y ↦ ground (
    arith,
    y,
    eq_iff k m,
    ap (λ t. contains t candidate),
    missing-none candidate ms (ground (arith, y)) m,
  )
  | inr n ↦ absurd (ground (arith, n))
]

missing-intro :
    (candidate : String) (ms : List String)
    → ((m : String) → elem m ms ≡ true → contains m candidate ≡ true)
    → missing_reasons candidate ms ≡ []
unfolding missing_reasons elem
missing-intro candidate [] h = refl
missing-intro candidate (k ∷ ms) h =
    ground (arith, h k, eq_refl k, missing-intro candidate ms (λ m e. h m (ground (arith, e))))

prohibited-none :
    (candidate : String) (ms : List String)
    → prohibited_reasons candidate ms ≡ []
    → (m : String) → elem m ms ≡ true
    → contains m candidate ≡ false
unfolding prohibited_reasons elem
prohibited-none candidate [] h m e = absurd (ground arith)
prohibited-none candidate (k ∷ ms) h m e = elim (Bool-cases (contains k candidate)) [
  | inr n ↦ ground (
    arith,
    n,
    eq_iff k m,
    ap (λ t. contains t candidate),
    prohibited-none candidate ms (ground (arith, n)) m,
  )
  | inl y ↦ absurd (ground (arith, y))
]

prohibited-intro :
    (candidate : String) (ms : List String)
    → ((m : String) → elem m ms ≡ true → contains m candidate ≡ false)
    → prohibited_reasons candidate ms ≡ []
unfolding prohibited_reasons elem
prohibited-intro candidate [] h = refl
prohibited-intro candidate (k ∷ ms) h =
    ground (arith, h k, eq_refl k, prohibited-intro candidate ms (λ m e. h m (ground (arith, e))))

passed_iff : (rs : List String) → ((outcome_of_reasons rs).passed ≡ true) ↔ (rs ≡ [])
unfolding outcome_of_reasons
passed_iff [] = (λ h. refl, λ h. refl)
passed_iff (r ∷ rs) = (λ h. absurd (ground arith), λ h. absurd (ground arith))

no_reasons : (xs ys : List String) → xs ++ ys ≡ [] → (xs ≡ []) × (ys ≡ [])
no_reasons [] ys h = (refl, h)
no_reasons (x ∷ xs) ys h = absurd (ground arith)

-- A candidate passes exactly when every required marker occurs in it and no prohibited marker does.
pub evaluate-passed_iff :
    (config : EvaluationConfig) (candidate : String)
    → ((evaluate config candidate).passed ≡ true) ↔ (
        ((m : String) → elem m config.required_markers ≡ true → contains m candidate ≡ true)
        × ((m : String) → elem m config.prohibited_markers ≡ true → contains m candidate ≡ false))
unfolding evaluate
evaluate-passed_iff config candidate =
    let both = passed_iff (
      missing_reasons candidate config.required_markers
      ++ prohibited_reasons candidate config.prohibited_markers) in
    (
      λ h.
          let (a, b) = no_reasons _ _ (both.0 h) in
          (
            missing-none candidate config.required_markers a,
            prohibited-none candidate config.prohibited_markers b,
          ),
      λ p. both.1 (
          rw
            (
              missing-intro candidate config.required_markers p.0,
              prohibited-intro candidate config.prohibited_markers p.1,
            )
            refl),
    )
