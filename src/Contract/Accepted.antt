-- ===== src/Contract/Accepted.antt =====
-- What an accepted contract check guarantees of a response (src/model_council/runner.py).
use model_council_lab.Prelude.{
  String, none, some, ◌∷◌, [], true, false, ◌≡◌, arith, inl, inr, refl, elem, List, Option, eq_iff,
  subst, ◌∙◌, ap,
}
use model_council_lab.Errors.{Result, ok, err, contract_violation, Result-cases}
use model_council_lab.Json.{text, object, Fields, Json, get, keys, Items}
use model_council_lab.Roles.{verifier, reviser, condition_c, Condition, Role, expected_artifacts}
use model_council_lab.Contract.{
  check_artifacts, check_contract, contract_checks, check_structured, caught,
}
use model_council_lab.Findings.{
  Finding, Disposition, validate_findings, material_ids, known_ids, validate_dispositions,
}
use model_council_lab.Findings.Coverage.{count, disposed_ids, validate_dispositions-exact}
use model_council_lab.Structured.{
  Render, minus, all_text, is_empty, require_structured, parse_dispositions, parse_findings,
}

caught-none :
    (r : Role) (known findings : List Finding) (q : Result (List Finding))
    → caught r known q ≡ ok (none, findings)
    → q ≡ ok findings
caught-none r known findings (ok f) h = ground arith
caught-none r known findings (err (contract_violation m)) h = absurd (ground arith)
caught-none r known findings (err e) h = absurd (ground arith)

-- The two halves of an accepted contract.
contract_checks-ok :
    (render : Render) (c : Condition) (r : Role) (response : Fields) (known findings : List Finding)
    → check_contract render c r response known ≡ ok (none, findings)
    → (check_artifacts render r (get "text" response) (get "artifacts" response) ≡ ok tt)
      × (check_structured render c r (get "structured" response) known ≡ ok findings)
unfolding check_contract contract_checks
contract_checks-ok render c r response known findings h =
    let e = caught-none r known findings (contract_checks render c r response known) h in
    ground (arith, e)

minus-elem :
    (k : String) (xs ys : List String)
    → is_empty (minus xs ys) ≡ true
    → elem k xs ≡ true
    → elem k ys ≡ true
unfolding minus elem
minus-elem k [] ys h e = cc
minus-elem k (x ∷ xs) ys h e = ground (arith, eq_iff x k, minus-elem k xs ys)

check_artifacts-exact :
    (render : Render) (r : Role) (t a : Option Json)
    → check_artifacts render r t a ≡ ok tt
    → (fs : Fields) × (a ≡ some (object fs))
      × (all_text fs ≡ true)
      × ((k : String) → elem k (keys fs) ≡ elem k (expected_artifacts r))
unfolding check_artifacts
check_artifacts-exact render r (some (text s)) (some (object fs)) h = (
  fs,
  refl,
  ground arith,
  λ k. ground (
    arith,
    minus-elem k (keys fs) (expected_artifacts r),
    minus-elem k (expected_artifacts r) (keys fs),
  ),
)
check_artifacts-exact render r t a h = absurd (ground arith)

structured-verifier :
    (render : Render) (c : Condition) (t : Option Json) (known findings : List Finding)
    → check_structured render c verifier t known ≡ ok findings
    → (payload : Items) × (require_structured render t "findings" ≡ ok payload)
      × (parse_findings render payload ≡ ok findings)
      × (validate_findings findings ≡ ok tt)
unfolding check_structured
structured-verifier render c t known findings h =
    elim (Result-cases (require_structured render t "findings")) [
      | inr (x, e) ↦ absurd (ground (arith, e))
      | inl (payload, e) ↦ elim (Result-cases (parse_findings render payload)) [
        | inr (x, p) ↦ absurd (ground (arith, e, p))
        | inl (fs, p) ↦ elim (Result-cases (validate_findings fs)) [
          | inr (x, v) ↦ absurd (ground (arith, e, p, v))
          | inl (u, v) ↦
              let same : fs ≡ findings = ground (arith, e, p, v) in
              (payload, e, p ∙ ap ok same, subst (λ x. validate_findings x ≡ ok tt) same v)
        ]
      ]
    ]

structured-reviser :
    (render : Render) (t : Option Json) (known findings : List Finding)
    → check_structured render condition_c reviser t known ≡ ok findings
    → (payload : Items) × (ds : List Disposition) × (require_structured render t "dispositions"
        ≡ ok payload)
      × (parse_dispositions render payload ≡ ok ds)
      × ((k : String) → elem k (material_ids known) ≡ true → count k (disposed_ids ds) ≡ 1)
      × ((k : String) → elem k (known_ids known) ≡ false → count k (disposed_ids ds) ≡ 0)
unfolding check_structured
structured-reviser render t known findings h =
    elim (Result-cases (require_structured render t "dispositions")) [
      | inr (x, e) ↦ absurd (ground (arith, e))
      | inl (payload, e) ↦ elim (Result-cases (parse_dispositions render payload)) [
        | inr (x, p) ↦ absurd (ground (arith, e, p))
        | inl (ds, p) ↦ elim (Result-cases (validate_dispositions known ds)) [
          | inr (x, v) ↦ absurd (ground (arith, e, p, v))
          | inl (u, v) ↦ (
            payload,
            ds,
            e,
            p,
            λ k m. (validate_dispositions-exact known ds k v).0 m,
            λ k m. (validate_dispositions-exact known ds k v).2 m,
          )
        ]
      ]
    ]

-- If the contract of a response is accepted then its artifacts are exactly the role's, each a text; a
-- verifier's findings are well formed; and under condition C the dispositions that a reviser's payload
-- parses to answer every material finding exactly once and name no other id than a finding's.
pub check_contract-accepted :
    (render : Render) (c : Condition) (r : Role) (response : Fields) (known findings : List Finding)
    → check_contract render c r response known ≡ ok (none, findings)
    → ((fs : Fields) × (get "artifacts" response ≡ some (object fs))
        × (all_text fs ≡ true)
        × ((k : String) → elem k (keys fs) ≡ elem k (expected_artifacts r)))
      × (r ≡ verifier
          → (payload : Items) × (require_structured render (get "structured" response) "findings"
              ≡ ok payload)
            × (parse_findings render payload ≡ ok findings)
            × (validate_findings findings ≡ ok tt))
      × (c ≡ condition_c
          → r ≡ reviser
          → (payload : Items) × (ds : List Disposition) × (require_structured render
                (get "structured" response)
                "dispositions"
              ≡ ok payload)
            × (parse_dispositions render payload ≡ ok ds)
            × ((k : String) → elem k (material_ids known) ≡ true → count k (disposed_ids ds) ≡ 1)
            × ((k : String) → elem k (known_ids known) ≡ false → count k (disposed_ids ds) ≡ 0))
check_contract-accepted render c r response known findings h =
    let (a, b) = contract_checks-ok render c r response known findings h in
    (
      check_artifacts-exact render r (get "text" response) (get "artifacts" response) a,
      λ v. structured-verifier render c (get "structured" response) known findings (
          subst (λ x. check_structured render c x (get "structured" response) known ≡ ok findings) v
            b),
      λ u v. structured-reviser render (get "structured" response) known findings (
          subst
            (λ x.
              check_structured render condition_c x (get "structured" response) known ≡ ok findings)
            v
            (subst
              (λ x. check_structured render x r (get "structured" response) known ≡ ok findings) u
              b)),
    )
