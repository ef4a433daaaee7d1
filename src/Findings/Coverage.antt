-- ===== src/Findings/Coverage.antt =====
-- What the validators of src/model_council/types.py guarantee of the ids they accept.

use model_council_lab.Prelude.{
  inl, inr, false, refl, is_blank, All, ◌+◌, ◌≤◌, String, List, [], ◌∷◌, ◌≡◌, ◌||◌, map, str_eq,
  elem, arith, eq_iff, ltb, if◌then◌else◌, suc, ℕ, true, eq_refl, ◌↔◌,
}
use model_council_lab.Errors.{Result-cases, ok}
use model_council_lab.Findings.{
  Disposition, validated, dispose_from, is_decision, none_missing, validate_dispositions, Finding,
  material_ids, known_ids, validate_findings, validate_findings_from,
}

abbrev pub count : String → List String → ℕ
count k [] = 0
count k (x ∷ xs) = let rest = count k xs in if str_eq x k then suc rest else rest

abbrev pub disposed_ids : List Disposition → List String
disposed_ids = map (λ (d : Disposition). d.finding_id)

-- What is known of an id `k` after the loop started with `seen` has accepted `ds`.
record Disposed (k : String) (known seen : List String) (ds : List Disposition) (out : List String)
    : Type 0 where
  once : count k (disposed_ids ds) + (if elem k seen then 1 else 0) ≤ 1
  seen_after : elem k out ≡ (ltb 0 (count k (disposed_ids ds)) || elem k seen)
  is_known : elem k known ≡ false → count k (disposed_ids ds) ≡ 0

dispose_from-Disposed :
    (k : String) (known seen out : List String) (ds : List Disposition)
    → dispose_from known seen ds ≡ ok out
    → Disposed k known seen ds out
unfolding dispose_from validated elem
dispose_from-Disposed k known seen out [] h = ground arith
dispose_from-Disposed k known seen out (d ∷ ds) h =
    ground
      (arith, eq_iff d.finding_id k, dispose_from-Disposed k known (d.finding_id ∷ seen) out ds)

none_missing-elem :
    (k : String) (seen ks : List String)
    → none_missing seen ks ≡ true
    → elem k ks ≡ true
    → elem k seen ≡ true
unfolding none_missing elem
none_missing-elem k seen [] h e = cc
none_missing-elem k seen (x ∷ ks) h e = ground (arith, eq_iff x k, none_missing-elem k seen ks)

-- If the dispositions are accepted then every material finding has exactly one disposition, no id has
-- two, and no disposition names an id that is not a finding's.
pub validate_dispositions-exact :
    (fs : List Finding) (ds : List Disposition) (k : String)
    → validate_dispositions fs ds ≡ ok tt
    → (elem k (material_ids fs) ≡ true → count k (disposed_ids ds) ≡ 1)
      × (count k (disposed_ids ds) ≤ 1)
      × (elem k (known_ids fs) ≡ false → count k (disposed_ids ds) ≡ 0)
unfolding validate_dispositions elem
validate_dispositions-exact fs ds k h = elim (Result-cases (dispose_from (known_ids fs) [] ds)) [
  | inr (x, e) ↦ absurd (ground (arith, e))
  | inl (out, e) ↦
      let d = dispose_from-Disposed k (known_ids fs) [] out ds e in
      (
        λ m. ground (arith, e, d, none_missing-elem k out (material_ids fs)),
        ground (arith, d),
        ground (arith, d),
      )
]

-- Every disposition decides, and says why.
abbrev pub AllValid : List Disposition → Type 0
AllValid = All (λ d. (is_decision d.decision ≡ true) × (is_blank d.rationale ≡ false))

-- The other way round: dispositions that decide and say why, one for each material finding and at
-- most one for any finding, are accepted.
dispose_from-accepts :
    (known seen : List String) (ds : List Disposition)
    → AllValid ds
    → ((k : String) → count k (disposed_ids ds) + (if elem k seen then 1 else 0) ≤ 1)
    → ((k : String) → elem k known ≡ false → count k (disposed_ids ds) ≡ 0)
    → (out : List String) × (dispose_from known seen ds ≡ ok out)
unfolding dispose_from validated elem
dispose_from-accepts known seen [] v once known_only = (seen, refl)
dispose_from-accepts known seen (d ∷ ds) v once known_only =
    let (out, e) =
      dispose_from-accepts known (d.finding_id ∷ seen) ds v.1
        (λ k. ground (arith, once k, eq_iff d.finding_id k))
        (λ k h. ground (arith, known_only k)) in
    (out, ground (arith, e, v, once d.finding_id, known_only d.finding_id, eq_refl d.finding_id))

none_missing-intro :
    (seen ks : List String)
    → ((k : String) → elem k ks ≡ true → elem k seen ≡ true)
    → none_missing seen ks ≡ true
unfolding none_missing elem
none_missing-intro seen [] h = refl
none_missing-intro seen (x ∷ ks) h =
    ground (arith, h x, eq_refl x, none_missing-intro seen ks (λ k e. h k (ground arith)))

-- Dispositions that decide and say why are accepted, if every material finding has one, no id has two
-- and every id is a finding's.
pub validate_dispositions-accepts :
    (fs : List Finding) (ds : List Disposition)
    → AllValid ds
    → ((k : String) → elem k (material_ids fs) ≡ true → count k (disposed_ids ds) ≡ 1)
    → ((k : String) → count k (disposed_ids ds) ≤ 1)
    → ((k : String) → elem k (known_ids fs) ≡ false → count k (disposed_ids ds) ≡ 0)
    → validate_dispositions fs ds ≡ ok tt
unfolding validate_dispositions elem
validate_dispositions-accepts fs ds v material once known_only =
    let (out, e) =
      dispose_from-accepts (known_ids fs) [] ds v (λ k. ground (arith, once k)) known_only in
    let covered =
      none_missing-intro out (material_ids fs)
        (λ k m. ground (arith, material k m, dispose_from-Disposed k (known_ids fs) [] out ds e)) in
    ground (arith, e, covered)

-- What is known after the loop of validate_findings started with `seen` has accepted `fs`.
validate_findings_from-distinct :
    (k : String) (seen : List String) (fs : List Finding)
    → validate_findings_from seen fs ≡ ok tt
    → count k (known_ids fs) + (if elem k seen then 1 else 0) ≤ 1
unfolding validate_findings_from elem
validate_findings_from-distinct k seen [] h = ground arith
validate_findings_from-distinct k seen (f ∷ fs) h =
    ground
      (arith, eq_iff f.finding_id k, validate_findings_from-distinct k (f.finding_id ∷ seen) fs)

-- A finding has an id and says something.
abbrev pub AllStated : List Finding → Type 0
AllStated = All (λ f. (str_eq f.finding_id "" ≡ false) × (is_blank f.description ≡ false))

validate_findings_from-stated :
    (seen : List String) (fs : List Finding) → validate_findings_from seen fs ≡ ok tt → AllStated fs
unfolding validate_findings_from
validate_findings_from-stated seen [] h = tt
validate_findings_from-stated seen (f ∷ fs) h =
    (ground arith, validate_findings_from-stated (f.finding_id ∷ seen) fs (ground arith))

validate_findings_from-accepts :
    (seen : List String) (fs : List Finding)
    → AllStated fs
    → ((k : String) → count k (known_ids fs) + (if elem k seen then 1 else 0) ≤ 1)
    → validate_findings_from seen fs ≡ ok tt
unfolding validate_findings_from elem
validate_findings_from-accepts seen [] v once = refl
validate_findings_from-accepts seen (f ∷ fs) v once =
    let rest =
      validate_findings_from-accepts (f.finding_id ∷ seen) fs v.1
        (λ k. ground (arith, once k, eq_iff f.finding_id k)) in
    ground (arith, rest, v, once f.finding_id, eq_refl f.finding_id)

-- Findings are accepted exactly when each has an id and a description that is not blank, and no id
-- occurs twice.
pub validate_findings_iff :
    (fs : List Finding)
    → (validate_findings fs ≡ ok tt) ↔ (AllStated fs × ((k : String) → count k (known_ids fs) ≤ 1))
unfolding validate_findings elem
validate_findings_iff fs = (
  λ h. (
    validate_findings_from-stated [] fs h,
    λ k. omega (arith, validate_findings_from-distinct k [] fs h),
  ),
  λ p. validate_findings_from-accepts [] fs p.0 (λ k. ground (arith, p.1 k)),
)
