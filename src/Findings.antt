-- ===== src/Findings.antt =====
-- src/model_council/types.py: findings, dispositions and the validators of a verifier's findings and
-- a reviser's dispositions.
pub mod Coverage
use model_council_lab.Prelude.{
  String, Bool, true, false, List, [], ◌∷◌, ◌≡◌, ◌||◌, ◌&&◌, not, map, str_eq, elem, is_blank,
  if◌then◌else◌,
}
use model_council_lab.Errors.{Check, Result, ok, err, require, contract_violation, ◌>>=◌, ◌>>◌}

pub record Finding : Type 0 where
  pub finding_id : String
  pub description : String
  pub material : Bool

pub record Disposition : Type 0 where
  pub finding_id : String
  pub decision : String
  pub rationale : String

abbrev pub is_decision : String → Bool
is_decision d = str_eq d "accept" || str_eq d "reject"

-- Disposition.validated; the tests that a field is a string are the field's type
unfoldable pub validated : Disposition → Result Disposition
validated d = do
  require (is_decision d.decision) (contract_violation "disposition must be 'accept' or 'reject'")
  require (not (is_blank d.rationale))
      (contract_violation "disposition is missing required rationale")
  ok d

-- The loop of validate_findings, with the ids seen so far.
unfoldable pub validate_findings_from : List String → List Finding → Check
validate_findings_from seen [] = ok tt
validate_findings_from seen (f ∷ fs) = do
  require (not (str_eq f.finding_id ""))
      (contract_violation "verifier finding missing stable finding_id")
  require (not (is_blank f.description)) (contract_violation "finding missing description")
  require (not (elem f.finding_id seen)) (contract_violation "duplicate verifier finding id")
  validate_findings_from (f.finding_id ∷ seen) fs

unfoldable pub validate_findings : List Finding → Check
unfolding validate_findings_from
validate_findings fs = validate_findings_from [] fs

unfoldable pub material_ids : List Finding → List String
material_ids [] = []
material_ids (f ∷ fs) =
    let rest = material_ids fs in if f.material then f.finding_id ∷ rest else rest

abbrev pub known_ids : List Finding → List String
known_ids = map (λ (f : Finding). f.finding_id)

-- The loop of validate_dispositions; it returns the ids seen at its end.
unfoldable pub dispose_from : List String → List String → List Disposition → Result (List String)
dispose_from known seen [] = ok seen
dispose_from known seen (d ∷ ds) = do
  require (elem d.finding_id known) (contract_violation "disposition references unknown finding id")
  require (not (elem d.finding_id seen)) (contract_violation "duplicate disposition for finding")
  checked ← validated d
  dispose_from known (d.finding_id ∷ seen) ds

-- [fid for fid in material_ids if fid not in seen] is empty
unfoldable pub none_missing : List String → List String → Bool
none_missing seen [] = true
none_missing seen (k ∷ ks) = elem k seen && none_missing seen ks

unfoldable pub validate_dispositions : List Finding → List Disposition → Check
unfolding dispose_from none_missing material_ids
validate_dispositions fs ds = do
  seen ← dispose_from (known_ids fs) [] ds
  require (none_missing seen (material_ids fs))
      (contract_violation "material findings without exactly one disposition")
