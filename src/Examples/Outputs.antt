-- ===== src/Examples/Outputs.antt =====
-- The theorems on raw evidence at concrete texts.
use model_council_lab.Evidence.{
  Bytes, RawEvidence, bound_raw_evidence, decodes, truncate_utf8_prefix, minimal_truncation_marker,
}
use model_council_lab.Prelude.{◌≡◌, refl, ◌≤◌, length, true, ◌++◌, some, ◌+◌, ◌∷◌, [], arith}
use model_council_lab.Evidence.Verified.{
  verify_stored, verify_raw_evidence_truncation-cut, marker_text_refused,
}
use model_council_lab.Errors.{ok, err, integrity_violation}
use model_council_lab.Evidence.Cut.{truncate_utf8_prefix-cut}
use model_council_lab.Evidence.Bounded.{evidence_of}
use model_council_lab.Evidence.Stored.{Evidences, bound_raw_evidence-Evidences}

-- "aé€" and an emoji: characters of one, two, three and four bytes
abbrev mixed : Bytes
mixed = 97 ∷ 195 ∷ 169 ∷ 226 ∷ 130 ∷ 172 ∷ 240 ∷ 159 ∷ 152 ∷ 128 ∷ []

bound_raw_evidence-Evidences_example :
    (evidence : RawEvidence) × (bound_raw_evidence (some (ok mixed)) 8 ≡ ok evidence)
    × Evidences mixed 8 evidence
unfolding decodes
bound_raw_evidence-Evidences_example = bound_raw_evidence-Evidences mixed 8 refl (omega arith)

truncate_utf8_prefix-cut_example :
    (decodes (truncate_utf8_prefix mixed 8).0 ≡ true)
    × (length (truncate_utf8_prefix mixed 8).0 ≤ 8)
    × (8 ≤ length (truncate_utf8_prefix mixed 8).0 + 3)
unfolding decodes
truncate_utf8_prefix-cut_example = truncate_utf8_prefix-cut mixed 8 refl (omega arith)

verify_raw_evidence_truncation-cut_example : verify_stored mixed 8 ≡ ok tt
verify_raw_evidence_truncation-cut_example =
    verify_raw_evidence_truncation-cut mixed 8 (omega arith) (omega arith)

marker_text_refused_example :
    (bound_raw_evidence (some (ok (minimal_truncation_marker ++ mixed))) 100
      ≡ ok (evidence_of (minimal_truncation_marker ++ mixed) 100))
    × (verify_stored (minimal_truncation_marker ++ mixed) 100
        ≡ err (
            integrity_violation
              "raw evidence truncation metadata does not match the stored representation"))
marker_text_refused_example = marker_text_refused mixed 100 (omega arith)
