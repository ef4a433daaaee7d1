-- ===== src/Examples/Stores.antt =====
-- The theorem on the rollback of a stage at a concrete directory.
use model_council_lab.Security.{
  safe_identifier, matches_identifier, is_alphanumeric, matches_tail, is_identifier_code,
}
use model_council_lab.Roles.{expected_artifacts, solver, verifier, reviser}
use model_council_lab.Prelude.{elem, ◌≡◌, refl, [], ◌∷◌, List, String}
use model_council_lab.Artifacts.{
  member, write_staged, has_file, promote_files, sorted, insert, find_artifact, Directory,
  model_artifact, invocation_evidence, commit_staged_artifacts, staged_files,
  abort_uncommitted_stage, artifact,
}
use model_council_lab.Artifacts.Staged.{stage_all, abort_uncommitted_stage-commit_staged_artifacts}
use model_council_lab.Errors.{ok}
use model_council_lab.Json.{Json, text}

-- a sealed solver stage, and a verifier stage with an attempt on record
abbrev second_stage : Directory
second_stage = record {
  allowed_roles = solver ∷ verifier ∷ reviser ∷ [];
  sealed = solver ∷ [];
  staging = [];
  artifacts = artifact solver ("candidate", "x") ∷ artifact solver ("evidence", "y") ∷ [];
  authoritative = artifact solver ("candidate", "x") ∷ artifact solver ("evidence", "y") ∷ [];
  seals = solver ∷ [];
  manifest =
      model_artifact (artifact solver ("candidate", "x"))
      ∷ model_artifact (artifact solver ("evidence", "y"))
      ∷ invocation_evidence verifier 1
      ∷ [];
}

-- the findings are staged twice, so that the second is refused
abbrev verifier_files : List (String × Json)
verifier_files = ("findings", text "f") ∷ ("findings", text "g") ∷ []

abort_uncommitted_stage-commit_staged_artifacts_example :
    (abort_uncommitted_stage verifier
        (commit_staged_artifacts verifier (stage_all verifier verifier_files second_stage)).1
      ≡ abort_uncommitted_stage verifier second_stage)
    × (find_artifact solver "candidate"
          (abort_uncommitted_stage verifier
            (commit_staged_artifacts verifier
              (stage_all verifier verifier_files second_stage)).1).artifacts
        ≡ find_artifact solver "candidate" second_stage.artifacts)
unfolding staged_files
abort_uncommitted_stage-commit_staged_artifacts_example =
    abort_uncommitted_stage-commit_staged_artifacts verifier verifier_files second_stage solver
      "candidate" refl refl

-- the promotion itself succeeds
verifier_promotes :
    (commit_staged_artifacts verifier (stage_all verifier verifier_files second_stage)).0
    ≡ ok (("findings", "verifier/findings.md") ∷ [])
unfolding commit_staged_artifacts staged_files member write_staged elem expected_artifacts
    safe_identifier matches_identifier is_alphanumeric matches_tail is_identifier_code has_file
    promote_files sorted insert find_artifact
verifier_promotes = refl
