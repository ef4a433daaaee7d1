-- ===== src/Artifacts/Staged.antt =====
-- The staging of a stage's artifacts, its promotion and its rollback (src/model_council/artifacts.py).
use model_council_lab.Prelude.{
  ◌≡◌, refl, sym, ◌∙◌, ◌∷◌, [], none, List, String, elem, arith, subst, true, ◌++◌, Bool-cases, inl,
  inr, false, ap,
}
use model_council_lab.Errors.{ok, err, Result}
use model_council_lab.Artifacts.{
  Directory, commit_staged_artifacts, staged_files, write_staged, drop_staging, StagedFile,
  files_or_none, kept_if, validate_target, validated_artifact, abort_uncommitted_stage, content_of,
  stage_file, stage_valid, committable, has_file, Artifact, find_artifact, drop_artifacts,
  is_aborted,
}
use model_council_lab.Roles.{Role, expected_artifacts, same_role}
use model_council_lab.Artifacts.Rollback.{
  AreExpected, SameRolledBack, rolled_back, commit_if_lem, same_role_self, drop_staging_again,
}
use model_council_lab.Json.{Json}

-- Only expected files wait in the staging directory of the role.
abbrev IsStaged : Role → Directory → Type 0
IsStaged role d = AreExpected role (files_or_none (staged_files role d.staging))

expected_append :
    (role : Role) (files : List StagedFile) (f : StagedFile)
    → AreExpected role files
    → elem f.0 (expected_artifacts role) ≡ true
    → AreExpected role (files ++ (f ∷ []))
expected_append role [] f h k = (k, tt)
expected_append role (g ∷ files) f (n, h) k = (n, expected_append role files f h k)

stage_file_lem :
    (role : Role) (name content : String) (d : Directory)
    → elem name (expected_artifacts role) ≡ true
    → IsStaged role d
    → SameRolledBack role (stage_file role name content d).1 d
      × IsStaged role (stage_file role name content d).1
unfolding staged_files drop_staging
stage_file_lem role name content d n h =
    elim (Bool-cases (has_file name (files_or_none (staged_files role d.staging)))) [
      | inl t ↦ rw t ((refl, refl, refl, refl, refl, refl, refl), h)
      | inr f ↦
          rw (f, same_role_self role)
            (
              (refl, refl, refl, refl, refl, refl, drop_staging_again role d.staging),
              expected_append role (files_or_none (staged_files role d.staging)) (name, content) h
                  n,
            )
    ]

validate_target-expected :
    (d : Directory) (role : Role) (name n : String)
    → validate_target d role name ≡ ok n
    → elem name (expected_artifacts role) ≡ true
validate_target-expected d role name n h = grind arith

kept_if-ok :
    (r : Result String) (c content : String) → kept_if r c ≡ ok content → (n : String) × (r ≡ ok n)
kept_if-ok (ok n) c content h = (n, refl)
kept_if-ok (err e) c content h = absurd (grind arith)

validated_artifact-expected :
    (d : Directory) (role : Role) (name content : String) (r : Result String)
    → validated_artifact d role name r ≡ ok content
    → elem name (expected_artifacts role) ≡ true
validated_artifact-expected d role name content (err e) h = grind arith
validated_artifact-expected d role name content (ok c) h =
    let (n, k) = kept_if-ok (validate_target d role name) c content h in
    validate_target-expected d role name n k

stage_valid_lem :
    (role : Role) (name : String) (r : Result String) (d : Directory)
    → IsStaged role d
    → ((content : String) → r ≡ ok content → elem name (expected_artifacts role) ≡ true)
    → SameRolledBack role (stage_valid role name r d).1 d
      × IsStaged role (stage_valid role name r d).1
stage_valid_lem role name (err e) d h k = ((refl, refl, refl, refl, refl, refl, refl), h)
stage_valid_lem role name (ok content) d h k = stage_file_lem role name content d (k content refl) h

write_staged_lem :
    (role : Role) (name : String) (content : Json) (d : Directory)
    → IsStaged role d
    → SameRolledBack role (write_staged role name content d).1 d
      × IsStaged role (write_staged role name content d).1
unfolding write_staged
write_staged_lem role name content d h =
    stage_valid_lem role name (validated_artifact d role name (content_of content)) d h
      (λ c k. validated_artifact-expected d role name c (content_of content) k)

-- The writes of a stage, each attempted whatever the others answer.
abbrev pub stage_all : Role → List (String × Json) → Directory → Directory
stage_all role [] d = d
stage_all role ((name, content) ∷ rest) d = stage_all role rest (write_staged role name content d).1

stage_all_lem :
    (role : Role) (files : List (String × Json)) (d : Directory)
    → IsStaged role d
    → (abort_uncommitted_stage role (stage_all role files d) ≡ abort_uncommitted_stage role d)
      × IsStaged role (stage_all role files d)
stage_all_lem role [] d h = (refl, h)
stage_all_lem role ((name, content) ∷ rest) d h =
    let (same, staged) = write_staged_lem role name content d h in
    let (back, k) = stage_all_lem role rest (write_staged role name content d).1 staged in
    (back ∙ rolled_back role (write_staged role name content d).1 d same, k)

same_role-same : (r s : Role) → same_role r s ≡ true → r ≡ s
same_role-same r s h = grind arith

same_role_sym : (r s : Role) → same_role r s ≡ false → same_role s r ≡ false
same_role_sym r s h = grind arith

-- An artifact that is rolled back is none of another role's.
is_aborted_other :
    (r role : Role) (a : Artifact)
    → same_role r role ≡ false
    → is_aborted role a ≡ true
    → same_role a.role r ≡ false
is_aborted_other r role a h k =
    let same : a.role ≡ role = same_role-same a.role role (ground (arith, k)) in
    rw same (same_role_sym r role h)

find_artifact-drop_artifacts :
    (r role : Role) (name : String) (xs : List Artifact)
    → same_role r role ≡ false
    → find_artifact r name (drop_artifacts role xs) ≡ find_artifact r name xs
unfolding find_artifact drop_artifacts
find_artifact-drop_artifacts r role name [] h = refl
find_artifact-drop_artifacts r role name (a ∷ rest) h = elim (Bool-cases (is_aborted role a)) [
  | inl t ↦ rw (t, is_aborted_other r role a h t) (find_artifact-drop_artifacts r role name rest h)
  | inr f ↦ rw (f, find_artifact-drop_artifacts r role name rest h) refl
]

-- The files of another role after a rollback.
abort_uncommitted_stage-find_artifact :
    (r role : Role) (name : String) (d : Directory)
    → same_role r role ≡ false
    → find_artifact r name (abort_uncommitted_stage role d).artifacts
      ≡ find_artifact r name d.artifacts
unfolding abort_uncommitted_stage
abort_uncommitted_stage-find_artifact r role name d h =
    find_artifact-drop_artifacts r role name d.artifacts h

-- A stage that is rolled back leaves nothing: whichever artifacts are staged and whether the promotion
-- is complete, refused, or stopped at a file that was there, the directory after the rollback is the
-- one that a rollback at the start gives, where nothing was staged for the role; and every artifact of
-- another role is found as it was at the start.
pub abort_uncommitted_stage-commit_staged_artifacts :
    (role : Role) (files : List (String × Json)) (d : Directory) (other : Role) (name : String)
    → staged_files role d.staging ≡ none
    → same_role other role ≡ false
    → (abort_uncommitted_stage role (commit_staged_artifacts role (stage_all role files d)).1
        ≡ abort_uncommitted_stage role d)
      × (find_artifact other name
            (abort_uncommitted_stage role
              (commit_staged_artifacts role (stage_all role files d)).1).artifacts
          ≡ find_artifact other name d.artifacts)
unfolding commit_staged_artifacts
abort_uncommitted_stage-commit_staged_artifacts role files d other name h o =
    let start : IsStaged role d = subst (λ f. AreExpected role (files_or_none f)) (sym h) tt in
    let (same, staged) = stage_all_lem role files d start in
    let after = stage_all role files d in
    let back =
      rolled_back role (commit_staged_artifacts role after).1 after
        (commit_if_lem role (committable after role) after staged)
      ∙ same in
    (
      back,
      ap (λ (e : Directory). find_artifact other name e.artifacts) back
          ∙ abort_uncommitted_stage-find_artifact other role name d o,
    )
