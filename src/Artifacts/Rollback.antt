-- ===== src/Artifacts/Rollback.antt =====
-- What a rollback of a stage (src/model_council/artifacts.py, `abort_uncommitted_stage`) takes back of a
-- promotion.
use model_council_lab.Prelude.{
  ◌≡◌, refl, All, ◌∙◌, List, elem, true, ◌∷◌, [], arith, Bool-cases, ◌++◌, ◌+++◌, inl, inr, Option,
  String, none,
}
use model_council_lab.Artifacts.{
  drop_artifacts, drop_entries, insert, sorted, Directory, StagedFile, Artifact, ManifestEntry,
  drop_staging, is_aborted, is_model_entry, str_leb, abort_uncommitted_stage, is_there,
  files_or_none, find_artifact, after_promotion, artifact, promote_staged, staged_files, commit_if,
  ok, promoted_into, some, err, model_artifact, promote_files,
}
use model_council_lab.Roles.{Role, same_role, expected_artifacts}
use model_council_lab.Errors.{Check, Result}

-- The names that write_staged lets into the staging directory of a role.
abbrev pub AreExpected : Role → List StagedFile → Type 0
AreExpected role files = All (λ (f : StagedFile). elem f.0 (expected_artifacts role) ≡ true) files

insert-AreExpected :
    (role : Role) (f : StagedFile) (files : List StagedFile)
    → elem f.0 (expected_artifacts role) ≡ true
    → AreExpected role files
    → AreExpected role (insert f files)
unfolding insert
insert-AreExpected role (n, c) [] h k = (h, tt)
insert-AreExpected role (n, c) ((m, e) ∷ rest) h (m_expected, k) =
    elim (Bool-cases (str_leb (n +++ ".md") (m +++ ".md"))) [
      | inl t ↦ rw t (h, (m_expected, k))
      | inr f ↦ rw f (m_expected, insert-AreExpected role (n, c) rest h k)
    ]

sorted-AreExpected :
    (role : Role) (files : List StagedFile)
    → AreExpected role files
    → AreExpected role (sorted files)
unfolding sorted
sorted-AreExpected role [] k = tt
sorted-AreExpected role (f ∷ rest) (h, k) =
    insert-AreExpected role f (sorted rest) h (sorted-AreExpected role rest k)

pub same_role_self : (role : Role) → same_role role role ≡ true
same_role_self role = grind arith

-- What is dropped of a list with one entry more at its end.
drop_artifacts_last :
    (role : Role) (xs : List Artifact) (a : Artifact)
    → is_aborted role a ≡ true
    → drop_artifacts role (xs ++ (a ∷ [])) ≡ drop_artifacts role xs
unfolding drop_artifacts
drop_artifacts_last role [] a h = rw h refl
drop_artifacts_last role (x ∷ xs) a h = rw (drop_artifacts_last role xs a h) refl

drop_entries_last :
    (role : Role) (xs : List ManifestEntry) (e : ManifestEntry)
    → is_model_entry role e ≡ true
    → drop_entries role (xs ++ (e ∷ [])) ≡ drop_entries role xs
unfolding drop_entries
drop_entries_last role [] e h = rw h refl
drop_entries_last role (x ∷ xs) e h = rw (drop_entries_last role xs e h) refl

-- Two directories that a rollback of the role makes one, but for the staging directories.
abbrev pub SameRolledBack : Role → Directory → Directory → Type 0
SameRolledBack role d e =
    (drop_artifacts role d.artifacts ≡ drop_artifacts role e.artifacts)
    × (drop_artifacts role d.authoritative ≡ drop_artifacts role e.authoritative)
    × (drop_entries role d.manifest ≡ drop_entries role e.manifest)
    × (d.allowed_roles ≡ e.allowed_roles)
    × (d.sealed ≡ e.sealed)
    × (d.seals ≡ e.seals)
    × (drop_staging role d.staging ≡ drop_staging role e.staging)

promote_files-SameRolledBack :
    (role : Role) (files : List StagedFile) (d : Directory)
    → AreExpected role files
    → SameRolledBack role (promote_files role files d).1 d
unfolding promote_files
promote_files-SameRolledBack role [] d h = (refl, refl, refl, refl, refl, refl, refl)
promote_files-SameRolledBack role ((name, content) ∷ rest) d (n, h) =
    elim (Bool-cases (is_there (find_artifact role name d.artifacts))) [
      | inl t ↦ rw t (refl, refl, refl, refl, refl, refl, refl)
      | inr f ↦ rw f (
          let a : Artifact = artifact role (name, content) in
          let gone : is_aborted role a ≡ true = rw (same_role_self role, n) refl in
          let (i, j, k, r, l, m, o) =
            promote_files-SameRolledBack role rest (promoted_into a d) h in
          (
            i ∙ drop_artifacts_last role d.artifacts a gone,
            j ∙ drop_artifacts_last role d.authoritative a gone,
            k ∙ drop_entries_last role d.manifest (model_artifact a) (same_role_self role),
            r,
            l,
            m,
            o,
          ))
    ]

pub drop_staging_again :
    (role : Role) (xs : List (Role × List StagedFile))
    → drop_staging role (drop_staging role xs) ≡ drop_staging role xs
unfolding drop_staging
drop_staging_again role [] = refl
drop_staging_again role ((r, files) ∷ rest) = elim (Bool-cases (same_role r role)) [
  | inl t ↦ rw t (drop_staging_again role rest)
  | inr f ↦ rw (f, f, drop_staging_again role rest) refl
]

after_promotion_lem :
    (role : Role) (r : Result (List (String × String))) (x d : Directory)
    → SameRolledBack role x d
    → SameRolledBack role (after_promotion role (r, x)).1 d
after_promotion_lem role (ok refs) x d (i, j, k, r, l, m, o) =
    (i, j, k, r, l, m, drop_staging_again role x.staging ∙ o)
after_promotion_lem role (err e) x d h = h

promote_staged_lem :
    (role : Role) (files : Option (List StagedFile)) (d : Directory)
    → AreExpected role (files_or_none files)
    → SameRolledBack role (promote_staged role files d).1 d
promote_staged_lem role none d h = (refl, refl, refl, refl, refl, refl, refl)
promote_staged_lem role (some []) d h = (refl, refl, refl, refl, refl, refl, refl)
promote_staged_lem role (some (f ∷ files)) d h =
    let loop = promote_files role (sorted (f ∷ files)) d in
    after_promotion_lem role loop.0 loop.1 d (
      promote_files-SameRolledBack role (sorted (f ∷ files)) d
        (sorted-AreExpected role (f ∷ files) h))

pub commit_if_lem :
    (role : Role) (r : Check) (d : Directory)
    → AreExpected role (files_or_none (staged_files role d.staging))
    → SameRolledBack role (commit_if role r d).1 d
commit_if_lem role (ok t) d h = promote_staged_lem role (staged_files role d.staging) d h
commit_if_lem role (err e) d h = (refl, refl, refl, refl, refl, refl, refl)

pub rolled_back :
    (role : Role) (x d : Directory)
    → SameRolledBack role x d
    → abort_uncommitted_stage role x ≡ abort_uncommitted_stage role d
unfolding abort_uncommitted_stage
rolled_back role x d (i, j, k, r, l, m, o) = rw (i, j, k, r, l, m, o) refl
