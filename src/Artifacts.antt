-- ===== src/Artifacts.antt =====
-- The artifacts of the stages in `ArtifactStore` (src/model_council/artifacts.py): staging, promotion,
-- rollback and reading. The content of an artifact stands for its digest and its size; failures of the
-- file system and the times of writing are left out, and a text is written as it is.
pub mod Rollback
pub mod Staged
use Prim.Native.Char.{code}
use model_council_lab.Errors.{◌>>◌, Result, Check, ok, err, require, governance_violation}
use model_council_lab.Action.{Action}
use model_council_lab.Prelude.{
  Bool, true, false, none, some, List, [], ◌∷◌, ◌++◌, String, ◌+++◌, not, ◌&&◌, if◌then◌else◌,
  str_eq, elem, ltb, ◌==◌, Option, ℕ,
}
use model_council_lab.Roles.{Role, same_role, expected_artifacts, role_name}
use model_council_lab.Security.{safe_identifier}
use model_council_lab.Json.{Json, text}

-- A file <role>/<name>.md, or the hash that the active run keeps of it.
pub record Artifact : Type 0 where
  pub role : Role
  pub name : String
  pub content : String

pub data ManifestEntry : Type 0 where
  model_artifact : Artifact → ManifestEntry
  invocation_evidence : Role → ℕ → ManifestEntry

abbrev pub StagedFile : Type 0
StagedFile = String × String

-- The run directory, with what the store keeps in memory.
pub record Directory : Type 0 where
  pub allowed_roles : List Role
  pub sealed : List Role
  pub staging : List (Role × List StagedFile)
  pub artifacts : List Artifact
  pub authoritative : List Artifact
  pub seals : List Role
  pub manifest : List ManifestEntry

unfoldable pub member : Role → List Role → Bool
member role [] = false
member role (r ∷ rs) = if same_role r role then true else member role rs

unfoldable pub remove : Role → List Role → List Role
remove role [] = []
remove role (r ∷ rs) = let rest = remove role rs in if same_role r role then rest else r ∷ rest

-- the files in .uncommitted/<role>, if the directory exists
unfoldable pub staged_files : Role → List (Role × List StagedFile) → Option (List StagedFile)
staged_files role [] = none
staged_files role ((r, files) ∷ rest) =
    if same_role r role then some files else staged_files role rest

unfoldable pub drop_staging : Role → List (Role × List StagedFile) → List (Role × List StagedFile)
drop_staging role [] = []
drop_staging role ((r, files) ∷ rest) =
    let others = drop_staging role rest in if same_role r role then others else (r, files) ∷ others

unfoldable pub has_file : String → List StagedFile → Bool
has_file name [] = false
has_file name ((n, content) ∷ rest) = if str_eq n name then true else has_file name rest

-- the content of <role>/<name>.md
unfoldable pub find_artifact : Role → String → List Artifact → Option String
find_artifact role name [] = none
find_artifact role name (a ∷ rest) =
    if same_role a.role role && str_eq a.name name
    then some a.content
    else find_artifact role name rest

abbrev pub is_there : Option String → Bool
is_there none = false
is_there (some content) = true

abbrev pub content_of : Json → Result String
content_of (text s) = ok s
content_of _ = err (governance_violation "artifact content must be a string")

-- _validated_artifact_bytes, after the test of the type; the names of roles are constants that
-- safe_identifier accepts
abbrev pub validate_target : Directory → Role → String → Result String
validate_target d role name = do
  require (member role d.allowed_roles)
      (governance_violation "role is not part of the condition; write rejected")
  require (not (member role d.sealed))
      (governance_violation "stage is sealed; previous-stage artifacts are immutable")
  require (elem name (expected_artifacts role))
      (governance_violation "role may only write its expected artifacts")
  safe_identifier name

abbrev pub kept_if : Result String → String → Result String
kept_if (err e) content = err e
kept_if (ok name) content = ok content

abbrev pub validated_artifact : Directory → Role → String → Result String → Result String
validated_artifact d role name (err e) = err e
validated_artifact d role name (ok content) = kept_if (validate_target d role name) content

abbrev pub files_or_none : Option (List StagedFile) → List StagedFile
files_or_none none = []
files_or_none (some files) = files

abbrev pub stage_file : Role → String → String → Action Directory Unit
stage_file role name content d =
    let files = files_or_none (staged_files role d.staging) in
    if has_file name files
    then (
      err (governance_violation "staged artifact already exists for stage; it is write-once"),
      d,
    )
    else (
      ok tt,
      record d { staging = (role, files ++ ((name, content) ∷ [])) ∷ drop_staging role d.staging },
    )

abbrev pub stage_valid : Role → String → Result String → Action Directory Unit
stage_valid role name (err e) d = (err e, d)
stage_valid role name (ok content) d = stage_file role name content d

-- write_staged
unfoldable pub write_staged : Role → String → Json → Action Directory Unit
write_staged role name content d =
    stage_valid role name (validated_artifact d role name (content_of content)) d

-- The order of the paths of the staged files.
unfoldable pub str_leb : String → String → Bool
str_leb String.[] t = true
str_leb (String.◌∷◌ c s) String.[] = false
str_leb (String.◌∷◌ c s) (String.◌∷◌ d t) =
    if code c == code d then str_leb s t else ltb (code c) (code d)

unfoldable pub insert : StagedFile → List StagedFile → List StagedFile
insert (n, c) [] = (n, c) ∷ []
insert (n, c) ((m, e) ∷ rest) =
    let later = insert (n, c) rest in
    if str_leb (n +++ ".md") (m +++ ".md") then (n, c) ∷ ((m, e) ∷ rest) else (m, e) ∷ later

unfoldable pub sorted : List StagedFile → List StagedFile
sorted [] = []
sorted (f ∷ rest) = insert f (sorted rest)

abbrev pub artifact : Role → StagedFile → Artifact
artifact role (name, content) = record { role = role; name = name; content = content }

-- The write of one promoted file, with _record_committed_artifact.
abbrev pub promoted_into : Artifact → Directory → Directory
promoted_into a d = record d {
  artifacts = d.artifacts ++ (a ∷ []);
  authoritative = d.authoritative ++ (a ∷ []);
  manifest = d.manifest ++ (model_artifact a ∷ []);
}

-- The loop of commit_staged_artifacts: the references, by name.
unfoldable pub promote_files : Role → List StagedFile → Action Directory (List (String × String))
promote_files role [] d = (ok [], d)
promote_files role ((name, content) ∷ rest) d =
    let (promoted, after) =
      promote_files role rest (promoted_into (artifact role (name, content)) d) in
    if is_there (find_artifact role name d.artifacts)
    then (err (governance_violation "artifact already exists for stage; it is write-once"), d)
    else (
      elim promoted [
        | err e ↦ err e
        | ok refs ↦ ok ((name, role_name role +++ ("/" +++ (name +++ ".md"))) ∷ refs)
      ],
      after,
    )

-- shutil.rmtree(staging), where the loop has succeeded
abbrev pub after_promotion :
    Role → Result (List (String × String)) × Directory → Result (List (String × String)) × Directory
after_promotion role (ok refs, d) = (ok refs, record d { staging = drop_staging role d.staging })
after_promotion role (err e, d) = (err e, d)

abbrev pub promote_staged :
    Role → Option (List StagedFile) → Action Directory (List (String × String))
promote_staged role none d =
    (err (governance_violation "no staged artifacts to commit for stage"), d)
promote_staged role (some []) d =
    (err (governance_violation "no staged artifacts to commit for stage"), d)
promote_staged role (some (f ∷ files)) d =
    after_promotion role (promote_files role (sorted (f ∷ files)) d)

abbrev pub committable : Directory → Role → Check
committable d role = do
  require (member role d.allowed_roles)
      (governance_violation "role is not part of the condition; write rejected")
  require (not (member role d.sealed))
      (governance_violation "stage is sealed; previous-stage artifacts are immutable")

abbrev pub commit_if : Role → Check → Action Directory (List (String × String))
commit_if role (err e) d = (err e, d)
commit_if role (ok t) d = promote_staged role (staged_files role d.staging) d

-- commit_staged_artifacts
unfoldable pub commit_staged_artifacts : Role → Action Directory (List (String × String))
commit_staged_artifacts role d = commit_if role (committable d role) d

-- the files, and the hashes in memory, that abort_uncommitted_stage removes
abbrev pub is_aborted : Role → Artifact → Bool
is_aborted role a = same_role a.role role && elem a.name (expected_artifacts role)

unfoldable pub drop_artifacts : Role → List Artifact → List Artifact
drop_artifacts role [] = []
drop_artifacts role (a ∷ rest) =
    let others = drop_artifacts role rest in if is_aborted role a then others else a ∷ others

abbrev pub is_model_entry : Role → ManifestEntry → Bool
is_model_entry role (model_artifact a) = same_role a.role role
is_model_entry role (invocation_evidence r attempt) = false

-- _rewrite_manifest_without_role_model_artifacts
unfoldable pub drop_entries : Role → List ManifestEntry → List ManifestEntry
drop_entries role [] = []
drop_entries role (e ∷ rest) =
    let others = drop_entries role rest in if is_model_entry role e then others else e ∷ others

-- abort_uncommitted_stage
unfoldable pub abort_uncommitted_stage : Role → Directory → Directory
abort_uncommitted_stage role d = record d {
  sealed = remove role d.sealed;
  staging = drop_staging role d.staging;
  artifacts = drop_artifacts role d.artifacts;
  authoritative = drop_artifacts role d.authoritative;
  seals = remove role d.seals;
  manifest = drop_entries role d.manifest;
}
