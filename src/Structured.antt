-- ===== src/Structured.antt =====
-- The structured payloads of a response: `_require_structured`, `_parse_finding` and
-- `_parse_disposition` of src/model_council/runner.py.
use model_council_lab.Prelude.{
  String, none, some, ◌∷◌, [], true, false, ◌+++◌, List, Option, Bool, if◌then◌else◌, elem,
  is_blank,
}
use model_council_lab.Errors.{Result, ok, err, ◌>>=◌, ◌>>◌, contract_violation, require}
use model_council_lab.Json.{
  null, boolean, integer, float_bits, text, array, object, nil, cons, end, field, Fields, Items,
  Json, get, keys,
}
use model_council_lab.Findings.{Disposition, Finding, is_decision}

-- What Python prints of values whose text is not modelled: `str` of a value that is no string, and
-- the representation of a sorted list of strings and of a string.
pub record Render : Type 0 where
  pub str_of : Json → String
  pub names : List String → String
  pub repr : String → String

-- type(v).__name__ of a value that may be missing
abbrev pub type_name : Option Json → String
type_name none = "NoneType"
type_name (some null) = "NoneType"
type_name (some (boolean b)) = "bool"
type_name (some (integer n)) = "int"
type_name (some (float_bits n)) = "float"
type_name (some (text s)) = "str"
type_name (some (array xs)) = "list"
type_name (some (object fs)) = "dict"

-- the names of the first list that the second lacks
unfoldable pub minus : List String → List String → List String
minus [] ys = []
minus (x ∷ xs) ys = let rest = minus xs ys in if elem x ys then rest else x ∷ rest

abbrev pub is_empty : List String → Bool
is_empty [] = true
is_empty (x ∷ xs) = false

unfoldable pub all_text : Fields → Bool
all_text end = true
all_text (field k (text s) fs) = all_text fs
all_text (field k _ fs) = false

-- _require_structured
unfoldable pub require_structured : Render → Option Json → String → Result Items
require_structured render (some (object fs)) key =
    if is_empty (minus (keys fs) (key ∷ []))
    then elim (get key fs) [
      | some (array xs) ↦ ok xs
      | other ↦
          err (
            contract_violation ("'" +++ (key +++ ("' must be an array, got " +++ type_name other))))
    ]
    else err (
        contract_violation (
          "structured payload has unexpected fields: "
          +++ render.names (minus (keys fs) (key ∷ []))))
require_structured render other key =
    err (contract_violation ("structured payload must be an object, got " +++ type_name other))

-- a string that is not blank
abbrev pub stated : Option Json → Result String
stated (some (text s)) =
    if is_blank s then err (contract_violation "field must be a non-empty string") else ok s
stated _ = err (contract_violation "field must be a non-empty string")

-- item.get("material", True) is a boolean
abbrev pub material_flag : Option Json → Result Bool
material_flag none = ok true
material_flag (some (boolean b)) = ok b
material_flag other =
    err (contract_violation ("finding material flag must be a boolean, got " +++ type_name other))

unfoldable pub parse_finding : Render → Json → Result Finding
parse_finding render (object fs) = do
  require (is_empty (minus (keys fs) ("finding_id" ∷ "description" ∷ "material" ∷ [])))
      (contract_violation "finding has unexpected fields")
  finding_id ← stated (get "finding_id" fs)
  description ← stated (get "description" fs)
  material ← material_flag (get "material" fs)
  ok (record { finding_id = finding_id; description = description; material = material })
parse_finding render other =
    err (contract_violation ("finding must be an object, got " +++ type_name (some other)))

-- decision in ("accept", "reject")
abbrev pub decided : Option Json → Result String
decided (some (text s)) =
    if is_decision s
    then ok s
    else err (contract_violation "disposition decision must be 'accept' or 'reject'")
decided _ = err (contract_violation "disposition decision must be 'accept' or 'reject'")

unfoldable pub parse_disposition : Render → Json → Result Disposition
parse_disposition render (object fs) = do
  require (is_empty (minus (keys fs) ("finding_id" ∷ "decision" ∷ "rationale" ∷ [])))
      (contract_violation "disposition has unexpected fields")
  finding_id ← stated (get "finding_id" fs)
  decision ← decided (get "decision" fs)
  rationale ← stated (get "rationale" fs)
  ok (record { finding_id = finding_id; decision = decision; rationale = rationale })
parse_disposition render other =
    err (contract_violation ("disposition must be an object, got " +++ type_name (some other)))

unfoldable pub parse_findings : Render → Items → Result (List Finding)
parse_findings render nil = ok []
parse_findings render (cons x xs) = do
  f ← parse_finding render x
  fs ← parse_findings render xs
  ok (f ∷ fs)

unfoldable pub parse_dispositions : Render → Items → Result (List Disposition)
parse_dispositions render nil = ok []
parse_dispositions render (cons x xs) = do
  d ← parse_disposition render x
  ds ← parse_dispositions render xs
  ok (d ∷ ds)
