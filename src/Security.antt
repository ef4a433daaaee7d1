-- ===== src/Security.antt =====
-- src/model_council/security.py: the grammar of the identifiers that become path components.
pub mod Identifier
use model_council_lab.Prelude.{
  String, none, some, ◌∷◌, [], true, false, ◌≡◌, arith, inl, inr, refl, zero, suc, Bool, ℕ, ◌==◌,
  leb, ◌||◌, ◌&&◌, if◌then◌else◌, str_eq, not,
}
use model_council_lab.Errors.{Result, ok, require, governance_violation, ◌>>=◌, ◌>>◌}
use Prim.Native.Char.{code}

-- [A-Za-z0-9], on a code point
unfoldable pub is_alphanumeric : ℕ → Bool
is_alphanumeric c = (leb 48 c && leb c 57) || (leb 65 c && leb c 90) || (leb 97 c && leb c 122)

-- [A-Za-z0-9._-]
unfoldable pub is_identifier_code : ℕ → Bool
is_identifier_code c = is_alphanumeric c || c == 46 || c == 95 || c == 45

-- `[A-Za-z0-9._-]*$` under re.match: `$` matches at the end, and also before a newline that ends the
-- text.
unfoldable pub matches_tail : String → Bool
matches_tail String.[] = true
matches_tail (String.◌∷◌ c s) =
    let rest = matches_tail s in
    if is_identifier_code (code c) then rest else code c == 10 && str_eq s ""

-- SAFE_IDENTIFIER_RE.match(value) finds a match
unfoldable pub matches_identifier : String → Bool
matches_identifier String.[] = false
matches_identifier (String.◌∷◌ c s) = is_alphanumeric (code c) && matches_tail s

-- The test that the value is a string is its type.
unfoldable pub safe_identifier : String → Result String
safe_identifier value = do
  require (not (str_eq value "")) (governance_violation "must be a non-empty string")
  require (not (str_eq value "." || str_eq value ".."))
      (governance_violation "is not a safe identifier")
  require (matches_identifier value) (governance_violation "violates the safe-identifier policy")
  ok value
