-- ===== src/Security/Identifier.antt =====
-- What an accepted identifier may contain (src/model_council/security.py).
use model_council_lab.Prelude.{
  String, true, false, ◌≡◌, arith, inl, inr, refl, ℕ, Bool, ◌+++◌, ◌==◌, ◌≢◌, eq_iff, ◌||◌,
  Bool-cases, ap,
}
use model_council_lab.Errors.{ok}
use Prim.Native.Char.{code}
use text.Mathlib.TextLemmas.{cons-append}
use model_council_lab.Security.{
  matches_tail, safe_identifier, is_identifier_code, matches_identifier, is_alphanumeric,
}

-- A code point occurs in a text.
unfoldable pub has_code : ℕ → String → Bool
has_code k String.[] = false
has_code k (String.◌∷◌ c s) = code c == k || has_code k s

matches_tail-codes :
    (k : ℕ) (s : String)
    → is_identifier_code k ≡ false
    → k ≢ 10
    → matches_tail s ≡ true
    → has_code k s ≡ false
unfolding matches_tail has_code
matches_tail-codes k String.[] h n m = refl
matches_tail-codes k (String.◌∷◌ c s) h n m = elim (Bool-cases (code c == k)) [
  | inl e ↦
      let same : code c ≡ k = ground (arith, e) in
      absurd (ground (arith, same, ap is_identifier_code same))
  | inr e ↦ elim (Bool-cases (is_identifier_code (code c))) [
    | inl i ↦ ground (arith, e, i, matches_tail-codes k s h n)
    | inr i ↦
        let last : s ≡ "" = ground (arith, i, eq_iff s "") in
        ground (arith, e, ap (has_code k) last)
  ]
]

matches_identifier-codes :
    (k : ℕ) (s : String)
    → is_identifier_code k ≡ false
    → k ≢ 10
    → matches_identifier s ≡ true
    → has_code k s ≡ false
unfolding matches_identifier has_code is_identifier_code
matches_identifier-codes k String.[] h n m = refl
matches_identifier-codes k (String.◌∷◌ c s) h n m = elim (Bool-cases (code c == k)) [
  | inl e ↦
      let same : code c ≡ k = ground (arith, e) in
      absurd (ground (arith, same, ap is_alphanumeric same))
  | inr e ↦ ground (arith, e, matches_tail-codes k s h n)
]

-- An accepted identifier is returned unchanged, is not empty and no dot name, and has only letters,
-- digits, dots, underscores, dashes and newlines; in particular no path separator.
pub safe_identifier-codes :
    (k : ℕ) (s t : String)
    → safe_identifier s ≡ ok t
    → is_identifier_code k ≡ false
    → k ≢ 10
    → (t ≡ s) × (has_code k s ≡ false) × (s ≢ "") × (s ≢ ".") × (s ≢ "..")
unfolding safe_identifier
safe_identifier-codes k s t h i n =
    ground (arith, matches_identifier-codes k s i n, eq_iff s "", eq_iff s ".", eq_iff s "..")

newline_matches : matches_tail "\n" ≡ true
unfolding matches_tail is_identifier_code is_alphanumeric
newline_matches = refl

matches_tail-newline :
    (s : String) → has_code 10 s ≡ false → matches_tail s ≡ true → matches_tail (s +++ "\n") ≡ true
unfolding matches_tail has_code
matches_tail-newline String.[] h m = newline_matches
matches_tail-newline (String.◌∷◌ c s) h m =
    rw (cons-append c s "\n") (ground (arith, matches_tail-newline s))

matches_identifier-newline :
    (s : String)
    → has_code 10 s ≡ false
    → matches_identifier s ≡ true
    → matches_identifier (s +++ "\n") ≡ true
unfolding matches_identifier has_code
matches_identifier-newline String.[] h m = absurd (ground arith)
matches_identifier-newline (String.◌∷◌ c s) h m =
    rw (cons-append c s "\n") (ground (arith, matches_tail-newline s))

ends_in_newline : (s : String) → has_code 10 (s +++ "\n") ≡ true
unfolding has_code
ends_in_newline String.[] = refl
ends_in_newline (String.◌∷◌ c s) = rw (cons-append c s "\n") (ground (arith, ends_in_newline s))

-- An accepted identifier with no newline is still accepted with a newline at its end.
pub safe_identifier-newline :
    (s : String)
    → has_code 10 s ≡ false
    → safe_identifier s ≡ ok s
    → safe_identifier (s +++ "\n") ≡ ok (s +++ "\n")
unfolding safe_identifier has_code
safe_identifier-newline s n h =
    let other : (t : String) → has_code 10 t ≡ false → s +++ "\n" ≢ t =
      λ t f e. ground (arith, ends_in_newline s, f, ap (has_code 10) e) in
    ground (
      arith,
      matches_identifier-newline s n,
      other "" refl,
      other "." refl,
      other ".." refl,
      eq_iff (s +++ "\n") "",
      eq_iff (s +++ "\n") ".",
      eq_iff (s +++ "\n") "..",
    )
