-- ===== src/Identity/Key.antt =====
-- When the key of an adapter identity (src/model_council/types.py) determines the identity.
use model_council_lab.Prelude.{
  String, true, ◌≡◌, arith, refl, Bool, ◌+++◌, not, ◌==◌, ◌&&◌, Option, none, some, sym, ◌≢◌, ◌∙◌,
  ap, eq_iff, ℕ, join,
}
use Prim.Native.Char.{code, Char}
use text.Mathlib.TextLemmas.{nil-append, cons-append, append_assoc}
use model_council_lab.Identity.{key, AdapterIdentity}

-- A text with no colon.
unfoldable pub no_colon : String → Bool
no_colon String.[] = true
no_colon (String.◌∷◌ c s) = not (code c == 58) && no_colon s

rest_of : String → String
rest_of String.[] = ""
rest_of (String.◌∷◌ c s) = s

first_of : String → Option Char
first_of String.[] = none
first_of (String.◌∷◌ c s) = some c

colon-rest : (k r : String) → rest_of k ≡ "" → k ≢ "" → rest_of (k +++ r) ≡ r
unfolding rest_of
colon-rest String.[] r h n = absurd (n refl)
colon-rest (String.◌∷◌ c k) r h n = rw (cons-append c k r) (rw h (nil-append r))

colon-first : (k r : String) → k ≢ "" → first_of (k +++ r) ≡ first_of k
unfolding first_of
colon-first String.[] r n = absurd (n refl)
colon-first (String.◌∷◌ c k) r n = rw (cons-append c k r) refl

abbrev colon : String
colon = ":"

colon_filled : colon ≢ ""
colon_filled = ground (arith, eq_iff colon "")

-- The code of a first code point, and 0 if there is none.
code_of : Option Char → ℕ
code_of none = 0
code_of (some c) = code c

colon_code : (s : String) → code_of (first_of (":" +++ s)) ≡ 58
unfolding code_of first_of
colon_code s = ap code_of (colon-first colon s colon_filled)

rest-colon : (r : String) → rest_of (":" +++ r) ≡ r
unfolding rest_of
rest-colon r = colon-rest ":" r refl colon_filled

first-colon : (r : String) → first_of (":" +++ r) ≡ first_of ":"
unfolding first_of
first-colon r = colon-first ":" r colon_filled

-- The first colon separates a text from its rest.
split_at_colon :
    (a b r s : String)
    → no_colon a ≡ true
    → no_colon b ≡ true
    → a +++ (":" +++ r) ≡ b +++ (":" +++ s)
    → (a ≡ b) × (r ≡ s)
unfolding no_colon rest_of first_of code_of
split_at_colon String.[] String.[] r s m n e =
    let tails : r ≡ s =
      sym (rest-colon r) ∙ (ap rest_of (sym (nil-append _) ∙ (e ∙ nil-append _)) ∙ rest-colon s) in
    (refl, tails)
split_at_colon String.[] (String.◌∷◌ d b) r s m n e =
    let head : 58 ≡ code d =
      sym (colon_code r)
      ∙ ap (λ t. code_of (first_of t)) (sym (nil-append _) ∙ (e ∙ cons-append d b _)) in
    absurd (ground (arith, head, n))
split_at_colon (String.◌∷◌ c a) String.[] r s m n e =
    let head : 58 ≡ code c =
      sym (colon_code s)
      ∙ ap (λ t. code_of (first_of t)) (sym (nil-append _) ∙ (sym e ∙ cons-append c a _)) in
    absurd (ground (arith, head, m))
split_at_colon (String.◌∷◌ c a) (String.◌∷◌ d b) r s m n e =
    let same : String.◌∷◌ c (a +++ (":" +++ r)) ≡ String.◌∷◌ d (b +++ (":" +++ s)) =
      sym (cons-append c a _) ∙ (e ∙ cons-append d b _) in
    let heads : some c ≡ some d = ap first_of same in
    let tails = split_at_colon a b r s (ground (arith, m)) (ground (arith, n)) (ap rest_of same) in
    ground (arith, heads, tails)

-- None of the first four fields has a colon.
abbrev pub IsColonFree : AdapterIdentity → Type 0
IsColonFree i =
    (no_colon i.provider ≡ true)
    × (no_colon i.model_id ≡ true)
    × (no_colon i.model_version ≡ true)
    × (no_colon i.adapter_name ≡ true)

-- Different identities have different keys, if none of their fields before the last has a colon.
pub key_distinct : (i j : AdapterIdentity) → IsColonFree i → IsColonFree j → i ≢ j → key i ≢ key j
unfolding key join
key_distinct i j (p, m, v, n) (q, k, w, o) different same =
    let (a, r) = split_at_colon i.provider j.provider _ _ p q same in
    let (b, s) = split_at_colon i.model_id j.model_id _ _ m k r in
    let (c, t) = split_at_colon i.model_version j.model_version _ _ v w s in
    let (d, e) = split_at_colon i.adapter_name j.adapter_name _ _ n o t in
    different (ground (arith, a, b, c, d, e))

-- Moving a colon from the provider into the model id keeps the key.
pub key_shifted :
    (a b c version name adapter : String)
    → key (record {
      provider = a +++ (":" +++ b);
      model_id = c;
      model_version = version;
      adapter_name = name;
      adapter_version = adapter;
    })
      ≡ key (record {
        provider = a;
        model_id = b +++ (":" +++ c);
        model_version = version;
        adapter_name = name;
        adapter_version = adapter;
      })
unfolding key join
key_shifted a b c version name adapter =
    let tail = ":" +++ (version +++ (":" +++ (name +++ (":" +++ adapter)))) in
    append_assoc a (":" +++ b) (":" +++ (c +++ tail))
    ∙ ap (λ t. a +++ t) (append_assoc ":" b (":" +++ (c +++ tail)))
    ∙ ap (λ t. a +++ (":" +++ t))
        (sym (append_assoc b (":" +++ c) tail ∙ ap (λ t. b +++ t) (append_assoc ":" c tail)))
