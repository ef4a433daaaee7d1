-- ===== src/Prelude/Text.antt =====
-- Python's `str` as the native text: a sequence of code points. The string methods that the program
-- calls and that need no Unicode tables are written out here.
use Prim.Native.Nat.{ℕ, zero, suc, ◌/◌, ◌%◌}
use Prim.Native.Char.{code}
use Prim.Native.String.{String, ◌++◌}
use mathlib.Core.Path.{◌≡◌, refl}
use mathlib.Core.Bool.{Bool, true, false, ◌&&◌, ◌||◌, not}
use mathlib.Core.List.{List, [], ◌∷◌}
use native.Mathlib.Omega.{arith}
use text.Mathlib.TextPositions.{starts_with-append}
use text.Mathlib.TextLemmas.{nil-append, cons-append, append_assoc}
use text.Mathlib.Text.{◌==◌ as str_eq, starts_with}
use model_council_lab.Prelude.Tests.{leb, ltb, ◌==◌, if◌then◌else◌}

-- str.isspace on one code point.
abbrev pub is_space_code : ℕ → Bool
is_space_code c =
    (leb 9 c && leb c 13)
    || (leb 28 c && leb c 32)
    || c == 133
    || c == 160
    || c == 5760
    || (leb 8192 c && leb c 8202)
    || c == 8232
    || c == 8233
    || c == 8239
    || c == 8287
    || c == 12288

-- not s.strip()
unfoldable pub is_blank : String → Bool
is_blank String.[] = true
is_blank (String.◌∷◌ c s) = is_space_code (code c) && is_blank s

-- m in s
unfoldable pub contains : String → String → Bool
contains m String.[] = str_eq m ""
contains m (String.◌∷◌ c s) = starts_with (String.◌∷◌ c s) m || contains m s

-- k in xs
unfoldable pub elem : String → List String → Bool
elem k [] = false
elem k (x ∷ xs) = str_eq x k || elem k xs

-- sep.join(xs)
unfoldable pub join : String → List String → String
join sep [] = ""
join sep (x ∷ []) = x
join sep (x ∷ y ∷ xs) = x ++ (sep ++ join sep (y ∷ xs))

-- len(s.split()), with the flag that the last code point was part of a word.
words_from : Bool → String → ℕ
words_from inside String.[] = 0
words_from inside (String.◌∷◌ c s) =
    let space = is_space_code (code c) in
    let rest = words_from (not space) s in if not space && not inside then suc rest else rest

unfoldable pub word_count : String → ℕ
unfolding words_from
word_count s = words_from false s

digit : ℕ → String
digit n =
    if n == 0
    then "0"
    else if n == 1
    then "1"
    else if n == 2
    then "2"
    else if n == 3
    then "3"
    else if n == 4
    then "4"
    else if n == 5
    then "5"
    else if n == 6
    then "6"
    else if n == 7
    then "7"
    else if n == 8
    then "8"
    else "9"

decimal_from : ℕ → ℕ → String
decimal_from zero n = ""
decimal_from (suc fuel) n =
    let rest = decimal_from fuel (n / 10) in if ltb n 10 then digit n else rest ++ digit (n % 10)

-- str(n) of a number; n + 1 rounds are enough, since each divides by ten.
unfoldable pub decimal : ℕ → String
unfolding decimal_from digit
decimal n = decimal_from (suc n) n

contains_self : (m b : String) → contains m (m ++ b) ≡ true
unfolding contains
contains_self String.[] String.[] = refl
contains_self String.[] (String.◌∷◌ c b) =
    rw nil-append
      (ground (arith, starts_with-append "" (String.◌∷◌ c b), nil-append (String.◌∷◌ c b)))
contains_self (String.◌∷◌ c m) b =
    rw (cons-append c m b)
      (ground (arith, starts_with-append (String.◌∷◌ c m) b, cons-append c m b))

-- A text occurs in whatever it was put into.
pub contains-append : (m a b : String) → contains m (a ++ (m ++ b)) ≡ true
unfolding contains
contains-append m String.[] b = rw nil-append (contains_self m b)
contains-append m (String.◌∷◌ c a) b =
    rw (cons-append c a (m ++ b)) (ground (arith, contains-append m a b))

-- The same, with more text behind.
pub contains-append_more : (m a b rest : String) → contains m ((a ++ (m ++ b)) ++ rest) ≡ true
contains-append_more m a b rest =
    rw (append_assoc a (m ++ b) rest) (rw (append_assoc m b rest) (contains-append m a (b ++ rest)))

-- What occurs in the end of a text occurs in the text.
pub contains_suffix : (m a b : String) → contains m b ≡ true → contains m (a ++ b) ≡ true
unfolding contains
contains_suffix m String.[] b h = rw nil-append h
contains_suffix m (String.◌∷◌ c a) b h =
    rw (cons-append c a b) (ground (arith, contains_suffix m a b))
