-- ===== src/Evidence/Cut.antt =====
-- Where a text is cut (src/model_council/invocation.py, `_truncate_utf8_prefix`): between two
-- characters, and as late as a character allows.
use model_council_lab.Evidence.Bounded.{length-clip}
use model_council_lab.Prelude.{
  ◌≡◌, refl, ◌≤◌, ◌<◌, ◌⊎◌, length, take, true, none, some, Bool, Option, ℕ, if◌then◌else◌, ◌+◌,
  false, ltb, leb, ◌&&◌, arith, ◌==◌, inl, ◌∷◌, inr, zero, Bool-cases, [], subst, ap, ◌∙◌,
}
use model_council_lab.Evidence.{
  Bytes, Expected, character, more, decodes_from, lead, clip, next_state, suc, truncate_utf8_prefix,
  decodes, rest_of,
}

-- A first byte asks for three more at most.
abbrev IsShort : Option Expected → Type 0
IsShort none = Unit
IsShort (some character) = Unit
IsShort (some (more m low high)) = m ≤ 2

if-IsShort :
    (b : Bool) (s t : Option Expected) → IsShort s → IsShort t → IsShort (if b then s else t)
if-IsShort true s t p q = p
if-IsShort false s t p q = q

lead-IsShort : (b : ℕ) → IsShort (lead b)
lead-IsShort b = if-IsShort (ltb b 128) _ _ tt (
    if-IsShort (leb 194 b && leb b 223) _ _ (ground arith) (
      if-IsShort (b == 224) _ _ (ground arith) (
        if-IsShort (b == 237) _ _ (ground arith) (
          if-IsShort (leb 225 b && leb b 239) _ _ (ground arith) (
            if-IsShort (b == 240) _ _ (ground arith) (
              if-IsShort (leb 241 b && leb b 243) _ _ (ground arith)
                (if-IsShort (b == 244) _ _ (ground arith) tt)))))))

-- No character is over within so many bytes.
data IsInside : Expected → ℕ → Type 0 where
  inside : {m low high n : ℕ} → n ≤ m → IsInside (more m low high) n

-- A beginning of at most n bytes, and of three fewer at least, decodes.
abbrev HasCut : Expected → Bytes → ℕ → Type 0
HasCut s bytes n = (k : ℕ) × (k ≤ n) × (n ≤ k + 3) × (decodes_from (some s) (take k bytes) ≡ true)

abbrev Cut : Expected → Bytes → ℕ → Type 0
Cut s bytes n = HasCut s bytes n ⊎ IsInside s n

-- A beginning of the rest, after one byte more.
shifted :
    (s t : Expected) (b : ℕ) (bs : Bytes) (n : ℕ)
    → next_state s b ≡ some t
    → HasCut t bs n
    → HasCut s (b ∷ bs) (suc n)
unfolding decodes_from
shifted character t b bs n e (k, low, high, h) =
    (suc k, omega (arith, low), omega (arith, high), ap (λ o. decodes_from o (take k bs)) e ∙ h)
shifted (more m l u) t b bs n e (k, low, high, h) =
    (suc k, omega (arith, low), omega (arith, high), ap (λ o. decodes_from o (take k bs)) e ∙ h)

short_inside : (s : Expected) (n : ℕ) → IsShort (some s) → IsInside s n → n ≤ 2
short_inside character n short i = elim i [ ]
short_inside (more m low high) n short (inside h) = omega (arith, short, h)

-- After the first byte of a character.
lead-HasCut :
    (b : ℕ) (bs : Bytes) (n : ℕ) (o : Option Expected)
    → lead b ≡ o
    → IsShort o
    → decodes_from o bs ≡ true
    → ((s : Expected) → decodes_from (some s) bs ≡ true → Cut s bs n)
    → HasCut character (b ∷ bs) (suc n)
unfolding decodes_from
lead-HasCut b bs n none e short h cut = ground (arith, h)
lead-HasCut b bs n (some s) e short h cut = elim (cut s h) [
  | inl k ↦ shifted character s b bs n e k
  | inr i ↦ (0, omega arith, omega (arith, short_inside s n short i), refl)
]

-- After a later byte of a character.
rest_of-Cut :
    (m low high b : ℕ) (bs : Bytes) (n : ℕ)
    → next_state (more m low high) b ≡ some (rest_of m)
    → Cut (rest_of m) bs n
    → Cut (more m low high) (b ∷ bs) (suc n)
rest_of-Cut m low high b bs n e (inl k) = inl (shifted (more m low high) (rest_of m) b bs n e k)
rest_of-Cut zero low high b bs n e (inr i) = elim i [ ]
rest_of-Cut (suc m) low high b bs n e (inr (inside h)) = inr (inside (omega (arith, h)))

decodes_from-Cut :
    (s : Expected) (bytes : Bytes) (n : ℕ)
    → decodes_from (some s) bytes ≡ true
    → n ≤ length bytes
    → Cut s bytes n
unfolding decodes_from
decodes_from-Cut character bytes zero h k = inl (0, omega arith, omega arith, refl)
decodes_from-Cut character [] (suc n) h k = ground (arith, k)
decodes_from-Cut character (b ∷ bs) (suc n) h k = inl (
    lead-HasCut b bs n (lead b) refl (lead-IsShort b) h
      (λ s g. decodes_from-Cut s bs n g (omega (arith, k))))
decodes_from-Cut (more m low high) bytes zero h k = inr (inside (omega arith))
decodes_from-Cut (more m low high) [] (suc n) h k = ground (arith, k)
decodes_from-Cut (more m low high) (b ∷ bs) (suc n) h k =
    elim (Bool-cases (leb low b && leb b high)) [
      | inl t ↦ rest_of-Cut m low high b bs n (rw t refl) (
          decodes_from-Cut (rest_of m) bs n
            (subst (λ x. decodes_from (if x then some (rest_of m) else none) bs ≡ true) t h)
            (omega (arith, k)))
      | inr f ↦ absurd (
          ground
            (arith, subst (λ x. decodes_from (if x then some (rest_of m) else none) bs ≡ true) f h))
    ]

-- What is kept decodes.
clip-decodes : (n : ℕ) (bytes : Bytes) → decodes (clip n bytes) ≡ true
unfolding clip decodes decodes_from
clip-decodes zero bytes = refl
clip-decodes (suc n) bytes = elim (Bool-cases (decodes (take (suc n) bytes))) [
  | inl t ↦ rw t t
  | inr f ↦ rw f (clip-decodes n bytes)
]

length-take : (k : ℕ) (bytes : Bytes) → k ≤ length bytes → length (take k bytes) ≡ k
length-take zero bytes h = refl
length-take (suc k) [] h = ground (arith, h)
length-take (suc k) (b ∷ bs) h = omega (arith, length-take k bs (omega (arith, h)))

-- Every beginning that decodes is within what is kept.
clip_reaches :
    (n : ℕ) (bytes : Bytes) (k : ℕ)
    → decodes (take k bytes) ≡ true
    → k ≤ n
    → n ≤ length bytes
    → k ≤ length (clip n bytes)
unfolding clip
clip_reaches zero bytes k h low high = low
clip_reaches (suc n) bytes k h low high = elim (Bool-cases (decodes (take (suc n) bytes))) [
  | inl t ↦ rw t (omega (arith, length-take (suc n) bytes high, low))
  | inr f ↦ rw f (clip_reaches n bytes k h (ground (arith, h, f, low)) (omega (arith, high)))
]

decodes_cut :
    (text : Bytes) (n : ℕ)
    → decodes text ≡ true
    → n ≤ length text
    → (k : ℕ) × (k ≤ n) × (n ≤ k + 3) × (decodes (take k text) ≡ true)
unfolding decodes
decodes_cut text n h k = elim (decodes_from-Cut character text n h k) [
  | inl found ↦ found
  | inr i ↦ elim i [ ]
]

-- A text is cut between two characters, and at most three bytes before the limit: what is kept decodes,
-- has at most n bytes and at least n - 3.
pub truncate_utf8_prefix-cut :
    (text : Bytes) (n : ℕ)
    → decodes text ≡ true
    → n < length text
    → (decodes (truncate_utf8_prefix text n).0 ≡ true)
      × (length (truncate_utf8_prefix text n).0 ≤ n)
      × (n ≤ length (truncate_utf8_prefix text n).0 + 3)
unfolding truncate_utf8_prefix decodes
truncate_utf8_prefix-cut text n h k =
    let (j, low, high, d) = decodes_cut text n h (omega (arith, k)) in
    let long : leb (length text) n ≡ false = ground (arith, k) in
    rw long (
      clip-decodes n text,
      length-clip n text,
      omega (arith, high, clip_reaches n text j d low (omega (arith, k))),
    )
