-- ===== src/Evidence/Header.antt =====
-- The markers of truncated evidence (src/model_council/invocation.py), read back from what was written.
use model_council_lab.Prelude.{
  ◌≡◌, refl, ◌<◌, length, All, ℕ, Bool, arith, ◌++◌, ◌∷◌, Bool-cases, [], some, true, ◌*◌, ltb, ◌+◌,
  ◌⊎◌, inl, ◌-◌, inr, ◌/◌, ◌%◌, zero, ap, false, length-append, ◌==◌, ◌∙◌, append_assoc,
}
use model_council_lab.Evidence.{
  Bytes, digits, digits_from, full_header, read_number, strip_prefix, full_truncation_header,
  is_digit, suc, ascii, truncation_header_start, number_after,
}

-- the number that digits write, with the number before them
abbrev value : ℕ → Bytes → ℕ
value n [] = n
value n (b ∷ bs) = value (10 * n + (b - 48)) bs

value-append : (n : ℕ) (bs : Bytes) (b : ℕ) → value n (bs ++ (b ∷ [])) ≡ 10 * value n bs + (b - 48)
value-append n [] b = refl
value-append n (c ∷ bs) b = value-append (10 * n + (c - 48)) bs b

abbrev AreDigits : Bytes → Type 0
AreDigits bs = All (λ b. is_digit b ≡ true) bs

digits_append : (bs : Bytes) (b : ℕ) → AreDigits bs → is_digit b ≡ true → AreDigits (bs ++ (b ∷ []))
digits_append [] b h k = (k, tt)
digits_append (c ∷ bs) b (c_digit, h) k = (c_digit, digits_append bs b h k)

digits_from-AreDigits : (fuel n : ℕ) → AreDigits (digits_from fuel n)
unfolding digits_from
digits_from-AreDigits zero n = tt
digits_from-AreDigits (suc fuel) n = elim (Bool-cases (ltb n 10)) [
  | inl t ↦ rw t (ground (arith, t), tt)
  | inr f ↦ rw f (
      digits_append (digits_from fuel (n / 10)) (48 + n % 10) (digits_from-AreDigits fuel (n / 10))
        (ground arith))
]

-- A fuel above the number is enough.
value-digits_from : (fuel n : ℕ) → n < fuel → value 0 (digits_from fuel n) ≡ n
unfolding digits_from
value-digits_from zero n h = ground (arith, h)
value-digits_from (suc fuel) n h = elim (Bool-cases (ltb n 10)) [
  | inl t ↦ rw t (omega arith)
  | inr f ↦ rw f (
      let smaller : n / 10 < fuel = ground (arith, h, f) in
      omega (
        arith,
        value-append 0 (digits_from fuel (n / 10)) (48 + n % 10),
        value-digits_from fuel (n / 10) smaller,
      ))
]

read_number-digits :
    (seen : Bool) (n : ℕ) (bs rest : Bytes)
    → AreDigits bs
    → (seen ≡ true) ⊎ (0 < length bs)
    → read_number seen n (bs ++ (93 ∷ 10 ∷ rest)) ≡ some (value n bs)
unfolding read_number
read_number-digits seen n [] rest h (inl t) = rw t refl
read_number-digits seen n [] rest h (inr k) = ground (arith, k)
read_number-digits seen n (b ∷ bs) rest (d, h) k =
    rw d (read_number-digits true (10 * n + (b - 48)) bs rest h (inl refl))

digits-nonempty : (n : ℕ) → 0 < length (digits n)
unfolding digits digits_from
digits-nonempty n = elim (Bool-cases (ltb n 10)) [
  | inl t ↦ rw t (ground arith)
  | inr f ↦ rw f (omega (arith, length-append (digits_from n (n / 10)) ((48 + n % 10) ∷ [])))
]

pub strip_prefix-append :
    (prefix bytes : Bytes) → strip_prefix prefix (prefix ++ bytes) ≡ some bytes
unfolding strip_prefix
strip_prefix-append [] bytes = refl
strip_prefix-append (p ∷ ps) bytes =
    let same : (p == p) ≡ true = ground arith in rw same (strip_prefix-append ps bytes)

split_header :
    (n : ℕ) (bytes : Bytes)
    → full_truncation_header n ++ bytes
      ≡ ascii truncation_header_start ++ (digits n ++ (93 ∷ 10 ∷ bytes))
unfolding full_truncation_header
split_header n bytes =
    append_assoc (ascii truncation_header_start) (digits n ++ ascii "]\n") bytes
    ∙ ap (λ rest. ascii truncation_header_start ++ rest)
        (append_assoc (digits n) (ascii "]\n") bytes)

digits-value : (n : ℕ) → value 0 (digits n) ≡ n
unfolding digits
digits-value n = value-digits_from (suc n) n (ground arith)

digits-AreDigits : (n : ℕ) → AreDigits (digits n)
unfolding digits
digits-AreDigits n = digits_from-AreDigits (suc n) n

number_read : (n : ℕ) (bytes : Bytes) → read_number false 0 (digits n ++ (93 ∷ 10 ∷ bytes)) ≡ some n
number_read n bytes =
    read_number-digits false 0 (digits n) bytes (digits-AreDigits n) (inr (digits-nonempty n))
    ∙ ap some (digits-value n)

-- The header of a truncation is read back, whatever follows it.
pub full_header-full_truncation_header :
    (n : ℕ) (bytes : Bytes) → full_header (full_truncation_header n ++ bytes) ≡ some n
unfolding full_header
full_header-full_truncation_header n bytes =
    ap full_header (split_header n bytes)
    ∙ ap number_after
        (strip_prefix-append (ascii truncation_header_start) (digits n ++ (93 ∷ 10 ∷ bytes)))
    ∙ number_read n bytes
