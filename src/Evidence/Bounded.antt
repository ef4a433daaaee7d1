-- ===== src/Evidence/Bounded.antt =====
-- The size of what is stored of a text (src/model_council/invocation.py, `bound_raw_evidence`).
use model_council_lab.Evidence.{
  Bytes, clip, decodes, truncate_utf8_prefix, fit_truncated_raw, full_truncation_header,
  minimal_truncation_marker, bound_raw_evidence, RawEvidence, bounded_as, suc,
}
use model_council_lab.Prelude.{
  ◌≡◌, refl, ◌≤◌, ◌<◌, length-append, length, take, ℕ, Bool-cases, List, arith, if◌then◌else◌, some,
  true, ◌++◌, leb, not, ◌-◌, inl, ◌∷◌, inr, zero, [], Bool, false, ltb, ◌==◌,
}
use model_council_lab.Errors.{ok}

length-take : {A : Type 0} (n : ℕ) (xs : List A) → length (take n xs) ≤ n
length-take zero xs = omega arith
length-take (suc n) [] = omega arith
length-take (suc n) (x ∷ xs) = omega (arith, length-take n xs)

pub length-clip : (n : ℕ) (bytes : Bytes) → length (clip n bytes) ≤ n
unfolding clip
length-clip zero bytes = omega arith
length-clip (suc n) bytes = elim (Bool-cases (decodes (take (suc n) bytes))) [
  | inl t ↦ rw t (length-take (suc n) bytes)
  | inr f ↦ rw f (omega (arith, length-clip n bytes))
]

truncate_utf8_prefix-length : (text : Bytes) (n : ℕ) → length (truncate_utf8_prefix text n).0 ≤ n
unfolding truncate_utf8_prefix
truncate_utf8_prefix-length text n = elim (Bool-cases (leb (length text) n)) [
  | inl t ↦ rw t (ground (arith, t))
  | inr f ↦ rw f (length-clip n text)
]

headed :
    (header text : Bytes) (limit : ℕ)
    → length header ≤ limit
    → length (header ++ (truncate_utf8_prefix text (limit - length header)).0) ≤ limit
headed header text limit h = omega (
  arith,
  h,
  length-append header (truncate_utf8_prefix text (limit - length header)).0,
  truncate_utf8_prefix-length text (limit - length header),
)

pub length-fit_truncated_raw :
    (text : Bytes) (observed limit : ℕ) → length (fit_truncated_raw text observed limit) ≤ limit
unfolding fit_truncated_raw
length-fit_truncated_raw text observed limit =
    elim (Bool-cases (leb (length (full_truncation_header observed)) limit)) [
      | inl t ↦ rw t (headed (full_truncation_header observed) text limit (ground (arith, t)))
      | inr f ↦ rw f (elim (Bool-cases (leb (length minimal_truncation_marker) limit)) [
        | inl t ↦ rw t (headed minimal_truncation_marker text limit (ground (arith, t)))
        | inr g ↦ rw g (length-take limit minimal_truncation_marker)
      ])
    ]

-- What bound_raw_evidence stores of a text, below a positive limit.
abbrev pub stored_of : Bytes → ℕ → Bytes
stored_of text limit =
    if leb (length text) limit then text else fit_truncated_raw text (length text) limit

abbrev pub evidence_of : Bytes → ℕ → RawEvidence
evidence_of text limit = record {
  present = true;
  truncated = not (leb (length text) limit);
  stored_text = some (stored_of text limit);
  stored_bytes = length (stored_of text limit);
  observed_bytes = some (length text);
}

length-stored_of : (text : Bytes) (limit : ℕ) → length (stored_of text limit) ≤ limit
length-stored_of text limit = elim (Bool-cases (leb (length text) limit)) [
  | inl t ↦ rw t (ground (arith, t))
  | inr f ↦ rw f (length-fit_truncated_raw text (length text) limit)
]

not_ltb : (m n : ℕ) → n ≤ m → ltb m n ≡ false
not_ltb m n h = ground (arith, h)

bounded_as-fits :
    (truncated : Bool) (observed limit : ℕ) (stored : Bytes)
    → length stored ≤ limit
    → bounded_as truncated observed limit stored
      ≡ ok (record {
        present = true;
        truncated = truncated;
        stored_text = some stored;
        stored_bytes = length stored;
        observed_bytes = some observed;
      })
bounded_as-fits truncated observed limit stored h = rw (not_ltb limit (length stored) h) refl

positive-nonzero : (n : ℕ) → 0 < n → (n == 0) ≡ false
positive-nonzero n h = ground (arith, h)

-- Below a positive limit the ceiling is never exceeded: of a text that encodes, bound_raw_evidence gives
-- the record of what `stored_of` names, which has at most `limit` bytes.
pub bound_raw_evidence-bounded :
    (text : Bytes) (limit : ℕ)
    → 0 < limit
    → (bound_raw_evidence (some (ok text)) limit ≡ ok (evidence_of text limit))
      × (length (stored_of text limit) ≤ limit)
unfolding bound_raw_evidence truncate_utf8_prefix
bound_raw_evidence-bounded text limit h =
    let fits = length-stored_of text limit in
    (
      rw (positive-nonzero limit h) (elim (Bool-cases (leb (length text) limit)) [
        | inl t ↦ rw t (bounded_as-fits false (length text) limit text (ground (arith, t)))
        | inr f ↦ rw f (
            bounded_as-fits true (length text) limit (fit_truncated_raw text (length text) limit)
              (length-fit_truncated_raw text (length text) limit))
      ]),
      fits,
    )
