-- ===== src/Evidence/Verified.antt =====
-- The verification of stored evidence (src/model_council/invocation.py,
-- `verify_raw_evidence_truncation`) against what `bound_raw_evidence` stores.
use model_council_lab.Prelude.{
  ◌≡◌, refl, ◌≤◌, ◌<◌, length, take, ℕ, ◌++◌, arith, some, not, leb, pos, Bool, suc, true,
  Bool-cases, false, ◌&&◌, inl, zero, ◌==◌, inr, ◌⊎◌, ap,
}
use model_council_lab.Evidence.{
  Bytes, classify_stored_raw_evidence, full_header, full_truncation_header, strip_prefix,
  minimal_truncation_marker, same_bytes, verify_raw_evidence_truncation, clipped_minimal, full,
  minimal, Form, fit_truncated_raw, bound_raw_evidence, is_truncated,
}
use model_council_lab.Errors.{Check, ok, err, integrity_violation}
use model_council_lab.Evidence.Bounded.{
  stored_of, length-fit_truncated_raw, evidence_of, bound_raw_evidence-bounded,
}
use model_council_lab.Evidence.Header.{full_header-full_truncation_header}

-- The metadata that record_invocation keeps of a text and the bound on it.
abbrev pub verify_stored : Bytes → ℕ → Check
verify_stored text limit =
    verify_raw_evidence_truncation (stored_of text limit) (some (not (leb (length text) limit)))
      (some (pos (length (stored_of text limit)))) (some (pos (length text)))

-- The form of each of the three markers, whatever follows it.
full_form :
    (n : ℕ) (bytes : Bytes)
    → classify_stored_raw_evidence (full_truncation_header n ++ bytes) ≡ full n
unfolding classify_stored_raw_evidence
full_form n bytes = rw (full_header-full_truncation_header n bytes) refl

minimal_form :
    (bytes : Bytes) → classify_stored_raw_evidence (minimal_truncation_marker ++ bytes) ≡ minimal
unfolding classify_stored_raw_evidence full_header strip_prefix
minimal_form bytes = refl

-- A test of all numbers below one.
all_below : (ℕ → Bool) → ℕ → Bool
all_below test zero = true
all_below test (suc m) = test m && all_below test m

all_below_at : (test : ℕ → Bool) (m n : ℕ) → all_below test m ≡ true → n < m → test n ≡ true
unfolding all_below
all_below_at test zero n h k = ground (arith, k)
all_below_at test (suc m) n h k = elim (Bool-cases (n == m)) [
  | inl t ↦ (let same : n ≡ m = ground (arith, t) in rw same (ground (arith, h)))
  | inr f ↦ all_below_at test m n (ground (arith, h)) (ground (arith, f, k))
]

is_clipped : Form → Bool
is_clipped clipped_minimal = true
is_clipped _ = false

is_clipped-form : (form : Form) → is_clipped form ≡ true → form ≡ clipped_minimal
unfolding is_clipped
is_clipped-form form h = grind arith

clipped_form :
    (n : ℕ)
    → n < 11
    → classify_stored_raw_evidence (take (suc n) minimal_truncation_marker) ≡ clipped_minimal
unfolding classify_stored_raw_evidence full_header strip_prefix same_bytes all_below is_clipped
clipped_form n k =
    is_clipped-form (classify_stored_raw_evidence (take (suc n) minimal_truncation_marker)) (
      all_below_at
        (λ m. is_clipped (classify_stored_raw_evidence (take (suc m) minimal_truncation_marker))) 11
        n refl k)

-- The form of what is stored of a text that was cut.
data CutForm (observed : ℕ) (stored : Bytes) : Type 0 where
  with_number : classify_stored_raw_evidence stored ≡ full observed → CutForm observed stored
  with_marker : classify_stored_raw_evidence stored ≡ minimal → CutForm observed stored
  with_part : classify_stored_raw_evidence stored ≡ clipped_minimal → CutForm observed stored

fit_truncated_raw-CutForm :
    (text : Bytes) (observed limit : ℕ)
    → 0 < limit
    → CutForm observed (fit_truncated_raw text observed limit)
unfolding fit_truncated_raw
fit_truncated_raw-CutForm text observed zero h = ground (arith, h)
fit_truncated_raw-CutForm text observed (suc n) h =
    elim (Bool-cases (leb (length (full_truncation_header observed)) (suc n))) [
      | inl t ↦ rw t (with_number (full_form observed _))
      | inr f ↦ rw f (elim (Bool-cases (leb (length minimal_truncation_marker) (suc n))) [
        | inl t ↦ rw t (with_marker (minimal_form _))
        | inr g ↦ rw g (with_part (clipped_form n (ground (arith, g))))
      ])
    ]

same_count : (n : ℕ) → (n == n) ≡ true
same_count n = ground arith

leb_of : (m n : ℕ) → m ≤ n → leb m n ≡ true
leb_of m n h = ground (arith, h)

verify_cut :
    (stored : Bytes) (observed : ℕ)
    → CutForm observed stored
    → length stored ≤ observed
    → verify_raw_evidence_truncation stored
        (some true)
        (some (pos (length stored)))
        (some (pos observed))
      ≡ ok tt
unfolding verify_raw_evidence_truncation
verify_cut stored observed (with_number e) h =
    rw (same_count (length stored), e, leb_of (length stored) observed h, same_count observed) refl
verify_cut stored observed (with_marker e) h =
    rw (same_count (length stored), e, leb_of (length stored) observed h) refl
verify_cut stored observed (with_part e) h =
    rw (same_count (length stored), e, leb_of (length stored) observed h) refl

-- A text that was cut is accepted with its metadata, whatever the text and the limit.
pub verify_raw_evidence_truncation-cut :
    (text : Bytes) (limit : ℕ) → 0 < limit → limit < length text → verify_stored text limit ≡ ok tt
verify_raw_evidence_truncation-cut text limit h k =
    let cut : leb (length text) limit ≡ false = ground (arith, k) in
    let stored = fit_truncated_raw text (length text) limit in
    let size : length stored ≤ length text =
      omega (arith, length-fit_truncated_raw text (length text) limit, k) in
    rw cut
      (verify_cut stored (length text) (fit_truncated_raw-CutForm text (length text) limit h) size)

verify_complete :
    (text : Bytes)
    → is_truncated (classify_stored_raw_evidence text) ≡ false
    → verify_raw_evidence_truncation text
        (some false)
        (some (pos (length text)))
        (some (pos (length text)))
      ≡ ok tt
unfolding verify_raw_evidence_truncation
verify_complete text h = rw (same_count (length text), h) refl

verify_marked :
    (text : Bytes)
    → is_truncated (classify_stored_raw_evidence text) ≡ true
    → verify_raw_evidence_truncation text
        (some false)
        (some (pos (length text)))
        (some (pos (length text)))
      ≡ err (
          integrity_violation
            "raw evidence truncation metadata does not match the stored representation")
unfolding verify_raw_evidence_truncation
verify_marked text h = rw (same_count (length text), h) refl

-- A text that was stored whole is accepted with its metadata, or it looks like a marker of a
-- truncation and is refused.
pub verify_raw_evidence_truncation-whole :
    (text : Bytes) (limit : ℕ)
    → length text ≤ limit
    → ((is_truncated (classify_stored_raw_evidence text) ≡ false)
        × (verify_stored text limit ≡ ok tt))
      ⊎ ((is_truncated (classify_stored_raw_evidence text) ≡ true)
          × (verify_stored text limit
              ≡ err (
                  integrity_violation
                    "raw evidence truncation metadata does not match the stored representation")))
verify_raw_evidence_truncation-whole text limit h =
    let fits : leb (length text) limit ≡ true = leb_of (length text) limit h in
    elim (Bool-cases (is_truncated (classify_stored_raw_evidence text))) [
      | inl t ↦ inr (t, rw fits (verify_marked text t))
      | inr f ↦ inl (f, rw fits (verify_complete text f))
    ]

-- A text that fits and begins with the minimal marker is stored as it is, and then refused.
pub marker_text_refused :
    (rest : Bytes) (limit : ℕ)
    → length (minimal_truncation_marker ++ rest) ≤ limit
    → (bound_raw_evidence (some (ok (minimal_truncation_marker ++ rest))) limit
        ≡ ok (evidence_of (minimal_truncation_marker ++ rest) limit))
      × (verify_stored (minimal_truncation_marker ++ rest) limit
          ≡ err (
              integrity_violation
                "raw evidence truncation metadata does not match the stored representation"))
marker_text_refused rest limit h =
    let fits : leb (length (minimal_truncation_marker ++ rest)) limit ≡ true =
      leb_of (length (minimal_truncation_marker ++ rest)) limit h in
    (
      (bound_raw_evidence-bounded (minimal_truncation_marker ++ rest) limit (ground (arith, h))).0,
      rw fits
          (verify_marked (minimal_truncation_marker ++ rest) (ap is_truncated (minimal_form rest))),
    )
