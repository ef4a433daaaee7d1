-- ===== src/Evidence/Stored.antt =====
-- What `bound_raw_evidence` of src/model_council/invocation.py stores of a text, form by form.
use model_council_lab.Evidence.{
  Bytes, clip, decodes, truncate_utf8_prefix, fit_truncated_raw, full_truncation_header,
  minimal_truncation_marker, bound_raw_evidence, RawEvidence, suc,
}
use model_council_lab.Prelude.{
  append-nil, ◌≡◌, refl, ◌≤◌, ◌<◌, ◌+◌, ◌-◌, ◌++◌, ℕ, [], ◌∷◌, take, length, length-append,
  Bool-cases, leb, not, true, some, inl, inr, zero, arith,
}
use model_council_lab.Errors.{ok}
use model_council_lab.Evidence.Bounded.{evidence_of, stored_of, bound_raw_evidence-bounded}
use model_council_lab.Evidence.Cut.{truncate_utf8_prefix-cut}

-- The bytes are a marker and a beginning of the text: it ends between two characters, and at most three
-- bytes of the limit are left.
pub record Marked (text marker : Bytes) (limit : ℕ) (stored : Bytes) : Type 0 where
  pub prefix : Bytes
  pub rest : Bytes
  pub of_text : prefix ++ rest ≡ text
  pub whole_characters : decodes prefix ≡ true
  pub headed : stored ≡ marker ++ prefix
  pub full_use : limit ≤ length stored + 3

-- What may be stored of a text under a limit.
pub data Stored (text : Bytes) (limit : ℕ) (stored : Bytes) : Type 0 where
  whole : length text ≤ limit → stored ≡ text → Stored text limit stored
  with_header :
      limit < length text
      → length (full_truncation_header (length text)) ≤ limit
      → Marked text (full_truncation_header (length text)) limit stored
      → Stored text limit stored
  with_marker :
      limit < length text
      → limit < length (full_truncation_header (length text))
      → length minimal_truncation_marker ≤ limit
      → Marked text minimal_truncation_marker limit stored
      → Stored text limit stored
  marker_only :
      limit < length text
      → limit < length minimal_truncation_marker
      → stored ≡ take limit minimal_truncation_marker
      → Stored text limit stored

take-rest : (n : ℕ) (bytes : Bytes) → (rest : Bytes) × (take n bytes ++ rest ≡ bytes)
take-rest zero bytes = (bytes, refl)
take-rest (suc n) [] = ([], refl)
take-rest (suc n) (b ∷ bytes) = let (rest, e) = take-rest n bytes in (rest, rw e refl)

clip-rest : (n : ℕ) (bytes : Bytes) → (rest : Bytes) × (clip n bytes ++ rest ≡ bytes)
unfolding clip
clip-rest zero bytes = (bytes, refl)
clip-rest (suc n) bytes = elim (Bool-cases (decodes (take (suc n) bytes))) [
  | inl t ↦ rw t (take-rest (suc n) bytes)
  | inr f ↦ rw f (clip-rest n bytes)
]

truncate_utf8_prefix-rest :
    (text : Bytes) (n : ℕ) → (rest : Bytes) × ((truncate_utf8_prefix text n).0 ++ rest ≡ text)
unfolding truncate_utf8_prefix
truncate_utf8_prefix-rest text n = elim (Bool-cases (leb (length text) n)) [
  | inl t ↦ rw t ([], append-nil text)
  | inr f ↦ rw f (clip-rest n text)
]

headed_cut :
    (text marker : Bytes) (limit : ℕ)
    → decodes text ≡ true
    → limit < length text
    → length marker ≤ limit
    → Marked text marker limit (marker ++ (truncate_utf8_prefix text (limit - length marker)).0)
headed_cut text marker limit d long room =
    let prefix = (truncate_utf8_prefix text (limit - length marker)).0 in
    let (rest, e) = truncate_utf8_prefix-rest text (limit - length marker) in
    let (whole_characters, low, high) =
      truncate_utf8_prefix-cut text (limit - length marker) d (omega (arith, long)) in
    record {
      prefix = prefix;
      rest = rest;
      of_text = e;
      whole_characters = whole_characters;
      headed = refl;
      full_use = omega (arith, high, room, length-append marker prefix);
    }

fit_truncated_raw-Stored :
    (text : Bytes) (limit : ℕ)
    → decodes text ≡ true
    → limit < length text
    → Stored text limit (fit_truncated_raw text (length text) limit)
unfolding fit_truncated_raw
fit_truncated_raw-Stored text limit d long =
    let header = full_truncation_header (length text) in
    elim (Bool-cases (leb (length header) limit)) [
      | inl t ↦
          let room : length header ≤ limit = ground (arith, t) in
          rw t (with_header long room (headed_cut text header limit d long room))
      | inr f ↦
          let narrow : limit < length header = ground (arith, f) in
          rw f (elim (Bool-cases (leb (length minimal_truncation_marker) limit)) [
            | inl t ↦
                let room : length minimal_truncation_marker ≤ limit = ground (arith, t) in
                rw t (
                  with_marker long narrow room
                    (headed_cut text minimal_truncation_marker limit d long room))
            | inr g ↦ rw g (marker_only long (ground (arith, g)) refl)
          ])
    ]

stored_of-Stored :
    (text : Bytes) (limit : ℕ) → decodes text ≡ true → Stored text limit (stored_of text limit)
stored_of-Stored text limit d = elim (Bool-cases (leb (length text) limit)) [
  | inl t ↦ rw t (whole (ground (arith, t)) refl)
  | inr f ↦ rw f (fit_truncated_raw-Stored text limit d (ground (arith, f)))
]

-- A record of evidence that is true of a text.
pub record Evidences (text : Bytes) (limit : ℕ) (evidence : RawEvidence) : Type 0 where
  pub stored : Bytes
  pub kept : evidence.stored_text ≡ some stored
  pub in_form : Stored text limit stored
  pub within : length stored ≤ limit
  pub present : evidence.present ≡ true
  pub counted : evidence.stored_bytes ≡ length stored
  pub observed : evidence.observed_bytes ≡ some (length text)
  pub flagged : evidence.truncated ≡ not (leb (length text) limit)

-- Under a positive limit, a text whose encoding is well-formed UTF-8 has evidence: bound_raw_evidence
-- succeeds. It stores at most `limit` bytes: the text, if it fits; else a marker and a beginning of the
-- text that ends between two characters and leaves at most three bytes of the limit, where the marker is
-- the header with the observed size if this fits, and else the minimal one; or, if not even this fits,
-- the first `limit` bytes of the minimal marker. The sizes that it reports are those of the stored bytes
-- and of the text, and it says truncated exactly if the text does not fit.
pub bound_raw_evidence-Evidences :
    (text : Bytes) (limit : ℕ)
    → decodes text ≡ true
    → 0 < limit
    → (evidence : RawEvidence) × (bound_raw_evidence (some (ok text)) limit ≡ ok evidence)
      × Evidences text limit evidence
bound_raw_evidence-Evidences text limit d h =
    let (succeeds, within) = bound_raw_evidence-bounded text limit h in
    (
      evidence_of text limit,
      succeeds,
      record {
        stored = stored_of text limit;
        kept = refl;
        in_form = stored_of-Stored text limit d;
        within = within;
        present = refl;
        counted = refl;
        observed = refl;
        flagged = refl;
      },
    )
