-- ===== src/Evidence.antt =====
-- The raw evidence of an attempt (src/model_council/invocation.py): the bound on what is stored of a
-- text, and the verification of a stored file. A text stands for what its `encode("utf-8")` gives: a
-- list of bytes, or the UnicodeEncodeError of a lone surrogate. Decoding is the acceptance of the byte
-- sequences that Unicode's table of well-formed UTF-8 allows. Labels and digests are left out.
pub mod Bounded
pub mod Header
pub mod Verified
pub mod Cut
pub mod Stored
use Prim.Native.Char.{code}
use model_council_lab.Errors.{
  ◌>>◌, ◌>>=◌, Exc, Result, ok, err, Check, require, governance_violation, integrity_violation,
}
use model_council_lab.Prelude.{
  String, none, some, ◌∷◌, [], true, false, zero, suc, Bool, ℕ, ℤ, pos, List, Option, if◌then◌else◌,
  ◌++◌, ◌+◌, ◌*◌, ◌-◌, ◌/◌, ◌%◌, leb, ltb, ◌==◌, length, take, ◌&&◌, ◌||◌, not,
}

abbrev pub Bytes : Type 0
Bytes = List ℕ

-- s.encode("ascii")
abbrev pub ascii : String → Bytes
ascii String.[] = []
ascii (String.◌∷◌ c s) = code c ∷ ascii s

-- What a decoder expects next: a new character, or so many more bytes, the first of them in a range.
pub data Expected : Type 0 where
  character : Expected
  more : ℕ → ℕ → ℕ → Expected

-- The state after the first byte of a character.
abbrev pub lead : ℕ → Option Expected
lead b =
    if ltb b 128
    then some character
    else if leb 194 b && leb b 223
    then some (more 0 128 191)
    else if b == 224
    then some (more 1 160 191)
    else if b == 237
    then some (more 1 128 159)
    else if leb 225 b && leb b 239
    then some (more 1 128 191)
    else if b == 240
    then some (more 2 144 191)
    else if leb 241 b && leb b 243
    then some (more 2 128 191)
    else if b == 244
    then some (more 2 128 143)
    else none

abbrev pub rest_of : ℕ → Expected
rest_of zero = character
rest_of (suc n) = more n 128 191

abbrev pub next_state : Expected → ℕ → Option Expected
next_state character b = lead b
next_state (more n low high) b = if leb low b && leb b high then some (rest_of n) else none

-- data.decode("utf-8") succeeds, from a state of the decoder on
unfoldable pub decodes_from : Option Expected → Bytes → Bool
decodes_from none bs = false
decodes_from (some character) [] = true
decodes_from (some (more n low high)) [] = false
decodes_from (some s) (b ∷ bs) = decodes_from (next_state s b) bs

unfoldable pub decodes : Bytes → Bool
unfolding decodes_from
decodes bs = decodes_from (some character) bs

-- `while clipped`: the longest beginning of at most n bytes that decodes
unfoldable pub clip : ℕ → Bytes → Bytes
clip zero bytes = []
clip (suc n) bytes = if decodes (take (suc n) bytes) then take (suc n) bytes else clip n bytes

-- _truncate_utf8_prefix: the prefix, the observed bytes, and whether the text was cut
unfoldable pub truncate_utf8_prefix : Bytes → ℕ → Bytes × ℕ × Bool
truncate_utf8_prefix text max_bytes =
    if leb (length text) max_bytes
    then (text, length text, false)
    else (clip max_bytes text, length text, true)

-- TRUNCATION_HEADER_PREFIX, and what follows it up to the number
abbrev pub truncation_header_start : String
truncation_header_start = "[m1-raw-evidence: truncated observed_bytes="

abbrev pub minimal_truncation_marker : Bytes
minimal_truncation_marker = ascii "[truncated]\n"

-- The decimal digits of a number, as bytes; a fuel of n + 1 is enough.
unfoldable pub digits_from : ℕ → ℕ → Bytes
digits_from zero n = []
digits_from (suc fuel) n =
    let rest = digits_from fuel (n / 10) in
    if ltb n 10 then (48 + n) ∷ [] else rest ++ ((48 + n % 10) ∷ [])

unfoldable pub digits : ℕ → Bytes
unfolding digits_from
digits n = digits_from (suc n) n

-- _full_truncation_header
unfoldable pub full_truncation_header : ℕ → Bytes
full_truncation_header observed = ascii truncation_header_start ++ (digits observed ++ ascii "]\n")

-- _fit_truncated_raw
unfoldable pub fit_truncated_raw : Bytes → ℕ → ℕ → Bytes
fit_truncated_raw text observed limit =
    let header = full_truncation_header observed in
    if leb (length header) limit
    then header ++ (truncate_utf8_prefix text (limit - length header)).0
    else if leb (length minimal_truncation_marker) limit
    then minimal_truncation_marker
      ++ (truncate_utf8_prefix text (limit - length minimal_truncation_marker)).0
    else take limit minimal_truncation_marker

-- What bound_raw_evidence returns.
pub record RawEvidence : Type 0 where
  pub present : Bool
  pub truncated : Bool
  pub stored_text : Option Bytes
  pub stored_bytes : ℕ
  pub observed_bytes : Option ℕ

abbrev pub bounded_as : Bool → ℕ → ℕ → Bytes → Result RawEvidence
bounded_as truncated observed limit stored =
    if ltb limit (length stored)
    then err (governance_violation "raw evidence retained-byte ceiling exceeded")
    else ok (record {
      present = true;
      truncated = truncated;
      stored_text = some stored;
      stored_bytes = length stored;
      observed_bytes = some observed;
    })

-- bound_raw_evidence, of the encoding of a text, or of None
unfoldable pub bound_raw_evidence : Option (Result Bytes) → ℕ → Result RawEvidence
bound_raw_evidence none limit = ok (record {
  present = false;
  truncated = false;
  stored_text = none;
  stored_bytes = 0;
  observed_bytes = none;
})
bound_raw_evidence (some encoded) limit =
    if limit == 0 then err (governance_violation "raw evidence limit must be positive") else (do
      text ← encoded
      let (payload, observed, truncated) = truncate_utf8_prefix text limit
      bounded_as truncated observed limit
          (if truncated then fit_truncated_raw text observed limit else payload))

-- The forms of a stored file.
pub data Form : Type 0 where
  full : ℕ → Form
  minimal clipped_minimal untruncated : Form

-- data without the prefix, if it starts with it
unfoldable pub strip_prefix : Bytes → Bytes → Option Bytes
strip_prefix [] bytes = some bytes
strip_prefix (p ∷ ps) [] = none
strip_prefix (p ∷ ps) (b ∷ bs) = if p == b then strip_prefix ps bs else none

abbrev pub is_digit : ℕ → Bool
is_digit b = leb 48 b && leb b 57

abbrev pub newline_first : Bytes → Bool
newline_first [] = false
newline_first (b ∷ bs) = b == 10

-- ([0-9]+)\]\n at the start of the bytes: the number, with the digits read so far
unfoldable pub read_number : Bool → ℕ → Bytes → Option ℕ
read_number seen n [] = none
read_number seen n (b ∷ bs) =
    let more_digits = read_number true (10 * n + (b - 48)) bs in
    if is_digit b then more_digits else if seen && b == 93 && newline_first bs then some n else none

abbrev pub number_after : Option Bytes → Option ℕ
number_after none = none
number_after (some rest) = read_number false 0 rest

-- _FULL_TRUNCATION_HEADER_RE.match
unfoldable pub full_header : Bytes → Option ℕ
full_header bytes = number_after (strip_prefix (ascii truncation_header_start) bytes)

unfoldable pub same_bytes : Bytes → Bytes → Bool
same_bytes [] [] = true
same_bytes (x ∷ xs) (y ∷ ys) = x == y && same_bytes xs ys
same_bytes _ _ = false

abbrev pub is_prefixed : Option Bytes → Bool
is_prefixed none = false
is_prefixed (some rest) = true

abbrev pub marked_form : Bytes → Form
marked_form bytes =
    if is_prefixed (strip_prefix minimal_truncation_marker bytes)
    then minimal
    else if ltb 0 (length bytes)
        && ltb (length bytes) (length minimal_truncation_marker)
        && same_bytes bytes (take (length bytes) minimal_truncation_marker)
    then clipped_minimal
    else untruncated

abbrev pub form_or : Option ℕ → Form → Form
form_or none form = form
form_or (some n) form = full n

-- classify_stored_raw_evidence
unfoldable pub classify_stored_raw_evidence : Bytes → Form
classify_stored_raw_evidence bytes = form_or (full_header bytes) (marked_form bytes)

abbrev pub is_truncated : Form → Bool
is_truncated untruncated = false
is_truncated _ = true

-- `type(n) is int` and the comparison of the metadata
abbrev pub is_given : Option ℤ → Bool
is_given (some n) = true
is_given none = false

abbrev pub is_count : Option ℤ → Bool
is_count (some (pos n)) = true
is_count _ = false

abbrev pub equals_count : Option ℤ → ℕ → Bool
equals_count (some (pos n)) m = n == m
equals_count _ m = false

abbrev pub reaches_count : Option ℤ → ℕ → Bool
reaches_count (some (pos n)) m = leb m n
reaches_count _ m = false

abbrev pub agrees_with_marker : Form → Option ℤ → Bool
agrees_with_marker (full n) observed = equals_count observed n
agrees_with_marker _ observed = true

abbrev pub same_flag : Bool → Bool → Bool
same_flag true b = b
same_flag false b = not b

abbrev pub check_observed : Bool → Form → ℕ → Option ℤ → Check
check_observed true form stored observed = do
  require (reaches_count observed stored)
      (integrity_violation "truncated raw evidence observed_bytes is missing or incoherent")
  require (agrees_with_marker form observed)
      (integrity_violation "truncated raw evidence observed_bytes does not match the marker")
check_observed false form stored observed = do
  require (is_given observed)
      (integrity_violation "complete raw evidence is missing observed_bytes")
  require (equals_count observed stored)
      (integrity_violation "complete raw evidence observed_bytes must equal stored_bytes")

-- verify_raw_evidence_truncation; a value that is missing or of another type is `none`
unfoldable pub verify_raw_evidence_truncation : Bytes → Option Bool → Option ℤ → Option ℤ → Check
verify_raw_evidence_truncation bytes none stored observed =
    err (integrity_violation "raw evidence truncation metadata is missing or invalid")
verify_raw_evidence_truncation bytes (some truncated) stored observed = do
  require (is_count stored)
      (integrity_violation "raw evidence stored_bytes metadata is missing or invalid")
  require (equals_count stored (length bytes))
      (integrity_violation "raw evidence stored_bytes does not match the persisted file")
  require (same_flag truncated (is_truncated (classify_stored_raw_evidence bytes))) (
      integrity_violation
        "raw evidence truncation metadata does not match the stored representation")
  check_observed truncated (classify_stored_raw_evidence bytes) (length bytes) observed
