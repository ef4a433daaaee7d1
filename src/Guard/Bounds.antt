-- ===== src/Guard/Bounds.antt =====
-- The bound of src/model_council/openai_response_guard.py, and that it loses nothing within the bound.
use model_council_lab.Prelude.{
  String, none, some, ◌∷◌, [], true, false, ◌≡◌, arith, inl, inr, refl, List, ℕ, Option, length,
  ◌≤◌, ◌+◌, ◌-◌, Option-cases, Bool, subst, sym, ◌⊎◌,
}
use model_council_lab.Guard.{
  bytes, other, exhausted, already_read, bounded, bounded_from, Chunk, bounded_body_chunks, close,
  encodings_rejected, enforce_response_boundary, max_openai_http_body_bytes, open_stream,
  HttpResponse, Admitted, read_all,
}

abbrev pub total : List (List ℕ) → ℕ
total [] = 0
total (b ∷ bs) = length b + total bs

-- An independent reading of a source: its chunks, if all are bytes.
unfoldable pub all_bytes : List Chunk → Option (List (List ℕ))
all_bytes [] = some []
all_bytes (other ∷ source) = none
all_bytes (bytes b ∷ source) = elim (all_bytes source) [ none ↦ none | some bs ↦ some (b ∷ bs) ]

bounded_from-total : (n : ℕ) (source : List Chunk) → total (bounded_from n source).0 ≤ n
unfolding bounded_from
bounded_from-total n [] = omega arith
bounded_from-total n (other ∷ source) = omega arith
bounded_from-total n (bytes b ∷ source) = ground (arith, bounded_from-total (n - length b) source)

bounded_from_sound :
    (n : ℕ) (source : List Chunk)
    → (bounded_from n source).1 ≡ exhausted
    → all_bytes source ≡ some (bounded_from n source).0
unfolding bounded_from all_bytes
bounded_from_sound n [] h = refl
bounded_from_sound n (other ∷ source) h = cc
bounded_from_sound n (bytes b ∷ source) h = ground (arith, bounded_from_sound (n - length b) source)

bounded_from_complete :
    (n : ℕ) (source : List Chunk) (bs : List (List ℕ))
    → all_bytes source ≡ some bs
    → total bs ≤ n
    → bounded_from n source ≡ (bs, exhausted)
unfolding bounded_from all_bytes
bounded_from_complete n [] bs h m = ground arith
bounded_from_complete n (other ∷ source) bs h m = cc
bounded_from_complete n (bytes b ∷ source) bs h m = elim (Option-cases (all_bytes source)) [
  | inl e ↦ absurd (ground (arith, e))
  | inr (cs, e) ↦
      let split : b ∷ cs ≡ bs = ground (arith, e) in
      let room : length b + total cs ≤ n = subst (λ x. total x ≤ n) (sym split) m in
      ground (arith, split, room, bounded_from_complete (n - length b) source cs e (omega arith))
]

-- The guarded body never yields more bytes than the bound, whatever the source. It is exhausted without
-- an error exactly when the source is all bytes and within the bound, and has then yielded every
-- chunk of it.
pub bounded_body_chunks-exact :
    (source : List Chunk)
    → (total (bounded_body_chunks source).0 ≤ max_openai_http_body_bytes)
      × ((bounded_body_chunks source).1 ≡ exhausted
          → all_bytes source ≡ some (bounded_body_chunks source).0)
      × ((bs : List (List ℕ))
          → all_bytes source ≡ some bs
          → total bs ≤ max_openai_http_body_bytes
          → bounded_body_chunks source ≡ (bs, exhausted))
unfolding bounded_body_chunks
bounded_body_chunks-exact source = (
  bounded_from-total max_openai_http_body_bytes source,
  bounded_from_sound max_openai_http_body_bytes source,
  bounded_from_complete max_openai_http_body_bytes source,
)

encodings-identity :
    (is_identity : String → Bool) (encodings : List String)
    → encodings_rejected is_identity encodings ≡ false
    → (encodings ≡ []) ⊎ ((e : String) × (encodings ≡ e ∷ []) × (is_identity e ≡ true))
unfolding encodings_rejected
encodings-identity is_identity [] h = inl refl
encodings-identity is_identity (e ∷ []) h = inr (e, refl, ground arith)
encodings-identity is_identity (e ∷ d ∷ rest) h = cc

read_all-bounded :
    (is_identity : String → Bool) (r : HttpResponse) (a : Admitted)
    → enforce_response_boundary is_identity r ≡ some a
    → total (read_all a).0 ≤ max_openai_http_body_bytes
unfolding enforce_response_boundary read_all bounded_body_chunks
read_all-bounded is_identity r (already_read body) h = elim (Option-cases r.content) [
  | inl e ↦ absurd (ground (arith, e))
  | inr (b, e) ↦ ground (arith, e)
]
read_all-bounded is_identity r (bounded s) h = elim (Option-cases s.source) [
  | inl e ↦ ground (arith, e)
  | inr (source, e) ↦ ground (arith, e, bounded_from-total max_openai_http_body_bytes source)
]

-- A response that the hook admits gives its reader at most the bound, has no content encoding or only
-- the identity, and a body that the transport had read is admitted unchanged.
pub enforce_response_boundary-admits :
    (is_identity : String → Bool) (r : HttpResponse) (a : Admitted)
    → enforce_response_boundary is_identity r ≡ some a
    → (total (read_all a).0 ≤ max_openai_http_body_bytes)
      × ((r.encodings ≡ []) ⊎ ((e : String) × (r.encodings ≡ e ∷ []) × (is_identity e ≡ true)))
      × ((body : List ℕ) → r.content ≡ some body → a ≡ already_read body)
unfolding enforce_response_boundary
enforce_response_boundary-admits is_identity r a h = (
  read_all-bounded is_identity r a h,
  encodings-identity is_identity r.encodings (ground arith),
  λ body e. ground (arith, e),
)

-- Closing twice closes the source once.
pub close_idem :
    (source : List Chunk)
    → (close (close (open_stream source)) ≡ close (open_stream source))
      × ((close (open_stream source)).source_closes ≡ 1)
unfolding close open_stream
close_idem source = (refl, refl)
