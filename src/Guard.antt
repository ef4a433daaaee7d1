-- ===== src/Guard.antt =====
-- src/model_council/openai_response_guard.py: the byte boundary of an HTTP response body. A source is
-- the list of what it yields; `other` is an item that is no `bytes`.
pub mod Bounds
use model_council_lab.Prelude.{
  String, none, some, ◌∷◌, [], true, false, ◌≡◌, arith, inl, inr, refl, Bool, List, Option,
  if◌then◌else◌, ℕ, contains, ltb, ◌+◌, ◌-◌, length, ◌||◌, not,
}

pub data Chunk : Type 0 where
  bytes : List ℕ → Chunk
  other : Chunk

abbrev pub max_openai_http_body_bytes : ℕ
max_openai_http_body_bytes = 8000000

-- How a generator ended: exhausted, or by raising _OpenAIResponseBoundaryError.
pub data Ending : Type 0 where
  exhausted rejected : Ending

-- The loop of _bounded_body_chunks with the bytes that remain: the chunks yielded, and the ending.
unfoldable pub bounded_from : ℕ → List Chunk → List (List ℕ) × Ending
bounded_from remaining [] = ([], exhausted)
bounded_from remaining (other ∷ source) = ([], rejected)
bounded_from remaining (bytes b ∷ source) =
    let rest = bounded_from (remaining - length b) source in
    if ltb remaining (length b) then ([], rejected) else (b ∷ rest.0, rest.1)

unfoldable pub bounded_body_chunks : List Chunk → List (List ℕ) × Ending
bounded_body_chunks source = bounded_from max_openai_http_body_bytes source

-- The wrapped stream: `source` is none after a close, and `source_closes` counts the calls of the
-- source's own `close`.
pub record BoundedStream : Type 0 where
  pub source : Option (List Chunk)
  pub is_closed : Bool
  pub source_closes : ℕ

unfoldable pub open_stream : List Chunk → BoundedStream
open_stream source = record { source = some source; is_closed = false; source_closes = 0 }

unfoldable pub close : BoundedStream → BoundedStream
close s =
    if s.is_closed
    then s
    else record { source = none; is_closed = true; source_closes = s.source_closes + 1 }

-- A response as the hook sees it: its content-encoding headers, the body if the transport has read it
-- already, and the raw stream.
pub record HttpResponse : Type 0 where
  pub encodings : List String
  pub content : Option (List ℕ)
  pub stream : List Chunk

-- What the hook leaves: the response as it was, or with a bounded stream.
pub data Admitted : Type 0 where
  already_read : List ℕ → Admitted
  bounded : BoundedStream → Admitted

-- The test on the encodings; `is_identity` is `strip().casefold() == "identity"`, whose case folding is
-- the caller's.
unfoldable pub encodings_rejected : (String → Bool) → List String → Bool
encodings_rejected is_identity [] = false
encodings_rejected is_identity (e ∷ []) = contains "," e || not (is_identity e)
encodings_rejected is_identity (e ∷ d ∷ rest) = true

-- enforce_response_boundary; none means that it raised
unfoldable pub enforce_response_boundary : (String → Bool) → HttpResponse → Option Admitted
enforce_response_boundary is_identity r =
    if encodings_rejected is_identity r.encodings then none else elim r.content [
      | some body ↦
          if ltb max_openai_http_body_bytes (length body) then none else some (already_read body)
      | none ↦ some (bounded (open_stream r.stream))
    ]

-- Reading the admitted response to its end.
unfoldable pub read_all : Admitted → List (List ℕ) × Ending
read_all (already_read body) = (body ∷ [], exhausted)
read_all (bounded s) = elim s.source [
  | none ↦ ([], rejected)
  | some source ↦ bounded_body_chunks source
]
