-- ===== src/Json.antt =====
-- The values that json.loads gives, and the deterministic token estimate that src/model_council/
-- runner.py takes of them. A float is kept as the 64 bits of its IEEE representation.
use model_council_lab.Prelude.{
  ℕ, ◌+◌, ℤ, String, Bool, List, [], ◌∷◌, Option, none, some, word_count, str_eq, if◌then◌else◌,
}

mutual
  pub data Json : Type 0 where
    null : Json
    boolean : Bool → Json
    integer : ℤ → Json
    float_bits : ℕ → Json
    text : String → Json
    array : Items → Json
    object : Fields → Json

  pub data Items : Type 0 where
    nil : Items
    cons : Json → Items → Items

  -- the keys of an object are distinct, as a dict's are
  pub data Fields : Type 0 where
    end : Fields
    field : String → Json → Fields → Fields

-- d.get(key)
unfoldable pub get : String → Fields → Option Json
get k end = none
get k (field j v fs) = if str_eq j k then some v else get k fs

-- d.get(key, default)
abbrev pub or_default : Option Json → Json → Json
or_default none d = d
or_default (some v) d = v

unfoldable pub keys : Fields → List String
keys end = []
keys (field k v fs) = k ∷ keys fs

-- _approximate_tokens
unfoldable mutual
  pub approximate_tokens : Json → ℕ
  approximate_tokens null = 0
  approximate_tokens (boolean b) = 1
  approximate_tokens (integer n) = 1
  approximate_tokens (float_bits n) = 1
  approximate_tokens (text s) = word_count s
  approximate_tokens (array xs) = approximate_items xs
  approximate_tokens (object fs) = approximate_fields fs

  pub approximate_items : Items → ℕ
  approximate_items nil = 0
  approximate_items (cons x xs) = approximate_tokens x + approximate_items xs

  pub approximate_fields : Fields → ℕ
  approximate_fields end = 0
  approximate_fields (field k v fs) = (word_count k + approximate_tokens v) + approximate_fields fs

-- _estimate_tokens_out
unfoldable pub estimate_tokens_out : Fields → ℕ
unfolding get approximate_tokens
estimate_tokens_out response = approximate_tokens (
    object (
      field "text" (or_default (get "text" response) (text "")) (
        field "artifacts" (or_default (get "artifacts" response) null)
          (field "structured" (or_default (get "structured" response) null) end))))
