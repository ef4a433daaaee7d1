-- ===== src/Openai/Ingest.antt =====
-- The bounded copy of a provider's response (src/model_council/openai_adapter.py,
-- `_own_plain_provider_json` and `_ingest_provider_response`).
use model_council_lab.Prelude.{
  Bool, ℕ, not, if◌then◌else◌, leb, ◌+◌, ◌/◌, ltb, ◌&&◌, ◌^◌, ◌%◌, ◌||◌, true, ◌==◌,
}
use model_council_lab.Openai.{◌>>=◌, Translated, translated, malformed}
use model_council_lab.Json.{Json, array, float_bits, Fields, object, Items, cons, field, nil, end}

abbrev pub max_openai_provider_json_depth : ℕ
max_openai_provider_json_depth = 16

abbrev pub max_openai_provider_json_items : ℕ
max_openai_provider_json_items = 1024

-- value == value and value not in (inf, -inf), by the exponent of the IEEE representation
unfoldable pub is_finite : ℕ → Bool
is_finite bits = not (bits / 2 ^ 52 % 2 ^ 11 == 2047)

-- The tests on the depth and on the items seen, and the items with this value.
unfoldable pub count_item : ℕ → ℕ → Translated ℕ
count_item depth items =
    if ltb max_openai_provider_json_depth depth || ltb max_openai_provider_json_items (items + 1)
    then malformed
    else translated (items + 1)

-- The copy of a value, with the items seen after it.
unfoldable mutual
  pub own_plain_provider_json : ℕ → Json → ℕ → Translated (Json × ℕ)
  own_plain_provider_json depth (float_bits bits) items = count_item depth items >>= λ n.
      if is_finite bits then translated (float_bits bits, n) else malformed
  own_plain_provider_json depth (array xs) items = count_item depth items >>= λ n.
      own_items (depth + 1) xs n >>= λ copy. translated (array copy.0, copy.1)
  own_plain_provider_json depth (object fs) items = count_item depth items >>= λ n.
      own_fields (depth + 1) fs n >>= λ copy. translated (object copy.0, copy.1)
  own_plain_provider_json depth value items = count_item depth items >>= λ n. translated (value, n)

  pub own_items : ℕ → Items → ℕ → Translated (Items × ℕ)
  own_items depth nil items = translated (nil, items)
  own_items depth (cons x xs) items = own_plain_provider_json depth x items >>= λ first.
      own_items depth xs first.1 >>= λ rest. translated (cons first.0 rest.0, rest.1)

  pub own_fields : ℕ → Fields → ℕ → Translated (Fields × ℕ)
  own_fields depth end items = translated (end, items)
  own_fields depth (field key x fs) items = own_plain_provider_json depth x items >>= λ first.
      own_fields depth fs first.1 >>= λ rest. translated (field key first.0 rest.0, rest.1)

abbrev pub owned_object : Json → Translated Fields
owned_object (object fs) = translated fs
owned_object _ = malformed

-- _ingest_provider_response
unfoldable pub ingest_provider_response : Json → Translated Fields
ingest_provider_response (object fs) =
    own_plain_provider_json 0 (object fs) 0 >>= λ copy. owned_object copy.0
ingest_provider_response _ = malformed

-- How many values a value holds, and whether they nest at most to a depth and are finite.
unfoldable mutual
  pub json_size : Json → ℕ
  json_size (array xs) = items_size xs + 1
  json_size (object fs) = fields_size fs + 1
  json_size _ = 1

  pub items_size : Items → ℕ
  items_size nil = 0
  items_size (cons x xs) = json_size x + items_size xs

  pub fields_size : Fields → ℕ
  fields_size end = 0
  fields_size (field key x fs) = json_size x + fields_size fs

unfoldable mutual
  pub is_plain : ℕ → Json → Bool
  is_plain depth (float_bits bits) = leb depth max_openai_provider_json_depth && is_finite bits
  is_plain depth (array xs) = leb depth max_openai_provider_json_depth && plain_items (depth + 1) xs
  is_plain depth (object fs) =
      leb depth max_openai_provider_json_depth && plain_fields (depth + 1) fs
  is_plain depth _ = leb depth max_openai_provider_json_depth

  pub plain_items : ℕ → Items → Bool
  plain_items depth nil = true
  plain_items depth (cons x xs) = is_plain depth x && plain_items depth xs

  pub plain_fields : ℕ → Fields → Bool
  plain_fields depth end = true
  plain_fields depth (field key x fs) = is_plain depth x && plain_fields depth fs
