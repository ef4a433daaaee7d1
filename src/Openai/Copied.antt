-- ===== src/Openai/Copied.antt =====
-- The copies that `_own_plain_provider_json` (src/model_council/openai_adapter.py) makes.
use model_council_lab.Prelude.{
  ◌≡◌, Bool, ℕ, if◌then◌else◌, leb, ◌+◌, ltb, ◌&&◌, ◌||◌, true, Bool-cases, inl, ◌⊎◌, false, inr,
  arith, refl, ◌∙◌, ap,
}
use model_council_lab.Openai.{◌>>=◌, Translated, translated, malformed}
use model_council_lab.Json.{
  Json, array, float_bits, Fields, object, Items, cons, field, nil, end, boolean, integer, text,
  null,
}
use model_council_lab.Openai.Ingest.{
  count_item, ingest_provider_response, max_openai_provider_json_depth,
  max_openai_provider_json_items, own_plain_provider_json, is_plain, is_finite, json_size,
  plain_items, items_size, plain_fields, fields_size, own_items, own_fields, owned_object,
}

abbrev outcome : {A : Type 0} → Bool → A → ℕ → Translated (A × ℕ)
outcome good value items = if good then translated (value, items) else malformed

abbrev fits : ℕ → Bool
fits items = leb items max_openai_provider_json_items

abbrev shallow : ℕ → Bool
shallow depth = leb depth max_openai_provider_json_depth

-- A copy succeeds where the values are plain and few enough, and is the value.
abbrev copied : {A : Type 0} → Bool → ℕ → A → ℕ → Translated (A × ℕ)
copied plain size value items = outcome (plain && fits (items + size)) value (items + size)

refuses_lem :
    {A : Type 0} (good : Bool) (v : A) (n : ℕ) → good ≡ false → malformed ≡ outcome good v n
refuses_lem good v n h = rw h refl

outcome_map :
    {A B : Type 0} (f : A → B) (good : Bool) (v : A) (n : ℕ)
    → (outcome good v n >>= λ copy. translated (f copy.0, copy.1)) ≡ outcome good (f v) n
outcome_map f true v n = refl
outcome_map f false v n = refl

-- The same outcome, counted from before the value itself.
wrap_lem :
    {A B : Type 0} (f : A → B) (p q : Bool) (m n i j : ℕ) (v : A)
    → i + m ≡ j + n
    → (p && fits (i + m)) ≡ (q && fits (j + n))
    → (copied p m v i >>= λ copy. translated (f copy.0, copy.1)) ≡ copied q n (f v) j
wrap_lem f p q m n i j v e h =
    outcome_map f (p && fits (i + m)) v (i + m)
    ∙ (ap (λ b. outcome b (f v) (i + m)) h ∙ ap (λ k. outcome (q && fits (j + n)) (f v) k) e)

count_cases :
    (depth items : ℕ)
    → ((shallow depth ≡ true)
        × ((fits (items + 1) ≡ true) × (count_item depth items ≡ translated (items + 1))))
      ⊎ (((shallow depth && fits (items + 1)) ≡ false) × (count_item depth items ≡ malformed))
unfolding count_item
count_cases depth items =
    elim (Bool-cases (
      ltb max_openai_provider_json_depth depth || ltb max_openai_provider_json_items (items + 1))) [
        | inl t ↦ inr (ground (arith, t), rw t refl)
        | inr f ↦ inl (ground (arith, f), (ground (arith, f), rw f refl))
      ]

leaf_lem :
    (depth items : ℕ) (v : Json)
    → (count_item depth items >>= λ n. translated (v, n)) ≡ copied (shallow depth) 1 v items
leaf_lem depth items v = elim (count_cases depth items) [
  | inl (a, (b, c)) ↦ rw (c, a, b) refl
  | inr (a, c) ↦ rw (c, a) refl
]

-- What is refused for its own depth or count is no copy.
outer_lem :
    (depth items size : ℕ) (plain : Bool)
    → (shallow depth && fits (items + 1)) ≡ false
    → ((shallow depth && plain) && fits (items + (size + 1))) ≡ false
outer_lem depth items size plain h = ground (arith, h)

float_lem :
    (depth items bits : ℕ)
    → own_plain_provider_json depth (float_bits bits) items
      ≡ copied (is_plain depth (float_bits bits)) 1 (float_bits bits) items
unfolding own_plain_provider_json is_plain
float_lem depth items bits = elim (count_cases depth items) [
  | inl (a, (b, c)) ↦ elim (Bool-cases (is_finite bits)) [
    | inl t ↦ rw (c, a, t, b) refl
    | inr f ↦ rw (c, a, f) refl
  ]
  | inr (a, c) ↦ rw c (refuses_lem _ _ _ (ground (arith, a)))
]

-- A sequence of two copies.
then_lem :
    {A B C : Type 0} (f : A → B → C) (p q : Bool) (m n : ℕ) (v : A) (w : B) (items : ℕ)
    (next : ℕ → Translated (B × ℕ))
    → (fits (items + m) ≡ true → next (items + m) ≡ copied q n w (items + m))
    → (copied p m v items >>= λ first.
        next first.1 >>= λ rest. translated (f first.0 rest.0, rest.1))
      ≡ copied (p && q) (m + n) (f v w) items
then_lem f p q m n v w items next h = elim (Bool-cases (p && fits (items + m))) [
  | inl t ↦
      rw (t, h (ground (arith, t)))
        (wrap_lem (f v) q (p && q) n (m + n) (items + m) items w (omega arith) (ground (arith, t)))
  | inr t ↦ rw t (refuses_lem _ _ _ (ground (arith, t)))
]

shift_lem : (items size : ℕ) → items + 1 + size ≡ items + (size + 1)
shift_lem items size = omega arith

nothing_lem :
    {A : Type 0} (v : A) (items : ℕ)
    → fits items ≡ true
    → translated (v, items) ≡ copied true 0 v items
nothing_lem v items h = let e : items + 0 ≡ items = omega arith in rw (e, h) refl

-- The copy of a value is the value, and is refused where the value is not plain or is too large.
mutual
  unfolding own_plain_provider_json is_plain json_size

  own_plain_provider_json_lem :
      (depth : ℕ) (x : Json) (items : ℕ)
      → own_plain_provider_json depth x items ≡ copied (is_plain depth x) (json_size x) x items
  own_plain_provider_json_lem depth null items = leaf_lem depth items null
  own_plain_provider_json_lem depth (boolean b) items = leaf_lem depth items (boolean b)
  own_plain_provider_json_lem depth (integer n) items = leaf_lem depth items (integer n)
  own_plain_provider_json_lem depth (text t) items = leaf_lem depth items (text t)
  own_plain_provider_json_lem depth (float_bits bits) items = float_lem depth items bits
  own_plain_provider_json_lem depth (array xs) items = elim (count_cases depth items) [
    | inl (a, (b, c)) ↦
        rw (c, own_items_lem (depth + 1) xs (items + 1) b, a)
          (wrap_lem array (plain_items (depth + 1) xs) (plain_items (depth + 1) xs) (items_size xs)
            (items_size xs + 1) (items + 1) items xs (omega arith)
            (ap (λ k. plain_items (depth + 1) xs && fits k) (shift_lem items (items_size xs))))
    | inr (a, c) ↦
        rw c
          (refuses_lem _ _ _ (outer_lem depth items (items_size xs) (plain_items (depth + 1) xs) a))
  ]
  own_plain_provider_json_lem depth (object fs) items = elim (count_cases depth items) [
    | inl (a, (b, c)) ↦
        rw (c, own_fields_lem (depth + 1) fs (items + 1) b, a)
          (wrap_lem object (plain_fields (depth + 1) fs) (plain_fields (depth + 1) fs)
            (fields_size fs) (fields_size fs + 1) (items + 1) items fs (omega arith)
            (ap (λ k. plain_fields (depth + 1) fs && fits k) (shift_lem items (fields_size fs))))
    | inr (a, c) ↦
        rw c (
          refuses_lem _ _ _
            (outer_lem depth items (fields_size fs) (plain_fields (depth + 1) fs) a))
  ]

  own_items_lem :
      (depth : ℕ) (xs : Items) (items : ℕ)
      → fits items ≡ true
      → own_items depth xs items ≡ copied (plain_items depth xs) (items_size xs) xs items
  own_items_lem depth nil items h = nothing_lem nil items h
  own_items_lem depth (cons x xs) items h = rw (own_plain_provider_json_lem depth x items) (
      then_lem cons (is_plain depth x) (plain_items depth xs) (json_size x) (items_size xs) x xs
        items (own_items depth xs) (λ t. own_items_lem depth xs (items + json_size x) t))

  own_fields_lem :
      (depth : ℕ) (fs : Fields) (items : ℕ)
      → fits items ≡ true
      → own_fields depth fs items ≡ copied (plain_fields depth fs) (fields_size fs) fs items
  own_fields_lem depth end items h = nothing_lem end items h
  own_fields_lem depth (field key x fs) items h = rw (own_plain_provider_json_lem depth x items) (
      then_lem (field key) (is_plain depth x) (plain_fields depth fs) (json_size x) (fields_size fs)
        x fs items (own_fields depth fs) (λ t. own_fields_lem depth fs (items + json_size x) t))

ingested :
    (fs : Fields) (good : Bool) (n : ℕ)
    → (outcome good (object fs) n >>= λ copy. owned_object copy.0)
      ≡ (if good then translated fs else malformed)
ingested fs true n = refl
ingested fs false n = refl

-- An object is taken as it is exactly if its values nest at most 16 deep, hold no infinite or
-- undefined number and are at most 1024; any other one is refused as malformed.
pub ingest_provider_response_object :
    (fs : Fields)
    → ingest_provider_response (object fs) ≡ (
        if is_plain 0 (object fs) && leb (json_size (object fs)) max_openai_provider_json_items
        then translated fs
        else malformed)
unfolding ingest_provider_response
ingest_provider_response_object fs =
    let e : 0 + json_size (object fs) ≡ json_size (object fs) = omega arith in
    rw (own_plain_provider_json_lem 0 (object fs) 0, e)
      (ingested fs (is_plain 0 (object fs) && fits (json_size (object fs))) (json_size (object fs)))
