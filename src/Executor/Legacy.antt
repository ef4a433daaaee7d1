-- ===== src/Executor/Legacy.antt =====
-- The legacy envelopes that src/model_council/executor.py accepts, by a description of them.
use model_council_lab.Errors.{◌>>◌, Check, Exc, Result, ok, require, err}
use model_council_lab.Json.{
  null, boolean, integer, float_bits, text, array, object, Fields, Json, get,
}
use model_council_lab.Prelude.{
  ◌≡◌, ◌↔◌, Bool, Option, List, String, none, not, some, true, ℕ, All, arith, pos, str_eq, ◌⊎◌,
  false, inl, negsuc, refl, ◌∷◌, [], inr, ap, eq_iff, subst,
}
use model_council_lab.Executor.Envelope.{
  is_legacy_profile, is_name, validate_identity_used, validate_names, validate_response,
  validate_usage_field, validate_usage_fields, identity_keys, parse_legacy_payload,
}
use model_council_lab.Openai.{is_null, is_text}
use model_council_lab.Worker.{is_set}

-- A field that is a number and not below zero.
abbrev IsCount : Option Json → Type 0
IsCount field = (n : ℕ) × (field ≡ some (integer (pos n)))

-- A field that is a text and not empty.
abbrev IsName : Option Json → Type 0
IsName field = (s : String) × ((field ≡ some (text s)) × (str_eq s "" ≡ false))

-- A payload that carries a response in the legacy form.
pub record IsLegacyResponse (payload response : Fields) : Type 0 where
  pub profile :
      (get "execution_profile" payload ≡ none)
      ⊎ ((get "execution_profile" payload ≡ some null)
          ⊎ (get "execution_profile" payload ≡ some (text "pre_live_legacy")))
  pub no_outcome : get "outcome" payload ≡ none
  pub carried : get "response" payload ≡ some (object response)
  pub tokens_in : IsCount (get "tokens_in" response)
  pub tokens_out : IsCount (get "tokens_out" response)
  pub tool_uses : IsCount (get "tool_uses" response)
  pub used : Fields
  pub identity : get "identity_used" response ≡ some (object used)
  pub named : All (λ key. IsName (get key used)) identity_keys

check_ok :
    {A : Type 0} (c : Check) (r : Result A) (a : A) → (c >> r) ≡ ok a → (c ≡ ok tt) × (r ≡ ok a)
check_ok (ok t) r a h = (refl, h)
check_ok (err e) r a h = grind arith

require_ok : (b : Bool) (e : Exc) → require b e ≡ ok tt → b ≡ true
require_ok true e h = refl
require_ok false e h = grind arith

count_lem : (name : String) (o : Option Json) → validate_usage_field name o ≡ ok tt → IsCount o
unfolding validate_usage_field
count_lem name (some (integer (pos n))) h = (n, refl)
count_lem name none h = grind arith
count_lem name (some null) h = grind arith
count_lem name (some (integer (negsuc n))) h = grind arith
count_lem name (some (boolean b)) h = grind arith
count_lem name (some (float_bits n)) h = grind arith
count_lem name (some (text t)) h = grind arith
count_lem name (some (array xs)) h = grind arith
count_lem name (some (object fs)) h = grind arith

name_lem : (o : Option Json) → is_name o ≡ true → IsName o
unfolding is_name
name_lem (some (text s)) h = (s, (refl, ground (arith, h)))
name_lem none h = grind arith
name_lem (some null) h = grind arith
name_lem (some (integer n)) h = grind arith
name_lem (some (boolean b)) h = grind arith
name_lem (some (float_bits n)) h = grind arith
name_lem (some (array xs)) h = grind arith
name_lem (some (object fs)) h = grind arith

names_lem :
    (keys : List String) (used : Fields)
    → validate_names keys used ≡ ok tt
    → All (λ key. IsName (get key used)) keys
unfolding validate_names
names_lem [] used h = tt
names_lem (key ∷ rest) used h =
    let c = check_ok _ (validate_names rest used) tt h in
    (name_lem (get key used) (require_ok _ _ c.0), names_lem rest used c.1)

identity_lem :
    (o : Option Json)
    → validate_identity_used o ≡ ok tt
    → (used : Fields) × ((o ≡ some (object used))
        × All (λ key. IsName (get key used)) identity_keys)
unfolding validate_identity_used
identity_lem (some (object used)) h = (used, (refl, names_lem identity_keys used h))
identity_lem none h = grind arith
identity_lem (some null) h = grind arith
identity_lem (some (integer n)) h = grind arith
identity_lem (some (boolean b)) h = grind arith
identity_lem (some (float_bits n)) h = grind arith
identity_lem (some (text t)) h = grind arith
identity_lem (some (array xs)) h = grind arith

profile_lem :
    (o : Option Json)
    → is_legacy_profile o ≡ true
    → (o ≡ none) ⊎ ((o ≡ some null) ⊎ (o ≡ some (text "pre_live_legacy")))
unfolding is_legacy_profile is_null is_text
profile_lem none h = inl refl
profile_lem (some null) h = inr (inl refl)
profile_lem (some (text t)) h =
    inr (inr (ap (λ x. some (text x)) ((eq_iff t "pre_live_legacy").0 h)))
profile_lem (some (integer n)) h = grind arith
profile_lem (some (boolean b)) h = grind arith
profile_lem (some (float_bits n)) h = grind arith
profile_lem (some (array xs)) h = grind arith
profile_lem (some (object fs)) h = grind arith

absent_lem : (o : Option Json) → not (is_set o) ≡ true → o ≡ none
absent_lem none h = refl
absent_lem (some x) h = grind arith

response_lem :
    (o : Option Json) (response : Fields)
    → validate_response o ≡ ok response
    → (o ≡ some (object response))
      × ((validate_usage_fields response ≡ ok tt)
          × (validate_identity_used (get "identity_used" response) ≡ ok tt))
unfolding validate_response
response_lem (some (object fs)) response h =
    let u = check_ok (validate_usage_fields fs) _ response h in
    let i = check_ok (validate_identity_used (get "identity_used" fs)) _ response u.1 in
    let e : fs ≡ response = grind arith in
    (
      ap (λ x. some (object x)) e,
      (
        subst (λ x. validate_usage_fields x ≡ ok tt) e u.0,
        subst (λ x. validate_identity_used (get "identity_used" x) ≡ ok tt) e i.0,
      ),
    )
response_lem none response h = grind arith
response_lem (some null) response h = grind arith
response_lem (some (integer n)) response h = grind arith
response_lem (some (boolean b)) response h = grind arith
response_lem (some (float_bits n)) response h = grind arith
response_lem (some (text t)) response h = grind arith
response_lem (some (array xs)) response h = grind arith

usage_lem :
    (response : Fields)
    → validate_usage_fields response ≡ ok tt
    → IsCount (get "tokens_in" response)
      × (IsCount (get "tokens_out" response) × IsCount (get "tool_uses" response))
unfolding validate_usage_fields
usage_lem response h =
    let a = check_ok (validate_usage_field "tokens_in" (get "tokens_in" response)) _ tt h in
    let b = check_ok (validate_usage_field "tokens_out" (get "tokens_out" response)) _ tt a.1 in
    (count_lem _ _ a.0, (count_lem _ _ b.0, count_lem _ _ b.1))

accepted :
    (payload response : Fields)
    → parse_legacy_payload payload ≡ ok response
    → IsLegacyResponse payload response
unfolding parse_legacy_payload
accepted payload response h =
    let p = check_ok _ _ response h in
    let o = check_ok _ _ response p.1 in
    let r = response_lem (get "response" payload) response o.1 in
    let u = usage_lem response r.1.0 in
    let i = identity_lem (get "identity_used" response) r.1.1 in
    record {
      profile = profile_lem _ (require_ok _ _ p.0);
      no_outcome = absent_lem _ (require_ok _ _ o.0);
      carried = r.0;
      tokens_in = u.0;
      tokens_out = u.1.0;
      tool_uses = u.1.1;
      used = i.0;
      identity = i.1.0;
      named = i.1.1;
    }

count_valid : (name : String) (o : Option Json) → IsCount o → validate_usage_field name o ≡ ok tt
unfolding validate_usage_field
count_valid name o (n, e) = rw e refl

names_valid :
    (keys : List String) (used : Fields)
    → All (λ key. IsName (get key used)) keys
    → validate_names keys used ≡ ok tt
unfolding validate_names is_name
names_valid [] used h = refl
names_valid (key ∷ rest) used ((s, (e, filled)), h) = rw (e, filled) (names_valid rest used h)

profile_valid :
    (o : Option Json)
    → (o ≡ none) ⊎ ((o ≡ some null) ⊎ (o ≡ some (text "pre_live_legacy")))
    → is_legacy_profile o ≡ true
unfolding is_legacy_profile is_null is_text
profile_valid o (inl e) = rw e refl
profile_valid o (inr (inl e)) = rw e refl
profile_valid o (inr (inr e)) = rw e refl

described :
    (payload response : Fields)
    → IsLegacyResponse payload response
    → parse_legacy_payload payload ≡ ok response
unfolding parse_legacy_payload validate_response validate_usage_fields validate_identity_used
described payload response c =
    rw
      (
        profile_valid _ c.profile,
        c.no_outcome,
        c.carried,
        count_valid "tokens_in" _ c.tokens_in,
        count_valid "tokens_out" _ c.tokens_out,
        count_valid "tool_uses" _ c.tool_uses,
        c.identity,
        names_valid identity_keys c.used c.named,
      )
      refl

-- _parse_legacy_payload answers a response exactly if the payload names no profile or the legacy one,
-- has no outcome and carries that response, in which the tokens and the uses of tools are integers
-- not below zero and the five parts of the identity are texts that are not empty.
pub parse_legacy_payload_iff :
    (payload response : Fields)
    → (parse_legacy_payload payload ≡ ok response) ↔ IsLegacyResponse payload response
parse_legacy_payload_iff payload response = (accepted payload response, described payload response)
