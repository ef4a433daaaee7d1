-- ===== src/Errors.antt =====
-- src/model_council/errors.py: the exceptions of the harness, and results that carry one.
use model_council_lab.Prelude.{String, Bool, true, false, ◌≡◌, ◌⊎◌, inl, inr, refl}
use model_council_lab.Category.{ProviderErrorCategory}

-- `neutral_provider_failure` is `NeutralProviderFailure` of live_contract.py, with the category and
-- the sanitized message of its error and whether an outcome came with it; `other_exception` is any other subclass of `Exception`, with
-- the class's name and the message; `interrupt` is a `BaseException` that is no `Exception`.
pub data Exc : Type 0 where
  governance_violation : String → Exc
  integrity_violation : String → Exc
  contract_violation : String → Exc
  model_failure : String → Exc
  stage_timeout : String → Exc
  infrastructure_error : String → Exc
  protocol_error : String → Exc
  neutral_provider_failure : ProviderErrorCategory → String → Bool → Exc
  other_exception : String → String → Exc
  interrupt : String → Exc

-- isinstance(exc, GovernanceViolation)
abbrev pub is_governance : Exc → Bool
is_governance (governance_violation m) = true
is_governance (integrity_violation m) = true
is_governance (contract_violation m) = true
is_governance _ = false

-- isinstance(exc, Exception)
abbrev pub is_exception : Exc → Bool
is_exception (interrupt m) = false
is_exception _ = true

pub data Result {ℓ} (A : Type ℓ) : Type ℓ where
  ok : A → Result A
  err : Exc → Result A

-- The result of a validator that returns nothing.
abbrev pub Check : Type 0
Check = Result (Unit {0})

-- What follows a call that may raise: the rest runs on its value, and is skipped if it raised.
infixl 5 ◌>>=◌
abbrev pub ◌>>=◌ {ι ℓ} : {In : Type ι} {Out : Type ℓ} → Result In → (In → Result Out) → Result Out
err raised >>= next = err raised
ok value >>= next = next value

-- The same after a validator.
infixl 5 ◌>>◌
abbrev pub ◌>>◌ {ι} : {Out : Type ι} → Check → Result Out → Result Out
checked >> rest = checked >>= λ _. rest

-- `if not test: raise e`
abbrev pub require : Bool → Exc → Result (Unit {0})
require true e = ok tt
require false e = err e

abbrev pub is_ok {ℓ} : {A : Type ℓ} → Result A → Bool
is_ok (ok a) = true
is_ok (err e) = false

pub Result-cases {ℓ} :
    {A : Type ℓ} (r : Result A) → ((a : A) × (r ≡ ok a)) ⊎ ((e : Exc) × (r ≡ err e))
Result-cases (ok a) = inl (a, refl)
Result-cases (err e) = inr (e, refl)
