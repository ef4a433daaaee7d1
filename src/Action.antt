-- ===== src/Action.antt =====
-- Steps that change a state and may raise, as a method of the harness does: what was changed before a
-- raise stays changed.
pub mod Triple
use model_council_lab.Prelude.{Bool, true, false, ◌≡◌, refl}
use model_council_lab.Errors.{Exc, Result, ok, err, Check}

abbrev pub Action : Type 0 → Type 0 → Type 0
Action S A = S → Result A × S

-- What follows a step, by its result.
abbrev pub proceed : {S A B : Type 0} → Result A → (A → Action S B) → Action S B
proceed (ok a) next s = next a s
proceed (err e) next s = (err e, s)

infixl 5 ◌>>=◌
abbrev pub ◌>>=◌ : {S A B : Type 0} → Action S A → (A → Action S B) → Action S B
◌>>=◌ step next s = proceed (step s).0 next (step s).1

infixl 5 ◌>>◌
abbrev pub ◌>>◌ : {S B : Type 0} → Action S (Unit {0}) → Action S B → Action S B
step >> next = step >>= λ _. next

abbrev pub yield : {S A : Type 0} → A → Action S A
yield a s = (ok a, s)

abbrev pub throw : {S A : Type 0} → Exc → Action S A
throw e s = (err e, s)

-- A test that reads the state.
abbrev pub reading : {S A : Type 0} → (S → Result A) → Action S A
reading f s = (f s, s)

-- A step on one half of a pair.
abbrev pub on_first : {S T A : Type 0} → Action S A → Action (S × T) A
on_first step (s, t) = ((step s).0, ((step s).1, t))

abbrev pub on_second : {S T A : Type 0} → Action T A → Action (S × T) A
on_second step (s, t) = ((step t).0, (s, (step t).1))
