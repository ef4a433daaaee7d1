-- ===== src/Action/Triple.antt =====
-- Triples for actions: what holds of the state after a step, by whether it answers or raises.
use model_council_lab.Prelude.{◌≡◌, subst, arith}
use model_council_lab.Errors.{Exc, Result, ok, err}
use model_council_lab.Action.{Action, proceed, ◌>>=◌}

-- The answer and the state meet the one, the exception and the state the other.
pub data After {S A : Type 0} (Q : A → S → Type 0) (E : Exc → S → Type 0)
    : Result A → S → Type 0 where
  answered : {a : A} {s : S} → Q a s → After Q E (ok a) s
  raised : {e : Exc} {s : S} → E e s → After Q E (err e) s

-- {P} step {Q | E}
abbrev pub Triple :
    {S A : Type 0} → (S → Type 0) → Action S A → (A → S → Type 0) → (Exc → S → Type 0) → Type 0
Triple P step Q E = (s : _) → P s → After Q E (step s).0 (step s).1

-- A step keeps what holds before it.
abbrev pub Keeps : {S A : Type 0} → (S → Type 0) → Action S A → Type 0
Keeps P step = (s : _) → P s → P (step s).1

pub proceed-After :
    {S A B : Type 0} {Q : A → S → Type 0} {R : B → S → Type 0} {E : Exc → S → Type 0}
    {next : A → Action S B} {r : Result A} {s : S}
    → After Q E r s
    → ((a : A) → Triple (Q a) (next a) R E)
    → After R E (proceed r next s).0 (proceed r next s).1
proceed-After (answered q) h = h _ _ q
proceed-After (raised x) h = raised x

pub triple_bind :
    {S A B : Type 0} {P : S → Type 0} {Q : A → S → Type 0} {R : B → S → Type 0}
    {E : Exc → S → Type 0} {step : Action S A} {next : A → Action S B}
    → Triple P step Q E
    → ((a : A) → Triple (Q a) (next a) R E)
    → Triple P (step >>= next) R E
triple_bind h k s p = proceed-After (h s p) k

-- A step that keeps a property meets it whether it answers or raises.
pub keeps-After :
    {S A : Type 0} (P : S → Type 0) (r : Result A) (s : S) → P s → After (λ _. P) (λ _. P) r s
keeps-After P (ok a) s p = answered p
keeps-After P (err e) s p = raised p

-- What is known of an answer.
pub after_ok :
    {S A : Type 0} {Q : A → S → Type 0} {E : Exc → S → Type 0} {r : Result A} {s : S} {a : A}
    → After Q E r s
    → r ≡ ok a
    → Q a s
after_ok {Q = Q} {s = s} {a = b} (answered {a} q) e =
    let eq : a ≡ b = grind arith in subst (λ x. Q x s) eq q
after_ok (raised x) e = grind arith

weaken-After :
    {S A : Type 0} {Q : A → S → Type 0} {E F : Exc → S → Type 0} {r : Result A} {s : S}
    → After Q E r s
    → ((e : Exc) (s : S) → E e s → F e s)
    → After Q F r s
weaken-After (answered q) k = answered q
weaken-After (raised x) k = raised (k _ _ x)

pub triple_weaken :
    {S A : Type 0} {P : S → Type 0} {Q : A → S → Type 0} {E F : Exc → S → Type 0}
    {step : Action S A}
    → Triple P step Q E
    → ((e : Exc) (s : S) → E e s → F e s)
    → Triple P step Q F
triple_weaken h k s p = weaken-After (h s p) k

-- What holds whether a step answers or raises.
pub after_both :
    {S A : Type 0} {P : S → Type 0} {r : Result A} {s : S}
    → After (λ (a : A). P) (λ (e : Exc). P) r s
    → P s
after_both (answered p) = p
after_both (raised p) = p

-- What is known of the answer is weakened.
pub answer_weaken :
    {S A : Type 0} {Q R : A → S → Type 0} {E : Exc → S → Type 0} {r : Result A} {s : S}
    → After Q E r s
    → ((a : A) (s : S) → Q a s → R a s)
    → After R E r s
answer_weaken (answered q) k = answered (k _ _ q)
answer_weaken (raised x) k = raised x
