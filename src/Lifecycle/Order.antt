-- ===== src/Lifecycle/Order.antt =====
-- The order of the events of a journal: what can follow what, and the one chain that this allows
-- (_NEXT of src/model_council/attempt_lifecycle.py).
use model_council_lab.Prelude.{
  none, some, ◌∷◌, [], true, false, ◌≡◌, arith, inl, inr, refl, Option, List, Bool, if◌then◌else◌,
  map, subst, ◌⊎◌, take, length,
}
use model_council_lab.Lifecycle.{
  attempt_prepared, dispatch_permitted, sdk_call_boundary, sdk_return_observed,
  sdk_exception_observed, outcome_observed, Event, follows, EventKind,
}

-- The kinds follow each other, from the one before.
abbrev pub Follows : Option EventKind → List Event → Type 0
Follows previous [] = Unit
Follows previous (e ∷ es) = (follows previous e.body.kind ≡ true) × Follows (some e.body.kind) es

-- The whole chain, for a call that returned and for one that raised.
abbrev pub chain : Bool → List EventKind
chain returned =
    attempt_prepared
    ∷ dispatch_permitted
    ∷ sdk_call_boundary
    ∷ (if returned then sdk_return_observed else sdk_exception_observed)
    ∷ outcome_observed
    ∷ []

abbrev pub kinds : List Event → List EventKind
kinds = map (λ (e : Event). e.body.kind)

after_outcome : (es : List Event) → Follows (some outcome_observed) es → es ≡ []
unfolding follows
after_outcome [] h = refl
after_outcome (e ∷ es) h = absurd (grind (arith, h.0))

after_outcome-kinds :
    (es : List Event) → Follows (some outcome_observed) es → kinds es ≡ take (length es) []
after_outcome-kinds es h = rw (after_outcome es h) refl

after_return :
    (es : List Event)
    → Follows (some sdk_return_observed) es
    → kinds es ≡ take (length es) (outcome_observed ∷ [])
unfolding follows
after_return [] h = refl
after_return (e ∷ es) h =
    let k : e.body.kind ≡ outcome_observed = grind (arith, h.0) in
    let rest = after_outcome-kinds es (subst (λ p. Follows (some p) es) k h.1) in
    ground (arith, k, rest)

after_sdk_exception :
    (es : List Event)
    → Follows (some sdk_exception_observed) es
    → kinds es ≡ take (length es) (outcome_observed ∷ [])
unfolding follows
after_sdk_exception [] h = refl
after_sdk_exception (e ∷ es) h =
    let k : e.body.kind ≡ outcome_observed = grind (arith, h.0) in
    let rest = after_outcome-kinds es (subst (λ p. Follows (some p) es) k h.1) in
    ground (arith, k, rest)

after_boundary :
    (es : List Event)
    → Follows (some sdk_call_boundary) es
    → (returned : Bool) × (kinds es
        ≡ take (length es) (
            (if returned then sdk_return_observed else sdk_exception_observed)
            ∷ outcome_observed
            ∷ []))
unfolding follows
after_boundary [] h = (true, refl)
after_boundary (e ∷ es) h =
    let k : (e.body.kind ≡ sdk_return_observed) ⊎ (e.body.kind ≡ sdk_exception_observed) =
      grind (arith, h.0) in
    elim k [
      | inl r ↦ (
        true,
        let rest = after_return es (subst (λ p. Follows (some p) es) r h.1) in
            ground (arith, r, rest),
      )
      | inr x ↦ (
        false,
        let rest = after_sdk_exception es (subst (λ p. Follows (some p) es) x h.1) in
            ground (arith, x, rest),
      )
    ]

after_permission :
    (es : List Event)
    → Follows (some dispatch_permitted) es
    → (returned : Bool) × (kinds es
        ≡ take (length es) (
            sdk_call_boundary
            ∷ (if returned then sdk_return_observed else sdk_exception_observed)
            ∷ outcome_observed
            ∷ []))
unfolding follows
after_permission [] h = (true, refl)
after_permission (e ∷ es) h =
    let k : e.body.kind ≡ sdk_call_boundary = grind (arith, h.0) in
    let (returned, rest) = after_boundary es (subst (λ p. Follows (some p) es) k h.1) in
    (returned, ground (arith, k, rest))

after_preparation :
    (es : List Event)
    → Follows (some attempt_prepared) es
    → (returned : Bool) × (kinds es
        ≡ take (length es) (
            dispatch_permitted
            ∷ sdk_call_boundary
            ∷ (if returned then sdk_return_observed else sdk_exception_observed)
            ∷ outcome_observed
            ∷ []))
unfolding follows
after_preparation [] h = (true, refl)
after_preparation (e ∷ es) h =
    let k : e.body.kind ≡ dispatch_permitted = grind (arith, h.0) in
    let (returned, rest) = after_permission es (subst (λ p. Follows (some p) es) k h.1) in
    (returned, ground (arith, k, rest))

pub from_start :
    (es : List Event)
    → Follows none es
    → (returned : Bool) × (kinds es
        ≡ take (length es) (
            attempt_prepared
            ∷ dispatch_permitted
            ∷ sdk_call_boundary
            ∷ (if returned then sdk_return_observed else sdk_exception_observed)
            ∷ outcome_observed
            ∷ []))
unfolding follows
from_start [] h = (true, refl)
from_start (e ∷ es) h =
    let k : e.body.kind ≡ attempt_prepared = grind (arith, h.0) in
    let (returned, rest) = after_preparation es (subst (λ p. Follows (some p) es) k h.1) in
    (returned, ground (arith, k, rest))
