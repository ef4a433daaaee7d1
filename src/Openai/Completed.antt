-- ===== src/Openai/Completed.antt =====
-- What a scan of the output has read (src/model_council/openai_adapter.py, `_scan_openai_output_items`)
-- when it ends without a refusal and without a call of a tool.
use model_council_lab.Openai.Description.{
  SaysParts, Says, no_part, text_part, no_item, reasoning_item, message_item,
}
use model_council_lab.Prelude.{
  ◌≡◌, List, Option, String, [], arith, false, some, none, ◌++◌, ◌∷◌, ap, str_eq, ◌∙◌, sym, true,
  refl, elem, eq_iff, subst, append-nil, append_assoc, ◌&&◌,
}
use model_council_lab.Openai.{
  ◌>>=◌, Scan, add_refusal, add_text, scan_part, text_of, translated, see_tool, role_allowed,
  Translated, part_of, openai_tool_item_types, item_of, item_status_allowed, refused, scan_content,
  scan_item, scan_items, scan_parts,
}
use model_council_lab.Json.{
  Fields, Items, Json, get, nil, text, array, boolean, cons, integer, object, float_bits, null,
}
use model_council_lab.Run.Terminal.{if_of}

pub text_of_lem : (o : Option Json) (t : String) → text_of o ≡ some t → o ≡ some (text t)
unfolding text_of
text_of_lem none t h = grind arith
text_of_lem (some (text s)) t h = grind arith
text_of_lem (some null) t h = grind arith
text_of_lem (some (boolean b)) t h = grind arith
text_of_lem (some (integer n)) t h = grind arith
text_of_lem (some (float_bits n)) t h = grind arith
text_of_lem (some (array xs)) t h = grind arith
text_of_lem (some (object fs)) t h = grind arith

abbrev pub IsClean : Scan → Type 0
IsClean s = (s.refusals ≡ []) × (s.tool_seen ≡ false)

-- What a part that leaves the scan clean says.
abbrev Adds : Fields → Scan → Scan → Type 0
Adds fs s s' =
    IsClean s
    × ((t : String) × ((get "type" fs ≡ some (text "output_text"))
          × ((get "text" fs ≡ some (text t)) × (s'.texts ≡ s.texts ++ (t ∷ [])))))

add_text_lem :
    (o : Option String) (s s' : Scan)
    → add_text o s ≡ translated s'
    → IsClean s'
    → IsClean s × ((t : String) × ((o ≡ some t) × (s'.texts ≡ s.texts ++ (t ∷ []))))
unfolding add_text
add_text_lem none s s' h c = grind arith
add_text_lem (some t) s s' h c =
    let e : record s { texts = s.texts ++ (t ∷ []) } ≡ s' = grind arith in
    (
      (ap (λ x. x.refusals) e ∙ c.0, ap (λ x. x.tool_seen) e ∙ c.1),
      (t, (refl, ap (λ x. x.texts) (sym e))),
    )

unclean_tool : (s s' : Scan) → translated (see_tool s) ≡ translated s' → IsClean s' → ⊥
unclean_tool s s' h c =
    let e : see_tool s ≡ s' = grind arith in ground (arith, ap (λ x. x.tool_seen) e ∙ c.1)

unclean_append : (r : String) (rs : List String) → rs ++ (r ∷ []) ≡ [] → ⊥
unclean_append r [] h = grind arith
unclean_append r (q ∷ rs) h = grind arith

unclean_refusal :
    (o : Option String) (s s' : Scan) → add_refusal o s ≡ translated s' → IsClean s' → ⊥
unfolding add_refusal
unclean_refusal none s s' h c = grind arith
unclean_refusal (some r) s s' h c =
    let e : record s { refusals = s.refusals ++ (r ∷ []) } ≡ s' = grind arith in
    unclean_append r s.refusals (ap (λ x. x.refusals) e ∙ c.0)

scan_part_lem :
    (o : Option String) (fs : Fields) (s s' : Scan)
    → text_of (get "type" fs) ≡ o
    → scan_part o fs s ≡ translated s'
    → IsClean s'
    → Adds fs s s'
unfolding scan_part
scan_part_lem none fs s s' o h c = grind arith
scan_part_lem (some part_type) fs s s' o h c =
    if_of P (elem part_type openai_tool_item_types) (λ t h c. absurd (unclean_tool s s' h c))
      (λ f.
        if_of P (str_eq part_type "output_text")
          (λ t h c.
            let a = add_text_lem (text_of (get "text" fs)) s s' h c in
            (
              a.0,
              (
                a.1.0,
                (
                  text_of_lem _ _ (o ∙ ap some ((eq_iff part_type "output_text").0 t)),
                  (text_of_lem _ _ a.1.1.0, a.1.1.1),
                ),
              ),
            ))
          (λ f.
            if_of P (str_eq part_type "refusal")
              (λ t h c. absurd (unclean_refusal (text_of (get "refusal" fs)) s s' h c))
              (λ f h c. grind arith)))
      h c
  where
    P : Translated Scan → Type 0
    P x = x ≡ translated s' → IsClean s' → Adds fs s s'

part_of_lem :
    (x : Json) (s s' : Scan)
    → part_of x s ≡ translated s'
    → IsClean s'
    → (fs : Fields) × ((x ≡ object fs) × Adds fs s s')
part_of_lem (object fs) s s' h c =
    (fs, (refl, scan_part_lem (text_of (get "type" fs)) fs s s' refl h c))
part_of_lem null s s' h c = grind arith
part_of_lem (boolean b) s s' h c = grind arith
part_of_lem (integer n) s s' h c = grind arith
part_of_lem (float_bits n) s s' h c = grind arith
part_of_lem (text t) s s' h c = grind arith
part_of_lem (array xs) s s' h c = grind arith

-- A chain that succeeds has succeeded in its first part.
pub bind_lem :
    {A B : Type 0} (r : Translated A) (next : A → Translated B) (b : B)
    → (r >>= next) ≡ translated b
    → (a : A) × ((r ≡ translated a) × (next a ≡ translated b))
bind_lem (translated a) next b h = (a, (refl, h))
bind_lem (refused r) next b h = grind arith

scan_parts_lem :
    (xs : Items) (s s' : Scan)
    → scan_parts xs s ≡ translated s'
    → IsClean s'
    → IsClean s × ((ts : List String) × (SaysParts xs ts × (s'.texts ≡ s.texts ++ ts)))
unfolding scan_parts
scan_parts_lem nil s s' h c =
    let e : s ≡ s' = grind arith in
    (subst IsClean (sym e) c, ([], (no_part, ap (λ x. x.texts) (sym e) ∙ sym (append-nil s.texts))))
scan_parts_lem (cons x xs) s s' h c =
    let (m, (p, q)) = bind_lem (part_of x s) (scan_parts xs) s' h in
    let (d, (ts, (says, e))) = scan_parts_lem xs m s' q c in
    let (fs, (x_is, (clean, (t, (kind, (value, one)))))) = part_of_lem x s m p d in
    (
      clean,
      (
        t ∷ ts,
        (
          subst (λ y. SaysParts (cons y xs) (t ∷ ts)) (sym x_is) (text_part kind value says),
          e ∙ (ap (λ y. y ++ ts) one ∙ append_assoc s.texts (t ∷ []) ts),
        ),
      ),
    )

-- What an item that leaves the scan clean says, before the rest of the output.
abbrev SaysBefore : Json → List String → Type 0
SaysBefore x ts =
    (items : Items) (us : List String) → Says items us → Says (cons x items) (ts ++ us)

abbrev AddsItem : Json → Scan → Scan → Type 0
AddsItem x s s' = IsClean s × ((ts : List String) × (SaysBefore x ts × (s'.texts ≡ s.texts ++ ts)))

completed_status :
    (o : Option String) → item_status_allowed "completed" o ≡ true → o ≡ some "completed"
unfolding item_status_allowed
completed_status none h = grind arith
completed_status (some t) h = ap some ((eq_iff t "completed").0 h)

scan_content_lem :
    (o : Option Json) (s s' : Scan)
    → scan_content o s ≡ translated s'
    → IsClean s'
    → IsClean s
      × ((parts : Items) × ((ts : List String) × ((o ≡ some (array parts))
              × (SaysParts parts ts × (s'.texts ≡ s.texts ++ ts)))))
unfolding scan_content
scan_content_lem (some (array parts)) s s' h c =
    let (clean, (ts, (says, e))) = scan_parts_lem parts s s' h c in
    (clean, (parts, (ts, (refl, (says, e)))))
scan_content_lem none s s' h c = grind arith
scan_content_lem (some null) s s' h c = grind arith
scan_content_lem (some (boolean b)) s s' h c = grind arith
scan_content_lem (some (integer n)) s s' h c = grind arith
scan_content_lem (some (float_bits n)) s s' h c = grind arith
scan_content_lem (some (text t)) s s' h c = grind arith
scan_content_lem (some (object fs)) s s' h c = grind arith

scan_item_lem :
    (o : Option String) (fs : Fields) (s s' : Scan)
    → text_of (get "type" fs) ≡ o
    → scan_item "completed" o fs s ≡ translated s'
    → IsClean s'
    → AddsItem (object fs) s s'
unfolding scan_item
scan_item_lem none fs s s' o h c = grind arith
scan_item_lem (some item_type) fs s s' o h c =
    if_of P (elem item_type openai_tool_item_types) (λ t h c. absurd (unclean_tool s s' h c))
      (λ f.
        if_of P (str_eq item_type "reasoning")
          (λ t h c.
            let e : s ≡ s' = grind arith in
            (
              subst IsClean (sym e) c,
              (
                [],
                (
                  (λ items us says. reasoning_item (type_is "reasoning" t) says),
                  ap (λ x. x.texts) (sym e) ∙ sym (append-nil s.texts),
                ),
              ),
            ))
          (λ f.
            if_of P
              (str_eq item_type "message"
                && item_status_allowed "completed" (text_of (get "status" fs))
                && role_allowed (get "role" fs))
              (λ t h c.
                let (clean, (parts, (ts, (content, (says, e))))) =
                  scan_content_lem (get "content" fs) s s' h c in
                let m : str_eq item_type "message" ≡ true = ground (arith, t) in
                let n : item_status_allowed "completed" (text_of (get "status" fs)) ≡ true =
                  ground (arith, t) in
                let r : role_allowed (get "role" fs) ≡ true = ground (arith, t) in
                (
                  clean,
                  (
                    ts,
                    (
                      (λ items us rest.
                          message_item (type_is "message" m)
                            (text_of_lem _ _ (completed_status _ n)) r content says rest),
                      e,
                    ),
                  ),
                ))
              (λ f h c. grind arith)))
      h c
  where
    P : Translated Scan → Type 0
    P x = x ≡ translated s' → IsClean s' → AddsItem (object fs) s s'

    type_is : (t : String) → str_eq item_type t ≡ true → get "type" fs ≡ some (text t)
    type_is t h = text_of_lem _ _ (o ∙ ap some ((eq_iff item_type t).0 h))

item_of_lem :
    (x : Json) (s s' : Scan)
    → item_of "completed" x s ≡ translated s'
    → IsClean s'
    → AddsItem x s s'
item_of_lem (object fs) s s' h c = scan_item_lem (text_of (get "type" fs)) fs s s' refl h c
item_of_lem null s s' h c = grind arith
item_of_lem (boolean b) s s' h c = grind arith
item_of_lem (integer n) s s' h c = grind arith
item_of_lem (float_bits n) s s' h c = grind arith
item_of_lem (text t) s s' h c = grind arith
item_of_lem (array xs) s s' h c = grind arith

-- A scan that ends clean has read output that says what it collected.
pub scan_items-Says :
    (xs : Items) (s s' : Scan)
    → scan_items "completed" xs s ≡ translated s'
    → IsClean s'
    → IsClean s × ((ts : List String) × (Says xs ts × (s'.texts ≡ s.texts ++ ts)))
unfolding scan_items
scan_items-Says nil s s' h c =
    let e : s ≡ s' = grind arith in
    (subst IsClean (sym e) c, ([], (no_item, ap (λ x. x.texts) (sym e) ∙ sym (append-nil s.texts))))
scan_items-Says (cons x xs) s s' h c =
    let (m, (p, q)) = bind_lem (item_of "completed" x s) (scan_items "completed" xs) s' h in
    let (d, (us, (says, e))) = scan_items-Says xs m s' q c in
    let (clean, (ts, (before, one))) = item_of_lem x s m p d in
    (
      clean,
      (ts ++ us, (before xs us says, e ∙ (ap (λ y. y ++ us) one ∙ append_assoc s.texts ts us))),
    )
