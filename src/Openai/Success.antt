-- ===== src/Openai/Success.antt =====
-- When `_classify_openai_response` of src/model_council/openai_adapter.py succeeds.
use model_council_lab.Openai.Description.{
  SaysParts, Says, IsCompletedText, no_part, text_part, no_item, reasoning_item, message_item,
}
use model_council_lab.Prelude.{
  ◌≡◌, List, Option, String, true, [], false, join, some, str_eq, ◌∷◌, arith, not, ◌++◌, ap, eq_iff,
  refl, subst, sym, ◌∙◌, none, elem, ◌↔◌, append-nil, append_assoc,
}
use model_council_lab.Openai.{
  classify_openai_response, classify_scan, classify_status, completed_text, is_consistent, is_text,
  scan_openai_output_items, scan_parts, Scan, scan_part, add_text, text_of, translated, agrees,
  Translated, is_null, scan_items, no_scan, has_none, scan_item, openai_tool_item_types,
  scan_content, item_status_allowed,
}
use model_council_lab.Json.{
  Fields, Json, get, Items, array, text, boolean, object, integer, float_bits, null,
}
use model_council_lab.Openai.Completed.{scan_items-Says, bind_lem, text_of_lem}
use model_council_lab.Run.Terminal.{if_of}

is_text_lem : (t : String) (o : Option Json) → is_text t o ≡ true → o ≡ some (text t)
unfolding is_text
is_text_lem t none h = grind arith
is_text_lem t (some (text s)) h = ap (λ x. some (text x)) ((eq_iff s t).0 h)
is_text_lem t (some null) h = grind arith
is_text_lem t (some (boolean b)) h = grind arith
is_text_lem t (some (integer n)) h = grind arith
is_text_lem t (some (float_bits n)) h = grind arith
is_text_lem t (some (array xs)) h = grind arith
is_text_lem t (some (object fs)) h = grind arith

empty_lem : {A : Type 0} (xs : List A) → has_none xs ≡ true → xs ≡ []
empty_lem [] h = refl
empty_lem (x ∷ xs) h = grind arith

completed_text_lem :
    (s : Scan) (t : String)
    → completed_text s ≡ translated t
    → (has_none s.refusals ≡ true) × ((t ≡ join "" s.texts) × (str_eq t "" ≡ false))
unfolding completed_text
completed_text_lem s t h =
    if_of P (not (has_none s.refusals)) (λ n h. grind arith)
      (λ n.
        if_of P (str_eq (join "" s.texts) "") (λ e h. grind arith)
          (λ e h.
            let i : t ≡ join "" s.texts = grind arith in
            (ground (arith, n), (i, subst (λ x. str_eq x "" ≡ false) (sym i) e))))
      h
  where
    P : Translated String → Type 0
    P x =
        x ≡ translated t
        → (has_none s.refusals ≡ true) × ((t ≡ join "" s.texts) × (str_eq t "" ≡ false))

-- What a success was classified from.
classify_scan_lem :
    (status : String) (payload : Fields) (s : Scan) (t : String)
    → classify_scan status payload s ≡ translated t
    → (is_consistent status payload s ≡ true)
      × ((s.tool_seen ≡ false) × ((status ≡ "completed") × (completed_text s ≡ translated t)))
unfolding classify_scan
classify_scan_lem status payload s t h =
    if_of P (not (is_consistent status payload s)) (λ n h. grind arith)
      (λ n.
        if_of P s.tool_seen (λ e h. grind arith)
          (λ e.
            if_of P (str_eq status "incomplete") (λ i h. grind arith)
              (λ i.
                if_of P (str_eq status "completed")
                  (λ c h. (ground (arith, n), (e, ((eq_iff status "completed").0 c, h))))
                  (λ c h. grind arith))))
      h
  where
    P : Translated String → Type 0
    P x =
        x ≡ translated t
        → (is_consistent status payload s ≡ true)
          × ((s.tool_seen ≡ false) × ((status ≡ "completed") × (completed_text s ≡ translated t)))

scan_output_lem :
    (o : Option Json) (s : Scan)
    → scan_openai_output_items "completed" o ≡ translated s
    → (xs : Items) × ((o ≡ some (array xs)) × (scan_items "completed" xs no_scan ≡ translated s))
unfolding scan_openai_output_items
scan_output_lem (some (array xs)) s h = (xs, (refl, h))
scan_output_lem none s h = grind arith
scan_output_lem (some null) s h = grind arith
scan_output_lem (some (boolean b)) s h = grind arith
scan_output_lem (some (integer n)) s h = grind arith
scan_output_lem (some (float_bits n)) s h = grind arith
scan_output_lem (some (text t)) s h = grind arith
scan_output_lem (some (object fs)) s h = grind arith

-- The checks that a completed response has passed.
consistent_lem :
    (payload : Fields) (s : Scan)
    → is_consistent "completed" payload s ≡ true
    → (agrees (join "" s.texts) (get "output_text" payload) ≡ true)
      × ((is_null (get "error" payload) ≡ true)
          × (is_null (get "incomplete_details" payload) ≡ true))
unfolding is_consistent
consistent_lem payload s h = ground (arith, h)

success_lem :
    (payload : Fields) (s : Scan) (t : String)
    → get "object" payload ≡ some (text "response")
    → get "status" payload ≡ some (text "completed")
    → scan_openai_output_items "completed" (get "output" payload) ≡ translated s
    → classify_scan "completed" payload s ≡ translated t
    → IsCompletedText payload t
success_lem payload s t o c x h =
    let (k, (tool, (u, v))) = classify_scan_lem "completed" payload s t h in
    let (none_refused, (t_is, some_text)) = completed_text_lem s t v in
    let (xs, (output_is, scanned)) = scan_output_lem (get "output" payload) s x in
    let (clean, (ts, (says, e))) =
      scan_items-Says xs no_scan s scanned (empty_lem s.refusals none_refused, tool) in
    let (a, (error_free, detail_free)) = consistent_lem payload s k in
    record {
      output = xs;
      texts = ts;
      is_response = o;
      is_completed = c;
      has_output = output_is;
      says = says;
      joined = t_is ∙ ap (join "") e;
      says_something = some_text;
      agreed = subst (λ y. agrees y (get "output_text" payload) ≡ true) (sym t_is) a;
      no_error = error_free;
      no_details = detail_free;
    }

status_lem :
    (o : Option String) (payload : Fields) (t : String)
    → text_of (get "status" payload) ≡ o
    → get "object" payload ≡ some (text "response")
    → classify_status o payload ≡ translated t
    → IsCompletedText payload t
unfolding classify_status
status_lem none payload t e o h = grind arith
status_lem (some status) payload t e o h =
    let (s, (x, v)) =
      bind_lem (scan_openai_output_items status (get "output" payload))
        (classify_scan status payload) t h in
    let c : status ≡ "completed" = (classify_scan_lem status payload s t v).1.1.0 in
    success_lem payload s t o (text_of_lem _ _ (e ∙ ap some c))
      (subst (λ y. scan_openai_output_items y (get "output" payload) ≡ translated s) c x)
      (subst (λ y. classify_scan y payload s ≡ translated t) c v)

classified :
    (payload : Fields) (t : String)
    → classify_openai_response payload ≡ translated t
    → IsCompletedText payload t
unfolding classify_openai_response
classified payload t h =
    if_of (λ (x : Translated String). x ≡ translated t → IsCompletedText payload t)
      (is_text "response" (get "object" payload))
      (λ o h.
        status_lem (text_of (get "status" payload)) payload t refl (is_text_lem "response" _ o) h)
      (λ f h. grind arith) h

parts_scanned :
    {xs : Items} {ts : List String} (s : Scan)
    → SaysParts xs ts
    → scan_parts xs s ≡ translated (record s { texts = s.texts ++ ts })
unfolding scan_parts scan_part add_text text_of elem openai_tool_item_types
parts_scanned s no_part = ap (λ x. translated (record s { texts = x })) (sym (append-nil s.texts))
parts_scanned s (text_part {t} {ts} kind value says) =
    rw (kind, value)
      (parts_scanned (record s { texts = s.texts ++ (t ∷ []) }) says
        ∙ ap (λ x. translated (record s { texts = x })) (append_assoc s.texts (t ∷ []) ts))

items_scanned :
    {xs : Items} {ts : List String} (s : Scan)
    → Says xs ts
    → scan_items "completed" xs s ≡ translated (record s { texts = s.texts ++ ts })
unfolding scan_items scan_item scan_content text_of elem openai_tool_item_types item_status_allowed
items_scanned s no_item = ap (λ x. translated (record s { texts = x })) (sym (append-nil s.texts))
items_scanned s (reasoning_item kind says) = rw kind (items_scanned s says)
items_scanned s (message_item {ps} {ts} kind status role content parts says) =
    rw (kind, status, role, content, parts_scanned s parts)
      (items_scanned (record s { texts = s.texts ++ ps }) says
        ∙ ap (λ x. translated (record s { texts = x })) (append_assoc s.texts ps ts))

said :
    (payload : Fields) (texts : List String)
    → agrees (join "" texts) (get "output_text" payload) ≡ true
    → is_null (get "error" payload) ≡ true
    → is_null (get "incomplete_details" payload) ≡ true
    → str_eq (join "" texts) "" ≡ false
    → classify_scan "completed" payload (record no_scan { texts = texts })
      ≡ translated (join "" texts)
unfolding classify_scan is_consistent completed_text
said payload texts a e d n = rw (a, e, d, n) refl

described :
    (payload : Fields) (t : String)
    → IsCompletedText payload t
    → classify_openai_response payload ≡ translated t
unfolding classify_openai_response classify_status scan_openai_output_items is_text text_of
described payload t c =
    rw (c.is_response, c.is_completed, c.has_output, items_scanned no_scan c.says)
      (said payload c.texts
          (subst (λ x. agrees x (get "output_text" payload) ≡ true) c.joined c.agreed) c.no_error
          c.no_details (subst (λ x. str_eq x "" ≡ false) c.joined c.says_something)
        ∙ ap translated (sym c.joined))

-- _classify_openai_response takes a response for a success with a text exactly if it is a completed
-- response whose output has nothing but reasoning and completed messages of the assistant made of
-- text, which join to that text, and which has no error and no incomplete details; the text is not
-- empty and the one that the response gives in output_text, if it gives one.
pub classify_openai_response_iff :
    (payload : Fields) (t : String)
    → (classify_openai_response payload ≡ translated t) ↔ IsCompletedText payload t
classify_openai_response_iff payload t = (classified payload t, described payload t)
