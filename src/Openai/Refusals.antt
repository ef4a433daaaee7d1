-- ===== src/Openai/Refusals.antt =====
-- What src/model_council/openai_adapter.py refuses, and whether src/model_council/retry_policy.py would
-- try it again.
use model_council_lab.Prelude.{
  ◌≡◌, Option, false, String, refl, ◌∙◌, ap, elem, str_eq, none, subst, ◌&&◌, not, join,
}
use model_council_lab.Openai.{
  text_of, incomplete_raw, ◌>>=◌, Translated, scan_part, translated, refused, Scan, some, add_text,
  add_refusal, openai_tool_item_types, Reject, classify_openai_response, classify_scan,
  classify_status, incomplete_reason, incomplete_reject, scan_content, scan_item, scan_items,
  scan_openai_output_items, scan_parts, completed_text, is_text, item_of, part_of,
  item_status_allowed, no_scan, is_consistent, only_reason, role_allowed, has_none,
}
use model_council_lab.Category.{
  ProviderErrorCategory, incomplete_provider_result, malformed_provider_protocol, policy_refusal,
}
use model_council_lab.Category.Retry.{is_transient, is_retry_candidate, is_retry_candidate-total}
use model_council_lab.Errors.{ok}
use model_council_lab.Json.{
  Fields, Json, get, Items, array, text, boolean, cons, object, integer, nil, float_bits, keys,
  null,
}
use model_council_lab.Run.Terminal.{if_of}

-- A refusal that is not tried again.
IsFinal : {A : Type 0} → Translated A → Type 0
IsFinal (translated a) = Unit {0}
IsFinal (refused r) = is_retry_candidate r.category ≡ ok false

final_lem : (c : ProviderErrorCategory) → is_transient c ≡ false → is_retry_candidate c ≡ ok false
final_lem c h = (is_retry_candidate-total c).0 ∙ ap ok h

malformed_final : is_retry_candidate malformed_provider_protocol ≡ ok false
unfolding is_transient
malformed_final = final_lem malformed_provider_protocol refl

incomplete_final : is_retry_candidate incomplete_provider_result ≡ ok false
unfolding is_transient
incomplete_final = final_lem incomplete_provider_result refl

refusal_final : is_retry_candidate policy_refusal ≡ ok false
unfolding is_transient
refusal_final = final_lem policy_refusal refl

then-IsFinal :
    {A B : Type 0} (r : Translated A) (next : A → Translated B)
    → IsFinal r
    → ((a : A) → IsFinal (next a))
    → IsFinal (r >>= next)
unfolding IsFinal
then-IsFinal (translated a) next f k = k a
then-IsFinal (refused r) next f k = f

scan_part-IsFinal : (o : Option String) (fs : Fields) (s : Scan) → IsFinal (scan_part o fs s)
unfolding IsFinal scan_part add_text add_refusal
scan_part-IsFinal none fs s = malformed_final
scan_part-IsFinal (some part_type) fs s =
    if_of IsFinal (elem part_type openai_tool_item_types) (λ t. tt)
      (λ f.
        if_of IsFinal (str_eq part_type "output_text") (λ t. added (text_of (get "text" fs)))
          (λ f.
            if_of IsFinal (str_eq part_type "refusal") (λ t. noted (text_of (get "refusal" fs)))
              (λ f. malformed_final)))
  where
    added : (o : Option String) → IsFinal (add_text o s)
    added none = malformed_final
    added (some t) = tt

    noted : (o : Option String) → IsFinal (add_refusal o s)
    noted none = malformed_final
    noted (some t) = tt

part_of-IsFinal : (x : Json) (s : Scan) → IsFinal (part_of x s)
unfolding IsFinal
part_of-IsFinal (object fs) s = scan_part-IsFinal (text_of (get "type" fs)) fs s
part_of-IsFinal null s = malformed_final
part_of-IsFinal (boolean b) s = malformed_final
part_of-IsFinal (integer n) s = malformed_final
part_of-IsFinal (float_bits n) s = malformed_final
part_of-IsFinal (text t) s = malformed_final
part_of-IsFinal (array xs) s = malformed_final

scan_parts-IsFinal : (xs : Items) (s : Scan) → IsFinal (scan_parts xs s)
unfolding IsFinal scan_parts
scan_parts-IsFinal nil s = tt
scan_parts-IsFinal (cons x xs) s =
    then-IsFinal (part_of x s) (scan_parts xs) (part_of-IsFinal x s) (scan_parts-IsFinal xs)

scan_content-IsFinal : (o : Option Json) (s : Scan) → IsFinal (scan_content o s)
unfolding IsFinal scan_content
scan_content-IsFinal (some (array parts)) s = scan_parts-IsFinal parts s
scan_content-IsFinal none s = malformed_final
scan_content-IsFinal (some null) s = malformed_final
scan_content-IsFinal (some (boolean b)) s = malformed_final
scan_content-IsFinal (some (integer n)) s = malformed_final
scan_content-IsFinal (some (float_bits n)) s = malformed_final
scan_content-IsFinal (some (text t)) s = malformed_final
scan_content-IsFinal (some (object fs)) s = malformed_final

module _ (status : String) where
  scan_item-IsFinal :
      (o : Option String) (fs : Fields) (s : Scan) → IsFinal (scan_item status o fs s)
  unfolding IsFinal scan_item
  scan_item-IsFinal none fs s = malformed_final
  scan_item-IsFinal (some item_type) fs s =
      if_of IsFinal (elem item_type openai_tool_item_types) (λ t. tt)
        (λ f.
          if_of IsFinal (str_eq item_type "reasoning") (λ t. tt)
            (λ f.
              if_of IsFinal
                (str_eq item_type "message"
                  && item_status_allowed status (text_of (get "status" fs))
                  && role_allowed (get "role" fs))
                (λ t. scan_content-IsFinal (get "content" fs) s) (λ f. malformed_final)))

  item_of-IsFinal : (x : Json) (s : Scan) → IsFinal (item_of status x s)
  unfolding IsFinal
  item_of-IsFinal (object fs) s = scan_item-IsFinal (text_of (get "type" fs)) fs s
  item_of-IsFinal null s = malformed_final
  item_of-IsFinal (boolean b) s = malformed_final
  item_of-IsFinal (integer n) s = malformed_final
  item_of-IsFinal (float_bits n) s = malformed_final
  item_of-IsFinal (text t) s = malformed_final
  item_of-IsFinal (array xs) s = malformed_final

  scan_items-IsFinal : (xs : Items) (s : Scan) → IsFinal (scan_items status xs s)
  unfolding IsFinal scan_items
  scan_items-IsFinal nil s = tt
  scan_items-IsFinal (cons x xs) s =
      then-IsFinal (item_of status x s) (scan_items status xs) (item_of-IsFinal x s)
        (scan_items-IsFinal xs)

  scan_output-IsFinal : (o : Option Json) → IsFinal (scan_openai_output_items status o)
  unfolding IsFinal scan_openai_output_items
  scan_output-IsFinal (some (array xs)) = scan_items-IsFinal xs no_scan
  scan_output-IsFinal none = malformed_final
  scan_output-IsFinal (some null) = malformed_final
  scan_output-IsFinal (some (boolean b)) = malformed_final
  scan_output-IsFinal (some (integer n)) = malformed_final
  scan_output-IsFinal (some (float_bits n)) = malformed_final
  scan_output-IsFinal (some (text t)) = malformed_final
  scan_output-IsFinal (some (object fs)) = malformed_final

abbrev IsLast : Reject → Type 0
IsLast r = is_retry_candidate r.category ≡ ok false

incomplete_reason-IsLast :
    (o : Option Json) (raw : Option String) → IsLast (incomplete_reason o raw)
unfolding incomplete_reason
incomplete_reason-IsLast none raw = incomplete_final
incomplete_reason-IsLast (some null) raw = incomplete_final
incomplete_reason-IsLast (some (text reason)) raw =
    if_of IsLast (str_eq reason "max_output_tokens") (λ t. incomplete_final)
      (λ f.
        if_of IsLast (str_eq reason "content_filter") (λ t. incomplete_final)
          (λ f. malformed_final))
incomplete_reason-IsLast (some (boolean b)) raw = malformed_final
incomplete_reason-IsLast (some (integer n)) raw = malformed_final
incomplete_reason-IsLast (some (float_bits n)) raw = malformed_final
incomplete_reason-IsLast (some (array xs)) raw = malformed_final
incomplete_reason-IsLast (some (object fs)) raw = malformed_final

incomplete_reject-IsLast :
    (o : Option Json) (raw : Option String) → IsLast (incomplete_reject o raw)
unfolding incomplete_reject
incomplete_reject-IsLast none raw = incomplete_reason-IsLast none raw
incomplete_reject-IsLast (some null) raw = incomplete_reason-IsLast none raw
incomplete_reject-IsLast (some (object fs)) raw =
    if_of IsLast (only_reason (keys fs)) (λ t. incomplete_reason-IsLast (get "reason" fs) raw)
      (λ f. malformed_final)
incomplete_reject-IsLast (some (text t)) raw = malformed_final
incomplete_reject-IsLast (some (boolean b)) raw = malformed_final
incomplete_reject-IsLast (some (integer n)) raw = malformed_final
incomplete_reject-IsLast (some (float_bits n)) raw = malformed_final
incomplete_reject-IsLast (some (array xs)) raw = malformed_final

classify_scan-IsFinal :
    (status : String) (payload : Fields) (s : Scan) → IsFinal (classify_scan status payload s)
unfolding IsFinal classify_scan completed_text
classify_scan-IsFinal status payload s =
    if_of IsFinal (not (is_consistent status payload s)) (λ t. malformed_final)
      (λ f.
        if_of IsFinal s.tool_seen (λ t. malformed_final)
          (λ f.
            if_of IsFinal (str_eq status "incomplete")
              (λ t. incomplete_reject-IsLast (get "incomplete_details" payload) (incomplete_raw s))
              (λ f.
                if_of IsFinal (str_eq status "completed")
                  (λ t.
                    if_of IsFinal (not (has_none s.refusals)) (λ r. refusal_final)
                      (λ r.
                        if_of IsFinal (str_eq (join "" s.texts) "") (λ e. malformed_final)
                          (λ e. tt)))
                  (λ f. malformed_final))))

classify_status-IsFinal :
    (o : Option String) (payload : Fields) → IsFinal (classify_status o payload)
unfolding IsFinal classify_status
classify_status-IsFinal none payload = malformed_final
classify_status-IsFinal (some status) payload =
    then-IsFinal (scan_openai_output_items status (get "output" payload))
      (classify_scan status payload) (scan_output-IsFinal status (get "output" payload))
      (classify_scan-IsFinal status payload)

classify_openai_response-IsFinal : (payload : Fields) → IsFinal (classify_openai_response payload)
unfolding IsFinal classify_openai_response
classify_openai_response-IsFinal payload =
    if_of IsFinal (is_text "response" (get "object" payload))
      (λ t. classify_status-IsFinal (text_of (get "status" payload)) payload) (λ f. malformed_final)

-- A response that is refused is never tried again: the retry policy answers no for its category,
-- whatever the response is.
pub classify_openai_response-final :
    (payload : Fields) (r : Reject)
    → classify_openai_response payload ≡ refused r
    → is_retry_candidate r.category ≡ ok false
unfolding IsFinal
classify_openai_response-final payload r h =
    subst IsFinal h (classify_openai_response-IsFinal payload)
