-- ===== src/Examples/Responses.antt =====
-- The classification of src/model_council/openai_adapter.py on small responses.
use model_council_lab.Openai.Description.{IsCompletedText}
use model_council_lab.Openai.{
  is_consistent, agrees, is_text, is_null, text_of, completed_text, scan_item, scan_items,
  scan_parts, scan_part, scan_content, add_text, item_status_allowed, classify_status,
  classify_scan, scan_openai_output_items, openai_tool_item_types, incomplete_reject,
  incomplete_reason, finish_incomplete, rejecting, classify_openai_response, translated, refused,
  malformed,
}
use model_council_lab.Prelude.{◌≡◌, elem, if◌then◌else◌, join, ◌↔◌, false, refl, none, ◌&&◌, leb}
use model_council_lab.Category.Retry.{is_retry_candidate}
use model_council_lab.Json.{Fields, field, get, object, text, array, end, cons, nil}
use model_council_lab.Openai.Ingest.{
  ingest_provider_response, is_plain, json_size, max_openai_provider_json_items,
}
use model_council_lab.Category.{incomplete_provider_result}
use model_council_lab.Errors.{ok}
use model_council_lab.Openai.Refusals.{classify_openai_response-final}
use model_council_lab.Openai.Success.{classify_openai_response_iff}
use model_council_lab.Openai.Copied.{ingest_provider_response_object}

abbrev text_content : Fields
text_content = field "type" (text "output_text") (field "text" (text "hi") end)

abbrev message : Fields
message = field "type" (text "message") (
    field "status" (text "completed")
      (field "content" (array (cons (object text_content) nil)) end))

abbrev hello_response : Fields
hello_response =
    field "object" (text "response")
      (field "status" (text "completed") (field "output" (array (cons (object message) nil)) end))

abbrev cut_response : Fields
cut_response =
    field "object" (text "response")
      (field "status" (text "incomplete") (field "output" (array nil) end))

hello_classified : classify_openai_response hello_response ≡ translated "hi"
unfolding classify_openai_response classify_status classify_scan scan_openai_output_items scan_items
    scan_item scan_content scan_parts scan_part add_text text_of is_text is_null is_consistent
    agrees completed_text item_status_allowed openai_tool_item_types get elem join
hello_classified = refl

cut_classified :
    classify_openai_response cut_response
    ≡ refused (rejecting incomplete_provider_result finish_incomplete none)
unfolding classify_openai_response classify_status classify_scan scan_openai_output_items scan_items
    text_of is_text is_null is_consistent agrees get join incomplete_reject incomplete_reason
cut_classified = refl

classify_openai_response_iff_example :
    (classify_openai_response hello_response ≡ translated "hi")
    ↔ IsCompletedText hello_response "hi"
classify_openai_response_iff_example = classify_openai_response_iff hello_response "hi"

classify_openai_response-final_example : is_retry_candidate incomplete_provider_result ≡ ok false
classify_openai_response-final_example =
    classify_openai_response-final cut_response
      (rejecting incomplete_provider_result finish_incomplete none) cut_classified

ingest_provider_response_object_example : ingest_provider_response (object hello_response) ≡ (
    if is_plain 0 (object hello_response)
      && leb (json_size (object hello_response)) max_openai_provider_json_items
    then translated hello_response
    else malformed)
ingest_provider_response_object_example = ingest_provider_response_object hello_response
