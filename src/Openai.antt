-- ===== src/Openai.antt =====
-- src/model_council/openai_adapter.py: the classification of a Responses object of the provider, which
-- is a JSON value here.
pub mod Description
pub mod Completed
pub mod Success
pub mod Ingest
pub mod Copied
pub mod Refusals
use model_council_lab.Prelude.{
  String, none, some, ◌∷◌, [], true, false, Bool, List, Option, if◌then◌else◌, str_eq, ◌+◌, not,
  ◌&&◌, ◌||◌, ◌++◌, elem, join,
}
use model_council_lab.Json.{null, text, array, object, nil, cons, get, keys, Json, Items, Fields}
use model_council_lab.Category.{
  ProviderErrorCategory, malformed_provider_protocol, incomplete_provider_result, policy_refusal,
}

-- FinishReason of live_contract.py
pub data FinishReason : Type 0 where
  finish_completed finish_length finish_incomplete : FinishReason
  finish_tool_use finish_content_filter finish_error : FinishReason

-- _OpenAITranslationReject
pub record Reject : Type 0 where
  pub category : ProviderErrorCategory
  pub finish : FinishReason
  pub raw_output : Option String

-- The value of a translation, or the exception that it raises.
pub data Translated {ℓ} (A : Type ℓ) : Type ℓ where
  translated : A → Translated A
  refused : Reject → Translated A

infixl 5 ◌>>=◌
abbrev pub ◌>>=◌ {ι ℓ} :
    {In : Type ι} {Out : Type ℓ} → Translated In → (In → Translated Out) → Translated Out
refused r >>= next = refused r
translated value >>= next = next value

abbrev pub rejecting : ProviderErrorCategory → FinishReason → Option String → Reject
rejecting category finish raw = record { category = category; finish = finish; raw_output = raw }

-- _malformed_protocol()
abbrev pub malformed {ℓ} : {A : Type ℓ} → Translated A
malformed = refused (rejecting malformed_provider_protocol finish_error none)

unfoldable pub openai_tool_item_types : List String
openai_tool_item_types =
    "function_call" ∷ "function_call_output" ∷ "file_search_call" ∷ "web_search_call"
    ∷ "computer_call" ∷ "computer_call_output" ∷ "code_interpreter_call" ∷ "mcp_call"
    ∷ "mcp_list_tools" ∷ "mcp_approval_request" ∷ "image_generation_call" ∷ "local_shell_call"
    ∷ "custom_tool_call" ∷ []

-- the value of `d.get(key)`, if its type is str
unfoldable pub text_of : Option Json → Option String
text_of (some (text s)) = some s
text_of _ = none

-- d.get(key) is None
unfoldable pub is_null : Option Json → Bool
is_null none = true
is_null (some null) = true
is_null _ = false

-- d.get(key) == "..."
unfoldable pub is_text : String → Option Json → Bool
is_text s (some (text t)) = str_eq t s
is_text s _ = false

-- texts, refusals and tool_seen of _scan_openai_output_items
pub record Scan : Type 0 where
  pub texts : List String
  pub refusals : List String
  pub tool_seen : Bool

abbrev pub no_scan : Scan
no_scan = record { texts = []; refusals = []; tool_seen = false }

unfoldable pub add_text : Option String → Scan → Translated Scan
add_text none s = malformed
add_text (some t) s = translated (record s { texts = s.texts ++ (t ∷ []) })

unfoldable pub add_refusal : Option String → Scan → Translated Scan
add_refusal none s = malformed
add_refusal (some t) s = translated (record s { refusals = s.refusals ++ (t ∷ []) })

abbrev pub see_tool : Scan → Scan
see_tool s = record s { tool_seen = true }

unfoldable pub scan_part : Option String → Fields → Scan → Translated Scan
scan_part none fs s = malformed
scan_part (some part_type) fs s =
    if elem part_type openai_tool_item_types
    then translated (see_tool s)
    else if str_eq part_type "output_text"
    then add_text (text_of (get "text" fs)) s
    else if str_eq part_type "refusal"
    then add_refusal (text_of (get "refusal" fs)) s
    else malformed

abbrev pub part_of : Json → Scan → Translated Scan
part_of (object fs) s = scan_part (text_of (get "type" fs)) fs s
part_of _ s = malformed

unfoldable pub scan_parts : Items → Scan → Translated Scan
scan_parts nil s = translated s
scan_parts (cons part parts) s = part_of part s >>= scan_parts parts

-- _require_message_item_status
unfoldable pub item_status_allowed : String → Option String → Bool
item_status_allowed top_level_status none = false
item_status_allowed top_level_status (some item_status) =
    if str_eq top_level_status "completed"
    then str_eq item_status "completed"
    else str_eq top_level_status "incomplete"
      && (str_eq item_status "completed" || str_eq item_status "incomplete")

-- role is None or role == "assistant"
abbrev pub role_allowed : Option Json → Bool
role_allowed role = is_null role || is_text "assistant" role

unfoldable pub scan_content : Option Json → Scan → Translated Scan
scan_content (some (array parts)) s = scan_parts parts s
scan_content _ s = malformed

module _ (top_level_status : String) where
  unfoldable pub scan_item : Option String → Fields → Scan → Translated Scan
  scan_item none fs s = malformed
  scan_item (some item_type) fs s =
      if elem item_type openai_tool_item_types
      then translated (see_tool s)
      else if str_eq item_type "reasoning"
      then translated s
      else if str_eq item_type "message"
          && item_status_allowed top_level_status (text_of (get "status" fs))
          && role_allowed (get "role" fs)
      then scan_content (get "content" fs) s
      else malformed

  abbrev pub item_of : Json → Scan → Translated Scan
  item_of (object fs) s = scan_item (text_of (get "type" fs)) fs s
  item_of _ s = malformed

  unfoldable pub scan_items : Items → Scan → Translated Scan
  scan_items nil s = translated s
  scan_items (cons item items) s = item_of item s >>= scan_items items

  -- _scan_openai_output_items, on payload["output"] if it is there
  unfoldable pub scan_openai_output_items : Option Json → Translated Scan
  scan_openai_output_items (some (array items)) = scan_items items no_scan
  scan_openai_output_items _ = malformed

abbrev pub has_none {ℓ} : {A : Type ℓ} → List A → Bool
has_none [] = true
has_none _ = false

abbrev pub first_refusal : List String → Option String
first_refusal [] = none
first_refusal (r ∷ rs) = some r

-- x or None, of a string
abbrev pub non_empty : Option String → Option String
non_empty none = none
non_empty (some s) = if str_eq s "" then none else some s

-- the reason of an incomplete response, which is no known one where the rejection is malformed
unfoldable pub incomplete_reason : Option Json → Option String → Reject
incomplete_reason none raw = rejecting incomplete_provider_result finish_incomplete raw
incomplete_reason (some null) raw = rejecting incomplete_provider_result finish_incomplete raw
incomplete_reason (some (text reason)) raw =
    if str_eq reason "max_output_tokens"
    then rejecting incomplete_provider_result finish_length raw
    else if str_eq reason "content_filter"
    then rejecting incomplete_provider_result finish_content_filter raw
    else rejecting malformed_provider_protocol finish_error none
incomplete_reason _ raw = rejecting malformed_provider_protocol finish_error none

-- every key of incomplete_details is "reason"
unfoldable pub only_reason : List String → Bool
only_reason [] = true
only_reason (k ∷ ks) = str_eq k "reason" && only_reason ks

unfoldable pub incomplete_reject : Option Json → Option String → Reject
incomplete_reject none raw = incomplete_reason none raw
incomplete_reject (some null) raw = incomplete_reason none raw
incomplete_reject (some (object fs)) raw =
    if only_reason (keys fs)
    then incomplete_reason (get "reason" fs) raw
    else rejecting malformed_provider_protocol finish_error none
incomplete_reject _ raw = rejecting malformed_provider_protocol finish_error none

-- "output_text" is not in the payload, or is the joined text
unfoldable pub agrees : String → Option Json → Bool
agrees joined none = true
agrees joined output_text = is_text joined output_text

-- The tests of _classify_openai_response that refuse a response as malformed, whatever its status.
unfoldable pub is_consistent : String → Fields → Scan → Bool
is_consistent status payload s =
    agrees (join "" s.texts) (get "output_text" payload)
    && (is_null (get "error" payload)
        || not (str_eq status "completed" || str_eq status "incomplete"))
    && (is_null (get "incomplete_details" payload) || not (str_eq status "completed"))
    && (has_none s.refusals || (has_none s.texts && not s.tool_seen))

-- The raw output of an incomplete response.
abbrev pub incomplete_raw : Scan → Option String
incomplete_raw s =
    if str_eq (join "" s.texts) "" then first_refusal s.refusals else some (join "" s.texts)

-- The verdict on a completed response without a call of a tool.
unfoldable pub completed_text : Scan → Translated String
completed_text s =
    if not (has_none s.refusals)
    then refused
        (rejecting policy_refusal finish_content_filter (non_empty (first_refusal s.refusals)))
    else if str_eq (join "" s.texts) ""
    then malformed
    else translated (join "" s.texts)

unfoldable pub classify_scan : String → Fields → Scan → Translated String
classify_scan status payload s =
    if not (is_consistent status payload s)
    then malformed
    else if s.tool_seen
    then refused (rejecting malformed_provider_protocol finish_tool_use none)
    else if str_eq status "incomplete"
    then refused (incomplete_reject (get "incomplete_details" payload) (incomplete_raw s))
    else if str_eq status "completed"
    then completed_text s
    else malformed

unfoldable pub classify_status : Option String → Fields → Translated String
classify_status none payload = malformed
classify_status (some status) payload =
    scan_openai_output_items status (get "output" payload) >>= classify_scan status payload

-- _classify_openai_response: the joined text of a success
unfoldable pub classify_openai_response : Fields → Translated String
classify_openai_response payload =
    if is_text "response" (get "object" payload)
    then classify_status (text_of (get "status" payload)) payload
    else malformed
