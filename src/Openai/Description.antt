-- ===== src/Openai/Description.antt =====
-- The responses that src/model_council/openai_adapter.py takes for a success, by a description of them.
use model_council_lab.Prelude.{◌≡◌, List, String, [], false, some, ◌++◌, ◌∷◌, join, str_eq, true}
use model_council_lab.Openai.{role_allowed, agrees, is_null}
use model_council_lab.Json.{Fields, Items, get, nil, text, array, cons, object}

-- The parts of a message that is all text, and the texts.
pub data SaysParts : Items → List String → Type 0 where
  no_part : SaysParts nil []
  text_part :
      {fs : Fields} {t : String} {parts : Items} {ts : List String}
      → get "type" fs ≡ some (text "output_text")
      → get "text" fs ≡ some (text t)
      → SaysParts parts ts
      → SaysParts (cons (object fs) parts) (t ∷ ts)

-- Output that has nothing but reasoning and completed messages of the assistant, all text.
pub data Says : Items → List String → Type 0 where
  no_item : Says nil []
  reasoning_item :
      {fs : Fields} {items : Items} {ts : List String}
      → get "type" fs ≡ some (text "reasoning")
      → Says items ts
      → Says (cons (object fs) items) ts
  message_item :
      {fs : Fields} {items parts : Items} {ps ts : List String}
      → get "type" fs ≡ some (text "message")
      → get "status" fs ≡ some (text "completed")
      → role_allowed (get "role" fs) ≡ true
      → get "content" fs ≡ some (array parts)
      → SaysParts parts ps
      → Says items ts
      → Says (cons (object fs) items) (ps ++ ts)

-- A completed response that says a text.
pub record IsCompletedText (payload : Fields) (t : String) : Type 0 where
  pub output : Items
  pub texts : List String
  pub is_response : get "object" payload ≡ some (text "response")
  pub is_completed : get "status" payload ≡ some (text "completed")
  pub has_output : get "output" payload ≡ some (array output)
  pub says : Says output texts
  pub joined : t ≡ join "" texts
  pub says_something : str_eq t "" ≡ false
  pub agreed : agrees t (get "output_text" payload) ≡ true
  pub no_error : is_null (get "error" payload) ≡ true
  pub no_details : is_null (get "incomplete_details" payload) ≡ true
