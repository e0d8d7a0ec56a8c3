-- ===== src/Gateway/Responses/Complete.antt =====
-- internal/gateway/responses_compat.go `chatCompletionResponseToResponses`: a whole chat completion as a
-- Responses response. The identifiers are drawn from a numbered supply.
use aiyolo.Base.{
  ℕ, ◌+◌, ◌≡◌, refl, String, true, false, not, ◌||◌, ◌===◌, List, [], ◌∷◌, ◌++◌, Option, none, some,
  is_empty, leb, Bool-cases, inl, inr, if◌then◌else◌,
}
use aiyolo.Base.Int.{ℤ, pos, ltb_ℤ}
use aiyolo.Domain.Usage.{UsageRecord}
use aiyolo.Domain.Protocols.{protocol_openai}
use aiyolo.Gateway.Body.Usage.{parse_usage_from_json}
use aiyolo.Json.{Json, bool, string, Map, get, list, dict, map_of, Decoded, readable}
use aiyolo.Json.Print.{int}
use aiyolo.Json.Texts.{
  first_text, int_number, chat_message_content_text, chat_message_reasoning_text,
  first_map_from_slice,
}
use aiyolo.Gateway.Responses.ToolCalls.{calls_of}
use aiyolo.Gateway.Responses.Items.{Base64}
use aiyolo.Gateway.Responses.Outputs.{
  response_reasoning_item, response_message_item, response_function_call_item,
  responses_usage_payload,
}

-- `createdAtValue`, at a time in seconds.
unfoldable pub created_at_value : ℤ → Json → ℤ
created_at_value now value = if ltb_ℤ (pos 0) (int_number value) then int_number value else now

-- The body that is answered: an error, the upstream's body, or a response.
pub data Answered : Type 0 where
  undecodable : Answered
  passed_on : Answered
  converted : Map → Answered

-- The message of the first choice.
unfoldable pub first_message : Map → Map
first_message payload = map_of (get "message" (first_map_from_slice (get "choices" payload)))

module _ (base64 : Base64) (new_id : ℕ → String → String) where
  -- The items of the calls, from a number of the supply on.
  unfoldable pub call_items : ℕ → List Map → List Json
  call_items issued [] = []
  call_items issued (call ∷ calls) =
      dict (response_function_call_item (new_id issued "call") (new_id (issued + 1) "fc") call)
      ∷ call_items (issued + 2) calls

  reasoning_items : String → List Json
  reasoning_items text =
      if text === ""
      then []
      else dict (response_reasoning_item base64 (new_id 2 "reasoning") text) ∷ []

  message_items : Map → List Json
  message_items message =
      let content = chat_message_content_text (get "content" message) in
      if not (content === "") || is_empty (calls_of message)
      then dict (response_message_item (new_id 1 "msg") "completed" content) ∷ []
      else []

  -- The supply behind the reasoning.
  abbrev next_issued : String → ℕ
  next_issued reasoning = if reasoning === "" then 2 else 3

  unfoldable pub output_items : Map → List Json
  unfolding reasoning_items message_items
  output_items message =
      let reasoning = chat_message_reasoning_text message in
      reasoning_items reasoning
      ++ (message_items message ++ call_items (next_issued reasoning) (calls_of message))

  unfoldable pub response_of : ℤ → UsageRecord → Map → Map
  response_of now usage payload =
      let message = first_message payload in
      ("id", string (first_text (get "id" payload ∷ string (new_id 0 "resp") ∷ [])))
      ∷ ("object", string "response")
      ∷ ("created_at", int (created_at_value now (get "created" payload)))
      ∷ ("status", string "completed")
      ∷ ("model", string (first_text (get "model" payload ∷ [])))
      ∷ ("output", list (output_items message))
      ∷ ("output_text", string (chat_message_content_text (get "content" message)))
      ∷ ("parallel_tool_calls", bool true)
      ∷ ("usage", dict (responses_usage_payload usage))
      ∷ []

  abbrev response_or_error : ℤ → UsageRecord → Option Map → Answered
  response_or_error now usage none = undecodable
  response_or_error now usage (some payload) = converted (response_of now usage payload)

  -- `chatCompletionResponseToResponses`: the body that is answered, and the usage.
  unfoldable pub chat_completion_response_to_responses : ℤ → ℕ → Decoded → Answered × UsageRecord
  chat_completion_response_to_responses now status body =
      let usage = parse_usage_from_json body protocol_openai in
      (if leb 400 status then passed_on else response_or_error now usage (readable body), usage)

  call_items_some :
      (issued : ℕ) (calls : List Map)
      → is_empty calls ≡ false
      → is_empty (call_items issued calls) ≡ false
  unfolding call_items
  call_items_some issued [] h = h
  call_items_some issued (call ∷ calls) h = refl

  -- A response has an item: where there is no call there is a message, be it empty.
  pub output_items_some : (message : Map) → is_empty (output_items message) ≡ false
  unfolding output_items
  output_items_some message = elim (Bool-cases (chat_message_reasoning_text message === "")) [
    | inr r ↦ rw r refl
    | inl r ↦ elim (Bool-cases (chat_message_content_text (get "content" message) === "")) [
      | inr c ↦ rw (r, c) refl
      | inl c ↦ elim (Bool-cases (is_empty (calls_of message))) [
        | inl e ↦ rw (r, c, e) refl
        | inr e ↦ rw (r, c, e) (call_items_some 2 (calls_of message) e)
      ]
    ]
  ]
