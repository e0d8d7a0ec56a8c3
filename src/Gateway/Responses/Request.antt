-- ===== src/Gateway/Responses/Request.antt =====
-- internal/gateway/responses_compat.go `responsesRequestToChatCompletions`: the request to a provider
-- that only has chat completions.
pub mod Sent
use aiyolo.Base.{
  String, Bool, true, false, not, ◌&&◌, ◌||◌, ◌===◌, List, [], ◌∷◌, map, Option, none, some,
  is_empty, if◌then◌else◌,
}
use aiyolo.Text.{trim_space, to_lower, contains_text}
use aiyolo.Dict.{insert, string_key}
use aiyolo.Domain.Routes.{Provider}
use aiyolo.Json.{
  Json, Items, Fields, null, bool, string, array, object, Map, elements, entries, get, has_key,
  is_null, list, dict,
}
use aiyolo.Json.Texts.{first_text, trimmed, any_slice}
use aiyolo.Gateway.Responses.ToolCalls.{normalize_chat_tool_call_messages}
use aiyolo.Gateway.Responses.Items.{
  Base64, responses_messages_to_chat_messages, responses_input_to_chat_messages,
}

-- `domain.IsDeepSeekProvider`.
unfoldable pub is_deepseek_provider : Provider → Bool
is_deepseek_provider p =
    to_lower (trim_space p.id) === "deepseek"
    || contains_text (to_lower (trim_space p.base_url)) "deepseek.com"

-- `if value, ok := payload[key]; ok { m[key] = value }`
unfoldable pub copy_key : String → Map → Map → Map
copy_key key payload m = if has_key key payload then insert key (get key payload) m else m

unfoldable pub copy_keys : List String → Map → Map → Map
copy_keys [] payload m = m
copy_keys (key ∷ keys) payload m = copy_keys keys payload (copy_key key payload m)

abbrev pub carried_keys : List String
carried_keys =
    "model" ∷ "stream" ∷ "temperature" ∷ "top_p" ∷ "stop" ∷ "user" ∷ "metadata"
    ∷ "parallel_tool_calls" ∷ "service_tier" ∷ []

unfoldable pub with_max_tokens : Map → Map → Map
with_max_tokens payload chat =
    if has_key "max_tokens" payload
    then insert "max_tokens" (get "max_tokens" payload) chat
    else if has_key "max_output_tokens" payload
    then insert "max_tokens" (get "max_output_tokens" payload) chat
    else chat

-- A tool of a function, as `responsesToolsToChatTools` writes it.
function_tool : Map → Map
function_tool tool = copy_keys ("name" ∷ "description" ∷ "parameters" ∷ "strict" ∷ []) tool []

-- `responsesToolsToChatTools`.
unfoldable pub responses_tools_to_chat_tools : List Json → List Json
unfolding function_tool
responses_tools_to_chat_tools [] = []
responses_tools_to_chat_tools (object fs ∷ vs) =
    let tool = entries fs in
    let rest = responses_tools_to_chat_tools vs in
    if has_key "function" tool
    then object fs ∷ rest
    else if not (trimmed "type" tool === "function")
    then rest
    else if is_null (get "name" (function_tool tool))
    then rest
    else dict (("type", string "function") ∷ ("function", dict (function_tool tool)) ∷ []) ∷ rest
responses_tools_to_chat_tools (_ ∷ vs) = responses_tools_to_chat_tools vs

with_strict : Json → Map → Map
with_strict (bool strict) m = insert "strict" (bool strict) m
with_strict _ m = m

-- The response format of a `format` object.
format_of : Json → Json
unfolding with_strict
format_of (object fs) =
    let format = entries fs in
    if not (trimmed "type" format === "json_schema") || is_null (get "schema" format)
    then null
    else dict (
        ("type", string "json_schema")
        ∷ (
          "json_schema",
          dict (
              with_strict (get "strict" format) (
                (
                  "name",
                  string (first_text (get "name" format ∷ string "codex_output_schema" ∷ [])),
                )
                ∷ ("schema", get "schema" format)
                ∷ [])),
        )
        ∷ [])
format_of _ = null

-- `responsesTextToChatResponseFormat`.
unfoldable pub responses_text_to_chat_response_format : Json → Json
unfolding format_of
responses_text_to_chat_response_format (object fs) = format_of (get "format" (entries fs))
responses_text_to_chat_response_format _ = null

-- `responseReasoningEffort`.
unfoldable pub response_reasoning_effort : Json → String
response_reasoning_effort (object fs) = first_text (get "effort" (entries fs) ∷ [])
response_reasoning_effort _ = ""

unfoldable pub with_tools : Map → Map → Map
with_tools payload chat =
    let tools = responses_tools_to_chat_tools (any_slice (get "tools" payload)) in
    if is_empty tools then chat else insert "tools" (list tools) chat

unfoldable pub with_response_format : Map → Map → Map
with_response_format payload chat =
    let format = responses_text_to_chat_response_format (get "text" payload) in
    if is_null format
    then copy_key "response_format" payload chat
    else insert "response_format" format chat

unfoldable pub with_effort : Bool → Map → Map → Map
with_effort deepseek payload chat =
    let effort = response_reasoning_effort (get "reasoning" payload) in
    if deepseek && not (effort === "")
    then insert "thinking" (dict (("type", string "enabled") ∷ []))
        (insert "reasoning_effort" (string effort) chat)
    else chat

abbrev pub or_blank_message : List Map → List Map
or_blank_message [] = (("role", string "user") ∷ ("content", string "") ∷ []) ∷ []
or_blank_message (m ∷ ms) = m ∷ ms

module _ (base64 : Base64) where
  -- The messages before they are normalized: those of `messages`, or else those of the input.
  unfoldable pub requested_messages : Map → Bool → List Map
  requested_messages payload deepseek =
      let messages = responses_messages_to_chat_messages (any_slice (get "messages" payload)) in
      if is_empty messages
      then responses_input_to_chat_messages base64 (get "instructions" payload)
          (get "input" payload) deepseek
      else messages

  unfoldable pub with_chat_messages : Bool → Map → Map → Map
  with_chat_messages deepseek payload chat =
      if is_empty (requested_messages payload deepseek)
      then chat
      else insert "messages"
          (list (
            map dict (
              or_blank_message
                (normalize_chat_tool_call_messages (requested_messages payload deepseek)))))
          chat

  -- `responsesRequestToChatCompletions`, from the decoded payload to the one that is encoded.
  unfoldable pub responses_request_to_chat_completions : Provider → Map → Map
  responses_request_to_chat_completions provider payload =
      let deepseek = is_deepseek_provider provider in
      with_effort deepseek payload (
        with_response_format payload (
          copy_key "tool_choice" payload (
            with_tools payload (
              with_chat_messages deepseek payload
                (with_max_tokens payload (copy_keys carried_keys payload []))))))
