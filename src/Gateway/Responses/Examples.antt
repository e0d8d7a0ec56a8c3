-- ===== src/Gateway/Responses/Examples.antt =====
-- A chat with calls of tools, requests of the Responses API, and a stream.
use mathlib.Core.List.{Perm}
use aiyolo.Base.{
  ℕ, ◌≡◌, refl, String, true, false, List, [], ◌∷◌, map, is_empty, Option, none, some, All,
}
use aiyolo.Base.Int.{pos}
use aiyolo.Text.{trim_space, has_prefix}
use aiyolo.Text.Join.{trim_prefix}
use aiyolo.Dict.{lookup, insert, values, UniqueKeys, string_key}
use aiyolo.Fixtures.{provider_1}
use aiyolo.Json.{Json, null, string, object, Map, get, is_null, fields_of, list, dict, decoded}
use aiyolo.Json.Print.{int_literal, marshal}
use aiyolo.Gateway.Responses.ToolCalls.{normalize_chat_tool_call_messages}
use aiyolo.Gateway.Responses.ToolCalls.Paired.{Paired}
use aiyolo.Gateway.Responses.ToolCalls.Fixed.{normalize-Paired}
use aiyolo.Gateway.Responses.ToolCalls.Shown.{shown, shown-normalize}
use aiyolo.Gateway.Responses.Roles.{
  unchanged, changed, is_no_message, role_needs_change, normalize_responses_message_role,
  messages_need_change, normalized_messages, input_needs_change, payload_messages, with_messages,
  with_input, payload_needs_change, normalize_responses_request_body,
}
use aiyolo.Gateway.Responses.Roles.Settled.{normalize_responses_request_body_settled}
use aiyolo.Gateway.Responses.Items.{Base64, function_call, reasoning_item_text, chat_messages_from}
use aiyolo.Gateway.Responses.Items.Untyped.{untyped_item}
use aiyolo.Gateway.Responses.Items.Reasoning.{reasoning_item_text_lem}
use aiyolo.Gateway.Responses.Outputs.{response_reasoning_item}
use aiyolo.Gateway.Responses.Request.{responses_request_to_chat_completions}
use aiyolo.Gateway.Responses.Request.Sent.{responses_request-Paired}
use aiyolo.Gateway.Responses.Calls.{Calls, int_key, sorted_calls}
use aiyolo.Gateway.Responses.Calls.Sorted.{sorted_calls-perm}
use aiyolo.Gateway.Responses.Stream.{end_of_file, Streamed}
use aiyolo.Gateway.Responses.Stream.Said.{
  text_deltas, finished_text, reasoning_deltas, finished_reasoning,
}
use aiyolo.Gateway.Responses.Finish.{write_chat_completions_sse_as_responses}
use aiyolo.Gateway.Responses.Finish.Told.{streamed_texts}
use aiyolo.Gateway.Responses.Finish.Ends.{IsEnded, Decodes, streamed-IsEnded}

-- A text is its own encoding.
abbrev plain_base64 : Base64
plain_base64 = record { encode = λ s. s; decode = λ s. some s }

-- Two calls, of which one is answered, and an answer to no call.
abbrev chat_1 : List Map
chat_1 =
    (("role", string "user") ∷ ("content", string "hi") ∷ [])
    ∷ (("role", string "assistant")
        ∷ ("content", null)
        ∷ (
          "tool_calls",
          list (dict (function_call "a" "ls" "{}") ∷ dict (function_call "b" "ps" "{}") ∷ []),
        )
        ∷ [])
    ∷ (("role", string "tool") ∷ ("tool_call_id", string "a") ∷ ("content", string "x") ∷ [])
    ∷ (("role", string "tool") ∷ ("tool_call_id", string "z") ∷ ("content", string "y") ∷ [])
    ∷ []

normalize-Paired_example :
    Paired (normalize_chat_tool_call_messages chat_1)
    × (normalize_chat_tool_call_messages (normalize_chat_tool_call_messages chat_1)
        ≡ normalize_chat_tool_call_messages chat_1)
normalize-Paired_example = normalize-Paired chat_1

shown-normalize_example : shown (normalize_chat_tool_call_messages chat_1) ≡ shown chat_1
shown-normalize_example = shown-normalize chat_1

-- A request whose input has an answer without its call.
abbrev payload_1 : Map
payload_1 =
    ("model", string "fast")
    ∷ ("max_output_tokens", int_literal 100)
    ∷ (
      "input",
      list (
          dict
            (("type", string "message") ∷ ("role", string "user") ∷ ("content", string "hi") ∷ [])
          ∷ dict (
              ("type", string "function_call_output")
              ∷ ("call_id", string "a")
              ∷ ("output", string "x")
              ∷ [])
          ∷ []),
    )
    ∷ []

responses_request-Paired_example :
    (ms : List Map) × (get "messages"
        (responses_request_to_chat_completions plain_base64 provider_1 payload_1)
      ≡ list (map dict ms))
    × Paired ms
    × (is_empty ms ≡ false)
responses_request-Paired_example = responses_request-Paired plain_base64 provider_1 payload_1

abbrev developer_body : String → Map
developer_body role =
    ("messages", list (dict (("role", string role) ∷ ("content", string "be brief") ∷ []) ∷ []))
    ∷ []

developer_changed :
    normalize_responses_request_body (decoded (developer_body "developer"))
    ≡ changed (developer_body "system")
unfolding normalize_responses_request_body payload_needs_change payload_messages
    messages_need_change with_messages with_input normalized_messages
    normalize_responses_message_role role_needs_change input_needs_change get lookup insert
    trim_space
developer_changed = refl

normalize_responses_request_body_settled_example :
    normalize_responses_request_body (decoded (developer_body "system")) ≡ unchanged
normalize_responses_request_body_settled_example =
    normalize_responses_request_body_settled (developer_body "developer") (developer_body "system")
      developer_changed

-- An item in the short form of a message.
abbrev short_item : Map
short_item = ("role", string "assistant") ∷ ("content", string "hello") ∷ []

short_item_type : get "type" short_item ≡ null
unfolding get lookup
short_item_type = refl

short_item_role : is_null (get "role" short_item) ≡ false
unfolding get lookup
short_item_role = refl

untyped_item_example :
    (is_no_message short_item ≡ false)
    × (chat_messages_from plain_base64 false "" (object (fields_of short_item) ∷ [])
        ≡ (("role", string "user") ∷ ("content", string (marshal (dict short_item))) ∷ [])
          ∷ chat_messages_from plain_base64 false "" [])
untyped_item_example =
    untyped_item plain_base64 false "" (fields_of short_item) [] short_item_type short_item_role

reasoning_item_text_lem_example :
    reasoning_item_text plain_base64 (response_reasoning_item plain_base64 "r_1" "think") ≡ "think"
reasoning_item_text_lem_example = reasoning_item_text_lem plain_base64 "r_1" "think" (λ s. refl)

-- Two calls at indexes that are far apart.
abbrev calls_1 : Calls
calls_1 =
    (pos 40, record { call_id = "b"; name = "ps"; arguments = "{}" })
    ∷ (pos 3, record { call_id = "a"; name = "ls"; arguments = "{}" })
    ∷ []

calls_1-UniqueKeys : UniqueKeys calls_1
unfolding lookup
calls_1-UniqueKeys = (refl, (refl, tt))

sorted_calls-perm_example : Perm (sorted_calls calls_1) (values calls_1)
sorted_calls-perm_example = sorted_calls-perm calls_1 calls_1-UniqueKeys

-- A stream of one chunk, whose text is parsed to a delta of content.
abbrev parse_1 : String → Option Json
parse_1 text = some (
    dict (
      ("choices", list (dict (("delta", dict (("content", string "hello") ∷ [])) ∷ []) ∷ [])) ∷ []))

abbrev ids_1 : ℕ → String → String
ids_1 n prefix = prefix

abbrev lines_1 : List String
lines_1 = "data: {}" ∷ "" ∷ "data: [DONE]" ∷ []

lines_decode : All (Decodes parse_1) lines_1
unfolding trim_space has_prefix trim_prefix
lines_decode = (refl, (refl, (refl, tt)))

abbrev stream_1 : Streamed
stream_1 =
    write_chat_completions_sse_as_responses plain_base64 ids_1 none parse_1 (pos 2) (pos 1)
      end_of_file lines_1

streamed-IsEnded_example : IsEnded stream_1
streamed-IsEnded_example =
    streamed-IsEnded plain_base64 ids_1 none parse_1 (pos 2) (pos 1) lines_1 lines_decode

stream_completed : stream_1.completed ≡ true
stream_completed =
    (streamed-IsEnded plain_base64 ids_1 none parse_1 (pos 2) (pos 1) lines_1 lines_decode).0

streamed_texts_example :
    (text_deltas stream_1.written ≡ finished_text stream_1.written)
    × (reasoning_deltas stream_1.written ≡ finished_reasoning stream_1.written)
streamed_texts_example =
    streamed_texts plain_base64 ids_1 none parse_1 (pos 2) (pos 1) end_of_file lines_1
      stream_completed
