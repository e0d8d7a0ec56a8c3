-- ===== src/Gateway/Responses/Items.antt =====
-- internal/gateway/responses_compat.go: the items of a Responses request as messages of a chat.
pub mod Untyped
pub mod Reasoning
use aiyolo.Base.{
  String, Bool, true, false, not, ◌&&◌, ◌||◌, ◌===◌, List, [], ◌∷◌, ◌++◌, Option, none, some,
  is_empty, if◌then◌else◌,
}
use aiyolo.Text.{trim_space, is_blank, has_prefix}
use aiyolo.Text.Join.{concat, join, trim_prefix}
use aiyolo.Dict.{Dict, insert, string_key}
use aiyolo.Json.{
  Json, Items, Fields, null, string, array, object, nil, cons, Map, elements, entries, get, list,
  dict,
}
use aiyolo.Json.Print.{sprint, marshal}
use aiyolo.Json.Texts.{first_text, trimmed, stringify_chat_content, reasoning_content_text}
use aiyolo.Gateway.Responses.ToolCalls.{has_role}

abbrev pub reasoning_encrypted_prefix : String
reasoning_encrypted_prefix = "aiyolo-reasoning:v1:"

-- `base64.StdEncoding`, on the bytes of a text.
pub record Base64 : Type 0 where
  pub encode : String → String
  pub decode : String → Option String

abbrev text_or_empty : Option String → String
text_or_empty none = ""
text_or_empty (some s) = s

-- `responsesRoleToChatRole`.
unfoldable pub responses_role_to_chat_role : String → String
responses_role_to_chat_role role =
    let name = trim_space role in
    if name === "developer"
    then "system"
    else if name === "latest_reminder"
    then "user"
    else if name === ""
    then "user"
    else role

-- `responsesMessagesToChatMessages`: the objects, with their roles translated.
unfoldable pub responses_messages_to_chat_messages : List Json → List Map
responses_messages_to_chat_messages [] = []
responses_messages_to_chat_messages (object fs ∷ vs) =
    insert "role"
      (string
        (responses_role_to_chat_role (first_text (get "role" (entries fs) ∷ string "user" ∷ []))))
      (entries fs)
    ∷ responses_messages_to_chat_messages vs
responses_messages_to_chat_messages (_ ∷ vs) = responses_messages_to_chat_messages vs

-- `flattenResponseInputItems`.
unfoldable mutual
  pub flatten_response_input_items : Json → List Json
  flatten_response_input_items null = []
  flatten_response_input_items (array vs) = flatten_items vs
  flatten_response_input_items v = v ∷ []

  pub flatten_items : Items → List Json
  flatten_items nil = []
  flatten_items (cons v vs) = flatten_response_input_items v ++ flatten_items vs

-- A part of a content, in a list of parts or in a list of texts.
text_part : String → Json
text_part text = dict (("type", string "text") ∷ ("text", string text) ∷ [])

image_part : String → Json
image_part url =
    dict (("type", string "image_url") ∷ ("image_url", dict (("url", string url) ∷ [])) ∷ [])

abbrev is_text_type : String → Bool
is_text_type kind = kind === "input_text" || kind === "output_text" || kind === "text"

abbrev is_image_type : String → Bool
is_image_type kind = kind === "input_image" || kind === "image_url"

image_url_of : Map → String
image_url_of part = first_text (get "image_url" part ∷ get "url" part ∷ [])

-- `parts` and `textParts` of the loop over the parts.
parts_of : List Json → List Json
unfolding text_part image_part image_url_of
parts_of [] = []
parts_of (object fs ∷ vs) =
    let part = entries fs in
    let rest = parts_of vs in
    if is_text_type (trimmed "type" part)
    then text_part (first_text (get "text" part ∷ [])) ∷ rest
    else if is_image_type (trimmed "type" part) && not (image_url_of part === "")
    then image_part (image_url_of part) ∷ rest
    else rest
parts_of (_ ∷ vs) = parts_of vs

text_parts_of : List Json → List String
text_parts_of [] = []
text_parts_of (object fs ∷ vs) =
    let part = entries fs in
    let rest = text_parts_of vs in
    if is_text_type (trimmed "type" part)
    then first_text (get "text" part ∷ []) ∷ rest
    else if is_image_type (trimmed "type" part)
    then rest
    else stringify_chat_content (object fs) ∷ rest
text_parts_of (v ∷ vs) = stringify_chat_content v ∷ text_parts_of vs

-- `responseContentToChatContent`.
unfoldable pub response_content_to_chat_content : Json → Json
unfolding parts_of text_parts_of
response_content_to_chat_content (string s) = string s
response_content_to_chat_content (array vs) =
    if not (is_empty (parts_of (elements vs)))
    then list (parts_of (elements vs))
    else string (join "\n" (text_parts_of (elements vs)))
response_content_to_chat_content v = string (stringify_chat_content v)

abbrev is_output_type : String → Bool
is_output_type kind =
    kind === "function_call_output"
    || kind === "custom_tool_call_output"
    || kind === "mcp_tool_call_output"

-- The object that a chat has for a call of a function.
abbrev pub function_call : String → String → String → Map
function_call id name arguments =
    ("id", string id)
    ∷ ("type", string "function")
    ∷ ("function", dict (("name", string name) ∷ ("arguments", string arguments) ∷ []))
    ∷ []

-- `responseItemToChatMessage`.
unfoldable pub response_item_to_chat_message : Map → Option Map
response_item_to_chat_message item =
    let kind = trimmed "type" item in
    if kind === "message" || kind === ""
    then some (
        (
          "role",
          string (responses_role_to_chat_role (first_text (get "role" item ∷ string "user" ∷ []))),
        )
        ∷ ("content", response_content_to_chat_content (get "content" item))
        ∷ [])
    else if is_output_type kind
    then some (
        ("role", string "tool")
        ∷ ("tool_call_id", string (trimmed "call_id" item))
        ∷ ("content", string (stringify_chat_content (get "output" item)))
        ∷ [])
    else if kind === "function_call"
    then some (
        ("role", string "assistant")
        ∷ ("content", null)
        ∷ (
          "tool_calls",
          list (
              dict (
                function_call (first_text (get "call_id" item ∷ get "id" item ∷ []))
                  (first_text (get "name" item ∷ [])) (first_text (get "arguments" item ∷ [])))
              ∷ []),
        )
        ∷ [])
    else none

user_message : String → Map
user_message text = ("role", string "user") ∷ ("content", string text) ∷ []

abbrev item_message : Map → Option Map → Map
item_message item none =
    ("role", string "user") ∷ ("content", string (stringify_chat_content (dict item))) ∷ []
item_message item (some message) = message

module _ (base64 : Base64) where
  -- `encodeReasoningContent` and `decodeReasoningContent`.
  unfoldable pub encode_reasoning_content : String → String
  encode_reasoning_content text = concat (reasoning_encrypted_prefix ∷ base64.encode text ∷ [])

  unfoldable pub decode_reasoning_content : String → String
  decode_reasoning_content value =
      if not (has_prefix value reasoning_encrypted_prefix)
      then ""
      else text_or_empty (base64.decode (trim_prefix value reasoning_encrypted_prefix))

  -- `reasoningItemText`.
  unfoldable pub reasoning_item_text : Map → String
  reasoning_item_text item =
      let stashed = first_text (get "encrypted_content" item ∷ []) in
      let content = reasoning_content_text (get "content" item) in
      if not (stashed === "") && not (decode_reasoning_content stashed === "")
      then decode_reasoning_content stashed
      else if not (content === "")
      then content
      else reasoning_content_text (get "summary" item)

  -- The text that is pending behind a reasoning item.
  unfoldable pub pending_after : Bool → String → Map → String
  pending_after deepseek pending item =
      if deepseek && not (reasoning_item_text item === "")
      then reasoning_item_text item
      else pending

  -- The loop of `responseInputValueToChatMessages`, with the reasoning that is pending.
  unfoldable pub chat_messages_from : Bool → String → List Json → List Map
  unfolding user_message
  chat_messages_from deepseek pending [] = []
  chat_messages_from deepseek pending (string s ∷ vs) =
      user_message s ∷ chat_messages_from deepseek pending vs
  chat_messages_from deepseek pending (object fs ∷ vs) =
      let item = entries fs in
      let message = item_message item (response_item_to_chat_message item) in
      let reasoned =
        insert "reasoning_content" (string pending) message ∷ chat_messages_from deepseek "" vs in
      let unreasoned = message ∷ chat_messages_from deepseek pending vs in
      let skipped = chat_messages_from deepseek (pending_after deepseek pending item) vs in
      if trimmed "type" item === "reasoning"
      then skipped
      else if deepseek && not (pending === "") && sprint (get "role" message) === "assistant"
      then reasoned
      else unreasoned
  chat_messages_from deepseek pending (null ∷ vs) = chat_messages_from deepseek pending vs
  chat_messages_from deepseek pending (v ∷ vs) =
      user_message (stringify_chat_content v) ∷ chat_messages_from deepseek pending vs

  -- `responseInputValueToChatMessages`.
  unfoldable pub response_input_value_to_chat_messages : Json → Bool → List Map
  response_input_value_to_chat_messages value deepseek =
      chat_messages_from deepseek "" (flatten_response_input_items value)

  abbrev instruction_messages : Json → List Map
  instruction_messages (string text) =
      if is_blank (trim_space text)
      then []
      else (("role", string "system") ∷ ("content", string text) ∷ []) ∷ []
  instruction_messages _ = []

  -- `responsesInputToChatMessages`.
  unfoldable pub responses_input_to_chat_messages : Json → Json → Bool → List Map
  unfolding user_message
  responses_input_to_chat_messages instructions input deepseek =
      let messages =
        instruction_messages instructions ++ response_input_value_to_chat_messages input deepseek in
      if is_empty messages then user_message "" ∷ [] else messages
