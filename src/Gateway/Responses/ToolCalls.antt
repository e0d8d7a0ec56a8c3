-- ===== src/Gateway/Responses/ToolCalls.antt =====
-- internal/gateway/responses_compat.go `normalizeChatToolCallMessages`: each assistant message with
-- tool calls is followed by the answers to its calls, and calls and answers without a partner go.
pub mod Paired
pub mod Sound
pub mod Fixed
pub mod Shown
use aiyolo.Base.{
  ℕ, zero, suc, String, Bool, true, false, not, ◌&&◌, ◌||◌, ◌===◌, List, [], ◌∷◌, ◌++◌, map, any,
  filter, is_empty, length, if◌then◌else◌,
}
use aiyolo.Text.{trim_space, is_blank}
use aiyolo.Dict.{insert, erase, string_key}
use aiyolo.Domain.Protocols.Distinct.{member}
use aiyolo.Json.{Json, string, Map, get, is_null, list, dict}
use aiyolo.Json.Texts.{
  first_text, trimmed, chat_tool_calls, chat_message_content_text, chat_message_reasoning_text,
}

-- `chatMessageRole`.
unfoldable pub chat_message_role : Map → String
chat_message_role message = trimmed "role" message

abbrev pub has_role : String → Map → Bool
has_role role message = chat_message_role message === role

-- The tool calls of a message.
unfoldable pub calls_of : Map → List Map
calls_of message = chat_tool_calls (get "tool_calls" message)

-- The identifier of a tool call, and of the call that a tool message answers.
unfoldable pub call_id : Map → String
call_id call = first_text (get "id" call ∷ [])

unfoldable pub answered_id : Map → String
answered_id message = trimmed "tool_call_id" message

-- `chatMessageHasVisibleContent`.
unfoldable pub chat_message_has_visible_content : Map → Bool
chat_message_has_visible_content message =
    not (is_blank (trim_space (chat_message_content_text (get "content" message))))

-- `chatMessageShouldKeepWithoutToolCalls`: what becomes of the message that it may change, or nothing
-- where it is not kept.
unfoldable pub keep_without_tool_calls : Map → List Map
keep_without_tool_calls message =
    if chat_message_has_visible_content message
    then message ∷ []
    else if chat_message_reasoning_text message === ""
    then []
    else if is_null (get "content" message)
    then insert "content" (string "") message ∷ []
    else message ∷ []

-- An assistant message that is merged into the one before it.
unfoldable pub joins : Map → Bool
joins message =
    has_role "assistant" message
    && not (chat_message_has_visible_content message)
    && not (is_empty (calls_of message))

-- The calls of the messages that are merged, and the messages behind them.
unfoldable pub merged_calls : List Map → List Map
merged_calls [] = []
merged_calls (m ∷ ms) = let more = calls_of m ++ merged_calls ms in if joins m then more else []

unfoldable pub after_merged : List Map → List Map
after_merged [] = []
after_merged (m ∷ ms) = let rest = after_merged ms in if joins m then rest else m ∷ ms

-- The tool messages at the front that are kept: each answers a known call that has no answer yet.
unfoldable pub answers : List String → List String → List Map → List Map
answers known matched [] = []
answers known matched (m ∷ ms) =
    let kept = m ∷ answers known (answered_id m ∷ matched) ms in
    let dropped = answers known matched ms in
    if has_role "tool" m
    then if member (answered_id m) known && not (member (answered_id m) matched)
      then kept
      else dropped
    else []

unfoldable pub after_tools : List Map → List Map
after_tools [] = []
after_tools (m ∷ ms) = let rest = after_tools ms in if has_role "tool" m then rest else m ∷ ms

-- `knownCallIDs`: the identifiers of calls, where they are not empty.
unfoldable pub known_ids : List Map → List String
known_ids calls = filter (λ id. not (id === "")) (map call_id calls)

-- The calls that have an answer.
unfoldable pub matched_calls : List Map → List Map → List Map
matched_calls calls tools = filter (λ call. member (call_id call) (map answered_id tools)) calls

-- The assistant message with its calls and the answers to them.
unfoldable pub close_group : Map → List Map → List Map → List Map
close_group message calls tools =
    if is_empty (matched_calls calls tools)
    then keep_without_tool_calls (erase "tool_calls" message)
    else insert "tool_calls" (list (map dict (matched_calls calls tools))) message ∷ tools

-- The calls of a group that starts with a message, and the answers behind it.
unfoldable pub group_calls : Map → List Map → List Map
group_calls message ms = calls_of message ++ merged_calls ms

unfoldable pub group_answers : Map → List Map → List Map
group_answers message ms = answers (known_ids (group_calls message ms)) [] (after_merged ms)

-- The loop over the messages, each of whose rounds consumes at least one.
unfoldable pub normalize_in : ℕ → List Map → List Map
normalize_in zero ms = []
normalize_in (suc fuel) [] = []
normalize_in (suc fuel) (m ∷ ms) =
    let rest = normalize_in fuel ms in
    let behind_group = normalize_in fuel (after_tools (after_merged ms)) in
    if not (has_role "assistant" m)
    then if not (has_role "tool" m) then m ∷ rest else rest
    else if is_empty (calls_of m)
    then m ∷ rest
    else close_group m (group_calls m ms) (group_answers m ms) ++ behind_group

-- `normalizeChatToolCallMessages`.
unfoldable pub normalize_chat_tool_call_messages : List Map → List Map
normalize_chat_tool_call_messages ms = normalize_in (length ms) ms
