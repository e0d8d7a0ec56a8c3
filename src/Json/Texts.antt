-- ===== src/Json/Texts.antt =====
-- internal/gateway/responses_compat.go and handlers.go: the readers of text and of numbers in a value
-- that JSON is decoded into.
use aiyolo.Base.{String, ◌||◌, ◌===◌, List, [], ◌∷◌, if◌then◌else◌}
use aiyolo.Base.Int.{ℤ, pos}
use aiyolo.Text.{trim_space, is_blank}
use aiyolo.Text.Join.{join}
use aiyolo.Json.{Json, null, number, string, array, object, Map, elements, entries, get}
use aiyolo.Json.Print.{sprint, marshal}

-- One value of `firstNonEmptyString`, or nothing.
pub named_text : Json → String
named_text (string s) = if is_blank (trim_space s) then "" else s
named_text null = ""
named_text v =
    let text = trim_space (sprint v) in if is_blank text || text === "<nil>" then "" else text

-- `firstNonEmptyString`.
unfoldable pub first_text : List Json → String
unfolding named_text
first_text [] = ""
first_text (v ∷ vs) = let rest = first_text vs in if named_text v === "" then rest else named_text v

-- `strings.TrimSpace(fmt.Sprint(m[key]))`
unfoldable pub trimmed : String → Map → String
trimmed key m = trim_space (sprint (get key m))

-- `anySlice`.
abbrev pub any_slice : Json → List Json
any_slice (array vs) = elements vs
any_slice _ = []

abbrev pub maps : List Json → List Map
maps [] = []
maps (object fs ∷ vs) = entries fs ∷ maps vs
maps (_ ∷ vs) = maps vs

-- `chatToolCalls`: the objects of a list.
unfoldable pub chat_tool_calls : Json → List Map
chat_tool_calls value = maps (any_slice value)

abbrev head_or_empty : List Map → Map
head_or_empty [] = []
head_or_empty (m ∷ ms) = m

-- `firstMapFromSlice`; nil is the empty map, for it is only read.
unfoldable pub first_map_from_slice : Json → Map
first_map_from_slice value = head_or_empty (maps (any_slice value))

-- `intNumber`.
abbrev pub int_number : Json → ℤ
int_number (number n) = n.integer
int_number _ = pos 0

-- `stringifyChatContent`.
unfoldable pub stringify_chat_content : Json → String
stringify_chat_content null = ""
stringify_chat_content (string s) = s
stringify_chat_content v = marshal v

-- The texts of the parts of a message.
content_parts : List Json → List String
content_parts [] = []
content_parts (object fs ∷ vs) =
    let part = entries fs in
    let rest = content_parts vs in
    if trimmed "type" part === "text" || trimmed "type" part === "output_text"
    then first_text (get "text" part ∷ []) ∷ rest
    else rest
content_parts (_ ∷ vs) = content_parts vs

-- `chatMessageContentText`.
unfoldable pub chat_message_content_text : Json → String
unfolding content_parts
chat_message_content_text (string s) = s
chat_message_content_text (array vs) = join "" (content_parts (elements vs))
chat_message_content_text _ = ""

abbrev reasoning_map_text : Map → String
reasoning_map_text m = first_text (get "text" m ∷ get "reasoning" m ∷ get "content" m ∷ [])

reasoning_parts : List Json → List String
reasoning_parts [] = []
reasoning_parts (string s ∷ vs) = s ∷ reasoning_parts vs
reasoning_parts (object fs ∷ vs) =
    let rest = reasoning_parts vs in
    let text = reasoning_map_text (entries fs) in if text === "" then rest else text ∷ rest
reasoning_parts (_ ∷ vs) = reasoning_parts vs

-- `reasoningContentText`.
unfoldable pub reasoning_content_text : Json → String
unfolding reasoning_parts
reasoning_content_text (string s) = s
reasoning_content_text (array vs) = join "" (reasoning_parts (elements vs))
reasoning_content_text (object fs) = reasoning_map_text (entries fs)
reasoning_content_text _ = ""

-- `chatMessageReasoningText`.
unfoldable pub chat_message_reasoning_text : Map → String
chat_message_reasoning_text message =
    let text = reasoning_content_text (get "reasoning_content" message) in
    if text === "" then reasoning_content_text (get "reasoning" message) else text
