-- ===== src/Gateway/Responses/Outputs.antt =====
-- internal/gateway/responses_compat.go: the items and payloads of a Responses response.
use aiyolo.Base.{String, [], ◌∷◌, if◌then◌else◌}
use aiyolo.Base.Int.{is_zero_ℤ, ℤ, ◌+ℤ◌, wrap64}
use aiyolo.Domain.Usage.{UsageRecord}
use aiyolo.Json.{Json, string, Map, get, list, dict, map_of}
use aiyolo.Json.Print.{int}
use aiyolo.Json.Texts.{first_text}
use aiyolo.Gateway.Responses.Items.{Base64, encode_reasoning_content}

-- `responseReasoningItem`.
unfoldable pub response_reasoning_item : Base64 → String → String → Map
response_reasoning_item base64 id text =
    ("id", string id)
    ∷ ("type", string "reasoning")
    ∷ ("summary", list (dict (("type", string "summary_text") ∷ ("text", string text) ∷ []) ∷ []))
    ∷ ("encrypted_content", string (encode_reasoning_content base64 text))
    ∷ []

abbrev pub output_text : String → Json
output_text text =
    dict (("type", string "output_text") ∷ ("text", string text) ∷ ("annotations", list []) ∷ [])

-- `responseMessageItem`.
unfoldable pub response_message_item : String → String → String → Map
response_message_item id status content =
    ("id", string id)
    ∷ ("type", string "message")
    ∷ ("status", string status)
    ∷ ("role", string "assistant")
    ∷ ("content", list (output_text content ∷ []))
    ∷ []

-- `responseFunctionCallItem`, with what `newID` gives for a missing identifier of the call and of the
-- item.
unfoldable pub response_function_call_item : String → String → Map → Map
response_function_call_item new_call new_item call =
    let function = map_of (get "function" call) in
    ("id", string (first_text (get "id" call ∷ string new_item ∷ [])))
    ∷ ("type", string "function_call")
    ∷ ("call_id", string (first_text (get "id" call ∷ string new_call ∷ [])))
    ∷ ("name", string (first_text (get "name" function ∷ [])))
    ∷ ("arguments", string (first_text (get "arguments" function ∷ string "{}" ∷ [])))
    ∷ ("status", string "completed")
    ∷ []

-- The total that `responsesUsagePayload` reports.
unfoldable pub reported_total : UsageRecord → ℤ
reported_total u =
    if is_zero_ℤ u.total_tokens
    then wrap64
        (u.input_tokens +ℤ u.output_tokens +ℤ u.cache_creation_tokens +ℤ u.cache_read_tokens)
    else u.total_tokens

-- `responsesUsagePayload`.
unfoldable pub responses_usage_payload : UsageRecord → Map
responses_usage_payload u =
    ("input_tokens", int u.input_tokens)
    ∷ ("output_tokens", int u.output_tokens)
    ∷ ("total_tokens", int (reported_total u))
    ∷ []
