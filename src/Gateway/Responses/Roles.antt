-- ===== src/Gateway/Responses/Roles.antt =====
-- internal/gateway/responses_compat.go: the roles of a Responses request. `developer` becomes `system`
-- in place, and a request without such a role is forwarded byte for byte.
pub mod Settled
use aiyolo.Base.{
  String, Bool, true, false, not, ◌&&◌, ◌||◌, ◌===◌, List, [], ◌∷◌, Option, none, some,
  if◌then◌else◌,
}
use aiyolo.Text.{trim_space}
use aiyolo.Dict.{insert, string_key}
use aiyolo.Json.{
  Json, Items, Fields, null, string, array, object, nil, cons, Map, entries, elements, get, is_null,
  list, dict, Decoded, failed, nil_map, decoded, as_string,
}
use aiyolo.Json.Texts.{any_slice, trimmed}

abbrev is_developer : Json → Bool
is_developer (string role) = trim_space role === "developer"
is_developer _ = false

-- `normalizeResponsesMessageRole`: whether the message is changed, and the message then.
unfoldable pub role_needs_change : Map → Bool
role_needs_change message = is_developer (get "role" message)

unfoldable pub normalize_responses_message_role : Map → Map
normalize_responses_message_role message =
    if role_needs_change message then insert "role" (string "system") message else message

unfoldable pub messages_need_change : List Json → Bool
messages_need_change [] = false
messages_need_change (object fs ∷ vs) = role_needs_change (entries fs) || messages_need_change vs
messages_need_change (_ ∷ vs) = messages_need_change vs

unfoldable pub normalized_messages : List Json → List Json
normalized_messages [] = []
normalized_messages (object fs ∷ vs) =
    dict (normalize_responses_message_role (entries fs)) ∷ normalized_messages vs
normalized_messages (v ∷ vs) = v ∷ normalized_messages vs

-- The test of `normalizeResponsesInputRoles` that leaves an item alone.
unfoldable pub is_no_message : Map → Bool
is_no_message item = not (trimmed "type" item === "message") && is_null (get "role" item)

-- `normalizeResponsesInputRoles`: whether a value is changed, and the value then.
unfoldable mutual
  pub input_needs_change : Json → Bool
  input_needs_change (array vs) = inputs_need_change vs
  input_needs_change (object fs) =
      if is_no_message (entries fs) then false else role_needs_change (entries fs)
  input_needs_change _ = false

  pub inputs_need_change : Items → Bool
  inputs_need_change nil = false
  inputs_need_change (cons v vs) = input_needs_change v || inputs_need_change vs

unfoldable mutual
  pub normalized_input : Json → Json
  normalized_input (array vs) = array (normalized_inputs vs)
  normalized_input (object fs) =
      if is_no_message (entries fs)
      then object fs
      else dict (normalize_responses_message_role (entries fs))
  normalized_input v = v

  pub normalized_inputs : Items → Items
  normalized_inputs nil = nil
  normalized_inputs (cons v vs) = cons (normalized_input v) (normalized_inputs vs)

-- `normalizeResponsesMessageRoles` on the messages of a payload.
unfoldable pub payload_messages : Map → List Json
payload_messages payload = any_slice (get "messages" payload)

-- The body that is forwarded: an error, the body as it came, or another payload.
pub data NormalizedBody : Type 0 where
  not_json : NormalizedBody
  unchanged : NormalizedBody
  changed : Map → NormalizedBody

-- The payload with its roles rewritten, where one of them needs it.
unfoldable pub with_messages : Map → Map
with_messages payload =
    if messages_need_change (payload_messages payload)
    then insert "messages" (list (normalized_messages (payload_messages payload))) payload
    else payload

unfoldable pub with_input : Map → Map
with_input payload =
    if input_needs_change (get "input" payload)
    then insert "input" (normalized_input (get "input" payload)) payload
    else payload

unfoldable pub payload_needs_change : Map → Bool
payload_needs_change payload =
    messages_need_change (payload_messages payload) || input_needs_change (get "input" payload)

-- `normalizeResponsesRequestBody`, on the decoded body.
unfoldable pub normalize_responses_request_body : Decoded → NormalizedBody
normalize_responses_request_body failed = not_json
normalize_responses_request_body nil_map = unchanged
normalize_responses_request_body (decoded payload) =
    if payload_needs_change payload then changed (with_input (with_messages payload)) else unchanged
