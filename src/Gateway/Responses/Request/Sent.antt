-- ===== src/Gateway/Responses/Request/Sent.antt =====
-- What `responsesRequestToChatCompletions` sends to a provider.
use aiyolo.Base.{
  ◌≡◌, ◌≢◌, refl, ap, ◌∙◌, String, Bool, true, false, ◌&&◌, ◌===◌, List, [], ◌∷◌, map, is_empty,
  Bool-cases, inl, inr, eq_iff, arith, if◌then◌else◌,
}
use aiyolo.Dict.{insert, lookup, string_key}
use aiyolo.Domain.Routes.{Provider}
use aiyolo.Domain.Protocols.Distinct.{member}
use aiyolo.Text.{trim_space}
use aiyolo.Json.{Json, null, string, Map, get, has_key, list, dict}
use aiyolo.Json.Texts.{any_slice, trimmed}
use aiyolo.Json.Print.{sprint}
use aiyolo.Json.Laws.{get-insert}
use aiyolo.Gateway.Responses.ToolCalls.{chat_message_role, normalize_chat_tool_call_messages}
use aiyolo.Gateway.Responses.ToolCalls.Paired.{Paired, done, plain}
use aiyolo.Gateway.Responses.ToolCalls.Fixed.{normalize-Paired}
use aiyolo.Gateway.Responses.Items.{Base64, responses_input_to_chat_messages}
use aiyolo.Gateway.Responses.Request.{
  is_deepseek_provider, copy_key, copy_keys, carried_keys, with_max_tokens, with_tools,
  with_response_format, with_effort, or_blank_message, requested_messages, with_chat_messages,
  responses_request_to_chat_completions, responses_text_to_chat_response_format,
  responses_tools_to_chat_tools, response_reasoning_effort,
}

-- A key that is set does not show under another key.
get-insert_ne : (k j : String) (v : Json) (m : Map) → k ≢ j → get j (insert k v m) ≡ get j m
get-insert_ne k j v m h = ground (arith, get-insert k j v m, eq_iff k j)

get-insert_self : (k : String) (v : Json) (m : Map) → get k (insert k v m) ≡ v
get-insert_self k v m = ground (arith, get-insert k k v m, eq_iff k k)

get-copy_key :
    (k j : String) (payload m : Map)
    → get j (copy_key k payload m)
      ≡ (if (k === j) && has_key k payload then get k payload else get j m)
unfolding copy_key
get-copy_key k j payload m = elim (Bool-cases (has_key k payload)) [
  | inl h ↦ rw h (ground (arith, get-insert k j (get k payload) m))
  | inr h ↦ rw h (ground arith)
]

get-copy_keys :
    (keys : List String) (j : String) (payload m : Map)
    → get j (copy_keys keys payload m)
      ≡ (if member j keys && has_key j payload then get j payload else get j m)
unfolding copy_keys
get-copy_keys [] j payload m = refl
get-copy_keys (k ∷ ks) j payload m =
    rw (get-copy_keys ks j payload (copy_key k payload m), get-copy_key k j payload m)
      (elim (Bool-cases (k === j)) [
        | inl e ↦ rw ((eq_iff k j).0 e) (ground (arith, eq_iff j j))
        | inr e ↦ rw e (ground arith)
      ])

-- A missing key is nil.
get_missing : (k : String) (m : Map) → has_key k m ≡ false → get k m ≡ null
unfolding get has_key
get_missing k m h = ground arith

get_nothing : (k : String) → get k [] ≡ null
unfolding get lookup
get_nothing k = refl

-- Each step of the translation keeps the keys that it does not set.
get-copy_key_ne : (k j : String) (payload m : Map) → k ≢ j → get j (copy_key k payload m) ≡ get j m
get-copy_key_ne k j payload m h = ground (arith, get-copy_key k j payload m, eq_iff k j)

get-with_max_tokens :
    (j : String) (payload m : Map) → "max_tokens" ≢ j → get j (with_max_tokens payload m) ≡ get j m
unfolding with_max_tokens
get-with_max_tokens j payload m h = ground (
  arith,
  get-insert_ne "max_tokens" j (get "max_tokens" payload) m h,
  get-insert_ne "max_tokens" j (get "max_output_tokens" payload) m h,
)

get-with_tools :
    (j : String) (payload m : Map) → "tools" ≢ j → get j (with_tools payload m) ≡ get j m
unfolding with_tools
get-with_tools j payload m h =
    let tools = responses_tools_to_chat_tools (any_slice (get "tools" payload)) in
    ground (arith, get-insert_ne "tools" j (list tools) m h)

get-with_response_format :
    (j : String) (payload m : Map)
    → "response_format" ≢ j
    → get j (with_response_format payload m) ≡ get j m
unfolding with_response_format
get-with_response_format j payload m h =
    let format = responses_text_to_chat_response_format (get "text" payload) in
    ground (
      arith,
      get-insert_ne "response_format" j format m h,
      get-copy_key_ne "response_format" j payload m h,
    )

get-with_effort :
    (deepseek : Bool) (j : String) (payload m : Map)
    → "reasoning_effort" ≢ j
    → "thinking" ≢ j
    → get j (with_effort deepseek payload m) ≡ get j m
unfolding with_effort
get-with_effort deepseek j payload m h k =
    let effort = response_reasoning_effort (get "reasoning" payload) in
    let reasoned = insert "reasoning_effort" (string effort) m in
    ground (
      arith,
      get-insert_ne "thinking" j (dict (("type", string "enabled") ∷ [])) reasoned k,
      get-insert_ne "reasoning_effort" j (string effort) m h,
    )

text_ne : (k j : String) → (k === j) ≡ false → k ≢ j
text_ne k j n e = cc ((eq_iff k j).1 e)

-- What is not carried is another key than what is.
ne_carried : (k j : String) → member k carried_keys ≡ false → member j carried_keys ≡ true → k ≢ j
ne_carried k j n m e = cc (ap (λ s. member s carried_keys) e)

-- The limit of tokens, where nothing has set it before.
get-max_tokens :
    (payload m : Map)
    → get "max_tokens" m ≡ null
    → get "max_tokens" (with_max_tokens payload m) ≡ (
        if has_key "max_tokens" payload
        then get "max_tokens" payload
        else get "max_output_tokens" payload)
unfolding with_max_tokens
get-max_tokens payload m h = ground (
  arith,
  get-insert_self "max_tokens" (get "max_tokens" payload) m,
  get-insert_self "max_tokens" (get "max_output_tokens" payload) m,
  get_missing "max_output_tokens" payload,
)

-- A carried key has the value that the request has for it.
carried_key :
    (payload : Map) (key : String)
    → member key carried_keys ≡ true
    → get key (copy_keys carried_keys payload []) ≡ get key payload
carried_key payload key h =
    rw (get-copy_keys carried_keys key payload [], h)
      (ground (arith, get_missing key payload, get_nothing key))

module _ (base64 : Base64) where
  get-with_chat_messages :
      (deepseek : Bool) (j : String) (payload m : Map)
      → "messages" ≢ j
      → get j (with_chat_messages base64 deepseek payload m) ≡ get j m
  unfolding with_chat_messages
  get-with_chat_messages deepseek j payload m h =
      let sent =
        or_blank_message
          (normalize_chat_tool_call_messages (requested_messages base64 payload deepseek)) in
      ground (arith, get-insert_ne "messages" j (list (map dict sent)) m h)

  -- There is always a message.
  requested_messages_some :
      (payload : Map) (deepseek : Bool)
      → is_empty (requested_messages base64 payload deepseek) ≡ false
  unfolding requested_messages responses_input_to_chat_messages
  requested_messages_some payload deepseek = ground arith

  or_blank-Paired :
      (ms : List Map)
      → Paired ms
      → Paired (or_blank_message ms) × (is_empty (or_blank_message ms) ≡ false)
  unfolding chat_message_role trimmed get lookup sprint trim_space
  or_blank-Paired [] p =
      (plain (record { no_tool = refl; no_calls = λ h. absurd (cc h) }) done, refl)
  or_blank-Paired (m ∷ ms) p = (p, refl)

  -- What the steps behind the messages keep.
  get-request :
      (provider : Provider) (payload : Map) (j : String)
      → "tool_choice" ≢ j
      → "tools" ≢ j
      → "response_format" ≢ j
      → "reasoning_effort" ≢ j
      → "thinking" ≢ j
      → get j (responses_request_to_chat_completions base64 provider payload)
        ≡ get j (
            with_chat_messages base64
              (is_deepseek_provider provider)
              payload
              (with_max_tokens payload (copy_keys carried_keys payload [])))
  unfolding responses_request_to_chat_completions
  get-request provider payload j choice tools format effort thinking =
      get-with_effort (is_deepseek_provider provider) j payload _ effort thinking
      ∙ get-with_response_format j payload _ format
      ∙ get-copy_key_ne "tool_choice" j payload _ choice
      ∙ get-with_tools j payload _ tools

  -- The messages that are sent.
  get-messages :
      (deepseek : Bool) (payload chat : Map)
      → get "messages" (with_chat_messages base64 deepseek payload chat)
        ≡ list (
            map dict (
              or_blank_message
                (normalize_chat_tool_call_messages (requested_messages base64 payload deepseek))))
  unfolding with_chat_messages
  get-messages deepseek payload chat = rw (requested_messages_some payload deepseek) (
      get-insert_self "messages"
        (list (
          map dict (
            or_blank_message
              (normalize_chat_tool_call_messages (requested_messages base64 payload deepseek)))))
        chat)

  -- The request that is sent has a list of messages that is not empty, and it is paired: every
  -- assistant message with tool calls is followed by answers to exactly its calls, and there are no
  -- other tool messages.
  pub responses_request-Paired :
      (provider : Provider) (payload : Map)
      → (ms : List Map) × (get "messages"
            (responses_request_to_chat_completions base64 provider payload)
          ≡ list (map dict ms))
        × Paired ms
        × (is_empty ms ≡ false)
  responses_request-Paired provider payload =
      let deepseek = is_deepseek_provider provider in
      let normalized =
        normalize_chat_tool_call_messages (requested_messages base64 payload deepseek) in
      let settled =
        or_blank-Paired normalized
          (normalize-Paired (requested_messages base64 payload deepseek)).0 in
      (
        or_blank_message normalized,
        get-request provider payload "messages" (text_ne _ _ refl) (text_ne _ _ refl)
              (text_ne _ _ refl) (text_ne _ _ refl) (text_ne _ _ refl)
            ∙ get-messages deepseek payload _,
        settled.0,
        settled.1,
      )

  -- The request that is sent has the model, the stream flag and the other carried settings of the
  -- request, and the limit of tokens, which it also takes from max_output_tokens.
  pub responses_request-carried :
      (provider : Provider) (payload : Map) (key : String)
      → member key carried_keys ≡ true
      → (get key (responses_request_to_chat_completions base64 provider payload) ≡ get key payload)
        × (get "max_tokens" (responses_request_to_chat_completions base64 provider payload) ≡ (
            if has_key "max_tokens" payload
            then get "max_tokens" payload
            else get "max_output_tokens" payload))
  responses_request-carried provider payload key h =
      let deepseek = is_deepseek_provider provider in
      let carried = copy_keys carried_keys payload [] in
      let other = λ (k : String) (n : member k carried_keys ≡ false). ne_carried k key n h in
      (
        get-request provider payload key (other "tool_choice" refl) (other "tools" refl)
              (other "response_format" refl) (other "reasoning_effort" refl) (other "thinking" refl)
            ∙ get-with_chat_messages deepseek key payload _ (other "messages" refl)
            ∙ get-with_max_tokens key payload carried (other "max_tokens" refl)
            ∙ carried_key payload key h,
        get-request provider payload "max_tokens" (text_ne _ _ refl) (text_ne _ _ refl)
              (text_ne _ _ refl) (text_ne _ _ refl) (text_ne _ _ refl)
            ∙ get-with_chat_messages deepseek "max_tokens" payload _ (text_ne _ _ refl)
            ∙ get-max_tokens payload carried
                (get-copy_keys carried_keys "max_tokens" payload [] ∙ get_nothing "max_tokens"),
      )
