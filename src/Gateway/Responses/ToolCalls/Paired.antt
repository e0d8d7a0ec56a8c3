-- ===== src/Gateway/Responses/ToolCalls/Paired.antt =====
-- What a chat history must look like for a provider of chat completions: every assistant message with
-- tool calls is followed by answers to exactly its calls, and there are no other tool messages.
use aiyolo.Base.{◌≡◌, true, false, List, [], ◌∷◌, ◌++◌, map, some, is_empty, All}
use aiyolo.Dict.{lookup, string_key}
use aiyolo.Domain.Protocols.Distinct.{member, Distinct}
use aiyolo.Json.{Map, list, dict}
use aiyolo.Gateway.Responses.ToolCalls.{has_role, calls_of, call_id, answered_id, known_ids}

-- The tool messages are distinct answers to the calls, and each call has one.
pub record Answered (calls tools : List Map) : Type 0 where
  pub are_tools : All (λ t. has_role "tool" t ≡ true) tools
  pub known : All (λ t. member (answered_id t) (known_ids calls) ≡ true) tools
  pub distinct : Distinct (map answered_id tools)
  pub complete : All (λ c. member (call_id c) (map answered_id tools) ≡ true) calls

-- Neither an answer nor an assistant message with calls.
pub record IsPlain (m : Map) : Type 0 where
  pub no_tool : has_role "tool" m ≡ false
  pub no_calls : has_role "assistant" m ≡ true → is_empty (calls_of m) ≡ true

-- An assistant message with calls, and with nothing but objects among them.
pub record HasCalls (m : Map) : Type 0 where
  pub is_assistant : has_role "assistant" m ≡ true
  pub some_calls : is_empty (calls_of m) ≡ false
  pub objects : lookup "tool_calls" m ≡ some (list (map dict (calls_of m)))

pub data Paired : List Map → Type 0 where
  done : Paired []
  plain : {m : Map} {ms : List Map} → IsPlain m → Paired ms → Paired (m ∷ ms)
  group :
      {m : Map} {tools ms out : List Map}
      → HasCalls m
      → Answered (calls_of m) tools
      → Paired ms
      → out ≡ m ∷ (tools ++ ms)
      → Paired out
