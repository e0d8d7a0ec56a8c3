-- ===== src/Gateway/Responses/Stream.antt =====
-- internal/gateway/responses_compat.go: a stream of chat completions as a stream of Responses events.
-- Every write to the client succeeds, and each value of `newID` is drawn from a numbered supply.
pub mod Said
pub mod Collected
use aiyolo.Base.{
  ℕ, zero, suc, ◌+◌, String, Bool, true, false, not, ◌&&◌, ◌||◌, ◌===◌, List, [], ◌∷◌, ◌++◌, map,
  Option, none, some, if◌then◌else◌,
}
use aiyolo.Base.Int.{ℤ, pos, negsuc}
use aiyolo.Text.Join.{concat}
use aiyolo.Dict.{Dict, insert, string_key}
use aiyolo.Domain.Usage.{UsageRecord}
use aiyolo.Domain.Protocols.{protocol_openai}
use aiyolo.Gateway.Forward.Usage.{zero_usage}
use aiyolo.Gateway.Body.Usage.{parse_usage_from_json, merge_usage, line_data}
use aiyolo.Json.{
  Json, Items, Fields, bool, string, object, Map, entries, get, list, dict, map_of, Decoded, failed,
  readable, unmarshal_map,
}
use aiyolo.Json.Print.{int, int_literal}
use aiyolo.Json.Texts.{
  first_text, any_slice, int_number, chat_message_content_text, reasoning_content_text,
}
use aiyolo.Gateway.Responses.Items.{Base64, function_call}
use aiyolo.Gateway.Responses.Outputs.{
  response_reasoning_item, output_text, response_message_item, response_function_call_item,
  responses_usage_payload,
}
use aiyolo.Gateway.Responses.Calls.{ToolCallState, Calls, consume_call, sorted_calls}

-- `responseStreamState`, with the number of identifiers that are drawn.
pub record StreamState : Type 0 where
  pub response_id : String
  pub message_id : String
  pub message_started : Bool
  pub message_index : ℤ
  pub content_started : Bool
  pub content : String
  pub reasoning_id : String
  pub reasoning_started : Bool
  pub reasoning_index : ℤ
  pub reasoning : String
  pub next_output_index : ℕ
  pub tool_calls : Calls
  pub usage : UsageRecord
  pub issued : ℕ

-- What is written to the client: an event with its payload, or the line that ends the stream.
pub data Written : Type 0 where
  event : String → Map → Written
  done_marker : Written

-- A step of the conversion: the state behind it, and what it writes.
abbrev pub Step : Type 0
Step = StreamState × List Written

infixl 5 ◌>>=◌
abbrev pub ◌>>=◌ : Step → (StreamState → Step) → Step
m >>= f = ((f m.0).0, m.1 ++ (f m.0).1)

abbrev pub skip : StreamState → Step
skip s = (s, [])

abbrev with_metadata : Option Json → Map → Map
with_metadata none payload = payload
with_metadata (some metadata) payload = insert "aiyolo_metadata" metadata payload

abbrev append_text : String → String → String
append_text s t = concat (s ∷ t ∷ [])

-- How the reading of the body ends.
pub data Ending : Type 0 where
  end_of_file : Ending
  read_error : Ending

-- The end of the conversion, and whether it returns without an error.
pub record Streamed : Type 0 where
  pub state : StreamState
  pub written : List Written
  pub completed : Bool

-- A step, and what follows it.
abbrev pub after_step : Step → (StreamState → Streamed) → Streamed
after_step step run =
    let rest = run step.0 in
    record { state = rest.state; written = step.1 ++ rest.written; completed = rest.completed }

module _ (metadata : Option Json) where
  -- `writeResponsesSSEEvent`, with the key `type` that each payload has.
  unfoldable pub write_event : String → Map → Written
  write_event name payload = event name (with_metadata metadata (("type", string name) ∷ payload))

module _ (new_id : ℕ → String → String) (metadata : Option Json) where
  -- `ensureReasoningStarted`.
  unfoldable pub ensure_reasoning_started : StreamState → Step
  ensure_reasoning_started s =
      let id = new_id s.issued "reasoning" in
      if s.reasoning_started then skip s else (
        record s {
          reasoning_started = true;
          reasoning_id = id;
          reasoning_index = pos s.next_output_index;
          next_output_index = s.next_output_index + 1;
          issued = s.issued + 1;
        },
        write_event metadata "response.output_item.added" (
              ("output_index", int_literal s.next_output_index)
              ∷ (
                "item",
                dict (("id", string id) ∷ ("type", string "reasoning") ∷ ("summary", list []) ∷ []),
              )
              ∷ [])
            ∷ [],
      )

  unfoldable pub start_message : StreamState → Step
  start_message s = if s.message_started then skip s else (
    record s {
      message_started = true;
      message_index = pos s.next_output_index;
      next_output_index = s.next_output_index + 1;
    },
    write_event metadata "response.output_item.added" (
          ("output_index", int_literal s.next_output_index)
          ∷ ("item", dict (response_message_item s.message_id "in_progress" ""))
          ∷ [])
        ∷ [],
  )

  unfoldable pub start_content : StreamState → Step
  start_content s = if s.content_started then skip s else (
    record s { content_started = true },
    write_event metadata "response.content_part.added" (
          ("item_id", string s.message_id)
          ∷ ("output_index", int s.message_index)
          ∷ ("content_index", int_literal 0)
          ∷ ("part", output_text "")
          ∷ [])
        ∷ [],
  )

  -- `ensureResponseMessageStarted`.
  unfoldable pub ensure_response_message_started : StreamState → Step
  unfolding start_message start_content
  ensure_response_message_started s = start_message s >>= start_content

  write_reasoning : String → StreamState → Step
  write_reasoning text s = (
    record s { reasoning = append_text s.reasoning text },
    write_event metadata "response.reasoning_summary_text.delta" (
          ("item_id", string s.reasoning_id)
          ∷ ("output_index", int s.reasoning_index)
          ∷ ("summary_index", int_literal 0)
          ∷ ("delta", string text)
          ∷ [])
        ∷ [],
  )

  write_content : String → StreamState → Step
  write_content text s = (
    record s { content = append_text s.content text },
    write_event metadata "response.output_text.delta" (
          ("item_id", string s.message_id)
          ∷ ("output_index", int s.message_index)
          ∷ ("content_index", int_literal 0)
          ∷ ("delta", string text)
          ∷ [])
        ∷ [],
  )

  -- The reasoning and the text of a delta.
  unfoldable pub consume_reasoning : String → StreamState → Step
  unfolding write_reasoning
  consume_reasoning text s =
      if text === "" then skip s else ensure_reasoning_started s >>= write_reasoning text

  unfoldable pub consume_content : String → StreamState → Step
  unfolding write_content
  consume_content text s =
      if text === "" then skip s else ensure_response_message_started s >>= write_content text

  -- `consumeChatToolCallDelta` for each call of a delta; an identifier is drawn for a new call.
  unfoldable pub consume_calls : List Json → StreamState → StreamState
  consume_calls [] s = s
  consume_calls (object fs ∷ vs) s =
      let (calls, drawn) = consume_call (new_id s.issued "call") (entries fs) s.tool_calls in
      consume_calls vs (record s { tool_calls = calls; issued = s.issued + drawn })
  consume_calls (_ ∷ vs) s = consume_calls vs s

  unfoldable pub reasoning_of : Map → String
  reasoning_of delta = first_text (
      string (reasoning_content_text (get "reasoning_content" delta))
      ∷ string (reasoning_content_text (get "reasoning" delta))
      ∷ [])

  unfoldable pub consume_delta : Map → StreamState → Step
  consume_delta delta s =
      consume_reasoning (reasoning_of delta) s
      >>= consume_content (chat_message_content_text (get "content" delta))
      >>= λ t. (consume_calls (any_slice (get "tool_calls" delta)) t, [])

  unfoldable pub consume_choices : List Json → StreamState → Step
  consume_choices [] s = skip s
  consume_choices (object fs ∷ vs) s =
      consume_delta (map_of (get "delta" (entries fs))) s >>= consume_choices vs
  consume_choices (_ ∷ vs) s = consume_choices vs s

  abbrev pub consume_payload : Option Map → StreamState → Option Step
  consume_payload none s = none
  consume_payload (some payload) s = some (consume_choices (any_slice (get "choices" payload)) s)

  -- `consumeChatCompletionSSEChunk`; none is the error of a chunk that does not decode.
  unfoldable pub consume_chunk : Decoded → StreamState → Option Step
  consume_chunk chunk s =
      consume_payload (readable chunk)
        (record s { usage = merge_usage s.usage (parse_usage_from_json chunk protocol_openai) })
