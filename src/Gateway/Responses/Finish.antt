-- ===== src/Gateway/Responses/Finish.antt =====
-- internal/gateway/responses_compat.go: the end of a Responses stream, and the loop over the lines of
-- the stream of chat completions.
pub mod Completed
pub mod Told
pub mod Ends
use aiyolo.Base.{
  ℕ, ◌+◌, String, true, false, not, ◌||◌, ◌===◌, List, [], ◌∷◌, ◌++◌, Option, none, some,
  if◌then◌else◌,
}
use aiyolo.Base.Int.{ℤ, pos, negsuc}
use aiyolo.Dict.{insert, string_key}
use aiyolo.Gateway.Forward.Usage.{zero_usage}
use aiyolo.Gateway.Body.Usage.{line_data}
use aiyolo.Json.{Json, bool, string, Map, list, dict, unmarshal_map}
use aiyolo.Json.Print.{int, int_literal}
use aiyolo.Gateway.Responses.Items.{Base64, function_call}
use aiyolo.Gateway.Responses.Outputs.{
  response_reasoning_item, output_text, response_message_item, response_function_call_item,
  responses_usage_payload,
}
use aiyolo.Gateway.Responses.Calls.{ToolCallState, sorted_calls}
use aiyolo.Gateway.Responses.Stream.{
  StreamState, Written, done_marker, Step, Ending, end_of_file, read_error, Streamed, after_step,
  write_event, ensure_response_message_started, consume_chunk,
}

-- `baseStreamingResponse`, at a time in seconds.
unfoldable pub base_streaming_response : ℤ → StreamState → String → List Json → Map
base_streaming_response now s status output =
    ("id", string s.response_id)
    ∷ ("object", string "response")
    ∷ ("created_at", int now)
    ∷ ("status", string status)
    ∷ ("output", list output)
    ∷ ("parallel_tool_calls", bool true)
    ∷ []

-- A part of the end: the state, what is written, and the items for the output.
abbrev pub Part : Type 0
Part = StreamState × List Written × List Json

module _ (base64 : Base64) (new_id : ℕ → String → String) (metadata : Option Json) where
  abbrev item_done : ℤ → Json → Written
  item_done index item =
      write_event metadata "response.output_item.done"
        (("output_index", int index) ∷ ("item", item) ∷ [])

  unfoldable pub finish_reasoning : StreamState → Part
  finish_reasoning s =
      let item = dict (response_reasoning_item base64 s.reasoning_id s.reasoning) in
      if s.reasoning_started
      then (
        s,
        write_event metadata "response.reasoning_summary_text.done" (
              ("item_id", string s.reasoning_id)
              ∷ ("output_index", int s.reasoning_index)
              ∷ ("summary_index", int_literal 0)
              ∷ ("text", string s.reasoning)
              ∷ [])
            ∷ item_done s.reasoning_index item
            ∷ [],
        item ∷ [],
      )
      else (s, [], [])

  -- The events that close the text of the message, where its content is started.
  close_content : StreamState → List Written
  close_content s =
      if s.content_started
      then write_event metadata "response.output_text.done" (
          ("item_id", string s.message_id)
          ∷ ("output_index", int s.message_index)
          ∷ ("content_index", int_literal 0)
          ∷ ("text", string s.content)
          ∷ [])
        ∷ write_event metadata "response.content_part.done" (
            ("item_id", string s.message_id)
            ∷ ("output_index", int s.message_index)
            ∷ ("content_index", int_literal 0)
            ∷ ("part", output_text s.content)
            ∷ [])
        ∷ []
      else []

  close_message : StreamState → Part
  close_message s =
      let item = dict (response_message_item s.message_id "completed" s.content) in
      (s, close_content s ++ (item_done s.message_index item ∷ []), item ∷ [])

  abbrev behind : Step → (StreamState → Part) → Part
  behind started close =
      let (s, written, items) = close started.0 in (s, started.1 ++ written, items)

  unfoldable pub finish_message : StreamState → Part
  unfolding close_message close_content
  finish_message s =
      if s.message_started || not (s.content === "")
      then behind (ensure_response_message_started new_id metadata s) close_message
      else (s, [], [])

  -- The item of an assembled call, with two identifiers that are drawn.
  call_item : ℕ → ToolCallState → Json
  call_item issued call = dict (
      response_function_call_item (new_id issued "call") (new_id (issued + 1) "fc")
        (function_call call.call_id call.name call.arguments))

  unfoldable pub finish_calls : List ToolCallState → StreamState → Part
  unfolding call_item
  finish_calls [] s = (s, [], [])
  finish_calls (call ∷ calls) s =
      let item = call_item s.issued call in
      let later = record s { next_output_index = s.next_output_index + 1; issued = s.issued + 2 } in
      let (last, written, items) = finish_calls calls later in
      (last, item_done (pos s.next_output_index) item ∷ written, item ∷ items)

  completed_event : ℤ → StreamState → List Json → Written
  completed_event now s output = write_event metadata "response.completed" (
      (
        "response",
        dict (
            insert "usage" (dict (responses_usage_payload s.usage))
              (base_streaming_response now s "completed" output)),
      )
      ∷ [])

  abbrev then_part : Part → (StreamState → Part) → Part
  then_part p next = let (s, written, items) = next p.0 in (s, p.1 ++ written, p.2 ++ items)

  -- The items of the output, with their events.
  unfoldable pub finish_items : StreamState → Part
  finish_items s =
      then_part (then_part (finish_reasoning s) finish_message)
        λ t. finish_calls (sorted_calls t.tool_calls) t

  -- `finishResponsesStream`, at the time of its last event.
  unfoldable pub finish_responses_stream : ℤ → StreamState → Step
  unfolding completed_event
  finish_responses_stream now s =
      let (last, written, items) = finish_items s in
      (last, written ++ (completed_event now last items ∷ done_marker ∷ []))

  -- The state before the first line, with two identifiers drawn.
  unfoldable pub first_state : StreamState
  first_state = record {
    response_id = new_id 0 "resp";
    message_id = new_id 1 "msg";
    message_started = false;
    message_index = negsuc 0;
    content_started = false;
    content = "";
    reasoning_id = "";
    reasoning_started = false;
    reasoning_index = negsuc 0;
    reasoning = "";
    next_output_index = 0;
    tool_calls = [];
    usage = zero_usage;
    issued = 2;
  }

  -- The state before the first line, and the first event.
  unfoldable pub first_step : ℤ → Step
  first_step started = (
    first_state,
    write_event metadata "response.created"
          (("response", dict (base_streaming_response started first_state "in_progress" [])) ∷ [])
        ∷ [],
  )

  -- `parse` is the JSON value of a text, and `finished` the time at which the stream is finished.
  module _ (parse : String → Option Json) (finished : ℤ) where
    finish_stream : StreamState → Streamed
    finish_stream s =
        let last = finish_responses_stream finished s in
        record { state = last.0; written = last.1; completed = true }

    stop_stream : StreamState → Streamed
    stop_stream s = record { state = s; written = []; completed = false }

    abbrev end_by : Ending → StreamState → Streamed
    end_by end_of_file s = finish_stream s
    end_by read_error s = stop_stream s

    abbrev after_chunk : StreamState → (StreamState → Streamed) → Option Step → Streamed
    after_chunk s rest none = stop_stream s
    after_chunk s rest (some step) = after_step step rest

    -- What a line leads to, given what the lines behind it lead to.
    abbrev after_data : StreamState → (StreamState → Streamed) → Option String → Streamed
    after_data s rest none = rest s
    after_data s rest (some text) =
        if text === "[DONE]"
        then finish_stream s
        else if text === ""
        then rest s
        else after_chunk s rest (consume_chunk new_id metadata (unmarshal_map (parse text)) s)

    -- The loop of `writeChatCompletionsSSEAsResponses`.
    unfoldable pub stream_lines : Ending → List String → StreamState → Streamed
    unfolding finish_stream stop_stream
    stream_lines ending [] s = end_by ending s
    stream_lines ending (line ∷ lines) s =
        after_data s (λ t. stream_lines ending lines t) (line_data line)

    -- `writeChatCompletionsSSEAsResponses`, at the time of its first event.
    unfoldable pub write_chat_completions_sse_as_responses : ℤ → Ending → List String → Streamed
    write_chat_completions_sse_as_responses started ending lines =
        after_step (first_step started) (λ s. stream_lines ending lines s)
