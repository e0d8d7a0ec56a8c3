-- ===== src/Gateway/Responses/Finish/Told.antt =====
-- The texts of a completed stream: joined deltas and whole texts are the same.
use Prim.Native.String.{◌++◌ as append}
use text.Mathlib.TextLemmas.{nil-append, append-nil, append_assoc}
use aiyolo.Base.{
  ℕ, ◌≡◌, refl, sym, ap, ◌∙◌, String, true, ◌===◌, List, [], ◌∷◌, ◌++◌, Option, none, some,
  if_intro,
}
use aiyolo.Base.Int.{ℤ}
use aiyolo.Json.{Json, Map, Decoded, readable, unmarshal_map}
use aiyolo.Domain.Usage.{UsageRecord}
use aiyolo.Domain.Protocols.{protocol_openai}
use aiyolo.Gateway.Body.Usage.{line_data, merge_usage, parse_usage_from_json}
use aiyolo.Gateway.Responses.Items.{Base64}
use aiyolo.Gateway.Responses.Stream.{
  StreamState, Written, Step, Ending, end_of_file, read_error, Streamed, after_step, write_event,
  consume_chunk, consume_payload,
}
use aiyolo.Gateway.Responses.Stream.Said as Said
use aiyolo.Gateway.Responses.Stream.Said.{
  said, said-append, text_deltas, finished_text, reasoning_deltas, HasNoStrayReasoning, Collects,
}
use aiyolo.Gateway.Responses.Stream.Collected.{choices-Collects}
use aiyolo.Gateway.Responses.Finish.{
  first_step, first_state, finish_stream, stop_stream, after_chunk, after_data, stream_lines,
  write_chat_completions_sse_as_responses,
}
use aiyolo.Gateway.Responses.Finish.Completed.{finish-Says}

-- What is said behind a state: the rest of its texts in deltas, and its texts whole.
record Tells (s : StreamState) (end : Streamed) : Type 0 where
  text : append s.content (text_deltas end.written) ≡ finished_text end.written
  reasoned : append s.reasoning (reasoning_deltas end.written) ≡ Said.finished_reasoning end.written

-- One text, over a step that collects its deltas and finishes nothing.
told_over :
    (delta text old new : String) (xs ys : List Written)
    → new ≡ append old (said delta "delta" xs)
    → said text "text" xs ≡ ""
    → append new (said delta "delta" ys) ≡ said text "text" ys
    → append old (said delta "delta" (xs ++ ys)) ≡ said text "text" (xs ++ ys)
told_over delta text old new xs ys collected silent told =
    ap (λ t. append old t) (said-append delta "delta" xs ys)
    ∙ sym (append_assoc old (said delta "delta" xs) (said delta "delta" ys))
    ∙ ap (λ t. append t (said delta "delta" ys)) (sym collected)
    ∙ told
    ∙ sym (
        said-append text "text" xs ys
        ∙ ap (λ t. append t (said text "text" ys)) silent
        ∙ nil-append (said text "text" ys))

step-Tells :
    (s : StreamState) (step : Step) (rest : StreamState → Streamed)
    → Collects s step
    → Tells step.0 (rest step.0)
    → Tells s (after_step step rest)
step-Tells s step rest c t = record {
  text =
      told_over _ _ s.content step.0.content step.1 (rest step.0).written c.content c.no_text
        t.text;
  reasoned =
      told_over _ _ s.reasoning step.0.reasoning step.1 (rest step.0).written c.reasoning
        c.no_reasoning t.reasoned;
}

abbrev EachCollects : StreamState → Option Step → Type 0
EachCollects s none = Unit
EachCollects s (some step) = Collects s step

-- The usage is collected apart.
same_usage :
    (u : UsageRecord) (s : StreamState) (o : Option Step)
    → EachCollects (record s { usage = u }) o
    → EachCollects s o
same_usage u s none c = tt
same_usage u s (some step) c = record {
  content = c.content;
  reasoning = c.reasoning;
  no_text = c.no_text;
  no_reasoning = c.no_reasoning;
  kept = c.kept;
}

module _ (base64 : Base64) (new_id : ℕ → String → String) (metadata : Option Json) where
  payload-Collects :
      (payload : Option Map) (s : StreamState)
      → EachCollects s (consume_payload new_id metadata payload s)
  payload-Collects none s = tt
  payload-Collects (some payload) s = choices-Collects new_id metadata _ s

  chunk-Collects :
      (chunk : Decoded) (s : StreamState) → EachCollects s (consume_chunk new_id metadata chunk s)
  unfolding consume_chunk
  chunk-Collects chunk s =
      let u = merge_usage s.usage (parse_usage_from_json chunk protocol_openai) in
      same_usage u s (consume_payload new_id metadata (readable chunk) (record s { usage = u }))
        (payload-Collects (readable chunk) (record s { usage = u }))

  module _ (parse : String → Option Json) (finished : ℤ) where
    -- What is behind a state tells its texts, if it is completed.
    abbrev CompletesTelling : StreamState → Streamed → Type 0
    CompletesTelling s end = end.completed ≡ true → Tells s end

    finish-Tells :
        (s : StreamState)
        → HasNoStrayReasoning s
        → Tells s (finish_stream base64 new_id metadata parse finished s)
    unfolding finish_stream
    finish-Tells s h =
        let says = finish-Says base64 new_id metadata finished s h in
        record {
          text = rw says.no_text (append-nil s.content ∙ sym says.text_done);
          reasoned = rw says.no_reasoning (append-nil s.reasoning ∙ sym says.reasoning_done);
        }

    abbrev stopped : StreamState → Streamed
    stopped s = stop_stream base64 new_id metadata parse finished s

    stop-Tells : (s : StreamState) → CompletesTelling s (stopped s)
    unfolding stop_stream
    stop-Tells s h = cc h

    chunk-Tells :
        (s : StreamState) (rest : StreamState → Streamed) (o : Option Step)
        → EachCollects s o
        → ((t : StreamState) → HasNoStrayReasoning t → CompletesTelling t (rest t))
        → HasNoStrayReasoning s
        → CompletesTelling s (after_chunk base64 new_id metadata parse finished s rest o)
    chunk-Tells s rest none c later h done = stop-Tells s done
    chunk-Tells s rest (some step) c later h done =
        step-Tells s step rest c (later step.0 (c.kept h) done)

    data-Tells :
        (s : StreamState) (rest : StreamState → Streamed) (o : Option String)
        → ((t : StreamState) → HasNoStrayReasoning t → CompletesTelling t (rest t))
        → HasNoStrayReasoning s
        → CompletesTelling s (after_data base64 new_id metadata parse finished s rest o)
    data-Tells s rest none later h = later s h
    data-Tells s rest (some text) later h =
        if_intro (CompletesTelling s) (text === "[DONE]") (λ _ done. finish-Tells s h)
          λ _.
            if_intro (CompletesTelling s) (text === "") (λ _. later s h)
              λ _.
                chunk-Tells s rest (consume_chunk new_id metadata (unmarshal_map (parse text)) s)
                  (chunk-Collects (unmarshal_map (parse text)) s) later h

    lines-Tell :
        (ending : Ending) (lines : List String) (s : StreamState)
        → HasNoStrayReasoning s
        → CompletesTelling s (stream_lines base64 new_id metadata parse finished ending lines s)
    unfolding stream_lines
    lines-Tell end_of_file [] s h = λ done. finish-Tells s h
    lines-Tell read_error [] s h = stop-Tells s
    lines-Tell ending (line ∷ lines) s h =
        data-Tells s (λ t. stream_lines base64 new_id metadata parse finished ending lines t)
          (line_data line) (λ t k. lines-Tell ending lines t k) h

    -- In a stream that is completed, the deltas of the text, joined, are the text that the last event of
    -- the message has, and the deltas of the reasoning are the reasoning of the last event of its item.
    pub streamed_texts :
        (started : ℤ) (ending : Ending) (lines : List String)
        → (write_chat_completions_sse_as_responses base64 new_id metadata parse finished started
            ending lines).completed
          ≡ true
        → (text_deltas
              (write_chat_completions_sse_as_responses base64 new_id metadata parse finished started
                ending lines).written
            ≡ finished_text
                (write_chat_completions_sse_as_responses base64 new_id metadata parse finished
                  started ending lines).written)
          × (reasoning_deltas
                (write_chat_completions_sse_as_responses base64 new_id metadata parse finished
                  started ending lines).written
              ≡ Said.finished_reasoning
                  (write_chat_completions_sse_as_responses base64 new_id metadata parse finished
                    started ending lines).written)
    unfolding write_chat_completions_sse_as_responses first_step first_state said write_event
    streamed_texts started ending lines done =
        let told = lines-Tell ending lines (first_state base64 new_id metadata) (λ _. refl) done in
        (sym (nil-append _) ∙ told.text, sym (nil-append _) ∙ told.reasoned)
