-- ===== src/Gateway/Responses/Finish/Ends.antt =====
-- internal/gateway/responses_compat.go: how the stream of Responses events ends.
use aiyolo.Base.{
  ℕ, ◌≡◌, refl, sym, ap, ◌∙◌, String, Bool, true, false, ◌===◌, ◌||◌, List, [], ◌∷◌, ◌++◌, Option,
  none, some, All, if_intro,
}
use mathlib.Core.List.{append_assoc}
use aiyolo.Base.Int.{ℤ}
use aiyolo.Json.{Json, Map, readable, unmarshal_map}
use aiyolo.Gateway.Body.Usage.{line_data}
use aiyolo.Gateway.Responses.Items.{Base64}
use aiyolo.Gateway.Responses.Stream.{
  StreamState, Written, done_marker, Step, end_of_file, Streamed, after_step, consume_chunk,
  consume_payload,
}
use aiyolo.Gateway.Responses.Finish.{
  finish_stream, finish_items, finish_responses_stream, completed_event, first_step, after_chunk,
  after_data, stream_lines, write_chat_completions_sse_as_responses,
}

-- Completed, and ended by the last line.
abbrev pub IsEnded : Streamed → Type 0
IsEnded end =
    (end.completed ≡ true)
    × ((before : List Written) × (end.written ≡ before ++ (done_marker ∷ [])))

after_step-IsEnded :
    (step : Step) (rest : StreamState → Streamed)
    → IsEnded (rest step.0)
    → IsEnded (after_step step rest)
after_step-IsEnded step rest h = (
  h.0,
  (
    step.1 ++ h.1.0,
    ap (λ l. step.1 ++ l) h.1.1 ∙ sym (append_assoc step.1 h.1.0 (done_marker ∷ [])),
  ),
)

abbrev is_readable : Option Map → Bool
is_readable none = false
is_readable (some m) = true

-- The chunk on a line decodes, where there is one.
abbrev data_decodes : (String → Option Json) → Option String → Bool
data_decodes parse none = true
data_decodes parse (some text) =
    text === "[DONE]" || text === "" || is_readable (readable (unmarshal_map (parse text)))

abbrev pub Decodes : (String → Option Json) → String → Type 0
Decodes parse line = data_decodes parse (line_data line) ≡ true

module _ (base64 : Base64) (new_id : ℕ → String → String) (metadata : Option Json)
    (parse : String → Option Json) (finished : ℤ) where
  finish-IsEnded :
      (s : StreamState) → IsEnded (finish_stream base64 new_id metadata parse finished s)
  unfolding finish_stream finish_responses_stream
  finish-IsEnded s =
      let end = finish_items base64 new_id metadata s in
      let last = completed_event base64 new_id metadata finished end.0 end.2 in
      (refl, (end.1 ++ (last ∷ []), sym (append_assoc end.1 (last ∷ []) (done_marker ∷ []))))

  payload-IsEnded :
      (s t : StreamState) (rest : StreamState → Streamed) (o : Option Map)
      → is_readable o ≡ true
      → ((t : StreamState) → IsEnded (rest t))
      → IsEnded (
          after_chunk base64 new_id metadata parse finished s rest
            (consume_payload new_id metadata o t))
  payload-IsEnded s t rest none h later = cc h
  payload-IsEnded s t rest (some payload) h later = after_step-IsEnded _ rest (later _)

  data-IsEnded :
      (s : StreamState) (rest : StreamState → Streamed) (o : Option String)
      → data_decodes parse o ≡ true
      → ((t : StreamState) → IsEnded (rest t))
      → IsEnded (after_data base64 new_id metadata parse finished s rest o)
  unfolding consume_chunk
  data-IsEnded s rest none h later = later s
  data-IsEnded s rest (some text) h later =
      if_intro IsEnded (text === "[DONE]") (λ _. finish-IsEnded s)
        λ d.
          if_intro IsEnded (text === "") (λ _. later s)
            λ e.
              payload-IsEnded s _ rest (readable (unmarshal_map (parse text))) (rw (d, e) at h)
                later

  lines-IsEnded :
      (lines : List String) (s : StreamState)
      → All (Decodes parse) lines
      → IsEnded (stream_lines base64 new_id metadata parse finished end_of_file lines s)
  unfolding stream_lines
  lines-IsEnded [] s h = finish-IsEnded s
  lines-IsEnded (line ∷ lines) s h =
      data-IsEnded s (λ t. stream_lines base64 new_id metadata parse finished end_of_file lines t)
        (line_data line) h.0 (λ t. lines-IsEnded lines t h.1)

  -- Where every chunk of the stream decodes and the stream is read to its end, the conversion returns
  -- without an error, and the last line that it writes is the one that ends a stream.
  pub streamed-IsEnded :
      (started : ℤ) (lines : List String)
      → All (Decodes parse) lines
      → IsEnded (
          write_chat_completions_sse_as_responses base64 new_id metadata parse finished started
            end_of_file lines)
  unfolding write_chat_completions_sse_as_responses
  streamed-IsEnded started lines h =
      after_step-IsEnded (first_step base64 new_id metadata started)
        (λ t. stream_lines base64 new_id metadata parse finished end_of_file lines t)
        (lines-IsEnded lines _ h)
