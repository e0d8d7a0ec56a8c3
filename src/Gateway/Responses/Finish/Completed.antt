-- ===== src/Gateway/Responses/Finish/Completed.antt =====
-- A stream that is completed has said its texts twice: in deltas, and whole.
use Prim.Native.String.{◌++◌ as append}
use text.Mathlib.TextLemmas.{nil-append, append-nil}
use mathlib.Core.Path.{ap₂}
use aiyolo.Base.{
  ℕ, ◌+◌, ◌≡◌, refl, sym, ap, ◌∙◌, subst, String, true, not, ◌||◌, ◌===◌, List, [], ◌∷◌, ◌++◌,
  Option, eq_iff, arith, if_intro,
}
use aiyolo.Base.Int.{ℤ}
use aiyolo.Dict.{lookup, string_key}
use aiyolo.Json.{Json, get}
use aiyolo.Gateway.Responses.Items.{Base64}
use aiyolo.Gateway.Responses.Calls.{ToolCallState}
use aiyolo.Gateway.Responses.Stream.{
  StreamState, Written, done_marker, Step, write_event, ensure_response_message_started,
  start_message, start_content,
}
use aiyolo.Gateway.Responses.Finish.{
  Part, finish_reasoning, finish_message, close_message, close_content, finish_calls, finish_items,
  finish_responses_stream, completed_event,
}
use aiyolo.Gateway.Responses.Stream.Said as Said
use aiyolo.Gateway.Responses.Stream.Said.{
  said, said-append, said_event, text_deltas, finished_text, reasoning_deltas, HasNoStrayReasoning,
  Collects,
}

-- Events without deltas, and the texts that they finish.
pub record Says (ws : List Written) (text reasoning : String) : Type 0 where
  pub no_text : text_deltas ws ≡ ""
  pub no_reasoning : reasoning_deltas ws ≡ ""
  pub text_done : finished_text ws ≡ text
  pub reasoning_done : Said.finished_reasoning ws ≡ reasoning

Says-append :
    (xs ys : List Written) (a b c d : String)
    → Says xs a b
    → Says ys c d
    → Says (xs ++ ys) (append a c) (append b d)
Says-append xs ys a b c d x y = record {
  no_text = said-append _ _ xs ys ∙ rw (x.no_text, y.no_text) (nil-append "");
  no_reasoning = said-append _ _ xs ys ∙ rw (x.no_reasoning, y.no_reasoning) (nil-append "");
  text_done = said-append _ _ xs ys ∙ ap₂ append x.text_done y.text_done;
  reasoning_done = said-append _ _ xs ys ∙ ap₂ append x.reasoning_done y.reasoning_done;
}

-- Events that say nothing, in front of others or behind them.
Says-behind :
    (xs ys : List Written) (c d : String) → Says xs "" "" → Says ys c d → Says (xs ++ ys) c d
Says-behind xs ys c d x y =
    subst (λ t. Says (xs ++ ys) t d) (nil-append c)
      (subst (λ t. Says (xs ++ ys) (append "" c) t) (nil-append d)
        (Says-append xs ys "" "" c d x y))

Says-before :
    (xs ys : List Written) (a b : String) → Says xs a b → Says ys "" "" → Says (xs ++ ys) a b
Says-before xs ys a b x y =
    subst (λ t. Says (xs ++ ys) t b) (append-nil a)
      (subst (λ t. Says (xs ++ ys) (append a "") t) (append-nil b)
        (Says-append xs ys a b "" "" x y))

nothing : Says [] "" ""
unfolding said
nothing = record { no_text = refl; no_reasoning = refl; text_done = refl; reasoning_done = refl }

module _ (base64 : Base64) (new_id : ℕ → String → String) (metadata : Option Json) where
  reasoning-Says :
      (s : StreamState)
      → HasNoStrayReasoning s
      → Says (finish_reasoning base64 new_id metadata s).1 "" s.reasoning
  unfolding finish_reasoning said get lookup
  reasoning-Says s h =
      if_intro (λ (p : Part). Says p.1 "" s.reasoning) s.reasoning_started
        (λ _. record {
          no_text = unfold write_event in refl;
          no_reasoning = unfold write_event in refl;
          text_done = unfold write_event in refl;
          reasoning_done =
              rw
                (said_event metadata "response.reasoning_summary_text.done" "text"
                  "response.reasoning_summary_text.done" _ _ refl)
                (unfold write_event in append-nil s.reasoning);
        })
        λ e. record {
          no_text = refl;
          no_reasoning = refl;
          text_done = refl;
          reasoning_done = sym (h e);
        }

  reasoning_same : (s : StreamState) → (finish_reasoning base64 new_id metadata s).0 ≡ s
  unfolding finish_reasoning
  reasoning_same s = if_intro (λ (p : Part). p.0 ≡ s) s.reasoning_started (λ _. refl) (λ _. refl)

  content_is_started :
      (s : StreamState)
      → (ensure_response_message_started new_id metadata s).0.content_started ≡ true
  unfolding ensure_response_message_started start_content
  content_is_started s =
      let t = (start_message new_id metadata s).0 in
      if_intro (λ (step : Step). step.0.content_started ≡ true) t.content_started (λ h. h)
        (λ _. refl)

  close-Says :
      (s : StreamState)
      → s.content_started ≡ true
      → Says (close_message base64 new_id metadata s).1 s.content ""
  unfolding close_message close_content said get lookup
  close-Says s h = rw h (record {
    no_text = unfold write_event in refl;
    no_reasoning = unfold write_event in refl;
    text_done =
        rw
          (said_event metadata "response.output_text.done" "text" "response.output_text.done" _ _
            refl)
          (unfold write_event in append-nil s.content);
    reasoning_done = unfold write_event in refl;
  })

  calls-Says :
      (calls : List ToolCallState) (s : StreamState)
      → Says (finish_calls base64 new_id metadata calls s).1 "" ""
  unfolding finish_calls said write_event
  calls-Says [] s = nothing
  calls-Says (call ∷ calls) s =
      let later =
        calls-Says calls
          (record s { next_output_index = s.next_output_index + 1; issued = s.issued + 2 }) in
      record {
        no_text = later.no_text;
        no_reasoning = later.no_reasoning;
        text_done = later.text_done;
        reasoning_done = later.reasoning_done;
      }

  -- A step that says nothing, and keeps the content.
  abbrev IsSilent : StreamState → Step → Type 0
  IsSilent s step = Says step.1 "" "" × (step.0.content ≡ s.content)

  start_message-IsSilent : (s : StreamState) → IsSilent s (start_message new_id metadata s)
  unfolding start_message said write_event
  start_message-IsSilent s =
      if_intro (IsSilent s) s.message_started (λ _. (nothing, refl))
        λ _. (
          record { no_text = refl; no_reasoning = refl; text_done = refl; reasoning_done = refl },
          refl,
        )

  start_content-IsSilent : (s : StreamState) → IsSilent s (start_content new_id metadata s)
  unfolding start_content said write_event
  start_content-IsSilent s =
      if_intro (IsSilent s) s.content_started (λ _. (nothing, refl))
        λ _. (
          record { no_text = refl; no_reasoning = refl; text_done = refl; reasoning_done = refl },
          refl,
        )

  started-IsSilent :
      (s : StreamState) → IsSilent s (ensure_response_message_started new_id metadata s)
  unfolding ensure_response_message_started
  started-IsSilent s =
      let message = start_message-IsSilent s in
      let content = start_content-IsSilent (start_message new_id metadata s).0 in
      (Says-behind _ _ "" "" message.0 content.0, content.1 ∙ message.1)

  message-Says : (s : StreamState) → Says (finish_message base64 new_id metadata s).1 s.content ""
  unfolding finish_message
  message-Says s =
      let started = ensure_response_message_started new_id metadata s in
      let closed : Says (close_message base64 new_id metadata started.0).1 s.content "" =
        subst (λ t. Says (close_message base64 new_id metadata started.0).1 t "")
          (started-IsSilent s).1 (close-Says started.0 (content_is_started s)) in
      if_intro (λ (p : Part). Says p.1 s.content "") (s.message_started || not (s.content === ""))
        (λ _. Says-behind started.1 _ s.content "" (started-IsSilent s).0 closed)
        λ e. subst (λ t. Says [] t "") (sym ((eq_iff s.content "").0 (ground (arith, e)))) nothing

  last_events :
      (now : ℤ) (s : StreamState) (output : List Json)
      → Says (completed_event base64 new_id metadata now s output ∷ done_marker ∷ []) "" ""
  unfolding completed_event said write_event
  last_events now s output = record {
    no_text = refl;
    no_reasoning = refl;
    text_done = refl;
    reasoning_done = refl;
  }

  -- The reasoning and the message together.
  both-Says :
      (s : StreamState)
      → HasNoStrayReasoning s
      → Says
          ((finish_reasoning base64 new_id metadata s).1
            ++ (finish_message base64 new_id metadata
                (finish_reasoning base64 new_id metadata s).0).1)
          s.content
          s.reasoning
  both-Says s h =
      let reasoned = finish_reasoning base64 new_id metadata s in
      let messaged = finish_message base64 new_id metadata reasoned.0 in
      let same : Says messaged.1 s.content "" =
        subst (λ t. Says messaged.1 t "") (ap (λ (t : StreamState). t.content) (reasoning_same s))
          (message-Says reasoned.0) in
      subst (λ t. Says (reasoned.1 ++ messaged.1) t s.reasoning) (nil-append s.content)
        (subst (λ t. Says (reasoned.1 ++ messaged.1) (append "" s.content) t)
          (append-nil s.reasoning)
          (Says-append reasoned.1 messaged.1 "" s.reasoning s.content "" (reasoning-Says s h) same))

  -- The end of a stream finishes the texts that the state has.
  pub finish-Says :
      (now : ℤ) (s : StreamState)
      → HasNoStrayReasoning s
      → Says (finish_responses_stream base64 new_id metadata now s).1 s.content s.reasoning
  unfolding finish_responses_stream finish_items
  finish-Says now s h =
      Says-before _ _ s.content s.reasoning
        (Says-before _ _ s.content s.reasoning (both-Says s h) (calls-Says _ _))
        (last_events now _ _)
