-- ===== src/Gateway/Responses/Stream/Collected.antt =====
-- Every step of the conversion collects exactly the deltas that it writes.
use text.Mathlib.TextLemmas.{append-nil}
use aiyolo.Base.{ℕ, ◌≡◌, refl, sym, ◌∙◌, String, true, ◌===◌, List, [], ◌∷◌, Option, if_intro}
use aiyolo.Dict.{lookup, string_key}
use aiyolo.Json.{Json, Map, object, null, bool, number, string, array, get, entries, map_of}
use aiyolo.Json.Texts.{any_slice, chat_message_content_text}
use aiyolo.Gateway.Responses.Stream.{
  StreamState, Step, ◌>>=◌, write_event, ensure_reasoning_started, ensure_response_message_started,
  start_message, start_content, write_reasoning, write_content, consume_reasoning, consume_content,
  consume_calls, reasoning_of, consume_delta, consume_choices,
}
use aiyolo.Gateway.Responses.Stream.Said.{
  said, said_event, Collects, quiet, skip-Collects, then-Collects,
}

module _ (new_id : ℕ → String → String) (metadata : Option Json) where
  ensure_reasoning-Collects :
      (s : StreamState) → Collects s (ensure_reasoning_started new_id metadata s)
  unfolding ensure_reasoning_started said write_event
  ensure_reasoning-Collects s =
      if_intro (Collects s) s.reasoning_started (λ _. skip-Collects s)
        λ _. quiet s _ refl refl refl refl refl refl (λ h k. cc k)

  start_message-Collects : (s : StreamState) → Collects s (start_message new_id metadata s)
  unfolding start_message said write_event
  start_message-Collects s =
      if_intro (Collects s) s.message_started (λ _. skip-Collects s)
        λ _. quiet s _ refl refl refl refl refl refl (λ h. h)

  start_content-Collects : (s : StreamState) → Collects s (start_content new_id metadata s)
  unfolding start_content said write_event
  start_content-Collects s =
      if_intro (Collects s) s.content_started (λ _. skip-Collects s)
        λ _. quiet s _ refl refl refl refl refl refl (λ h. h)

  pub ensure_message-Collects :
      (s : StreamState) → Collects s (ensure_response_message_started new_id metadata s)
  unfolding ensure_response_message_started
  ensure_message-Collects s =
      then-Collects s (start_message new_id metadata s) (start_content new_id metadata)
        (start_message-Collects s) (start_content-Collects _)

  write_content-Collects :
      (text : String) (s : StreamState) → Collects s (write_content new_id metadata text s)
  unfolding write_content said get lookup
  write_content-Collects text s = record {
    content =
        rw
          (said_event metadata "response.output_text.delta" "delta" "response.output_text.delta" _
            [] refl)
          refl;
    reasoning = unfold write_event in sym (append-nil s.reasoning);
    no_text = unfold write_event in refl;
    no_reasoning = unfold write_event in refl;
    kept = λ h. h;
  }

  consume_content-Collects :
      (text : String) (s : StreamState) → Collects s (consume_content new_id metadata text s)
  unfolding consume_content
  consume_content-Collects text s =
      if_intro (Collects s) (text === "") (λ _. skip-Collects s)
        λ _.
          then-Collects s (ensure_response_message_started new_id metadata s)
            (write_content new_id metadata text) (ensure_message-Collects s)
            (write_content-Collects text _)

  reasoning_is_started :
      (s : StreamState) → (ensure_reasoning_started new_id metadata s).0.reasoning_started ≡ true
  unfolding ensure_reasoning_started
  reasoning_is_started s =
      if_intro (λ (step : Step). step.0.reasoning_started ≡ true) s.reasoning_started (λ h. h)
        (λ _. refl)

  write_reasoning-Collects :
      (text : String) (s : StreamState)
      → s.reasoning_started ≡ true
      → Collects s (write_reasoning new_id metadata text s)
  unfolding write_reasoning said get lookup
  write_reasoning-Collects text s started = record {
    content = unfold write_event in sym (append-nil s.content);
    reasoning =
        rw
          (said_event metadata "response.reasoning_summary_text.delta" "delta"
            "response.reasoning_summary_text.delta" _ [] refl)
          refl;
    no_text = unfold write_event in refl;
    no_reasoning = unfold write_event in refl;
    kept = λ _ h. cc (sym started ∙ h);
  }

  consume_reasoning-Collects :
      (text : String) (s : StreamState) → Collects s (consume_reasoning new_id metadata text s)
  unfolding consume_reasoning
  consume_reasoning-Collects text s =
      if_intro (Collects s) (text === "") (λ _. skip-Collects s)
        λ _.
          then-Collects s (ensure_reasoning_started new_id metadata s)
            (write_reasoning new_id metadata text) (ensure_reasoning-Collects s)
            (write_reasoning-Collects text _ (reasoning_is_started s))

  -- The calls of tools are collected apart.
  abbrev SameTexts : StreamState → StreamState → Type 0
  SameTexts s t =
      (t.content ≡ s.content)
      × (t.reasoning ≡ s.reasoning)
      × (t.reasoning_started ≡ s.reasoning_started)

  calls-SameTexts :
      (vs : List Json) (s : StreamState) → SameTexts s (consume_calls new_id metadata vs s)
  unfolding consume_calls
  calls-SameTexts [] s = (refl, refl, refl)
  calls-SameTexts (object fs ∷ vs) s = calls-SameTexts vs _
  calls-SameTexts (null ∷ vs) s = calls-SameTexts vs s
  calls-SameTexts (bool _ ∷ vs) s = calls-SameTexts vs s
  calls-SameTexts (number _ ∷ vs) s = calls-SameTexts vs s
  calls-SameTexts (string _ ∷ vs) s = calls-SameTexts vs s
  calls-SameTexts (array _ ∷ vs) s = calls-SameTexts vs s

  calls-Collects :
      (vs : List Json) (s : StreamState) → Collects s (consume_calls new_id metadata vs s, [])
  unfolding said
  calls-Collects vs s =
      let same = calls-SameTexts vs s in
      quiet s (consume_calls new_id metadata vs s, []) same.0 same.1 refl refl refl refl
        (λ h k. same.1 ∙ h (sym same.2 ∙ k))

  consume_delta-Collects :
      (delta : Map) (s : StreamState) → Collects s (consume_delta new_id metadata delta s)
  unfolding consume_delta
  consume_delta-Collects delta s =
      let content = chat_message_content_text (get "content" delta) in
      let reasoned = consume_reasoning new_id metadata (reasoning_of new_id metadata delta) s in
      then-Collects s (reasoned >>= consume_content new_id metadata content)
        (λ t. (consume_calls new_id metadata (any_slice (get "tool_calls" delta)) t, []))
        (then-Collects s reasoned (consume_content new_id metadata content)
          (consume_reasoning-Collects (reasoning_of new_id metadata delta) s)
          (consume_content-Collects content reasoned.0))
        (calls-Collects (any_slice (get "tool_calls" delta)) _)

  pub choices-Collects :
      (vs : List Json) (s : StreamState) → Collects s (consume_choices new_id metadata vs s)
  unfolding consume_choices
  choices-Collects [] s = skip-Collects s
  choices-Collects (object fs ∷ vs) s =
      then-Collects s (consume_delta new_id metadata (map_of (get "delta" (entries fs))) s)
        (consume_choices new_id metadata vs)
        (consume_delta-Collects (map_of (get "delta" (entries fs))) s) (choices-Collects vs _)
  choices-Collects (null ∷ vs) s = choices-Collects vs s
  choices-Collects (bool _ ∷ vs) s = choices-Collects vs s
  choices-Collects (number _ ∷ vs) s = choices-Collects vs s
  choices-Collects (string _ ∷ vs) s = choices-Collects vs s
  choices-Collects (array _ ∷ vs) s = choices-Collects vs s
