-- ===== src/Gateway/Responses/ToolCalls/Shown.antt =====
-- `normalizeChatToolCallMessages` loses nothing that is shown of a conversation.
use aiyolo.Base.{
  ℕ, zero, suc, ◌≤◌, ◌≡◌, refl, sym, ap, ◌∙◌, String, Bool, true, false, not, ◌&&◌, ◌||◌, ◌===◌,
  List, [], ◌∷◌, ◌++◌, map, is_empty, length, All, inl, inr, Bool-cases, arith, if◌then◌else◌,
  if_intro,
}
use mathlib.Core.List.{append-nil}
use mathlib.Core.Path.{ap₂}
use aiyolo.Text.{trim_space}
use aiyolo.Dict.{insert, erase, string_key}
use aiyolo.Json.{Json, Map, get, is_null, string, list, dict}
use aiyolo.Json.Texts.{chat_message_content_text, chat_message_reasoning_text}
use aiyolo.Json.Laws.{get-insert, get-erase}
use aiyolo.Gateway.Responses.ToolCalls.{
  chat_message_role, has_role, calls_of, chat_message_has_visible_content, keep_without_tool_calls,
  joins, after_merged, after_tools, matched_calls, close_group, group_calls, group_answers,
  known_ids, normalize_in, normalize_chat_tool_call_messages,
}
use aiyolo.Gateway.Responses.ToolCalls.Sound.{
  assistant_no_tool, role-insert, role-erase, answers_tools,
}

-- A message that is shown: no answer of a tool, and with a text where it is an assistant's.
abbrev pub is_shown : Map → Bool
is_shown m =
    not (has_role "tool" m) && (not (has_role "assistant" m) || chat_message_has_visible_content m)

-- The roles and the contents of the messages that are shown.
pub shown : List Map → List (String × Json)
shown [] = []
shown (m ∷ ms) = if is_shown m then (chat_message_role m, get "content" m) ∷ shown ms else shown ms

shown-append : (xs ys : List Map) → shown (xs ++ ys) ≡ shown xs ++ shown ys
unfolding shown
shown-append [] ys = refl
shown-append (x ∷ xs) ys = ground (arith, shown-append xs ys)

shown_tools : (ts : List Map) → All (λ t. has_role "tool" t ≡ true) ts → shown ts ≡ []
unfolding shown
shown_tools [] h = refl
shown_tools (t ∷ ts) h = rw h.0 (shown_tools ts h.1)

-- A message that shows the same as another.
shown_like :
    (m m' : Map)
    → chat_message_role m' ≡ chat_message_role m
    → get "content" m' ≡ get "content" m
    → shown (m' ∷ []) ≡ shown (m ∷ [])
unfolding shown chat_message_has_visible_content
shown_like m m' e c = rw (e, c) refl

-- An assistant message without a text is not shown.
shown_blank :
    (m : Map)
    → has_role "assistant" m ≡ true
    → chat_message_has_visible_content m ≡ false
    → shown (m ∷ []) ≡ []
unfolding shown
shown_blank m h v = rw (h, v, assistant_no_tool m h) refl

visible_like :
    (m m' : Map)
    → get "content" m' ≡ get "content" m
    → chat_message_has_visible_content m' ≡ chat_message_has_visible_content m
unfolding chat_message_has_visible_content
visible_like m m' c = rw c refl

blank_content :
    (m : Map) → chat_message_has_visible_content (insert "content" (string "") m) ≡ false
unfolding chat_message_has_visible_content chat_message_content_text trim_space
blank_content m = rw (get-insert "content" "content" (string "") m) refl

shown-keep :
    (m : Map) → has_role "assistant" m ≡ true → shown (keep_without_tool_calls m) ≡ shown (m ∷ [])
unfolding keep_without_tool_calls
shown-keep m h = elim (Bool-cases (chat_message_has_visible_content m)) [
  | inl v ↦ rw v refl
  | inr v ↦
      rw (shown_blank m h v, v)
        (if_intro (λ l. shown l ≡ []) (chat_message_reasoning_text m === "")
          (λ _. unfold shown in refl)
          λ _.
            if_intro (λ l. shown l ≡ []) (is_null (get "content" m))
              (λ _.
                shown_blank (insert "content" (string "") m)
                  (rw (role-insert "content" (string "") m (cc)) h) (blank_content m))
              (λ _. shown_blank m h v))
]

shown-close_group :
    (m : Map) (calls ts : List Map)
    → has_role "assistant" m ≡ true
    → All (λ t. has_role "tool" t ≡ true) ts
    → shown (close_group m calls ts) ≡ shown (m ∷ [])
unfolding close_group
shown-close_group m calls ts h t = elim (Bool-cases (is_empty (matched_calls calls ts))) [
  | inl e ↦ rw e (
      shown-keep (erase "tool_calls" m) (rw (role-erase "tool_calls" m (cc)) h)
      ∙ shown_like m (erase "tool_calls" m) (role-erase "tool_calls" m (cc))
          (get-erase "tool_calls" "content" m))
  | inr e ↦ rw e (
      let calls_set = insert "tool_calls" (list (map dict (matched_calls calls ts))) m in
      shown-append (calls_set ∷ []) ts
      ∙ ap (λ l. shown (calls_set ∷ []) ++ l) (shown_tools ts t)
      ∙ append-nil (shown (calls_set ∷ []))
      ∙ shown_like m calls_set
          (role-insert "tool_calls" (list (map dict (matched_calls calls ts))) m (cc))
          (get-insert "tool_calls" "content" (list (map dict (matched_calls calls ts))) m))
]

-- Merged messages and answers are not shown.
shown-after_merged : (ms : List Map) → shown (after_merged ms) ≡ shown ms
unfolding after_merged joins shown
shown-after_merged [] = refl
shown-after_merged (m ∷ ms) = ground (arith, shown-after_merged ms)

shown-after_tools : (ms : List Map) → shown (after_tools ms) ≡ shown ms
unfolding after_tools shown
shown-after_tools [] = refl
shown-after_tools (m ∷ ms) = ground (arith, shown-after_tools ms)

length-after_merged : (ms : List Map) → length (after_merged ms) ≤ length ms
unfolding after_merged
length-after_merged [] = omega arith
length-after_merged (m ∷ ms) = ground (arith, length-after_merged ms)

length-after_tools : (ms : List Map) → length (after_tools ms) ≤ length ms
unfolding after_tools
length-after_tools [] = omega arith
length-after_tools (m ∷ ms) = ground (arith, length-after_tools ms)

shown_cons : (m : Map) (ms : List Map) → shown (m ∷ ms) ≡ shown (m ∷ []) ++ shown ms
shown_cons m ms = shown-append (m ∷ []) ms

-- A group shows what its messages show.
shown_group :
    (m : Map) (ms rest : List Map)
    → has_role "assistant" m ≡ true
    → shown rest ≡ shown ms
    → shown (close_group m (group_calls m ms) (group_answers m ms) ++ rest) ≡ shown (m ∷ ms)
shown_group m ms rest h e =
    let tools = group_answers m ms in
    let are_tools : All (λ t. has_role "tool" t ≡ true) tools =
      unfold group_answers in answers_tools (known_ids (group_calls m ms)) [] (after_merged ms) in
    shown-append (close_group m (group_calls m ms) tools) rest
    ∙ ap₂ (λ a b. a ++ b) (shown-close_group m (group_calls m ms) tools h are_tools) e
    ∙ sym (shown_cons m ms)

shown_behind : (m : Map) (xs ys : List Map) → shown xs ≡ shown ys → shown (m ∷ xs) ≡ shown (m ∷ ys)
unfolding shown
shown_behind m xs ys e = rw e refl

shown_tool : (m : Map) (ms : List Map) → has_role "tool" m ≡ true → shown (m ∷ ms) ≡ shown ms
unfolding shown
shown_tool m ms h = rw h refl

shown-normalize_in :
    (fuel : ℕ) (ms : List Map) → length ms ≤ fuel → shown (normalize_in fuel ms) ≡ shown ms
unfolding normalize_in
shown-normalize_in zero [] l = refl
shown-normalize_in zero (m ∷ ms) l = absurd (omega arith)
shown-normalize_in (suc fuel) [] l = refl
shown-normalize_in (suc fuel) (m ∷ ms) l =
    let rest = shown-normalize_in fuel ms (omega arith) in
    let shows = λ (out : List Map). shown out ≡ shown (m ∷ ms) in
    if_intro shows (not (has_role "assistant" m))
      (λ a.
        if_intro shows (not (has_role "tool" m)) (λ _. shown_behind m _ ms rest)
          (λ t. rest ∙ sym (shown_tool m ms (ground arith))))
      λ a.
        if_intro shows (is_empty (calls_of m)) (λ _. shown_behind m _ ms rest)
          λ _. shown_group m ms _ (ground arith) (
            shown-normalize_in fuel (after_tools (after_merged ms))
              (omega (arith, length-after_tools (after_merged ms), length-after_merged ms))
            ∙ shown-after_tools (after_merged ms)
            ∙ shown-after_merged ms)

-- The messages that are shown, all but tool messages and assistant messages without a text, have the
-- same roles and contents, in the same order, after the normalization as before.
pub shown-normalize : (ms : List Map) → shown (normalize_chat_tool_call_messages ms) ≡ shown ms
unfolding normalize_chat_tool_call_messages
shown-normalize ms = shown-normalize_in (length ms) ms (omega arith)
