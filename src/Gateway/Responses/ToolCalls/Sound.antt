-- ===== src/Gateway/Responses/ToolCalls/Sound.antt =====
-- The messages that `normalizeChatToolCallMessages` returns are paired.
use aiyolo.Base.{
  ℕ, zero, suc, ◌≡◌, ◌≢◌, refl, ◌∙◌, String, true, false, not, ◌===◌, List, [], ◌∷◌, ◌++◌, map,
  filter, is_empty, All, All-filter-true, inl, inr, Bool-cases, eq_iff, arith, if_intro,
}
use aiyolo.Dict.{insert, erase, string_key}
use aiyolo.Dict.Laws.{lookup-insert_self}
use aiyolo.Domain.Protocols.Distinct.{member, Distinct}
use aiyolo.Json.{is_null, Json, Map, get, string, list, dict}
use aiyolo.Json.Texts.{chat_message_reasoning_text, trimmed, chat_tool_calls}
use aiyolo.Json.Laws.{chat_tool_calls-list, get-insert, get-erase}
use aiyolo.Gateway.Responses.ToolCalls.{
  chat_message_role, has_role, calls_of, call_id, answered_id, keep_without_tool_calls,
  after_merged, answers, after_tools, chat_message_has_visible_content, known_ids, matched_calls,
  close_group, group_calls, group_answers, normalize_in,
}
use aiyolo.Gateway.Responses.ToolCalls.Paired.{
  Answered, IsPlain, HasCalls, Paired, done, plain, group,
}

-- Setting or deleting another key keeps the role and the calls.
pub role-insert :
    (k : String) (v : Json) (m : Map)
    → k ≢ "role"
    → chat_message_role (insert k v m) ≡ chat_message_role m
unfolding chat_message_role trimmed
role-insert k v m h = rw (get-insert k "role" v m) (ground (arith, eq_iff k "role"))

pub role-erase :
    (k : String) (m : Map) → k ≢ "role" → chat_message_role (erase k m) ≡ chat_message_role m
unfolding chat_message_role trimmed
role-erase k m h = rw (get-erase k "role" m) (ground (arith, eq_iff k "role"))

calls_of-insert :
    (k : String) (v : Json) (m : Map) → k ≢ "tool_calls" → calls_of (insert k v m) ≡ calls_of m
unfolding calls_of
calls_of-insert k v m h = rw (get-insert k "tool_calls" v m) (ground (arith, eq_iff k "tool_calls"))

calls_of-erase : (m : Map) → calls_of (erase "tool_calls" m) ≡ []
unfolding calls_of chat_tool_calls
calls_of-erase m = rw (get-erase "tool_calls" "tool_calls" m) refl

-- Setting the calls.
pub calls_of-insert_calls :
    (calls : List Map) (m : Map) → calls_of (insert "tool_calls" (list (map dict calls)) m) ≡ calls
unfolding calls_of
calls_of-insert_calls calls m =
    rw (get-insert "tool_calls" "tool_calls" (list (map dict calls)) m) (chat_tool_calls-list calls)

-- The answers that are kept are tool messages, and answer a known call.
pub answers_tools :
    (known matched : List String) (ms : List Map)
    → All (λ t. has_role "tool" t ≡ true) (answers known matched ms)
unfolding answers
answers_tools known matched [] = tt
answers_tools known matched (m ∷ ms) =
    ground (arith, answers_tools known (answered_id m ∷ matched) ms, answers_tools known matched ms)

answers_known :
    (known matched : List String) (ms : List Map)
    → All (λ t. member (answered_id t) known ≡ true) (answers known matched ms)
unfolding answers
answers_known known matched [] = tt
answers_known known matched (m ∷ ms) =
    ground (arith, answers_known known (answered_id m ∷ matched) ms, answers_known known matched ms)

-- No kept answer is to a call that is matched already.
answers_new :
    (s : String) (known matched : List String) (ms : List Map)
    → member s matched ≡ true
    → member s (map answered_id (answers known matched ms)) ≡ false
unfolding answers
answers_new s known matched [] h = refl
answers_new s known matched (m ∷ ms) h = ground (
  arith,
  eq_iff (answered_id m) s,
  answers_new s known (answered_id m ∷ matched) ms,
  answers_new s known matched ms h,
)

answers-Distinct :
    (known matched : List String) (ms : List Map)
    → Distinct (map answered_id (answers known matched ms))
unfolding answers
answers-Distinct known matched [] = tt
answers-Distinct known matched (m ∷ ms) = ground (
  arith,
  eq_iff (answered_id m) (answered_id m),
  answers_new (answered_id m) known (answered_id m ∷ matched) ms,
  answers-Distinct known (answered_id m ∷ matched) ms,
  answers-Distinct known matched ms,
)

-- An identifier that is known, and that is answered, is the one of a matched call.
known_of_matched :
    (s : String) (ids : List String) (calls : List Map)
    → member s (known_ids calls) ≡ true
    → member s ids ≡ true
    → member s (known_ids (filter (λ call. member (call_id call) ids) calls)) ≡ true
unfolding known_ids filter
known_of_matched s ids [] h k = h
known_of_matched s ids (c ∷ cs) h k =
    ground (arith, eq_iff (call_id c) s, eq_iff (call_id c) "", known_of_matched s ids cs)

module _ (f : Map → String) where
  -- Each element's form is a member of any list that has all the forms.
  members_of :
      (ids : List String) (xs : List Map)
      → ((s : String) → member s (map f xs) ≡ true → member s ids ≡ true)
      → All (λ t. member (f t) ids ≡ true) xs
  members_of ids [] sub = tt
  members_of ids (x ∷ xs) sub = (
    sub (f x) (ground (arith, eq_iff (f x) (f x))),
    members_of ids xs (λ s h. sub s (ground (arith, h))),
  )

-- A fact about the elements that two facts about them give.
All-both :
    {P Q R : Map → Type 0} (xs : List Map)
    → ((x : Map) → P x → Q x → R x)
    → All P xs
    → All Q xs
    → All R xs
All-both [] both p q = tt
All-both (x ∷ xs) both p q = (both x p.0 q.0, All-both xs both p.1 q.1)

-- The answers of a group are answers to the calls of the group that are matched.
group-Answered :
    (known : List Map) (ms : List Map)
    → Answered
        (matched_calls known (answers (known_ids known) [] ms))
        (answers (known_ids known) [] ms)
unfolding matched_calls
group-Answered known ms =
    let tools = answers (known_ids known) [] ms in
    let ids = map answered_id tools in
    record {
      are_tools = answers_tools (known_ids known) [] ms;
      known =
          All-both tools (λ t p q. known_of_matched (answered_id t) ids known p q)
            (answers_known (known_ids known) [] ms) (members_of answered_id ids tools (λ s h. h));
      distinct = answers-Distinct (known_ids known) [] ms;
      complete = All-filter-true (λ call. member (call_id call) ids) known;
    }

-- An assistant message is no answer, and plain where it has no calls.
pub assistant_no_tool : (m : Map) → has_role "assistant" m ≡ true → has_role "tool" m ≡ false
assistant_no_tool m h = rw ((eq_iff (chat_message_role m) "assistant").0 h) refl

IsPlain-of : {m : Map} → has_role "assistant" m ≡ true → calls_of m ≡ [] → IsPlain m
IsPlain-of {m} h e = record { no_tool = assistant_no_tool m h; no_calls = λ _. rw e refl }

role_kept :
    (m m' : Map)
    → chat_message_role m' ≡ chat_message_role m
    → has_role "assistant" m ≡ true
    → has_role "assistant" m' ≡ true
role_kept m m' e h = rw e h

-- An assistant message that loses its calls is plain, and stays plain with an empty content.
keep-Paired :
    (m : Map) (rest : List Map)
    → has_role "assistant" m ≡ true
    → calls_of m ≡ []
    → Paired rest
    → Paired (keep_without_tool_calls m ++ rest)
unfolding keep_without_tool_calls
keep-Paired m rest h e p =
    let kept : Paired (m ∷ rest) = plain (IsPlain-of h e) p in
    let emptied : Paired (insert "content" (string "") m ∷ rest) =
      plain
        (IsPlain-of (role_kept m _ (role-insert "content" (string "") m (cc)) h)
          (calls_of-insert "content" (string "") m (cc) ∙ e))
        p in
    elim (Bool-cases (chat_message_has_visible_content m)) [
      | inl v ↦ rw v kept
      | inr v ↦ elim (Bool-cases (chat_message_reasoning_text m === "")) [
        | inl r ↦ rw (v, r) p
        | inr r ↦ elim (Bool-cases (is_null (get "content" m))) [
          | inl c ↦ rw (v, r, c) emptied
          | inr c ↦ rw (v, r, c) kept
        ]
      ]
    ]

-- A message whose calls are replaced by some calls has those.
with_calls-HasCalls :
    (m : Map) (calls : List Map)
    → has_role "assistant" m ≡ true
    → is_empty calls ≡ false
    → HasCalls (insert "tool_calls" (list (map dict calls)) m)
with_calls-HasCalls m calls h e = record {
  is_assistant = role_kept m _ (role-insert "tool_calls" (list (map dict calls)) m (cc)) h;
  some_calls = rw (calls_of-insert_calls calls m) e;
  objects =
      rw (calls_of-insert_calls calls m)
        (lookup-insert_self "tool_calls" (list (map dict calls)) m);
}

-- A closed group is paired with paired messages behind it.
close_group-Paired :
    (m : Map) (ms rest : List Map)
    → has_role "assistant" m ≡ true
    → Paired rest
    → Paired (close_group m (group_calls m ms) (group_answers m ms) ++ rest)
unfolding close_group
close_group-Paired m ms rest h p =
    let calls = group_calls m ms in
    let tools = group_answers m ms in
    let matched = matched_calls calls tools in
    let answered : Answered matched tools =
      unfold group_answers in group-Answered calls (after_merged ms) in
    elim (Bool-cases (is_empty matched)) [
      | inl e ↦ rw e (
          keep-Paired (erase "tool_calls" m) rest (role_kept m _ (role-erase "tool_calls" m (cc)) h)
            (calls_of-erase m) p)
      | inr e ↦ rw e (
          group (with_calls-HasCalls m matched h e) (rw (calls_of-insert_calls matched m) answered)
            p refl)
    ]

-- Every list of messages is made a paired one.
pub normalize_in-Paired : (fuel : ℕ) (ms : List Map) → Paired (normalize_in fuel ms)
unfolding normalize_in
normalize_in-Paired zero ms = done
normalize_in-Paired (suc fuel) [] = done
normalize_in-Paired (suc fuel) (m ∷ ms) =
    let rest = normalize_in-Paired fuel ms in
    if_intro Paired (not (has_role "assistant" m))
      (λ a.
        if_intro Paired (not (has_role "tool" m))
          (λ t. plain (record { no_tool = ground arith; no_calls = λ h. ground arith }) rest)
          (λ _. rest))
      λ a.
        let h : has_role "assistant" m ≡ true = ground arith in
        if_intro Paired (is_empty (calls_of m))
          (λ e. plain (record { no_tool = assistant_no_tool m h; no_calls = λ _. e }) rest)
          λ _.
            close_group-Paired m ms _ h (normalize_in-Paired fuel (after_tools (after_merged ms)))
