-- ===== src/Gateway/Responses/ToolCalls/Fixed.antt =====
-- `normalizeChatToolCallMessages` keeps paired messages as they are, so it is idempotent.
use aiyolo.Base.{
  ℕ, zero, suc, ◌≤◌, ◌≡◌, refl, sym, subst, inl, inr, Bool-cases, ap, String, Bool, true, false,
  List, [], ◌∷◌, ◌++◌, map, filter, is_empty, length, All, eq_iff, arith,
}
use mathlib.Core.List.{append-nil}
use aiyolo.Dict.{string_key}
use aiyolo.Domain.Protocols.Distinct.{member, Distinct}
use aiyolo.Json.{Map, list, dict}
use aiyolo.Json.Laws.{insert_same}
use aiyolo.Gateway.Responses.ToolCalls.{
  chat_message_role, has_role, calls_of, call_id, answered_id, joins, merged_calls, after_merged,
  answers, after_tools, known_ids, matched_calls, close_group, group_calls, group_answers,
  normalize_in, normalize_chat_tool_call_messages,
}
use aiyolo.Gateway.Responses.ToolCalls.Paired.{Answered, IsPlain, HasCalls, Paired, plain, group}
use aiyolo.Gateway.Responses.ToolCalls.Sound.{assistant_no_tool, normalize_in-Paired}

tool_no_assistant : (m : Map) → has_role "tool" m ≡ true → has_role "assistant" m ≡ false
tool_no_assistant m h = rw ((eq_iff (chat_message_role m) "tool").0 h) refl

abbrev StartsWithoutTool : List Map → Type 0
StartsWithoutTool [] = Unit
StartsWithoutTool (m ∷ ms) = has_role "tool" m ≡ false

Paired-StartsWithoutTool : (ms : List Map) → Paired ms → StartsWithoutTool ms
Paired-StartsWithoutTool [] p = tt
Paired-StartsWithoutTool (m ∷ ms) (plain i p) = i.no_tool
Paired-StartsWithoutTool (m ∷ ms) (group {m = n} {tools} {ms = rest} h a p e) =
    subst StartsWithoutTool (sym e) (assistant_no_tool n h.is_assistant)

filter-All : {A : Type 0} (p : A → Bool) (xs : List A) → All (λ x. p x ≡ true) xs → filter p xs ≡ xs
unfolding filter
filter-All p [] h = refl
filter-All p (x ∷ xs) h = rw h.0 (ap (λ l. x ∷ l) (filter-All p xs h.1))

-- Texts that are none of a list, and not a further text that none of them is, are none of both.
none_of_more :
    (s : String) (matched : List String) (ts : List Map)
    → member s (map answered_id ts) ≡ false
    → All (λ t. member (answered_id t) matched ≡ false) ts
    → All (λ t. member (answered_id t) (s ∷ matched) ≡ false) ts
none_of_more s matched [] h k = tt
none_of_more s matched (t ∷ ts) h k = (
  ground (arith, eq_iff s (answered_id t), eq_iff (answered_id t) s),
  none_of_more s matched ts (ground arith) k.1,
)

-- Distinct answers to known calls are all kept.
answers-All :
    (known matched : List String) (ts ms : List Map)
    → All (λ t. has_role "tool" t ≡ true) ts
    → All (λ t. member (answered_id t) known ≡ true) ts
    → Distinct (map answered_id ts)
    → All (λ t. member (answered_id t) matched ≡ false) ts
    → StartsWithoutTool ms
    → answers known matched (ts ++ ms) ≡ ts
unfolding answers
answers-All known matched [] [] t k d n s = refl
answers-All known matched [] (m ∷ ms) t k d n s = rw s refl
answers-All known matched (x ∷ ts) ms t k d n s =
    rw (t.0, k.0, n.0)
      (ap (λ (l : List Map). x ∷ l)
        (answers-All known (answered_id x ∷ matched) ts ms t.1 k.1 d.1
          (none_of_more (answered_id x) matched ts d.0 n.1) s))

none_of_nothing : (ts : List Map) → All (λ t. member (answered_id t) [] ≡ false) ts
none_of_nothing [] = tt
none_of_nothing (t ∷ ts) = (refl, none_of_nothing ts)

after_tools-All :
    (ts ms : List Map)
    → All (λ t. has_role "tool" t ≡ true) ts
    → StartsWithoutTool ms
    → after_tools (ts ++ ms) ≡ ms
unfolding after_tools
after_tools-All [] [] t s = refl
after_tools-All [] (m ∷ ms) t s = rw s refl
after_tools-All (x ∷ ts) ms t s = rw t.0 (after_tools-All ts ms t.1 s)

-- Nothing is merged over an answer.
merged_none :
    (m : Map) (ms : List Map)
    → has_role "tool" m ≡ true
    → (merged_calls (m ∷ ms) ≡ []) × (after_merged (m ∷ ms) ≡ m ∷ ms)
unfolding merged_calls after_merged joins
merged_none m ms h = (rw (tool_no_assistant m h) refl, rw (tool_no_assistant m h) refl)

-- A call that has an answer is not alone.
some_answer :
    (calls ts : List Map)
    → is_empty calls ≡ false
    → All (λ c. member (call_id c) (map answered_id ts) ≡ true) calls
    → is_empty ts ≡ false
some_answer [] ts e h = cc
some_answer (c ∷ cs) [] e h = cc h.0
some_answer (c ∷ cs) (t ∷ ts) e h = refl

-- A group that has its answers is closed as it is.
close_group_same :
    (m : Map) (ts : List Map)
    → HasCalls m
    → Answered (calls_of m) ts
    → close_group m (calls_of m) ts ≡ m ∷ ts
unfolding close_group matched_calls
close_group_same m ts h a =
    rw (filter-All (λ call. member (call_id call) (map answered_id ts)) (calls_of m) a.complete) (
      rw h.some_calls (
        ap (λ (x : Map). x ∷ ts)
          (insert_same "tool_calls" (list (map dict (calls_of m))) m h.objects)))

group_calls_same :
    (m : Map) (ts ms : List Map)
    → is_empty ts ≡ false
    → All (λ t. has_role "tool" t ≡ true) ts
    → (group_calls m (ts ++ ms) ≡ calls_of m) × (after_merged (ts ++ ms) ≡ ts ++ ms)
unfolding group_calls
group_calls_same m [] ms e h = cc
group_calls_same m (t ∷ ts) ms e h =
    let none = merged_none t (ts ++ ms) h.0 in (rw none.0 (append-nil (calls_of m)), none.1)

length_behind : (ts ms : List Map) → length ms ≤ length (ts ++ ms)
length_behind [] ms = omega arith
length_behind (t ∷ ts) ms = omega (arith, length_behind ts ms)

-- A group at the front, with its answers, is kept.
normalize_in_group :
    (fuel : ℕ) (m : Map) (ts ms : List Map)
    → HasCalls m
    → Answered (calls_of m) ts
    → StartsWithoutTool ms
    → normalize_in fuel ms ≡ ms
    → normalize_in (suc fuel) (m ∷ (ts ++ ms)) ≡ m ∷ (ts ++ ms)
unfolding normalize_in group_answers
normalize_in_group fuel m ts ms h a s ih =
    let some = some_answer (calls_of m) ts h.some_calls a.complete in
    let same = group_calls_same m ts ms some a.are_tools in
    let kept =
      answers-All (known_ids (calls_of m)) [] ts ms a.are_tools a.known a.distinct
        (none_of_nothing ts) s in
    rw
      (
        h.is_assistant,
        h.some_calls,
        same.0,
        same.1,
        kept,
        close_group_same m ts h a,
        after_tools-All ts ms a.are_tools s,
        ih,
      )
      refl

normalize_in_plain :
    (fuel : ℕ) (m : Map) (ms : List Map)
    → IsPlain m
    → normalize_in fuel ms ≡ ms
    → normalize_in (suc fuel) (m ∷ ms) ≡ m ∷ ms
unfolding normalize_in
normalize_in_plain fuel m ms i ih = elim (Bool-cases (has_role "assistant" m)) [
  | inl a ↦ rw (a, i.no_calls a, ih) refl
  | inr a ↦ rw (a, i.no_tool, ih) refl
]

normalize_in_same :
    (fuel : ℕ) (ms : List Map) → length ms ≤ fuel → Paired ms → normalize_in fuel ms ≡ ms
normalize_in_same zero [] l p = unfold normalize_in in refl
normalize_in_same zero (m ∷ ms) l p = absurd (omega arith)
normalize_in_same (suc fuel) [] l p = unfold normalize_in in refl
normalize_in_same (suc fuel) (m ∷ ms) l (plain i p) =
    normalize_in_plain fuel m ms i (normalize_in_same fuel ms (omega arith) p)
normalize_in_same (suc fuel) (m ∷ ms) l (group {m = n} {tools} {ms = rest} h a p e) =
    let bound : length rest ≤ fuel =
      omega (arith, ap (λ (x : List Map). length x) e, length_behind tools rest) in
    rw e (
      normalize_in_group fuel n tools rest h a (Paired-StartsWithoutTool rest p)
        (normalize_in_same fuel rest bound p))

-- Messages that are paired already are kept as they are.
pub normalize_same : (ms : List Map) → Paired ms → normalize_chat_tool_call_messages ms ≡ ms
unfolding normalize_chat_tool_call_messages
normalize_same ms p = normalize_in_same (length ms) ms (omega arith) p

-- Whatever the messages are, the normalized ones are paired: every assistant message with tool calls is
-- followed by distinct answers to exactly its calls, and there are no other tool messages; and
-- normalizing them again changes nothing.
pub normalize-Paired :
    (ms : List Map)
    → Paired (normalize_chat_tool_call_messages ms)
      × (normalize_chat_tool_call_messages (normalize_chat_tool_call_messages ms)
          ≡ normalize_chat_tool_call_messages ms)
normalize-Paired ms =
    let p : Paired (normalize_chat_tool_call_messages ms) =
      unfold normalize_chat_tool_call_messages in normalize_in-Paired (length ms) ms in
    (p, normalize_same (normalize_chat_tool_call_messages ms) p)
