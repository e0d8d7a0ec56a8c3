-- ===== src/Gateway/Responses/Roles/Settled.antt =====
-- `normalizeResponsesRequestBody` leaves no role behind that it would rewrite.
use aiyolo.Base.{◌≡◌, refl, subst, ap, false, List, [], ◌∷◌, Bool-cases, inl, inr, arith, if_intro}
use aiyolo.Text.{trim_space}
use aiyolo.Json.Texts.{any_slice}
use aiyolo.Dict.{string_key}
use aiyolo.Json.{
  Json, Items, Fields, null, bool, number, string, array, object, nil, cons, Map, entries, get,
  list, decoded,
}
use aiyolo.Json.Laws.{get-insert, entries-fields_of, elements-items_of}
use aiyolo.Gateway.Responses.Roles.{
  role_needs_change, normalize_responses_message_role, messages_need_change, normalized_messages,
  is_no_message, input_needs_change, normalized_input, payload_messages, unchanged, changed,
  with_messages, with_input, payload_needs_change, normalize_responses_request_body,
}

-- A role that is rewritten is not rewritten again.
role_settled : (m : Map) → role_needs_change (normalize_responses_message_role m) ≡ false
unfolding normalize_responses_message_role
role_settled m = elim (Bool-cases (role_needs_change m)) [
  | inl h ↦ rw h (
      unfold role_needs_change trim_space in
      (rw (get-insert "role" "role" (string "system") m) refl))
  | inr h ↦ rw h h
]

messages_settled : (vs : List Json) → messages_need_change (normalized_messages vs) ≡ false
unfolding messages_need_change normalized_messages
messages_settled [] = refl
messages_settled (object fs ∷ vs) =
    rw
      (entries-fields_of (normalize_responses_message_role (entries fs)), role_settled (entries fs))
      (messages_settled vs)
messages_settled (null ∷ vs) = messages_settled vs
messages_settled (bool _ ∷ vs) = messages_settled vs
messages_settled (number _ ∷ vs) = messages_settled vs
messages_settled (string _ ∷ vs) = messages_settled vs
messages_settled (array _ ∷ vs) = messages_settled vs

object_settled : (fs : Fields) → input_needs_change (normalized_input (object fs)) ≡ false
unfolding input_needs_change normalized_input
object_settled fs = elim (Bool-cases (is_no_message (entries fs))) [
  | inl h ↦ rw (h, h) refl
  | inr h ↦
      rw
        (
          h,
          entries-fields_of (normalize_responses_message_role (entries fs)),
          role_settled (entries fs),
        )
        (if_intro (λ b. b ≡ false) _ (λ _. refl) (λ _. refl))
]

mutual
  unfolding input_needs_change normalized_input

  input_settled : (v : Json) → input_needs_change (normalized_input v) ≡ false
  input_settled (array vs) = inputs_settled vs
  input_settled (object fs) = object_settled fs
  input_settled null = refl
  input_settled (bool _) = refl
  input_settled (number _) = refl
  input_settled (string _) = refl

  inputs_settled : (vs : Items) → input_needs_change (normalized_input (array vs)) ≡ false
  inputs_settled nil = refl
  inputs_settled (cons v vs) = rw (input_settled v) (inputs_settled vs)

-- The messages are not touched by the input, nor the input by the messages.
input-with_messages : (p : Map) → get "input" (with_messages p) ≡ get "input" p
unfolding with_messages
input-with_messages p = elim (Bool-cases (messages_need_change (payload_messages p))) [
  | inl h ↦ rw h (get-insert "messages" "input" (list (normalized_messages (payload_messages p))) p)
  | inr h ↦ rw h refl
]

messages-with_input : (p : Map) → get "messages" (with_input p) ≡ get "messages" p
unfolding with_input
messages-with_input p = elim (Bool-cases (input_needs_change (get "input" p))) [
  | inl h ↦ rw h (get-insert "input" "messages" (normalized_input (get "input" p)) p)
  | inr h ↦ rw h refl
]

with_messages_settled :
    (p : Map) → messages_need_change (payload_messages (with_messages p)) ≡ false
unfolding with_messages
with_messages_settled p = elim (Bool-cases (messages_need_change (payload_messages p))) [
  | inl h ↦ rw h (
      let vs = normalized_messages (payload_messages p) in
      unfold payload_messages in
      (rw (get-insert "messages" "messages" (list vs) p, elements-items_of vs)
        (messages_settled (payload_messages p))))
  | inr h ↦ rw h h
]

with_input_settled : (p : Map) → input_needs_change (get "input" (with_input p)) ≡ false
unfolding with_input
with_input_settled p = elim (Bool-cases (input_needs_change (get "input" p))) [
  | inl h ↦ rw h (
      rw (get-insert "input" "input" (normalized_input (get "input" p)) p)
        (input_settled (get "input" p)))
  | inr h ↦ rw h h
]

payload_settled : (p : Map) → payload_needs_change (with_input (with_messages p)) ≡ false
unfolding payload_needs_change
payload_settled p =
    let same : payload_messages (with_input (with_messages p))
        ≡ payload_messages (with_messages p) =
      unfold payload_messages in ap any_slice (messages-with_input (with_messages p)) in
    rw (same, with_messages_settled p) (with_input_settled (with_messages p))

-- A body that is changed is not changed again: no message of the forwarded body, neither among its
-- messages nor in its input at any depth, has a role that is rewritten.
pub normalize_responses_request_body_settled :
    (payload forwarded : Map)
    → normalize_responses_request_body (decoded payload) ≡ changed forwarded
    → normalize_responses_request_body (decoded forwarded) ≡ unchanged
unfolding normalize_responses_request_body
normalize_responses_request_body_settled payload forwarded h =
    elim (Bool-cases (payload_needs_change payload)) [
      | inl needs ↦
          let e : with_input (with_messages payload) ≡ forwarded = ground (arith, h, needs) in
          rw (subst (λ m. payload_needs_change m ≡ false) e (payload_settled payload)) refl
      | inr no_need ↦ absurd (ground (arith, h, no_need))
    ]
