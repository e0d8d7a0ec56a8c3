-- ===== src/Gateway/Responses/Items/Untyped.antt =====
-- An input item without a type, which the normalization of roles reads as a message.
use aiyolo.Base.{◌≡◌, refl, String, none, ◌===◌, arith, Bool, false, List, [], ◌∷◌}
use aiyolo.Text.{trim_space}
use aiyolo.Dict.{lookup, string_key}
use aiyolo.Json.{Json, Fields, null, string, object, Map, entries, get, is_null, dict}
use aiyolo.Json.Print.{sprint, marshal}
use aiyolo.Json.Texts.{trimmed, stringify_chat_content}
use aiyolo.Gateway.Responses.Roles.{is_no_message}
use aiyolo.Gateway.Responses.Items.{Base64, response_item_to_chat_message, chat_messages_from}

trimmed_missing : (m : Map) → get "type" m ≡ null → trimmed "type" m ≡ "<nil>"
unfolding trimmed sprint trim_space
trimmed_missing m h = rw h refl

not_message : (m : Map) → get "type" m ≡ null → response_item_to_chat_message m ≡ none
unfolding response_item_to_chat_message
not_message m h = rw (trimmed_missing m h) refl

role_user :
    (text : String)
    → (sprint (get "role" (("role", string "user") ∷ ("content", string text) ∷ []))
        === "assistant")
      ≡ false
unfolding get lookup sprint
role_user text = refl

-- An item that has a role and no type is a message for the normalization of roles, yet the chat has
-- the item's JSON text in its place, as a message of the user, whatever the role is.
pub untyped_item :
    (base64 : Base64) (deepseek : Bool) (pending : String) (fs : Fields) (vs : List Json)
    → get "type" (entries fs) ≡ null
    → is_null (get "role" (entries fs)) ≡ false
    → (is_no_message (entries fs) ≡ false)
      × (chat_messages_from base64 deepseek pending (object fs ∷ vs)
          ≡ (("role", string "user") ∷ ("content", string (marshal (dict (entries fs)))) ∷ [])
            ∷ chat_messages_from base64 deepseek pending vs)
unfolding is_no_message chat_messages_from stringify_chat_content
untyped_item base64 deepseek pending fs vs type role =
    let m = entries fs in
    (
      rw role (ground arith),
      rw (trimmed_missing m type, not_message m type, role_user (marshal (dict m))) (ground arith),
    )
