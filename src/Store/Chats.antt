-- ===== src/Store/Chats.antt =====
-- internal/storage/memory.go: the chat sessions of the console, by user and identifier.
-- `sanitizeConsoleChatSessionStrings` replaces invalid UTF-8, which the texts do not have.
pub mod Owned
use aiyolo.Base.{
  ℕ, String, Bool, true, false, not, ◌===◌, ◌==◌, ◌&&◌, ltb, List, [], ◌∷◌, filter, length, take,
  Option, none, some, if◌then◌else◌,
}
use aiyolo.Base.Int.{ℤ, pos, pos_part, ltb_ℤ}
use aiyolo.Text.{str_lt}
use aiyolo.Text.Keys.{join_nul}
use aiyolo.Dict.{Dict, lookup, insert, erase, values, string_key}
use aiyolo.Sort.{sort_stable}
use aiyolo.Domain.Time.{Time, or_now, after}
use aiyolo.Domain.Chat.{ConsoleChatSession}
use aiyolo.Store.State.{MemoryStore, Result, ok, err, not_found, or_not_found}

-- What `UpsertConsoleChatSession` stores of a session.
abbrev pub dated_session : Time → ConsoleChatSession → ConsoleChatSession
dated_session clock session =
    let created = or_now clock session.created_at in
    record session { created_at = created; updated_at = or_now created session.updated_at }

-- `UpsertConsoleChatSession`.
unfoldable pub upsert_console_chat_session : Time → ConsoleChatSession → MemoryStore → MemoryStore
upsert_console_chat_session clock session s = record s {
  chat_sessions =
      insert (join_nul session.user_id session.id) (dated_session clock session) s.chat_sessions;
}

-- The order of `ListConsoleChatSessions`: newest update first, then newest creation, then identifier.
pub session_less : ConsoleChatSession → ConsoleChatSession → Bool
session_less a b =
    if not (a.updated_at == b.updated_at)
    then after a.updated_at b.updated_at
    else if not (a.created_at == b.created_at)
    then after a.created_at b.created_at
    else str_lt a.id b.id

-- `if limit > 0 && len(sessions) > limit { sessions = sessions[:limit] }`
pub limited : ℤ → List ConsoleChatSession → List ConsoleChatSession
limited limit sessions =
    if ltb_ℤ (pos 0) limit && ltb_ℤ limit (pos (length sessions))
    then take (pos_part limit) sessions
    else sessions

-- `ListConsoleChatSessions`.
unfoldable pub list_console_chat_sessions : String → ℤ → MemoryStore → List ConsoleChatSession
unfolding limited
list_console_chat_sessions user_id limit s = limited limit (
    sort_stable session_less
      (filter (λ session. session.user_id === user_id) (values s.chat_sessions)))

-- `GetConsoleChatSession`.
unfoldable pub get_console_chat_session : String → String → MemoryStore → Result ConsoleChatSession
get_console_chat_session user_id id s = or_not_found (lookup (join_nul user_id id) s.chat_sessions)

abbrev erase_found : String → MemoryStore → Option ConsoleChatSession → Result MemoryStore
erase_found key s none = err not_found
erase_found key s (some session) = ok (record s { chat_sessions = erase key s.chat_sessions })

-- `DeleteConsoleChatSession`.
unfoldable pub delete_console_chat_session : String → String → MemoryStore → Result MemoryStore
delete_console_chat_session user_id id s =
    let key = join_nul user_id id in erase_found key s (lookup key s.chat_sessions)
