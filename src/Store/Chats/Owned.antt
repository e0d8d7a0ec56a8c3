-- ===== src/Store/Chats/Owned.antt =====
-- Chat sessions of different users do not touch each other, and the listing is the user's own.
use aiyolo.Base.{
  ℕ, zero, suc, ◌≡◌, String, true, ◌&&◌, ◌===◌, eq_iff, List, [], ◌∷◌, All, All-filter-true, take,
  arith, if◌then◌else◌,
}
use aiyolo.Base.Int.{ℤ, pos_part}
use aiyolo.Text.Keys.{join_nul, NoNul, join_nul_inj}
use aiyolo.Dict.{string_key, values}
use aiyolo.Dict.Laws.{lookup-insert}
use aiyolo.Sort.Laws.{All-sort_stable}
use aiyolo.Domain.Time.{Time}
use aiyolo.Domain.Chat.{ConsoleChatSession}
use aiyolo.Store.State.{MemoryStore, ok}
use aiyolo.Store.Chats.{
  dated_session, upsert_console_chat_session, get_console_chat_session, session_less, limited,
  list_console_chat_sessions,
}

same_key :
    (a b c d : String) → NoNul a → NoNul c → (join_nul a b === join_nul c d) ≡ (a === c && b === d)
same_key a b c d h k =
    ground (
      arith,
      eq_iff (join_nul a b) (join_nul c d),
      eq_iff a c,
      eq_iff b d,
      join_nul_inj a b c d h k,
    )

-- A saved session is found under its user and identifier; any other pair of a user and an identifier
-- finds what it found before, where neither user's name holds a NUL character.
pub get-upsert_console_chat_session :
    (clock : Time) (session : ConsoleChatSession) (user_id id : String) (s : MemoryStore)
    → NoNul session.user_id
    → NoNul user_id
    → get_console_chat_session user_id id (upsert_console_chat_session clock session s) ≡ (
        if session.user_id === user_id && session.id === id
        then ok (dated_session clock session)
        else get_console_chat_session user_id id s)
unfolding get_console_chat_session upsert_console_chat_session
get-upsert_console_chat_session clock session user_id id s h k =
    rw
      (lookup-insert (join_nul session.user_id session.id) (join_nul user_id id)
        (dated_session clock session) s.chat_sessions)
      (rw (same_key session.user_id session.id user_id id h k) (ground arith))

All-take :
    (P : ConsoleChatSession → Type 0) (n : ℕ) (xs : List ConsoleChatSession)
    → All P xs
    → All P (take n xs)
All-take P zero xs h = tt
All-take P (suc n) [] h = tt
All-take P (suc n) (x ∷ xs) h = (h.0, All-take P n xs h.1)

All-limited :
    (P : ConsoleChatSession → Type 0) (limit : ℤ) (xs : List ConsoleChatSession)
    → All P xs
    → All P (limited limit xs)
unfolding limited
All-limited P limit xs h = ground (arith, All-take P (pos_part limit) xs h)

-- The listing has only sessions of the user.
pub list_console_chat_sessions-own :
    (user_id : String) (limit : ℤ) (s : MemoryStore)
    → All
        (λ session. (session.user_id === user_id) ≡ true)
        (list_console_chat_sessions user_id limit s)
unfolding list_console_chat_sessions
list_console_chat_sessions-own user_id limit s = All-limited _ limit _ (
    All-sort_stable session_less (λ session. (session.user_id === user_id) ≡ true) _
      (All-filter-true (λ session. session.user_id === user_id) (values s.chat_sessions)))
