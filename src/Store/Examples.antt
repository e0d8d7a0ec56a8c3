-- ===== src/Store/Examples.antt =====
-- A chat session in a small store.
use aiyolo.Base.{◌&&◌, false, none, String, ◌≡◌, ◌===◌, arith, if◌then◌else◌}
use aiyolo.Store.State.{ok}
use aiyolo.Base.Int.{pos}
use aiyolo.Text.Keys.{NoNul}
use aiyolo.Domain.Chat.{ConsoleChatSession}
use aiyolo.Store.Chats.{dated_session, upsert_console_chat_session, get_console_chat_session}
use aiyolo.Store.Chats.Owned.{get-upsert_console_chat_session}
use aiyolo.Fixtures.{noon, store_1}

abbrev session_1 : ConsoleChatSession
session_1 = record {
  id = "s1";
  user_id = "alice";
  title = "First";
  custom_title = false;
  public_name = "fast";
  system_prompt = "";
  draft = "";
  draft_attachments_json = "";
  status = "";
  messages_json = "";
  message_count = pos 0;
  last_request_id = "";
  last_response_id = "";
  last_error = "";
  created_at = 0;
  updated_at = 0;
  last_message_at = none;
  completed_at = none;
}

abbrev bob : String
bob = "bob"

alice-NoNul : NoNul session_1.user_id
alice-NoNul = ground arith

bob-NoNul : NoNul bob
bob-NoNul = ground arith

get-upsert_console_chat_session_example :
    get_console_chat_session bob "s1" (upsert_console_chat_session noon session_1 store_1) ≡ (
      if session_1.user_id === bob && session_1.id === "s1"
      then ok (dated_session noon session_1)
      else get_console_chat_session bob "s1" store_1)
get-upsert_console_chat_session_example =
    get-upsert_console_chat_session noon session_1 bob "s1" store_1 alice-NoNul bob-NoNul
