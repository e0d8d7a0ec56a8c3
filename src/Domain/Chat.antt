-- ===== src/Domain/Chat.antt =====
-- internal/domain/types.go: the chat sessions of the console.
use aiyolo.Base.{String, Bool, Option}
use aiyolo.Base.Int.{ℤ}
use aiyolo.Domain.Time.{Time}

pub record ConsoleChatSession : Type 0 where
  pub id : String
  pub user_id : String
  pub title : String
  pub custom_title : Bool
  pub public_name : String
  pub system_prompt : String
  pub draft : String
  pub draft_attachments_json : String
  pub status : String
  pub messages_json : String
  pub message_count : ℤ
  pub last_request_id : String
  pub last_response_id : String
  pub last_error : String
  pub created_at : Time
  pub updated_at : Time
  pub last_message_at : Option Time
  pub completed_at : Option Time
