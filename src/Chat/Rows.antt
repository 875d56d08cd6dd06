-- ===== src/Chat/Rows.antt =====
-- The Postgres tables of the chat agent, with the structs that are read from them: internal/saga,
-- internal/workflow, internal/channel, internal/schedule, internal/conversation, internal/user.
-- A nullable column is an Option; a column of the type jsonb is its text.
use ponko.Common.{ℕ, String, List, Option, Bool}

pub data DeliveryStatus : Type 0 where
  pending delivering delivered failed : DeliveryStatus

-- The Go struct has "" for a conversation or a thread that is NULL.
pub record OutboxEntry : Type 0 where
  pub created_at : ℕ
  pub last_attempt_at : Option ℕ
  pub delivered_at : Option ℕ
  pub slack_message_ts : Option String
  pub outbox_id : String
  pub conversation_id : String
  pub workflow_id : String
  pub channel_id : String
  pub thread_ts : String
  pub message_type : String
  pub status : DeliveryStatus
  pub content : String
  pub attempts : ℕ

pub record Turn : Type 0 where
  pub created_at : ℕ
  pub turn_id : String
  pub conversation_id : String
  pub workflow_id : String
  pub trigger_type : String
  pub turn_index : ℕ

-- A row has no turns; GetConversation fills them in.
pub record Conversation : Type 0 where
  pub created_at : ℕ
  pub updated_at : ℕ
  pub conversation_id : String
  pub channel_id : String
  pub thread_ts : String
  pub status : String
  pub turns : List Turn

-- The column `conversation` is not in the Go struct.
pub record WorkflowRow : Type 0 where
  pub created_at : ℕ
  pub updated_at : ℕ
  pub workflow_id : String
  pub workflow_type : String
  pub status : String
  pub conversation : Option String
  pub total_tasks : ℕ
  pub completed_tasks : ℕ

pub record Step : Type 0 where
  pub started_at : Option ℕ
  pub completed_at : Option ℕ
  pub step_id : String
  pub workflow_id : String
  pub step_name : String
  pub status : String

pub record Output : Type 0 where
  pub created_at : ℕ
  pub workflow_id : String
  pub step_name : String
  pub payload : String

-- A nil allowlist is none.
pub record ChannelConfig : Type 0 where
  pub channel_id : String
  pub system_prompt : String
  pub respond_mode : String
  pub tool_allowlist : Option (List String)
  pub approval_required : Bool

pub record ScheduledMessage : Type 0 where
  pub next_run_at : ℕ
  pub created_at : ℕ
  pub updated_at : ℕ
  pub last_run_at : Option ℕ
  pub schedule_cron : Option String
  pub created_by : Option String
  pub schedule_id : String
  pub channel_id : String
  pub prompt : String
  pub slug : String
  pub one_shot : Bool
  pub enabled : Bool

-- The column `thread_key` is not in the Go struct.
pub record ThreadMessage : Type 0 where
  pub thread_key : String
  pub created_at : ℕ
  pub role : String
  pub content : String
  pub user_id : String

pub record User : Type 0 where
  pub cached_at : ℕ
  pub slack_user_id : String
  pub display_name : String
  pub timezone : String
  pub is_admin : Bool

pub record ChatTables : Type 0 where
  pub outbox : List OutboxEntry
  pub conversations : List Conversation
  pub turns : List Turn
  pub workflows : List WorkflowRow
  pub steps : List Step
  pub outputs : List Output
  pub configs : List ChannelConfig
  pub schedules : List ScheduledMessage
  pub messages : List ThreadMessage
  pub users : List User
