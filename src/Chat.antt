-- ===== src/Chat.antt =====
-- What the jobs of the chat agent share: the tables, the arguments of the River jobs of
-- internal/jobs, the dependencies, and the calls that go on record.
mod Rows
pub use Rows.*
use ponko.Common.{ℕ, String, List, Option, Bool}
use ponko.Effect.{Err, Result, Host, Exec, ask}

pub record ReceivePayload : Type 0 where
  pub message : String
  pub thread_key : String
  pub channel : String
  pub thread_ts : String
  pub event_ts : String
  pub channel_type : String
  pub user_id : String

-- The output of the steps process and synthesize.
pub record ResponsePayload : Type 0 where
  pub response : String
  pub channel : String
  pub thread_ts : String
  pub event_ts : String
  pub channel_type : String

pub record TaskPlan : Type 0 where
  pub instruction : String

pub record ExecOutput : Type 0 where
  pub instruction : String
  pub result : String
  pub error : String

-- The jobs, without their trace contexts. An execute job has at most three attempts, the synthesize
-- job is unique by its arguments.
pub data ChatJob : Type 0 where
  plan_job : (workflow_id : String) → ChatJob
  process_job : (workflow_id : String) → ChatJob
  execute_job : (workflow_id instruction : String) (task_index : ℕ) → ChatJob
  synthesize_job : (workflow_id : String) → ChatJob
  respond_job : (workflow_id response_step : String) → ChatJob
  slack_reply_job : (workflow_id : String) → ResponsePayload → ChatJob
  proactive_job : (schedule_id channel_id prompt : String) (schedule_cron : Option String) → ChatJob

-- A Slack block that the code builds or passes on.
pub data Block : Type 0 where
  raw_block : String → Block
  section_block : (text : String) → Block
  actions_block : (value : String) → Block

pub record LlmMessage : Type 0 where
  pub role : String
  pub content : String

pub record Tool : Type 0 where
  pub tool_name : String

pub data Model : Type 0 where
  haiku sonnet : Model

pub data ChatCall : Type 0 where
  post_message : (channel text thread_ts : String) → ChatCall
  post_blocks : (channel text : String) → List Block → (thread_ts : String) → ChatCall
  add_reaction : (channel timestamp name : String) → ChatCall
  remove_reaction : (channel timestamp name : String) → ChatCall
  insert_job : ChatJob → ChatCall
  update_message : (channel timestamp text : String) → ChatCall
  call_tool : (name : String) → ChatCall
  get_replies : (channel timestamp : String) → ChatCall
  send_message : (prompt : String) → Model → ChatCall
  send_conversation : (prompt : String) → List LlmMessage → Model → ChatCall
  send_with_tools : (prompt : String) → List LlmMessage → List Tool → Model → ChatCall
  get_user_profile : (user_id : String) → ChatCall

pub record SlackProfile : Type 0 where
  pub name : String
  pub zone : String
  pub admin : Bool

-- encoding/json on the values that go through the tables.
pub record Codec : Type 0 where
  pub unmarshal_text : String → Option String
  pub unmarshal_blocks : String → Result (List String)
  pub marshal_text : String → Result String
  pub marshal_blocks : List Block → Result String
  pub marshal_receive : ReceivePayload → Result String
  pub unmarshal_receive : String → Result ReceivePayload
  pub marshal_response : ResponsePayload → Result String
  pub unmarshal_response : String → Result ResponsePayload
  pub marshal_plan : List TaskPlan → Result String
  pub unmarshal_plan : String → Result (List TaskPlan)
  pub unmarshal_decision : String → Result (String × List TaskPlan)
  pub marshal_exec : ExecOutput → Result String
  pub unmarshal_exec : String → Result ExecOutput

-- The dependencies. `slack` is the answer of the Slack API to a call without a value, `post_ts` the
-- timestamp of posted blocks, `llm` the model's text, `queue` River's answer to an insertion,
-- `string_le` the collation of the database, `next_run` the cron
-- library's next time of an expression in a zone, `render_mrkdwn` the regular
-- expressions of internal/slack/mrkdwn.go, `local_time` the
-- printed local time, `load_location` time.LoadLocation, `decimal` the verb %d, and
-- `is_unique_violation` the test of the driver's error code.
pub record ChatEnv : Type 0 where
  pub host : Host
  pub codec : Codec
  pub slack : ℕ → Result (Unit {0})
  pub post_ts : ℕ → Result String
  pub llm : ℕ → Result String
  pub queue : ℕ → Result (Unit {0})
  pub profile : ℕ → Result SlackProfile
  pub string_le : String → String → Bool
  pub next_run : String → String → ℕ → Result ℕ
  pub render_mrkdwn : String → String
  pub local_time : Option String → ℕ → String
  pub load_location : String → Result String
  pub decimal : ℕ → String
  pub is_unique_violation : Err → Bool

abbrev pub ChatM : Type 0 → Type 0
ChatM A = Exec ChatTables ChatCall A

module _ (env : ChatEnv) where
  unfoldable pub slack_post : String → String → String → ChatM (Unit {0})
  slack_post channel text thread_ts = ask (post_message channel text thread_ts) env.slack

  unfoldable pub slack_post_blocks : String → String → List Block → String → ChatM String
  slack_post_blocks channel text blocks thread_ts =
      ask (post_blocks channel text blocks thread_ts) env.post_ts

  unfoldable pub slack_react : ChatCall → ChatM (Unit {0})
  slack_react reaction = ask reaction env.slack

  unfoldable pub update_posted : ChatCall → ChatM (Unit {0})
  update_posted edit = ask edit env.slack

  unfoldable pub insert : ChatJob → ChatM (Unit {0})
  insert job = ask (insert_job job) env.queue

  -- The three operations of LLMClient.
  unfoldable pub run_llm : ChatCall → ChatM String
  run_llm call = ask call env.llm

  unfoldable pub get_profile : String → ChatM SlackProfile
  get_profile user = ask (get_user_profile user) env.profile
