-- ===== src/Examples/Chat.antt =====
-- A Postgres database that never fails, a Slack API that refuses the first messages, and tables with
-- one row each.
use ponko.Common.{ℕ, ◌+◌, refl, [], ◌∷◌, none, some, true, false, ltb, if◌then◌else◌}
use ponko.Effect.{Host, external, ok, err, Result, World}
use ponko.Effect.Healthy.{IsHealthy}
use ponko.Chat.{
  ChatEnv, ChatTables, ChatCall, Codec, OutboxEntry, pending, Conversation, WorkflowRow, Output,
  ChannelConfig, ScheduledMessage, User, ReceivePayload, ResponsePayload, ExecOutput,
}

abbrev pub host : Host
host = record { clock = λ n. 1000 + n; uuid = λ n. "new"; db_fault = λ n. none }

abbrev pub received : ReceivePayload
received = record {
  message = "hi";
  thread_key = "C1:1";
  channel = "C1";
  thread_ts = "1";
  event_ts = "";
  channel_type = "channel";
  user_id = "U1";
}

abbrev pub reply : ResponsePayload
reply = record {
  response = "hello";
  channel = "C1";
  thread_ts = "1";
  event_ts = "";
  channel_type = "channel";
}

abbrev pub executed : ExecOutput
executed = record { instruction = "look"; result = "found"; error = "" }

abbrev pub codec : Codec
codec = record {
  unmarshal_text = λ s. some s;
  unmarshal_blocks = λ s. ok (s ∷ []);
  marshal_text = λ s. ok s;
  marshal_blocks = λ bs. ok "[]";
  marshal_receive = λ p. ok "received";
  unmarshal_receive = λ s. ok received;
  marshal_response = λ p. ok "reply";
  unmarshal_response = λ s. ok reply;
  marshal_plan = λ ts. ok "plan";
  unmarshal_plan = λ s. ok [];
  unmarshal_decision = λ s. ok ("direct", []);
  marshal_exec = λ o. ok "executed";
  unmarshal_exec = λ s. ok executed;
}

abbrev pub slack_answer : ℕ → Result (Unit {0})
slack_answer n = if ltb n 4 then err (external "slack API error: ratelimited") else ok tt

abbrev pub env : ChatEnv
env = record {
  host = host;
  codec = codec;
  slack = slack_answer;
  post_ts = λ n. ok "7";
  llm = λ n. ok "hello";
  queue = λ n. ok tt;
  profile = λ n. ok (record { name = "Ann"; zone = "UTC"; admin = false });
  string_le = λ s t. true;
  next_run = λ cron zone t. ok (t + 60);
  render_mrkdwn = λ s. s;
  local_time = λ zone t. "now";
  load_location = λ zone. ok zone;
  decimal = λ n. "n";
  is_unique_violation = λ e. false;
}

pub healthy : IsHealthy host
healthy n = refl

abbrev pub waiting : OutboxEntry
waiting = record {
  created_at = 5;
  last_attempt_at = none;
  delivered_at = none;
  slack_message_ts = none;
  outbox_id = "o1";
  conversation_id = "c1";
  workflow_id = "w1";
  channel_id = "C1";
  thread_ts = "1";
  message_type = "text";
  status = pending;
  content = "hello";
  attempts = 0;
}

abbrev pub conversation : Conversation
conversation = record {
  created_at = 1;
  updated_at = 1;
  conversation_id = "c1";
  channel_id = "C1";
  thread_ts = "1";
  status = "awaiting_approval";
  turns = [];
}

abbrev pub workflow : WorkflowRow
workflow = record {
  created_at = 1;
  updated_at = 1;
  workflow_id = "w1";
  workflow_type = "chat";
  status = "pending";
  conversation = some "c1";
  total_tasks = 2;
  completed_tasks = 0;
}

abbrev pub process_output : Output
process_output = record {
  created_at = 2;
  workflow_id = "w1";
  step_name = "process";
  payload = "reply";
}

abbrev pub config : ChannelConfig
config = record {
  channel_id = "C1";
  system_prompt = "Be brief.";
  respond_mode = "";
  tool_allowlist = none;
  approval_required = true;
}

abbrev pub schedule : ScheduledMessage
schedule = record {
  next_run_at = 10;
  created_at = 1;
  updated_at = 1;
  last_run_at = none;
  schedule_cron = some "0 9 * * *";
  created_by = some "U9";
  schedule_id = "s1";
  channel_id = "C1";
  prompt = "Standup";
  slug = "standup";
  one_shot = false;
  enabled = true;
}

abbrev pub user : User
user = record {
  cached_at = 900;
  slack_user_id = "U1";
  display_name = "Ann";
  timezone = "UTC";
  is_admin = false;
}

abbrev pub tables : ChatTables
tables = record {
  outbox = waiting ∷ [];
  conversations = conversation ∷ [];
  turns = [];
  workflows = workflow ∷ [];
  steps = [];
  outputs = process_output ∷ [];
  configs = [];
  schedules = schedule ∷ [];
  messages = [];
  users = user ∷ [];
}

abbrev pub world : ChatTables → World ChatTables ChatCall
world d = record { tick = 0; trace = []; tables = d }
