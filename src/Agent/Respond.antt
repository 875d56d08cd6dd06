-- ===== src/Agent/Respond.antt =====
-- internal/jobs/respond.go and internal/jobs/slack_reply.go.
use ponko.Common.{String, ◌⧺◌, is_empty, if◌then◌else◌}
use ponko.Effect.{wrap, Result, ok, err, pure, raise, lift, with_context, attempt, ◌>>=◌, ◌>>◌}
use ponko.Chat.{
  OutboxEntry, pending, ResponsePayload, ChatM, ChatEnv, ChatCall, insert, slack_post, slack_react,
  add_reaction, remove_reaction, slack_reply_job,
}
use ponko.Common.{none, zero}
use ponko.Slack.{is_permanent_error}
use ponko.Outbox.{enqueue}
use ponko.Conversations.{transition_status}
use ponko.WorkflowStore.{
  create_step, update_step_status, save_output, get_output, update_workflow_status,
  get_conversation_id,
}
use ponko.Agent.{thread_ts_for_reply}

-- The fields of the Go literal; the others are zero.
abbrev pub outbox_entry : String → String → String → String → String → String → OutboxEntry
outbox_entry conversation workflow channel thread type content = record {
  created_at = zero;
  last_attempt_at = none;
  delivered_at = none;
  slack_message_ts = none;
  outbox_id = "";
  conversation_id = conversation;
  workflow_id = workflow;
  channel_id = channel;
  thread_ts = thread;
  message_type = type;
  status = pending;
  content = content;
  attempts = zero;
}

module _ (env : ChatEnv) where
  -- The reply of a workflow with a conversation goes through the outbox.
  unfoldable pub respond_in : String → String → ResponsePayload → ChatM (Unit {0})
  respond_in id conversation payload = do
    content ←
        with_context "marshaling outbox content" (lift (env.codec.marshal_text payload.response))
    entry ← with_context "enqueuing outbox entry" (
        enqueue env (outbox_entry conversation id payload.channel payload.thread_ts "text" content))
    logged ← attempt (transition_status env conversation "active" "completed")
    pure tt

  unfoldable pub reply_of : String → String → ResponsePayload → ChatM (Unit {0})
  unfolding respond_in
  reply_of id conversation payload =
      if is_empty conversation
      then with_context "enqueuing slack reply job" (insert env (slack_reply_job id payload))
      else respond_in id conversation payload

  unfoldable pub respond : String → String → ChatM (Unit {0})
  unfolding reply_of
  respond id response_step = do
    let step = if is_empty response_step then "process" else response_step
    content ← with_context ("getting " ⧺ step ⧺ " output") (get_output env id step)
    payload ←
        with_context ("unmarshaling " ⧺ step ⧺ " output")
          (lift (env.codec.unmarshal_response content))
    step_id ← with_context "creating respond step" (create_step env id "respond")
    with_context "updating respond step status" (update_step_status env step_id "complete")
    with_context "saving respond output" (save_output env id "respond" content)
    with_context "updating workflow status" (update_workflow_status env id "completed")
    conversation ← with_context "getting conversation_id" (get_conversation_id env id)
    reply_of id conversation payload

  -- A reaction whose error is only logged.
  unfoldable pub react : String → ChatCall → ChatM (Unit {0})
  react event_ts reaction =
      if is_empty event_ts
      then pure tt
      else (attempt (slack_react env reaction) >>= λ logged. pure tt)

  abbrev reply_text : String → String → String
  reply_text id response =
      if is_empty response
      then ":warning: Workflow `" ⧺ id ⧺ "` failed: empty response from LLM"
      else env.render_mrkdwn response

  abbrev reply_reaction : String → String
  reply_reaction response = if is_empty response then "warning" else "white_check_mark"

  -- A permanent error ends the job without an error.
  after_post : ResponsePayload → Result (Unit {0}) → ChatM (Unit {0})
  after_post payload (err e) =
      if is_permanent_error e then pure tt else raise (wrap "posting slack message" e)
  after_post payload (ok _) =
      react payload.event_ts
        (add_reaction payload.channel payload.event_ts (reply_reaction payload.response))

  unfoldable pub slack_reply : String → ResponsePayload → ChatM (Unit {0})
  unfolding react after_post
  slack_reply id payload = do
    react payload.event_ts (remove_reaction payload.channel payload.event_ts "eyes")
    posted ← attempt (
        slack_post env payload.channel (reply_text id payload.response)
          (thread_ts_for_reply payload.thread_ts payload.channel_type))
    after_post payload posted
