-- ===== src/Agent/Approval.antt =====
-- internal/api/interactions.go: what the two buttons of a plan do. The checks of the request (its
-- signature, its form) come before and are left out.
use ponko.Common.{String, List, [], ◌∷◌, Bool, ◌&&◌, not, ◌==◌, ◌⧺◌, is_empty, if◌then◌else◌}
use ponko.Effect.{errorf, Result, ok, err, pure, raise, lift, with_context, attempt, ◌>>=◌, ◌>>◌}
use ponko.Chat.{ChatM, ChatEnv, update_message, update_posted}
use ponko.Outbox.{enqueue}
use ponko.Conversations.{add_turn, get_conversation, transition_status}
use ponko.WorkflowStore.{get_output, get_conversation_id}
use ponko.Agent.{AgentConfig}
use ponko.Agent.Plan.{insert_executes}
use ponko.Agent.Respond.{outbox_entry}

pub record InteractionAction : Type 0 where
  pub action_id : String
  pub value : String

module _ (env : ChatEnv) (config : AgentConfig) where
  -- The edit of the message with the buttons, whose error is only logged.
  unfoldable pub update_buttons : String → String → String → ChatM (Unit {0})
  update_buttons channel message_ts text =
      if config.has_slack
      then (attempt (update_posted env (update_message channel message_ts text)) >>= λ logged.
          pure tt)
      else pure tt

  unfoldable pub required_conversation : String → ChatM String
  required_conversation id = do
    conversation ← with_context "getting conversation_id" (get_conversation_id env id)
    (if is_empty conversation
        then raise (errorf ("workflow " ⧺ id ⧺ " has no conversation_id"))
        else pure conversation)

  unfoldable pub handle_approve : String → String → String → ChatM (Unit {0})
  unfolding required_conversation update_buttons
  handle_approve id channel message_ts = do
    conversation ← required_conversation id
    content ← with_context "getting plan output" (get_output env id "plan")
    tasks ← with_context "unmarshaling plan output" (lift (env.codec.unmarshal_plan content))
    with_context "transitioning to active"
        (transition_status env conversation "awaiting_approval" "active")
    with_context "adding approval turn" (add_turn env conversation id "approval")
    insert_executes env config id 0 tasks
    update_buttons channel message_ts "Approved ✓"

  abbrev or_nothing : Result String → String
  or_nothing (ok s) = s
  or_nothing (err e) = ""

  unfoldable pub handle_reject : String → String → String → ChatM (Unit {0})
  unfolding required_conversation update_buttons
  handle_reject id channel message_ts = do
    conversation ← required_conversation id
    c ← with_context "getting conversation" (get_conversation env conversation)
    with_context "transitioning to completed"
        (transition_status env conversation "awaiting_approval" "completed")
    entry ← with_context "enqueuing rejection message" (
        enqueue env (
          outbox_entry conversation id channel c.thread_ts "text" (
            or_nothing (
              env.codec.marshal_text
                "Plan rejected. Let me know if you'd like to try a different approach."))))
    update_buttons channel message_ts "Rejected ✗"

  -- The first action of a request; an error is only logged. A value that is neither empty nor a UUID
  -- is not looked at further.
  unfoldable pub handle_action :
      (String → Bool) → InteractionAction → String → String → ChatM (Unit {0})
  unfolding handle_approve handle_reject
  handle_action is_valid_uuid action channel message_ts =
      if not (is_empty action.value) && not (is_valid_uuid action.value)
      then pure tt
      else if action.action_id == "approve_plan"
      then (attempt (handle_approve action.value channel message_ts) >>= λ logged. pure tt)
      else if action.action_id == "reject_plan"
      then (attempt (handle_reject action.value channel message_ts) >>= λ logged. pure tt)
      else pure tt

  unfoldable pub handle_slack_interactions :
      (String → Bool) → List InteractionAction → String → String → ChatM (Unit {0})
  unfolding handle_action
  handle_slack_interactions is_valid_uuid [] channel message_ts = pure tt
  handle_slack_interactions is_valid_uuid (action ∷ actions) channel message_ts =
      handle_action is_valid_uuid action channel message_ts
