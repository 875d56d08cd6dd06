-- ===== src/Agent/Plan.antt =====
-- internal/jobs/plan.go.
use ponko.Common.{
  ℕ, suc, String, List, [], ◌∷◌, Option, none, some, Bool, false, ◌||◌, not, ◌==◌, ◌⧺◌, is_empty,
  length, starts_with, trim_space, trim_right, after_newline, ends_with, drop_last, if◌then◌else◌,
}
use ponko.Effect.{Result, ok, err, pure, raise, lift, with_context, attempt, ◌>>=◌, ◌>>◌}
use ponko.Chat.{
  ReceivePayload, TaskPlan, ChannelConfig, Block, section_block, actions_block, ChatM, ChatEnv,
  insert, run_llm, slack_post, send_message, haiku, process_job, execute_job,
}
use ponko.Channels.{get_config}
use ponko.Outbox.{enqueue}
use ponko.Conversations.{find_or_create_conversation, transition_status}
use ponko.WorkflowStore.{
  create_step, update_step_status, save_output, set_total_tasks, get_conversation_id,
  set_conversation_id,
}
use ponko.Agent.{AgentConfig, thread_ts_for_reply, llm_is_permanent}
use ponko.Agent.Receive.{load_payload}
use ponko.Agent.Respond.{outbox_entry}

abbrev pub decompose_prompt : String
decompose_prompt =
    "You are a task planner. Given a user message, decide if it requires multiple independent steps or can be answered directly.\n\nIf the message is simple (greeting, single question, casual chat, single lookup), respond with exactly:\n{\"action\":\"direct\"}\n\nIf the message requires multiple independent research tasks or actions, respond with:\n{\"action\":\"fan_out\",\"tasks\":[{\"instruction\":\"...\"},{\"instruction\":\"...\"}]}\n\nEach task instruction should be self-contained and independently executable. Keep to 2-5 tasks max.\n\nRespond with ONLY valid JSON, no other text."

-- Without the fences of Markdown.
abbrev pub without_last_fence : String → String
without_last_fence s = if ends_with s "```" then trim_right (drop_last 3 s) "\n" else s

unfoldable pub strip_markdown_fences : String → String
unfolding trim_space trim_right after_newline ends_with
strip_markdown_fences text =
    let t = trim_space text in
    if starts_with t "```" then without_last_fence (after_newline t) else t

-- "%d. %s\n" for each task, from 1.
unfoldable pub numbered : ChatEnv → ℕ → List TaskPlan → String
numbered env n [] = ""
numbered env n (t ∷ ts) =
    env.decimal (suc n) ⧺ ". " ⧺ t.instruction ⧺ "\n" ⧺ numbered env (suc n) ts

-- The two buttons have the workflow's id as their value.
unfoldable pub build_approval_blocks : ChatEnv → List TaskPlan → String → List Block
unfolding numbered
build_approval_blocks env tasks id =
    section_block ("*Here's my plan:*\n" ⧺ numbered env 0 tasks) ∷ actions_block id ∷ []

unfoldable pub build_ack_message : ChatEnv → List TaskPlan → String → String → String
unfolding numbered
build_ack_message env tasks id base_url =
    "Working on this — here's my plan:\n"
    ⧺ numbered env 0 tasks
    ⧺ "\nI'll reply when everything is done."
    ⧺ (if is_empty base_url
        then ""
        else "\n<" ⧺ trim_right base_url "/" ⧺ "/workflows/" ⧺ id ⧺ "|Track progress>")

-- The tasks of a reply that asks for a fan-out.
unfoldable pub planned : Result (String × List TaskPlan) → List TaskPlan
planned (err e) = []
planned (ok (action, tasks)) = if action == "fan_out" then tasks else []

abbrev pub requires_approval : Result (Option ChannelConfig) → Bool
requires_approval (err e) = false
requires_approval (ok none) = false
requires_approval (ok (some cfg)) = cfg.approval_required

module _ (env : ChatEnv) (config : AgentConfig) where
  abbrev on_reply : Result String → ChatM (List TaskPlan)
  on_reply (err e) = if llm_is_permanent e then raise e else pure []
  on_reply (ok reply) = pure (planned (env.codec.unmarshal_decision (strip_markdown_fences reply)))

  -- No tasks is Go's nil: the message is answered directly.
  unfoldable pub decompose : ReceivePayload → ChatM (List TaskPlan)
  unfolding planned strip_markdown_fences
  decompose payload =
      if is_empty payload.thread_key || not config.has_claude
      then pure []
      else (attempt (
            run_llm env
              (send_message (decompose_prompt ⧺ "\n\nUser message: " ⧺ payload.message) haiku))
          >>= on_reply)

  unfoldable pub should_require_approval : String → ChatM Bool
  should_require_approval channel = do
    cfg ← attempt (get_config env channel)
    pure (requires_approval cfg)

  -- The acknowledgement, whose error is only logged.
  unfoldable pub post_ack : String → ReceivePayload → List TaskPlan → ChatM (Unit {0})
  unfolding build_ack_message numbered
  post_ack id payload tasks =
      if config.has_slack
      then (attempt (
            slack_post env payload.channel (build_ack_message env tasks id config.base_url)
              (thread_ts_for_reply payload.thread_ts payload.channel_type))
          >>= λ logged. pure tt)
      else pure tt

  -- The workflow's conversation, which is created if it has none.
  unfoldable pub own_conversation : String → ReceivePayload → String → ChatM String
  own_conversation id payload conversation =
      if is_empty conversation
      then (with_context "creating conversation for approval"
            (find_or_create_conversation env payload.channel payload.thread_ts)
          >>= λ found.
              with_context "setting conversation_id for approval"
                (set_conversation_id env id found.0)
              >> pure found.0)
      else pure conversation

  unfoldable pub pause_for_approval : String → ReceivePayload → List TaskPlan → ChatM (Unit {0})
  unfolding own_conversation build_approval_blocks numbered post_ack
  pause_for_approval id payload tasks = do
    set ← with_context "getting conversation_id for approval" (get_conversation_id env id)
    conversation ← own_conversation id payload set
    with_context "transitioning to awaiting_approval"
        (transition_status env conversation "active" "awaiting_approval")
    blocks ←
        with_context "marshaling approval blocks"
          (lift (env.codec.marshal_blocks (build_approval_blocks env tasks id)))
    entry ← with_context "enqueuing approval blocks" (
        enqueue env
          (outbox_entry conversation id payload.channel payload.thread_ts "blocks" blocks))
    post_ack id payload tasks

  unfoldable pub insert_executes : String → ℕ → List TaskPlan → ChatM (Unit {0})
  insert_executes id n [] = pure tt
  insert_executes id n (t ∷ ts) =
      with_context ("enqueuing execute job " ⧺ env.decimal n)
        (insert env (execute_job id t.instruction n))
      >> insert_executes id (suc n) ts

  unfoldable pub start_tasks : String → ReceivePayload → List TaskPlan → ChatM (Unit {0})
  unfolding insert_executes post_ack
  start_tasks id payload tasks = insert_executes id 0 tasks >> post_ack id payload tasks

  unfoldable pub fan_out_tasks : String → ReceivePayload → List TaskPlan → ChatM (Unit {0})
  unfolding should_require_approval pause_for_approval start_tasks
  fan_out_tasks id payload tasks = do
    content ← with_context "marshaling plan output" (lift (env.codec.marshal_plan tasks))
    with_context "saving plan output" (save_output env id "plan" content)
    with_context "setting total tasks" (set_total_tasks env id (length tasks))
    approval ← should_require_approval payload.channel
    (if approval then pause_for_approval id payload tasks else start_tasks id payload tasks)

  abbrev follow_plan : String → ReceivePayload → List TaskPlan → ChatM (Unit {0})
  follow_plan id payload [] = with_context "enqueuing process job" (insert env (process_job id))
  follow_plan id payload (t ∷ ts) = fan_out_tasks id payload (t ∷ ts)

  unfoldable pub plan : String → ChatM (Unit {0})
  unfolding decompose fan_out_tasks
  plan id = do
    payload ← load_payload env id
    step ← with_context "creating plan step" (create_step env id "plan")
    tasks ← with_context "decomposing message" (decompose payload)
    with_context "updating plan step status" (update_step_status env step "complete")
    follow_plan id payload tasks
