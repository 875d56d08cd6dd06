-- ===== src/Agent/Proactive.antt =====
-- internal/jobs/scheduler_tick.go and internal/jobs/proactive.go.
use ponko.Common.{
  ℕ, String, List, [], ◌∷◌, Option, none, some, ◌&&◌, ltb, length, ◌⧺◌, if◌then◌else◌,
}
use ponko.Effect.{pure, with_context, attempt, ◌>>=◌, ◌>>◌, now}
use ponko.Chat.{
  ScheduledMessage, LlmMessage, ChatM, ChatEnv, insert, run_llm, slack_post, proactive_job,
  send_conversation, send_with_tools, haiku, sonnet,
}
use ponko.Channels.{get_config}
use ponko.Schedules.{get_due, mark_run, next_run_at}
use ponko.Prompt.{build_system_prompt}
use ponko.Agent.{AgentConfig}
use ponko.Agent.Execute.{or_default}

pub record ProactiveArgs : Type 0 where
  pub schedule_cron : Option String
  pub schedule_id : String
  pub channel_id : String
  pub prompt : String

module _ (env : ChatEnv) where
  -- A job for each message, whose error is only logged.
  unfoldable pub enqueue_due : List ScheduledMessage → ChatM (Unit {0})
  enqueue_due [] = pure tt
  enqueue_due (m ∷ ms) =
      attempt (insert env (proactive_job m.schedule_id m.channel_id m.prompt m.schedule_cron))
      >> enqueue_due ms

  unfoldable pub scheduler_tick : ChatM (Unit {0})
  unfolding enqueue_due
  scheduler_tick = do
    due ← with_context "getting due scheduled messages" (get_due env)
    enqueue_due due

  -- time.Now() is in the zone of the process, "Local".
  unfoldable pub next_of : ProactiveArgs → ChatM (Option ℕ)
  next_of args = go args.schedule_cron
    where
      go : Option String → ChatM (Option ℕ)
      go none = pure none
      go (some cron) = now env.host >>= λ moment.
          with_context ("computing next run time for schedule " ⧺ args.schedule_id)
            (next_run_at env cron "Local" moment)
          >>= λ next. pure (some next)

  unfoldable pub proactive_message : AgentConfig → ProactiveArgs → ChatM (Unit {0})
  unfolding build_system_prompt next_of
  proactive_message config args = do
    cfg ← attempt (get_config env args.channel_id)
    moment ← now env.host
    let built = build_system_prompt env (record {
      has_mcp = config.has_mcp;
      channel_cfg = or_default cfg;
      moment = moment;
      zone = config.zone;
      default_prompt = config.system_prompt;
      bot_name = config.bot_name;
      display_name = "";
      tools = config.tools;
    })
    let messages : List LlmMessage = record { role = "user"; content = args.prompt } ∷ []
    response ← with_context "calling Claude for proactive message" (
        if built.1.1 && ltb 0 (length built.1.0)
        then run_llm env (send_with_tools built.0 messages built.1.0 sonnet)
        else run_llm env (send_conversation built.0 messages haiku))
    next ← next_of args
    with_context "marking scheduled message run" (mark_run env args.schedule_id next)
    with_context "posting proactive message to Slack"
        (slack_post env args.channel_id (env.render_mrkdwn response) "")
