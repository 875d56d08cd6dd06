-- ===== src/Agent/Dispatch.antt =====
-- internal/jobs/tool_dispatch.go: the tools that the model calls. The arguments are their JSON, which
-- the parameters decode; the answer of the MCP server and the text of a thread's
-- replies (internal/slack/tools.go) are parameters.
use ponko.Common.{String, Option, none, some, ◌==◌, ◌⧺◌, is_empty, ℕ, if◌then◌else◌}
use ponko.Effect.{errorf, Result, ok, err, pure, raise, lift, with_context, attempt, ask, ◌>>=◌}
use ponko.Chat.{User, ChatM, ChatEnv, call_tool, get_replies}
use ponko.Slack.Link.{parse_thread_url}
use ponko.Users.{get_or_fetch}
use ponko.Schedules.Tools.{
  CreateScheduleInput, ToolReply, execute_create_schedule, execute_list_schedules,
  execute_cancel_schedule,
}
use ponko.Agent.{AgentConfig}

pub record UserScope : Type 0 where
  pub slack_user_id : String
  pub channel_id : String

pub data DispatchReply : Type 0 where
  schedule_reply : ToolReply → DispatchReply
  text_reply : String → DispatchReply

pub record CancelScheduleInput : Type 0 where
  pub channel_id : String
  pub slug : String
  pub requesting_user_id : String

-- The decoders of the arguments, the MCP server's answer, url.Parse, and the text of a thread.
pub record ToolCodec : Type 0 where
  pub decode_create : String → Result CreateScheduleInput
  pub decode_list : String → Result String
  pub decode_cancel : String → Result CancelScheduleInput
  pub decode_read : String → Result String
  pub mcp : ℕ → Result String
  pub url_parse : String → Option (String × String)
  pub read_thread : ℕ → Result String

abbrev pub or_scope : String → Option UserScope → String
or_scope channel none = channel
or_scope channel (some scope) = if is_empty channel then scope.channel_id else channel

abbrev pub user_of : String → Option UserScope → String
user_of user none = user
user_of user (some scope) = scope.slack_user_id

module _ (env : ChatEnv) (config : AgentConfig) (codec : ToolCodec) where
  abbrev zone_of : Result User → String
  zone_of (err e) = ""
  zone_of (ok u) = u.timezone

  unfoldable pub resolve_timezone : String → ChatM String
  resolve_timezone user =
      if is_empty user
      then pure ""
      else if config.has_user_store
      then (attempt (get_or_fetch env user) >>= λ u. pure (zone_of u))
      else pure ""

  abbrev zone_for : String → Option UserScope → ChatM String
  zone_for zone none = pure zone
  zone_for zone (some scope) =
      if is_empty zone then resolve_timezone scope.slack_user_id else pure zone

  unfoldable pub handle_create_schedule : String → Option UserScope → ChatM DispatchReply
  unfolding resolve_timezone
  handle_create_schedule arguments scope = do
    input ← with_context "parsing create_schedule input" (lift (codec.decode_create arguments))
    zone ← zone_for input.timezone scope
    reply ←
        execute_create_schedule env
          (record input { channel_id = or_scope input.channel_id scope; timezone = zone })
          (user_of "" scope)
    pure (schedule_reply reply)

  unfoldable pub handle_list_schedules : String → Option UserScope → ChatM DispatchReply
  handle_list_schedules arguments scope = do
    channel ← with_context "parsing list_schedules input" (lift (codec.decode_list arguments))
    reply ← execute_list_schedules env (or_scope channel scope)
    pure (schedule_reply reply)

  -- The model's arguments never name the requesting user when there is a scope.
  unfoldable pub handle_cancel_schedule : String → Option UserScope → ChatM DispatchReply
  handle_cancel_schedule arguments scope = do
    input ← with_context "parsing cancel_schedule input" (lift (codec.decode_cancel arguments))
    reply ←
        execute_cancel_schedule env (or_scope input.channel_id scope) input.slug
          (user_of input.requesting_user_id scope)
    pure (schedule_reply reply)

  unfoldable pub handle_read_slack_thread : String → ChatM DispatchReply
  handle_read_slack_thread arguments =
      if config.has_slack
      then (with_context "parsing read_slack_thread input" (lift (codec.decode_read arguments))
          >>= λ url.
              with_context "parsing Slack thread URL" (lift (parse_thread_url codec.url_parse url))
              >>= λ link.
                  with_context "fetching thread replies"
                    (ask (get_replies link.0 link.1) codec.read_thread)
                  >>= λ text. pure (text_reply text))
      else raise (errorf "slack client not configured")

  unfoldable pub dispatch_tool : String → String → Option UserScope → ChatM DispatchReply
  unfolding handle_create_schedule handle_list_schedules handle_cancel_schedule
      handle_read_slack_thread
  dispatch_tool name arguments scope =
      if name == "create_schedule"
      then handle_create_schedule arguments scope
      else if name == "list_schedules"
      then handle_list_schedules arguments scope
      else if name == "cancel_schedule"
      then handle_cancel_schedule arguments scope
      else if name == "read_slack_thread"
      then handle_read_slack_thread arguments
      else if config.has_mcp
      then (ask (call_tool name) codec.mcp >>= λ text. pure (text_reply text))
      else raise (errorf ("unknown tool: " ⧺ name))
