-- ===== src/Agent/Process.antt =====
-- internal/jobs/process.go: the answer without a plan. The scope of the user that the tools get is
-- left out, and strings.ToUpper is the parameter `upper`.
use ponko.Common.{
  String, List, [], ◌∷◌, ◌++◌, Option, none, some, Bool, ◌&&◌, ◌||◌, not, ltb, ◌==◌, ◌⧺◌, is_empty,
  length, if◌then◌else◌,
}
use ponko.Effect.{Result, ok, err, pure, lift, with_context, attempt, ◌>>=◌, ◌>>◌, now}
use ponko.Chat.{
  User, ThreadMessage, ReceivePayload, LlmMessage, ChatM, ChatEnv, insert, run_llm, slack_post,
  respond_job, send_conversation, send_with_tools, haiku, sonnet,
}
use ponko.Users.{get_or_fetch}
use ponko.Channels.{get_config}
use ponko.Threads.{get_thread_messages, save_thread_messages}
use ponko.WorkflowStore.{create_step, update_step_status, save_output}
use ponko.Prompt.{build_system_prompt}
use ponko.Agent.{AgentConfig, resolve_user, thread_ts_for_reply}
use ponko.Agent.Receive.{load_payload}
use ponko.Agent.Execute.{or_default}
use ponko.Agent.Synthesize.{response_payload}

-- The map nameCache, the newest entry first.
unfoldable pub cached_name : String → List (String × String) → Option String
cached_name id [] = none
cached_name id ((key, name) ∷ entries) = if key == id then some name else cached_name id entries

abbrev pub name_of : Result User → String
name_of (err e) = ""
name_of (ok u) = u.display_name

abbrev pub named : String → ThreadMessage → LlmMessage
named name m = record {
  role = m.role;
  content = if is_empty name then m.content else name ⧺ ": " ⧺ m.content;
}

module _ (env : ChatEnv) (config : AgentConfig) where
  -- The display name, and the cache after it.
  abbrev lookup_name :
      String → List (String × String) → Option String → ChatM (String × List (String × String))
  lookup_name id cache (some name) = pure (name, cache)
  lookup_name id cache none =
      attempt (get_or_fetch env id) >>= λ u. pure (name_of u, (id, name_of u) ∷ cache)

  unfoldable pub resolve_display_name :
      String → List (String × String) → ChatM (String × List (String × String))
  unfolding cached_name
  resolve_display_name id cache =
      if is_empty id || not config.has_user_store
      then pure ("", cache)
      else lookup_name id cache (cached_name id cache)

  unfoldable pub render_history :
      List (String × String) → List ThreadMessage → ChatM (List LlmMessage)
  unfolding resolve_display_name cached_name
  render_history cache [] = pure []
  render_history cache (m ∷ ms) = do
    found ← (if m.role == "user" then resolve_display_name m.user_id cache else pure ("", cache))
    rest ← render_history found.1 ms
    pure (named found.0 m ∷ rest)

  unfoldable pub post_progress_if_needed : String → ReceivePayload → Bool → ChatM (Unit {0})
  post_progress_if_needed id payload has_tools =
      if has_tools && config.has_slack && not (is_empty config.base_url)
      then (attempt (
            slack_post env payload.channel
              ("_Processing your request..._\n<"
                ⧺ (config.base_url ⧺ "/workflows/" ⧺ id)
                ⧺ "|View progress>")
              (thread_ts_for_reply payload.thread_ts payload.channel_type))
          >>= λ logged. pure tt)
      else pure tt

  unfoldable pub converse : String → ReceivePayload → ChatM String
  unfolding render_history build_system_prompt post_progress_if_needed resolve_display_name
  converse id payload = do
    history ← with_context "loading thread history" (get_thread_messages env payload.thread_key 20)
    rendered ← render_history [] history
    let messages : List LlmMessage =
        rendered ++ record { role = "user"; content = payload.message } ∷ []
    cfg ← attempt (get_config env payload.channel)
    user ← resolve_user env config payload.user_id
    moment ← now env.host
    let built = build_system_prompt env (record {
      has_mcp = config.has_mcp;
      channel_cfg = or_default cfg;
      moment = moment;
      zone = user.1;
      default_prompt = config.system_prompt;
      bot_name = config.bot_name;
      display_name = user.0;
      tools = config.tools;
    })
    let has_tools = built.1.1 && ltb 0 (length built.1.0)
    post_progress_if_needed id payload has_tools
    response ←
        (if has_tools
          then run_llm env (send_with_tools built.0 messages built.1.0 sonnet)
          else run_llm env (send_conversation built.0 messages haiku))
    with_context "saving thread messages" (
        save_thread_messages env payload.thread_key "user" payload.message "assistant" response
          payload.user_id)
    pure response

  unfoldable pub process_message : (String → String) → String → ReceivePayload → ChatM String
  unfolding converse
  process_message upper id payload =
      if is_empty payload.thread_key then pure (upper payload.message) else converse id payload

  unfoldable pub process : (String → String) → String → ChatM (Unit {0})
  unfolding process_message
  process upper id = do
    payload ← load_payload env id
    response ← with_context "calling Claude" (process_message upper id payload)
    step ← with_context "creating process step" (create_step env id "process")
    with_context "updating process step status" (update_step_status env step "complete")
    content ←
        with_context "marshaling process output"
          (lift (env.codec.marshal_response (response_payload response payload)))
    with_context "saving process output" (save_output env id "process" content)
    with_context "enqueuing respond job" (insert env (respond_job id ""))
