-- ===== src/Agent.antt =====
-- What the workers of internal/jobs share: their configuration, the user that a prompt is for, and
-- where a reply goes. Their spans and metrics are left out.
pub mod Receive
pub mod Plan
pub mod Execute
pub mod Synthesize
pub mod Process
pub mod Proactive
pub mod Tick
pub mod Reply
pub mod Approval
pub mod Dispatch
pub mod Respond
use ponko.Common.{
  String, List, Option, none, some, Bool, ◌||◌, not, ◌==◌, is_empty, contains, if◌then◌else◌,
}
use ponko.Effect.{Err, error, Result, ok, err, pure, attempt, ◌>>=◌, ◌>>◌}
use ponko.Chat.{Tool, User, ChatM, ChatEnv}
use ponko.Users.{get_or_fetch}

-- The fields of the workers. A nil client, store or base URL is false or "".
pub record AgentConfig : Type 0 where
  pub has_mcp : Bool
  pub has_claude : Bool
  pub has_slack : Bool
  pub has_user_store : Bool
  pub zone : Option String
  pub system_prompt : String
  pub bot_name : String
  pub base_url : String
  pub tools : List Tool

abbrev pub thread_ts_for_reply : String → String → String
thread_ts_for_reply thread_ts channel_type = if channel_type == "im" then "" else thread_ts

-- internal/llm/errors.go
unfoldable pub llm_is_permanent : Err → Bool
unfolding error
llm_is_permanent e =
    contains (error e) "claude API error (401)"
    || contains (error e) "claude API error (403)"
    || contains (error e) "credit balance is too low"

module _ (env : ChatEnv) (config : AgentConfig) where
  abbrev located : User → Result String → String × Option String
  located u (ok zone) = (u.display_name, some zone)
  located u (err e) = (u.display_name, config.zone)

  abbrev on_user : Result User → String × Option String
  on_user (err e) = ("", config.zone)
  on_user (ok u) = located u (env.load_location u.timezone)

  -- resolveUserFromStore: the display name and the time zone.
  unfoldable pub resolve_user : String → ChatM (String × Option String)
  resolve_user id =
      if config.has_user_store
      then (if is_empty id
          then pure ("", config.zone)
          else (attempt (get_or_fetch env id) >>= λ r. pure (on_user r)))
      else pure ("", config.zone)
