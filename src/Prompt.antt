-- ===== src/Prompt.antt =====
-- internal/jobs/process.go: the texts of the prompts, which tools a channel may use, and the prompt
-- that the agent's jobs share.
use ponko.Common.{
  ℕ, String, List, [], ◌∷◌, Option, none, some, Bool, true, false, ◌&&◌, ◌||◌, not, ◌==◌, ◌⧺◌,
  is_empty, keep, if◌then◌else◌,
}
use ponko.Chat.{ChannelConfig, Tool, ChatEnv}

abbrev pub default_system_prompt_for : String → String
default_system_prompt_for bot_name =
    "You are " ⧺ bot_name
    ⧺ ", a helpful assistant in a Slack workspace. Be direct and concise. Do not use emoji in your responses unless the user asks for them. When you don't know something, say so briefly rather than over-explaining what you can't do. Never generate plan summaries, numbered step lists, or progress tracking URLs. Just do the work and reply with the result."

abbrev pub knowledge_base_prompt_addition : String
knowledge_base_prompt_addition =
    " You have access to a knowledge base via MCP tools. Proactively search it when questions relate to topics it covers — don't wait for the user to mention it by name. If a search returns no results, say you don't have that information rather than guessing."

abbrev pub web_search_prompt_addition : String
web_search_prompt_addition =
    " You have access to web search. Use it when the user asks about current events, weather, prices, competitor research, recent news, or anything that requires up-to-date information beyond your training data. Never claim you cannot access the internet or browse websites — you have web search tools available. If a search fails, report the actual error instead of claiming you lack the capability. Summarize results concisely and cite sources with URLs. Do not search for things you already know."

abbrev pub slack_thread_prompt_addition : String
slack_thread_prompt_addition =
    " When a user shares a Slack thread URL (like https://workspace.slack.com/archives/CHANNEL/pTIMESTAMP), use the read_slack_thread tool to fetch the thread contents. This lets you see what was discussed and respond helpfully."

abbrev pub schedule_prompt_addition : String
schedule_prompt_addition =
    " You can manage scheduled recurring messages in Slack channels using these tools:\n- create_schedule: Create a new recurring message. Translate the user's natural language schedule into a 5-field cron expression (minute hour day-of-month month day-of-week). Examples: \"every weekday at 9am\" → 0 9 * * 1-5, \"every Monday at 10am\" → 0 10 * * 1, \"daily at 8:30am\" → 30 8 * * *, \"every hour\" → 0 * * * *. Generate a short kebab-case slug from the prompt text (e.g., \"daily-standup\", \"weekly-report\"). Resolve the user's timezone from context. If the schedule request is ambiguous, ask for clarification before creating.\n- list_schedules: List all active scheduled messages in the current channel.\n- cancel_schedule: Cancel a schedule by its slug. Use list_schedules first if the user doesn't know the slug."

-- One of the names, in the order of the names.
unfoldable pub includes : List String → String → Bool
includes [] name = false
includes (allowed ∷ allowlist) name = allowed == name || includes allowlist name

unfoldable pub tools_include : List String → List String → Bool
unfolding includes
tools_include allowlist [] = false
tools_include allowlist (name ∷ names) = includes allowlist name || tools_include allowlist names

abbrev pub internal_tools : List String
internal_tools = "create_schedule" ∷ "list_schedules" ∷ "cancel_schedule" ∷ "read_slack_thread" ∷ []

unfoldable pub filter_tools : List Tool → List String → List Tool
unfolding includes
filter_tools tools allowlist =
    keep (λ t. includes allowlist t.tool_name || includes internal_tools t.tool_name) tools

-- A nil MCP client is `has_mcp = false`; a nil time zone is none.
pub record PromptConfig : Type 0 where
  pub has_mcp : Bool
  pub channel_cfg : Option ChannelConfig
  pub moment : ℕ
  pub zone : Option String
  pub default_prompt : String
  pub bot_name : String
  pub display_name : String
  pub tools : List Tool

abbrev pub when_true : Bool → String → String
when_true b text = if b then text else ""

unfoldable pub base_prompt : PromptConfig → Option ChannelConfig → String
base_prompt pc (some cfg) = cfg.system_prompt
base_prompt pc none =
    if is_empty pc.default_prompt then default_system_prompt_for pc.bot_name else pc.default_prompt

-- Which of the two additions about MCP tools, by the allowlist.
unfoldable pub tool_additions : Bool → Option (List String) → String
unfolding tools_include includes
tool_additions has_mcp none =
    when_true has_mcp (knowledge_base_prompt_addition ⧺ web_search_prompt_addition)
tool_additions has_mcp (some allowlist) =
    when_true (has_mcp && tools_include allowlist ("search_thoughts" ∷ "capture_thought" ∷ []))
      knowledge_base_prompt_addition
    ⧺ when_true (has_mcp && tools_include allowlist ("web_search" ∷ [])) web_search_prompt_addition

abbrev pub allowlist_of : Option ChannelConfig → Option (List String)
allowlist_of none = none
allowlist_of (some cfg) = cfg.tool_allowlist

abbrev pub not_empty : List Tool → Bool
not_empty [] = false
not_empty (t ∷ ts) = true

-- The tools, and whether there is an MCP client to call them.
unfoldable pub usable_tools : PromptConfig → Option (List String) → List Tool × Bool
unfolding filter_tools includes
usable_tools pc none = (pc.tools, pc.has_mcp)
usable_tools pc (some allowlist) =
    let filtered = filter_tools pc.tools allowlist in (filtered, pc.has_mcp && not_empty filtered)

unfoldable pub build_system_prompt : ChatEnv → PromptConfig → String × (List Tool × Bool)
unfolding base_prompt tool_additions usable_tools
build_system_prompt env pc = (
  base_prompt pc pc.channel_cfg
      ⧺ tool_additions pc.has_mcp (allowlist_of pc.channel_cfg)
      ⧺ slack_thread_prompt_addition
      ⧺ schedule_prompt_addition
      ⧺ "\n\nIt is currently "
      ⧺ env.local_time pc.zone pc.moment
      ⧺ "."
      ⧺ when_true (not (is_empty pc.display_name))
          ("\nYou are talking to " ⧺ pc.display_name ⧺ "."),
  usable_tools pc (allowlist_of pc.channel_cfg),
)
