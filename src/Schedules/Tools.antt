-- ===== src/Schedules/Tools.antt =====
-- internal/schedule/tools.go: the three tools that the model may call. A reply is a fixed text round
-- the values of its constructor; a cron expression stands in it for its words (cronToHuman).
use Prim.Native.String.{len, slice}
use ponko.Common.{
  ℕ, zero, ◌-◌, String, List, [], ◌∷◌, Option, none, some, Bool, true, false, ◌==◌, ◌⧺◌, is_empty,
  ◌||◌, map, ltb, if◌then◌else◌,
}
use ponko.Effect.{
  Err, external, errorn, wrap, errorf, Result, ok, err, pure, raise, lift, with_context, attempt,
  ◌>>=◌, ◌>>◌, now, error,
}
use ponko.Chat.{ScheduledMessage, User, ChatM, ChatEnv}
use ponko.Users.{get_or_fetch}
use ponko.Schedules.{
  create_with_quota, quota_exceeded, next_run_at, get_by_slug, list_by_channel, cancel,
}

abbrev pub max_schedules_per_channel : ℕ
max_schedules_per_channel = 10

pub record CreateScheduleInput : Type 0 where
  pub prompt : String
  pub cron_expression : String
  pub channel_id : String
  pub timezone : String
  pub slug : String

pub record ScheduleLine : Type 0 where
  pub slug : String
  pub prompt : String
  pub recurrence : String
  pub next_run : ℕ
  pub created_by : String

pub data ToolReply : Type 0 where
  schedule_created : (slug prompt recurrence : String) (next_run : ℕ) (zone : String) → ToolReply
  no_schedules : ToolReply
  active_schedules : List ScheduleLine → ToolReply
  no_such_schedule : (slug : String) → ToolReply
  no_permission : ToolReply
  schedule_cancelled : (slug prompt recurrence : String) → ToolReply

-- A cut inside a character keeps whole characters.
unfoldable pub truncate_prompt : String → ℕ → String
truncate_prompt s max = if ltb max (len s) then slice s 0 (max - 3) ⧺ "..." else s

abbrev pub some_unless_empty : String → Option String
some_unless_empty s = if is_empty s then none else some s

abbrev pub or_blank : Option String → String
or_blank none = ""
or_blank (some s) = s

abbrev pub message_of : CreateScheduleInput → String → ℕ → ScheduledMessage
message_of input created_by next = record {
  next_run_at = next;
  created_at = zero;
  updated_at = zero;
  last_run_at = none;
  schedule_cron = some input.cron_expression;
  created_by = some_unless_empty created_by;
  schedule_id = "";
  channel_id = input.channel_id;
  prompt = input.prompt;
  slug = input.slug;
  one_shot = false;
  enabled = true;
}

-- errors.Is(err, ErrQuotaExceeded): the error itself or one that is wrapped in it. Errors of the
-- same text are the same error in the model.
abbrev pub is_quota_exceeded : Err → Bool
is_quota_exceeded (external s) = s == error quota_exceeded
is_quota_exceeded (wrap context e) = is_quota_exceeded e
is_quota_exceeded (errorf s) = false
is_quota_exceeded (errorn s ns) = false

unfoldable pub is_creator : ScheduledMessage → String → Bool
is_creator m user = go m.created_by
  where
    go : Option String → Bool
    go none = false
    go (some creator) = creator == user

-- The map nameCache: the names of the creators that could be fetched.
unfoldable pub creator_name : List (String × String) → Option String → String
creator_name names none = "unknown"
creator_name [] (some id) = "unknown"
creator_name ((key, name) ∷ names) (some id) =
    let rest = creator_name names (some id) in
    if key == id then (if is_empty name then "unknown" else name) else rest

abbrev pub schedule_line : List (String × String) → ScheduledMessage → ScheduleLine
schedule_line names m = record {
  slug = m.slug;
  prompt = truncate_prompt m.prompt 60;
  recurrence = or_blank m.schedule_cron;
  next_run = m.next_run_at;
  created_by = creator_name names m.created_by;
}

unfoldable pub holds : String → List String → Bool
holds id [] = false
holds id (x ∷ xs) = x == id || holds id xs

-- The keys of the map, each once.
abbrev pub with_creator : Option String → List String → List String
unfolding holds
with_creator none ids = ids
with_creator (some id) ids = if holds id ids then ids else id ∷ ids

unfoldable pub creators : List ScheduledMessage → List String
unfolding holds
creators [] = []
creators (m ∷ ms) = with_creator m.created_by (creators ms)

abbrev pub no_rows_in : List ScheduledMessage → Bool
no_rows_in [] = true
no_rows_in (m ∷ ms) = false

module _ (env : ChatEnv) where
  abbrev after_create : CreateScheduleInput → ℕ → Result (Unit {0}) → ChatM ToolReply
  after_create input next (ok _) = pure (
      schedule_created input.slug (truncate_prompt input.prompt 80) input.cron_expression next
        input.timezone)
  after_create input next (err e) =
      if is_quota_exceeded e
      then raise (
          errorf
            "this channel has reached the limit of 10 active schedules — cancel an existing schedule first")
      else raise e

  unfoldable pub execute_create_schedule : CreateScheduleInput → String → ChatM ToolReply
  unfolding truncate_prompt
  execute_create_schedule input created_by = do
    zone ←
        with_context ("invalid timezone " ⧺ input.timezone)
          (lift (env.load_location input.timezone))
    moment ← now env.host
    next ← next_run_at env input.cron_expression zone moment
    created ←
        attempt (create_with_quota env (message_of input created_by next) max_schedules_per_channel)
    after_create input next created

  -- Whether the requesting user may cancel the schedule.
  unfoldable pub may_cancel : ScheduledMessage → String → ChatM Bool
  unfolding is_creator
  may_cancel m user =
      if is_creator m user
      then pure true
      else (with_context "checking user permissions" (get_or_fetch env user) >>= λ u.
          pure u.is_admin)

  unfoldable pub cancel_allowed : ScheduledMessage → Bool → ChatM ToolReply
  unfolding truncate_prompt
  cancel_allowed m false = pure no_permission
  cancel_allowed m true =
      cancel env m.schedule_id
      >> pure (schedule_cancelled m.slug (truncate_prompt m.prompt 80) (or_blank m.schedule_cron))

  unfoldable pub on_schedule : String → String → Result ScheduledMessage → ChatM ToolReply
  unfolding may_cancel cancel_allowed
  on_schedule slug user (err e) = pure (no_such_schedule slug)
  on_schedule slug user (ok m) = may_cancel m user >>= cancel_allowed m

  unfoldable pub execute_cancel_schedule : String → String → String → ChatM ToolReply
  unfolding on_schedule
  execute_cancel_schedule channel slug user =
      attempt (get_by_slug env channel slug) >>= on_schedule slug user

  abbrev name_or_blank : Result User → String
  name_or_blank (err e) = ""
  name_or_blank (ok u) = u.display_name

  -- The loop over the map of the creators, here in the order of their schedules: Go's order is open.
  unfoldable pub fetch_names : List String → ChatM (List (String × String))
  fetch_names [] = pure []
  fetch_names (id ∷ ids) = do
    u ← attempt (get_or_fetch env id)
    rest ← fetch_names ids
    pure ((id, name_or_blank u) ∷ rest)

  unfoldable pub execute_list_schedules : String → ChatM ToolReply
  unfolding fetch_names creator_name truncate_prompt creators
  execute_list_schedules channel = do
    rows ← list_by_channel env channel
    (if no_rows_in rows
        then pure no_schedules
        else (fetch_names (creators rows) >>= λ names.
            pure (active_schedules (map (schedule_line names) rows))))
