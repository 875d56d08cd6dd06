-- ===== src/Schedules.antt =====
-- internal/schedule/schedule.go and cron.go over the table scheduled_messages, whose primary key is
-- `id`, with the constraint UNIQUE(channel_id, slug) for slugs that are not empty.
pub mod Tools
pub mod Quota
pub mod Permission
use ponko.Common.{
  ℕ, zero, suc, ◌+◌, ◌-◌, String, List, [], ◌∷◌, ◌++◌, Option, none, some, Bool, true, false, ◌&&◌,
  ◌||◌, not, ◌==◌, ◌⧺◌, is_empty, leb, ltb, nat_eq, length, take, keep, if◌then◌else◌, select,
  update, order_by,
}
use ponko.Effect.{
  Err, external, errorf, wrap, Result, ok, err, pure, raise, lift, with_context, attempt, ◌>>=◌,
  ◌>>◌, now, new_uuid, exec_db, query_db, statement_db,
}
use ponko.Chat.{ScheduledMessage, ChatTables, ChatM, ChatEnv}

abbrev pub schedule_key : ScheduledMessage → String
schedule_key m = m.schedule_id

abbrev pub max_slug_attempts : ℕ
max_slug_attempts = 10

abbrev pub quota_exceeded : Err
quota_exceeded = external "schedule quota exceeded"

abbrev pub is_active_in : String → ScheduledMessage → Bool
is_active_in channel m = m.channel_id == channel && m.enabled

abbrev pub count_active : String → List ScheduledMessage → ℕ
count_active channel rows = length (keep (is_active_in channel) rows)

unfoldable pub has_slug : String → String → List ScheduledMessage → Bool
has_slug channel slug [] = false
has_slug channel slug (m ∷ ms) =
    if m.channel_id == channel && m.slug == slug
    then not (is_empty slug)
    else has_slug channel slug ms

-- The row of an insertion: the columns that it names, and the defaults.
abbrev pub new_schedule : String → ℕ → String → ScheduledMessage → ScheduledMessage
new_schedule fresh moment slug msg = record msg {
  schedule_id = fresh;
  created_at = moment;
  updated_at = moment;
  last_run_at = none;
  slug = slug;
  enabled = true;
}

-- What the driver reports of an insertion: a row, no row to return, or the violated constraint.
pub data Inserted : Type 0 where
  inserted over_quota collides : Inserted

abbrev has_id : Option ScheduledMessage → Bool
has_id none = false
has_id (some m) = true

-- A slug or a fresh id that is taken violates a constraint.
abbrev pub add_schedule : ScheduledMessage → ChatTables → Inserted × ChatTables
add_schedule m d =
    if has_slug m.channel_id m.slug d.schedules
      || has_id (select schedule_key m.schedule_id d.schedules)
    then (collides, d)
    else (inserted, record d { schedules = d.schedules ++ m ∷ [] })

unfoldable pub add_within : ℕ → ScheduledMessage → ChatTables → Inserted × ChatTables
unfolding has_slug
add_within max m d =
    if ltb (count_active m.channel_id d.schedules) max then add_schedule m d else (over_quota, d)

abbrev pub due_before : ScheduledMessage → ScheduledMessage → Bool
due_before m n = leb m.next_run_at n.next_run_at

abbrev pub is_due : ℕ → ScheduledMessage → Bool
is_due moment m = m.enabled && leb m.next_run_at moment

unfoldable pub mark : ℕ → Option ℕ → ScheduledMessage → ScheduledMessage
mark moment (some next) m = record m {
  last_run_at = some moment;
  next_run_at = next;
  updated_at = moment;
}
mark moment none m = record m { last_run_at = some moment; enabled = false; updated_at = moment }

abbrev pub cancelled_at : ℕ → ScheduledMessage → ScheduledMessage
cancelled_at moment m = record m { enabled = false; updated_at = moment }

abbrev one_row : String → List ScheduledMessage → Result ScheduledMessage
one_row slug [] = err (errorf ("no active schedule with slug " ⧺ slug ⧺ " found in this channel"))
one_row slug (m ∷ []) = ok m
one_row slug (m ∷ n ∷ ms) =
    err (wrap "scanning schedule by slug" (external "too many rows in result set"))

module _ (env : ChatEnv) where
  -- The slug of attempt n, counted from 0.
  abbrev pub slug_of : String → ℕ → String
  slug_of slug zero = slug
  slug_of slug (suc n) = slug ⧺ "-" ⧺ env.decimal (suc (suc n))

  -- A way to insert the row with a slug, and what is done after an attempt.
  abbrev pub after_insert : ChatM (Unit {0}) → Result Inserted → ChatM (Unit {0})
  after_insert again (ok inserted) = pure tt
  after_insert again (ok over_quota) = raise quota_exceeded
  after_insert again (ok collides) = again
  after_insert again (err e) =
      if env.is_unique_violation e then again else raise (wrap "creating scheduled message" e)

  unfoldable pub insert_schedule :
      (ScheduledMessage → ChatTables → Inserted × ChatTables)
      → ScheduledMessage
      → String
      → ChatM Inserted
  insert_schedule add msg slug = do
    fresh ← new_uuid env.host
    moment ← now env.host
    statement_db env.host (λ d. ok (add (new_schedule fresh moment slug msg) d))

  -- The attempts that are left, and the number of the next one.
  unfoldable pub try_slugs :
      (ScheduledMessage → ChatTables → Inserted × ChatTables)
      → ℕ
      → ℕ
      → ScheduledMessage
      → ChatM (Unit {0})
  unfolding insert_schedule
  try_slugs add zero n msg =
      raise (errorf ("slug collision: exhausted 10 attempts for slug " ⧺ msg.slug))
  try_slugs add (suc left) n msg =
      let again = try_slugs add left (suc n) msg in
      attempt (insert_schedule add msg (slug_of msg.slug n)) >>= after_insert again

  unfoldable pub create_with_quota : ScheduledMessage → ℕ → ChatM (Unit {0})
  unfolding try_slugs add_within has_slug
  create_with_quota msg max = try_slugs (add_within max) max_slug_attempts 0 msg

  unfoldable pub create : ScheduledMessage → ChatM (Unit {0})
  unfolding try_slugs has_slug
  create msg = try_slugs add_schedule max_slug_attempts 0 msg

  unfoldable pub get_due : ChatM (List ScheduledMessage)
  unfolding order_by
  get_due = do
    moment ← now env.host
    with_context "querying due scheduled messages"
        (query_db env.host (λ d. take 100 (order_by due_before (keep (is_due moment) d.schedules))))

  abbrev run_context : Option ℕ → String
  run_context (some next) = "marking scheduled message run (recurring)"
  run_context none = "marking scheduled message run (one-shot)"

  unfoldable pub mark_run : String → Option ℕ → ChatM (Unit {0})
  unfolding mark
  mark_run id next = do
    moment ← now env.host
    with_context (run_context next) (
        exec_db env.host
          (λ d. record d { schedules = update schedule_key id (mark moment next) d.schedules }))

  unfoldable pub cancel : String → ChatM (Unit {0})
  cancel id = do
    moment ← now env.host
    with_context "cancelling scheduled message" (
        exec_db env.host
          (λ d. record d { schedules = update schedule_key id (cancelled_at moment) d.schedules }))

  unfoldable pub get_by_slug : String → String → ChatM ScheduledMessage
  get_by_slug channel slug = do
    rows ←
        with_context "querying schedule by slug" (
          query_db env.host (λ d. keep (λ m. is_active_in channel m && m.slug == slug) d.schedules))
    lift (one_row slug rows)

  unfoldable pub list_by_channel : String → ChatM (List ScheduledMessage)
  unfolding order_by
  list_by_channel channel =
      with_context "listing scheduled messages for channel"
        (query_db env.host (λ d. order_by due_before (keep (is_active_in channel) d.schedules)))

  -- internal/schedule/cron.go
  unfoldable pub next_run_at : String → String → ℕ → ChatM ℕ
  next_run_at cron zone after =
      with_context ("parsing cron expression " ⧺ cron) (lift (env.next_run cron zone after))
