-- ===== src/Examples/Agent.antt =====
-- The stores and jobs of the chat agent at one workflow, one conversation and one schedule.
use ponko.Common.{
  suc, ◌<◌, ◌*◌, arith, ◌+◌, ◌≡◌, refl, ◌↔◌, ◌&&◌, String, List, [], ◌∷◌, some, true, false,
  is_empty, ltb, leb, take, keep, order_by, insert_by, if◌then◌else◌, select, update,
}
use ponko.Effect.{
  World, done, ask, ◌>>=◌, with_context, attempt, statement_db, exec_db, query_db, now, new_uuid,
  ok,
}
use ponko.Effect.Keeps.{Keeps}
use ponko.Chat.{
  ChatTables, ChatCall, User, insert_job, get_user_profile, get_profile, synthesize_job,
  slack_reply_job,
}
use ponko.Config.{Rule}
use ponko.Routing.{match_rules}
use ponko.Routing.First.{IsFirst, match_rules-IsFirst}
use ponko.Conversations.{
  add_turn, try_turn, insert_one, insert_turn, next_index, find_thread, find_or_create_conversation,
  transition_status,
}
use ponko.Conversations.Turns.{IsNumbered, add_turn-IsNumbered}
use ponko.Conversations.Identity.{transition_status-once}
use ponko.Conversations.History.{
  StoreCall, find_or_create, add, move, run_call, run_calls, find_or_create_conversation-later,
}
use ponko.Outbox.{enqueue}
use ponko.WorkflowStore.{
  wf_id, get_output, select_output, create_step, update_step_status, save_output,
  update_workflow_status, write_row, write_workflow, get_conversation_id,
}
use ponko.WorkflowStore.FanIn.{finish_tasks, finish_tasks-trace}
use ponko.Schedules.{get_by_slug, get_due, is_due, due_before, create_with_quota}
use ponko.Schedules.Tools.{is_creator, execute_cancel_schedule}
use ponko.Schedules.Quota.{IsWithin, create_with_quota-IsWithin}
use ponko.Schedules.Permission.{execute_cancel_schedule-refused}
use ponko.Channels.{get_config, upsert_config}
use ponko.Channels.Upsert.{stored, upsert_config-get_config}
use ponko.Users.{user_key, fetch_user, get_or_fetch}
use ponko.Users.Cache.{is_fresh, get_or_fetch-trace, get_or_fetch-cached}
use ponko.Agent.Proactive.{scheduler_tick}
use ponko.Agent.Respond.{respond, reply_of, respond_in}
use ponko.Agent.Reply.{IsCompleted, IsQueued, respond-IsCompleted, reply_of-routes}
use ponko.Agent.Tick.{recorded, scheduler_tick-jobs}
use ponko.Examples.Chat.{env, healthy, tables, world, workflow, config, schedule, reply}

abbrev start : World ChatTables ChatCall
start = world tables

abbrev rules : List Rule
rules =
    record { workflow = "bug"; labels = "bug" ∷ [] } ∷ record { workflow = "any"; labels = [] } ∷ []

match_rules-IsFirst_example :
    (match_rules rules ("docs" ∷ []) ≡ ok "any") ↔ IsFirst rules ("docs" ∷ []) "any"
match_rules-IsFirst_example = match_rules-IsFirst rules ("docs" ∷ []) "any"

add_turn-IsNumbered_example : Keeps IsNumbered (add_turn env "c1" "w1" "message")
add_turn-IsNumbered_example = add_turn-IsNumbered env "c1" "w1" "message"

abbrev after_first : World ChatTables ChatCall
after_first = (find_or_create_conversation env "C2" "9" start).1

first_call : (find_or_create_conversation env "C2" "9" start).0 ≡ done ("new", true)
unfolding find_or_create_conversation find_thread select ◌>>=◌ with_context statement_db now
    new_uuid
first_call = refl

-- Other threads and a turn come between.
abbrev between : List StoreCall
between = find_or_create "C3" "9" ∷ add "new" "w1" "message" ∷ move "new" "active" "completed" ∷ []

abbrev later : World ChatTables ChatCall
later = run_calls env between after_first

later_call : (find_or_create_conversation env "C2" "9" later).0 ≡ done ("new", false)
unfolding run_calls run_call add_turn try_turn insert_one insert_turn next_index attempt exec_db
    transition_status find_or_create_conversation find_thread select update ◌>>=◌ with_context
    statement_db now new_uuid
later_call = refl

find_or_create_conversation-later_example :
    (◌≡◌ {A = String} "new" "new")
    × (false ≡ false)
    × ((find_or_create_conversation env "C2" "9" later).1.tables ≡ later.tables)
find_or_create_conversation-later_example =
    find_or_create_conversation-later "C2" "9" env between start "new" "new" true false first_call
      later_call

approved : (transition_status env "c1" "awaiting_approval" "active" start).0 ≡ done tt
unfolding transition_status select ◌>>=◌ with_context statement_db now
approved = refl

transition_status-once_example : ¬ (
    (transition_status env "c1" "awaiting_approval" "completed"
      (transition_status env "c1" "awaiting_approval" "active" start).1).0
    ≡ done tt)
transition_status-once_example =
    transition_status-once env "c1" start "awaiting_approval" "active" "completed" (λ e. cc)
      approved

one_workflow : select wf_id "w1" tables.workflows ≡ some workflow
unfolding select
one_workflow = refl

finish_tasks-trace_example :
    (finish_tasks env "w1" 2 start).trace
    ≡ (if ltb 0 2 && leb 2 (0 + 2) then insert_job (synthesize_job "w1") ∷ [] else [])
finish_tasks-trace_example = finish_tasks-trace env healthy "w1" 2 start workflow one_workflow

create_with_quota-IsWithin_example : Keeps (IsWithin 10 "C1") (create_with_quota env schedule 10)
create_with_quota-IsWithin_example = create_with_quota-IsWithin 10 "C1" env schedule

has_schedule : (get_by_slug env "C1" "standup" start).0 ≡ done schedule
unfolding get_by_slug ◌>>=◌ with_context query_db
has_schedule = refl

made_by_other : is_creator schedule "U1" ≡ false
unfolding is_creator
made_by_other = refl

is_plain :
    (u : User)
    → (get_or_fetch env "U1" (get_by_slug env "C1" "standup" start).1).0 ≡ done u
    → u.is_admin ≡ false
unfolding get_or_fetch get_by_slug select ◌>>=◌ with_context query_db now
is_plain u h = cc

execute_cancel_schedule-refused_example :
    (execute_cancel_schedule env "C1" "standup" "U1" start).1.tables.schedules ≡ schedule ∷ []
execute_cancel_schedule-refused_example =
    execute_cancel_schedule-refused env "C1" "standup" "U1" start schedule has_schedule
      made_by_other is_plain

is_due_now : (get_due env start).0 ≡ done (schedule ∷ [])
unfolding get_due order_by insert_by ◌>>=◌ with_context query_db now
is_due_now = refl

scheduler_tick-jobs_example :
    (schedule ∷ [] ≡ take 100 (order_by due_before (keep (is_due 1000) (schedule ∷ []))))
    × ((scheduler_tick env start).1.trace ≡ recorded (schedule ∷ []) [])
    × ((scheduler_tick env start).1.tables ≡ tables)
scheduler_tick-jobs_example = scheduler_tick-jobs env start (schedule ∷ []) is_due_now

written : (upsert_config env config start).0 ≡ done tt
unfolding upsert_config select exec_db
written = refl

read_back : (get_config env "C1" (upsert_config env config start).1).0 ≡ done (some (stored config))
unfolding get_config upsert_config select query_db exec_db
read_back = refl

upsert_config-get_config_example :
    (◌≡◌ {A = String} "C1" "C1"
      → config.respond_mode ≡ ""
      → some (stored config) ≡ some (record config { respond_mode = "mention_only" }))
    × (◌≡◌ {A = String} "C1" "C1"
        → ¬ (config.respond_mode ≡ "")
        → some (stored config) ≡ some config)
    × (¬ (◌≡◌ {A = String} "C1" "C1")
        → some (stored config) ≡ select (λ c. c.channel_id) "C1" tables.configs)
upsert_config-get_config_example =
    upsert_config-get_config env config start written "C1" (some (stored config)) read_back

responded : (respond env "w1" "" start).0 ≡ done tt
unfolding respond reply_of respond_in get_output select_output create_step update_step_status
    save_output update_workflow_status write_row write_workflow get_conversation_id enqueue
    transition_status select update ◌>>=◌ with_context attempt statement_db exec_db now new_uuid
responded = refl

respond-IsCompleted_example : IsCompleted "w1" (respond env "w1" "" start).1.tables
respond-IsCompleted_example = respond-IsCompleted env "w1" "" start responded

replied : (reply_of env "w1" "c1" reply start).0 ≡ done tt
unfolding reply_of respond_in enqueue transition_status select update ◌>>=◌ with_context attempt
    statement_db now new_uuid
replied = refl

reply_of-routes_example :
    let after = (reply_of env "w1" "c1" reply start).1 in
    (is_empty "c1" ≡ true
      → (after.trace ≡ insert_job (slack_reply_job "w1" reply) ∷ [])
        × (after.tables.outbox ≡ tables.outbox))
    × (is_empty "c1" ≡ false → IsQueued env "w1" "c1" reply start after)
reply_of-routes_example = reply_of-routes env "w1" "c1" reply start replied

-- A user that is not in the table yet.
abbrev ann : User
ann = record {
  cached_at = 1002;
  slack_user_id = "U2";
  display_name = "Ann";
  timezone = "UTC";
  is_admin = false;
}

had : (get_or_fetch env "U2" start).0 ≡ done ann
unfolding get_or_fetch fetch_user get_profile select ask ◌>>=◌ with_context exec_db query_db now
had = refl

abbrev after_fetch : World ChatTables ChatCall
after_fetch = (get_or_fetch env "U2" start).1

young : env.host.clock (suc after_fetch.tick) < 1002 + 24 * 60 * 60 * 1_000_000_000
unfolding get_or_fetch fetch_user get_profile select ask ◌>>=◌ with_context exec_db query_db now
young = omega arith

get_or_fetch-cached_example :
    ((get_or_fetch env "U2" after_fetch).0 ≡ done ann)
    × ((get_or_fetch env "U2" after_fetch).1.trace ≡ after_fetch.trace)
    × ((get_or_fetch env "U2" after_fetch).1.tables ≡ after_fetch.tables)
get_or_fetch-cached_example = get_or_fetch-cached env "U2" ann start after_fetch had refl refl young

get_or_fetch-trace_example : (get_or_fetch env "U2" start).1.trace ≡ (
    if is_fresh (env.host.clock 1) (select user_key "U2" tables.users)
    then []
    else get_user_profile "U2" ∷ [])
get_or_fetch-trace_example = get_or_fetch-trace env "U2" start refl
