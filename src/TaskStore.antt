-- ===== src/TaskStore.antt =====
-- internal/sqlite/task_store.go over the table tasks of internal/sqlite/migrate.go, whose primary
-- key is `id`. The labels, which are stored as JSON, are read back as they were.
pub mod Rows
use ponko.Common.{
  ℕ, suc, ◌+◌, String, List, [], ◌∷◌, ◌++◌, Option, none, some, Bool, is_empty, leb, nat_eq, length,
  keep, if◌then◌else◌, select, update, ◌==◌,
}
use ponko.Effect.{
  Result, ok, err, pure, with_context, ◌>>=◌, ◌>>◌, now, new_uuid, exec_db, query_db, statement_db,
  constraint_failed,
}
use ponko.Orchestrator.{Status, queued, in_progress, blocked, Task, Tables, M, Env}
use ponko.Task.{is_one_of}

abbrev pub task_id : Task → String
task_id t = t.id

abbrev pub find_task : String → Tables → Option Task
find_task id d = select task_id id d.tasks

unfoldable pub select_task_url : String → List Task → Option Task
select_task_url url [] = none
select_task_url url (t ∷ ts) = if t.issue_url == url then some t else select_task_url url ts

-- ORDER BY created_at ASC.
unfoldable pub by_created_asc : Task → List Task → List Task
by_created_asc t [] = t ∷ []
by_created_asc t (u ∷ us) =
    let rest = by_created_asc t us in if leb t.created_at u.created_at then t ∷ u ∷ us else u ∷ rest

unfoldable pub oldest_first : List Task → List Task
unfolding by_created_asc
oldest_first [] = []
oldest_first (t ∷ ts) = by_created_asc t (oldest_first ts)

abbrev pub fill_task_id : String → Task → Task
fill_task_id fresh t = if is_empty t.id then record t { id = fresh } else t

abbrev pub fill_task_times : ℕ → Task → Task
fill_task_times now t =
    if nat_eq t.created_at 0
    then record t { created_at = now; updated_at = now }
    else record t { updated_at = now }

abbrev insert_task : Task → Option Task → Tables → Result (Unit {0} × Tables)
insert_task t none d = ok (tt, record d { tasks = d.tasks ++ t ∷ [] })
insert_task t (some u) d = err constraint_failed

abbrev pub active : List Status
active = queued ∷ in_progress ∷ blocked ∷ []

module _ (env : Env) where
  -- The filled-in task is returned.
  unfoldable pub create_task : Task → M Task
  create_task t = do
    fresh ← new_uuid env.host
    moment ← now env.host
    let filled = fill_task_times moment (fill_task_id fresh t)
    with_context "insert task"
        (statement_db env.host (λ d. insert_task filled (find_task filled.id d) d))
    pure filled

  unfoldable pub get_task : String → M (Option Task)
  get_task id = query_db env.host (find_task id)

  unfoldable pub get_task_by_issue_url : String → M (Option Task)
  unfolding select_task_url
  get_task_by_issue_url url = query_db env.host (λ d. select_task_url url d.tasks)

  -- No statuses, no query.
  unfoldable pub list_by_status : List Status → M (List Task)
  unfolding oldest_first is_one_of
  list_by_status [] = pure []
  list_by_status (s ∷ statuses) = with_context "list tasks" (
      query_db env.host (λ d. oldest_first (keep (λ t. is_one_of t.status (s ∷ statuses)) d.tasks)))

  -- UPDATE tasks SET …, updated_at = ? WHERE id = ?
  unfoldable pub modify_task : String → String → (ℕ → Task → Task) → M (Unit {0})
  modify_task context id f = do
    moment ← now env.host
    with_context context
        (exec_db env.host (λ d. record d { tasks = update task_id id (f moment) d.tasks }))

  -- The move is not checked against the table of internal/task.
  unfoldable pub update_status : String → Status → String → M (Unit {0})
  unfolding modify_task
  update_status id status last_error =
      modify_task "update status" id
        (λ now t. record t { status = status; last_error = last_error; updated_at = now })

  unfoldable pub update_phase : String → String → M (Unit {0})
  unfolding modify_task
  update_phase id phase =
      modify_task "update phase" id (λ now t. record t { phase = phase; updated_at = now })

  unfoldable pub incr_attempts : String → M (Unit {0})
  unfolding modify_task
  incr_attempts id =
      modify_task "incr attempts" id
        (λ now t. record t { attempts = t.attempts + 1; updated_at = now })

  unfoldable pub add_task_cost : String → ℕ → M (Unit {0})
  unfolding modify_task
  add_task_cost id delta =
      modify_task "add cost" id
        (λ now t. record t { cost_usd = t.cost_usd + delta; updated_at = now })

  unfoldable pub count_active : M ℕ
  unfolding is_one_of
  count_active =
      with_context "count active"
        (query_db env.host (λ d. length (keep (λ t. is_one_of t.status active) d.tasks)))
