-- ===== src/WorkflowStore/FanIn.antt =====
-- The count of a workflow's tasks, and the job that the last one starts.
use ponko.Common.{
  ℕ, zero, suc, ◌+◌, String, ◌≡◌, refl, ◌∷◌, some, arith, nat_eq, ltb, leb, ◌&&◌, if◌then◌else◌,
  select, select-update_self,
}
use ponko.Effect.{World, ◌>>=◌, with_context, statement_db, now, ask}
use ponko.Effect.Healthy.{IsHealthy}
use ponko.Chat.{WorkflowRow, ChatTables, ChatCall, ChatEnv, insert, insert_job, synthesize_job}
use ponko.WorkflowStore.{wf_id, write_workflow, count_task, increment_completed_tasks}
use ponko.Agent.Execute.{count_completed, maybe_trigger_synthesize}

-- The end of an execute job, also of a failed one.
unfoldable pub finish_task :
    ChatEnv → String → World ChatTables ChatCall → World ChatTables ChatCall
finish_task env id w =
    ((count_completed env id >>= λ counts. maybe_trigger_synthesize env id counts.0 counts.1) w).1

unfoldable pub finish_tasks :
    ChatEnv → String → ℕ → World ChatTables ChatCall → World ChatTables ChatCall
unfolding finish_task
finish_tasks env id zero w = w
finish_tasks env id (suc n) w = finish_tasks env id n (finish_task env id w)

module _ (env : ChatEnv) (healthy : IsHealthy env.host) (id : String) where
  finish_task-step :
      (w : World ChatTables ChatCall) (row : WorkflowRow)
      → select wf_id id w.tables.workflows ≡ some row
      → let after = finish_task env id w in
        (select wf_id id after.tables.workflows ≡ some (count_task (env.host.clock w.tick) row))
        × (after.trace ≡ (
            if nat_eq (row.completed_tasks + 1) row.total_tasks
            then insert_job (synthesize_job id) ∷ w.trace
            else w.trace))
  unfolding finish_task count_completed increment_completed_tasks maybe_trigger_synthesize
      write_workflow insert ◌>>=◌ with_context statement_db now ask
  finish_task-step w row h =
      let calm = healthy (suc w.tick) in
      let found =
        select-update_self wf_id id (count_task (env.host.clock w.tick)) w.tables.workflows
          (λ r. refl) row h in
      ground arith

  -- With a database that takes every statement, a number of tasks of a stored workflow that end one
  -- after the other make no call but, if the count comes from below the total to it, one request to
  -- the queue for the job that composes the reply; the request is not made again, also if the queue
  -- refuses it.
  pub finish_tasks-trace :
      (n : ℕ) (w : World ChatTables ChatCall) (row : WorkflowRow)
      → select wf_id id w.tables.workflows ≡ some row
      → (finish_tasks env id n w).trace ≡ (
          if ltb row.completed_tasks row.total_tasks
            && leb row.total_tasks (row.completed_tasks + n)
          then insert_job (synthesize_job id) ∷ w.trace
          else w.trace)
  unfolding finish_tasks
  finish_tasks-trace zero w row h = ground arith
  finish_tasks-trace (suc n) w row h =
      let (found, traced) = finish_task-step w row h in
      let rest =
        finish_tasks-trace n (finish_task env id w) (count_task (env.host.clock w.tick) row)
          found in
      ground arith
