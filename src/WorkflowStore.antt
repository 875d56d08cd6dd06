-- ===== src/WorkflowStore.antt =====
-- internal/workflow/workflow.go over the tables workflows (key `workflow_id`), workflow_steps (key
-- `step_id`) and workflow_outputs, which has no key.
pub mod FanIn
use ponko.Common.{
  ℕ, suc, ◌+◌, String, List, [], ◌∷◌, ◌++◌, Option, none, some, Bool, true, false, ◌&&◌, ◌||◌, not,
  ◌==◌, ltb, leb, nat_eq, take, keep, if◌then◌else◌, select, update, order_by, starts_with,
}
use ponko.Effect.{
  Err, Result, ok, err, no_rows, constraint_failed, pure, ◌>>=◌, ◌>>◌, now, new_uuid, exec_db,
  query_db, statement_db,
}
use ponko.Chat.{WorkflowRow, Step, Output, ChatTables, ChatM, ChatEnv}

abbrev pub wf_id : WorkflowRow → String
wf_id w = w.workflow_id

abbrev pub step_key : Step → String
step_key s = s.step_id

abbrev pub new_workflow : String → ℕ → String → WorkflowRow
new_workflow fresh moment type = record {
  created_at = moment;
  updated_at = moment;
  workflow_id = fresh;
  workflow_type = type;
  status = "pending";
  conversation = none;
  total_tasks = 0;
  completed_tasks = 0;
}

abbrev insert_workflow :
    WorkflowRow → Option WorkflowRow → ChatTables → Result (String × ChatTables)
insert_workflow w none d = ok (w.workflow_id, record d { workflows = d.workflows ++ w ∷ [] })
insert_workflow w (some old) d = err constraint_failed

abbrev pub workflow_or_none : Option WorkflowRow → ChatTables → Result (WorkflowRow × ChatTables)
workflow_or_none none d = err no_rows
workflow_or_none (some w) d = ok (w, d)

abbrev insert_step : Step → Option Step → ChatTables → Result (String × ChatTables)
insert_step s none d = ok (s.step_id, record d { steps = d.steps ++ s ∷ [] })
insert_step s (some old) d = err constraint_failed

-- ORDER BY started_at, step_name. NULL is the last.
abbrev time_before : Option ℕ → Option ℕ → Bool → Bool
time_before none none tie = tie
time_before none (some t) tie = false
time_before (some s) none tie = true
time_before (some s) (some t) tie = if nat_eq s t then tie else ltb s t

abbrev pub step_before : (String → String → Bool) → Step → Step → Bool
step_before string_le s t =
    time_before s.started_at t.started_at (string_le s.step_name t.step_name)

abbrev pub output_before : Output → Output → Bool
output_before o p = leb o.created_at p.created_at

abbrev pub created_after : WorkflowRow → WorkflowRow → Bool
created_after w v = leb v.created_at w.created_at

-- A step gets its time of completion with the status "complete" only.
abbrev pub set_step_status : ℕ → String → Step → Step
set_step_status moment status s =
    if status == "complete"
    then record s { status = status; completed_at = some moment }
    else record s { status = status }

unfoldable pub update_steps_named : String → String → (Step → Step) → List Step → List Step
update_steps_named id name f [] = []
update_steps_named id name f (s ∷ ss) =
    (if s.workflow_id == id && s.step_name == name then f s else s)
    ∷ update_steps_named id name f ss

unfoldable pub select_output : String → String → List Output → Option Output
select_output id name [] = none
select_output id name (o ∷ os) =
    if o.workflow_id == id && o.step_name == name then some o else select_output id name os

abbrev payload_or_none : Option Output → ChatTables → Result (String × ChatTables)
payload_or_none none d = err no_rows
payload_or_none (some o) d = ok (o.payload, d)

abbrev or_empty : Option String → String
or_empty none = ""
or_empty (some s) = s

-- RETURNING completed_tasks, total_tasks
abbrev pub counted : Option WorkflowRow → ChatTables → Result ((ℕ × ℕ) × ChatTables)
counted none d = err no_rows
counted (some w) d = ok ((w.completed_tasks, w.total_tasks), d)

abbrev pub count_task : ℕ → WorkflowRow → WorkflowRow
count_task moment w = record w { completed_tasks = w.completed_tasks + 1; updated_at = moment }

unfoldable pub write_workflow : String → (WorkflowRow → WorkflowRow) → ChatTables → ChatTables
write_workflow id f d = record d { workflows = update wf_id id f d.workflows }

pub record WorkflowWithDetails : Type 0 where
  pub workflow : WorkflowRow
  pub details_steps : List Step
  pub details_outputs : List Output

module _ (env : ChatEnv) where
  unfoldable pub create_workflow : String → ChatM String
  create_workflow type = do
    fresh ← new_uuid env.host
    moment ← now env.host
    statement_db env.host
        (λ d. insert_workflow (new_workflow fresh moment type) (select wf_id fresh d.workflows) d)

  unfoldable pub get_workflow : String → ChatM WorkflowWithDetails
  unfolding order_by
  get_workflow id = do
    w ← statement_db env.host (λ d. workflow_or_none (select wf_id id d.workflows) d)
    ss ←
        query_db env.host
          (λ d. order_by (step_before env.string_le) (keep (λ s. s.workflow_id == id) d.steps))
    os ← query_db env.host (λ d. order_by output_before (keep (λ o. o.workflow_id == id) d.outputs))
    pure (record { workflow = w; details_steps = ss; details_outputs = os })

  unfoldable pub list_recent : ℕ → ChatM (List WorkflowRow)
  unfolding order_by
  list_recent limit = query_db env.host (λ d. take limit (order_by created_after d.workflows))

  unfoldable pub create_step : String → String → ChatM String
  create_step id name = do
    fresh ← new_uuid env.host
    moment ← now env.host
    statement_db env.host (λ d.
        insert_step
          (record {
            started_at = some moment;
            completed_at = none;
            step_id = fresh;
            workflow_id = id;
            step_name = name;
            status = "pending";
          })
          (select step_key fresh d.steps) d)

  unfoldable pub update_step_status : String → String → ChatM (Unit {0})
  update_step_status step status = do
    moment ← now env.host
    exec_db env.host
        (λ d. record d { steps = update step_key step (set_step_status moment status) d.steps })

  unfoldable pub update_step_status_by_name : String → String → String → ChatM (Unit {0})
  unfolding update_steps_named
  update_step_status_by_name id name status = do
    moment ← now env.host
    exec_db env.host (λ d. record d {
      steps = update_steps_named id name (set_step_status moment status) d.steps;
    })

  unfoldable pub save_output : String → String → String → ChatM (Unit {0})
  save_output id name content = do
    moment ← now env.host
    exec_db env.host (λ d. record d {
      outputs =
          d.outputs
          ++ record { created_at = moment; workflow_id = id; step_name = name; payload = content }
            ∷ [];
    })

  -- With more than one row, the first.
  unfoldable pub get_output : String → String → ChatM String
  unfolding select_output
  get_output id name =
      statement_db env.host (λ d. payload_or_none (select_output id name d.outputs) d)

  unfoldable pub get_conversation_id : String → ChatM String
  get_conversation_id id = do
    w ← statement_db env.host (λ d. workflow_or_none (select wf_id id d.workflows) d)
    pure (or_empty w.conversation)

  unfoldable pub write_row : String → (ℕ → WorkflowRow → WorkflowRow) → ChatM (Unit {0})
  unfolding write_workflow
  write_row id f = do moment ← now env.host; exec_db env.host (write_workflow id (f moment))

  unfoldable pub set_conversation_id : String → String → ChatM (Unit {0})
  unfolding write_row
  set_conversation_id id conversation =
      write_row id (λ t w. record w { conversation = some conversation; updated_at = t })

  unfoldable pub update_workflow_status : String → String → ChatM (Unit {0})
  unfolding write_row
  update_workflow_status id status =
      write_row id (λ t w. record w { status = status; updated_at = t })

  -- The prefix has no wildcard of LIKE.
  unfoldable pub get_outputs_by_prefix : String → String → ChatM (List Output)
  unfolding order_by
  get_outputs_by_prefix id prefix = query_db env.host (λ d.
      order_by (λ o p. env.string_le o.step_name p.step_name)
        (keep (λ o. o.workflow_id == id && starts_with o.step_name prefix) d.outputs))

  unfoldable pub set_total_tasks : String → ℕ → ChatM (Unit {0})
  unfolding write_row
  set_total_tasks id total = write_row id (λ t w. record w { total_tasks = total; updated_at = t })

  unfoldable pub increment_completed_tasks : String → ChatM (ℕ × ℕ)
  unfolding write_workflow
  increment_completed_tasks id = do
    moment ← now env.host
    statement_db env.host (λ d.
        let after = write_workflow id (count_task moment) d in
        counted (select wf_id id after.workflows) after)
