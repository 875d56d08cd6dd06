-- ===== src/Event.antt =====
-- internal/event/event.go: the entries of the audit log. A payload `map[string]any` is the list of
-- its pairs; the bus stamps the time, so an entry as it is handed to Emit has none.
use ponko.Common.{ℕ, String, List}

pub data EventType : Type 0 where
  task_created task_started phase_started phase_completed task_blocked task_completed : EventType
  task_failed task_cancelled budget_exceeded job_started job_completed job_failed : EventType

pub data Value : Type 0 where
  str : String → Value
  num : ℕ → Value
  strs : List String → Value
  usd : ℕ → Value

pub record Event : Type 0 where
  pub type : EventType
  pub task_id : String
  pub payload : List (String × Value)
