-- ===== src/Orchestrator/Queue.antt =====
-- The jobs that the workers of internal/worker put into River's queue.
use ponko.Common.{ℕ, String, List}

pub record TaskPhaseArgs : Type 0 where
  pub issue_url : String
  pub repo : String
  pub title : String
  pub body : String
  pub workflow : String
  pub phase : String
  pub labels : List String
  pub issue_number : ℕ
  pub cost_usd : ℕ

pub record ApprovalPollerArgs : Type 0 where
  pub issue_url : String
  pub next_phase_args : TaskPhaseArgs

-- The argument of Client.Insert.
pub data Job : Type 0 where
  task_phase : TaskPhaseArgs → Job
  approval_poller : ApprovalPollerArgs → Job
