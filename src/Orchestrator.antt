-- ===== src/Orchestrator.antt =====
-- What the jobs of the issue runner share: the SQLite tables, the dependencies, and the calls that
-- go on record. internal/runtime/runtime.go, internal/approval/status.go, internal/exec/exec.go,
-- internal/config/config.go (Budget, DevRouterConfig, Repo), internal/task/task.go (the data).
-- The agent, the CI and approval checkers, the gh command and encoding/json are fields of `Env`, on
-- which nothing is assumed; a theorem that needs more of them says so.
mod Queue
pub use Queue.*
use ponko.Common.{ℕ, String, List, Option, Bool}
use ponko.Effect.{Result, Host, Exec, ask, tell}
use ponko.Event.{Event}
use ponko.Pipeline.{Story, Pipeline, Track}

pub data Approval : Type 0 where
  waiting approved rejected : Approval

-- The text of a prompt is a fixed template round these values.
pub data Prompt : Type 0 where
  empty : Prompt
  classification : (title labels body : String) → Prompt
  planning : (title body track rationale guidance : String) → Prompt
  implement :
      (issue_title issue_body : String) (previous : List (ℕ × String))
      (title description criteria : String)
      → Prompt

pub record ExecuteRequest : Type 0 where
  pub working_dir : String
  pub skill : String
  pub issue_title : String
  pub issue_body : String
  pub issue_url : String
  pub model : String
  pub provider : String
  pub prompt : Prompt
  pub max_budget_usd : ℕ

-- Go's zero value of the struct.
abbrev pub no_request : ExecuteRequest
no_request = record {
  working_dir = "";
  skill = "";
  issue_title = "";
  issue_body = "";
  issue_url = "";
  model = "";
  provider = "";
  prompt = empty;
  max_budget_usd = 0;
}

pub record ExecuteResult : Type 0 where
  pub output : String
  pub cost_usd : ℕ

-- The text of a comment on an issue is a fixed template round these values.
pub data Comment : Type 0 where
  pipeline_summary : (track : Track) (stories_completed story_count cost_usd : ℕ) → Comment
  phase_summary : (phase title : String) → Comment
  task_cancelled : Comment

pub record Label : Type 0 where
  pub name : String

-- The JSON of one issue, as `gh` prints it.
pub record GhIssue : Type 0 where
  pub url : String
  pub title : String
  pub body : String
  pub labels : List Label
  pub number : ℕ

pub record Repo : Type 0 where
  pub owner : String
  pub name : String
  pub path : String

pub record Budget : Type 0 where
  pub per_run_usd : ℕ
  pub per_day_usd : ℕ
  pub per_task_usd : ℕ

pub record DevRouterConfig : Type 0 where
  pub classification_model : String
  pub planning_model : String
  pub execution_model : String
  pub intake_label : String
  pub max_stories : ℕ
  pub max_retries : ℕ

pub data Status : Type 0 where
  queued in_progress blocked awaiting_approval completed failed cancelled : Status
  other : String → Status

pub record Task : Type 0 where
  pub updated_at : ℕ
  pub created_at : ℕ
  pub locked_at : Option ℕ
  pub status : Status
  pub block_reason : String
  pub issue_url : String
  pub body : String
  pub workflow : String
  pub id : String
  pub phase : String
  pub title : String
  pub repo : String
  pub last_error : String
  pub locked_by : String
  pub labels : List String
  pub cost_usd : ℕ
  pub issue_number : ℕ
  pub attempts : ℕ

-- A row of budget_usage.
pub record Usage : Type 0 where
  pub task_id : String
  pub run_id : String
  pub cost_usd : ℕ
  pub date : String

pub record Tables : Type 0 where
  pub pipelines : List Pipeline
  pub usage : List Usage
  pub tasks : List Task

pub data Call : Type 0 where
  emit : Event → Call
  execute : ExecuteRequest → Call
  comment : String → Comment → Call
  check_ci : (repo branch : String) → Call
  check_approval : (issue_url : String) → Call
  has_label : (issue_url label : String) → Call
  gh : (dir : String) (args : List String) → Call
  enqueue : Job → Call

abbrev pub M : Type 0 → Type 0
M = Exec Tables Call

-- Each answer of the outside is a function of the number of interactions so far.
pub record Env : Type 0 where
  pub host : Host
  -- The UTC date of a reading of the clock, as 2006-01-02.
  pub date_of : ℕ → String
  -- AgentRuntime.Execute: its result is a pointer, and may be nil.
  pub agent : ℕ → ExecuteRequest → Result (Option ExecuteResult)
  pub ci : ℕ → String → String → Result String
  pub approval : ℕ → String → Result Approval
  pub label : ℕ → String → String → Result Bool
  -- river.Client.Insert
  pub insert_job : ℕ → Job → Result (Unit {0})
  -- CommandExecutor.Run of the program gh.
  pub run_gh : ℕ → String → List String → Result String
  -- json.Unmarshal and json.Marshal at the types that the code uses.
  pub parse_classification : String → Result (String × String)
  pub parse_plan : String → Result (List Story)
  pub marshal_plan : List Story → String
  pub parse_issue : String → Result GhIssue
  pub parse_issues : String → Result (List GhIssue)
  -- The bodies of the comments, and the labels.
  pub parse_discussion : String → Result (List String × List Label)

module _ (env : Env) where
  unfoldable pub run_agent : ExecuteRequest → M (Option ExecuteResult)
  unfolding ask
  run_agent req = ask (execute req) (λ n. env.agent n req)

  unfoldable pub run_ci : String → String → M String
  unfolding ask
  run_ci repo branch = ask (check_ci repo branch) (λ n. env.ci n repo branch)

  unfoldable pub run_approval : String → M Approval
  unfolding ask
  run_approval url = ask (check_approval url) (λ n. env.approval n url)

  unfoldable pub run_has_label : String → String → M Bool
  unfolding ask
  run_has_label url name = ask (has_label url name) (λ n. env.label n url name)

  unfoldable pub insert_into_queue : Job → M (Unit {0})
  unfolding ask
  insert_into_queue job = ask (enqueue job) (λ n. env.insert_job n job)

  unfoldable pub run_command : String → List String → M String
  unfolding ask
  run_command dir args = ask (gh dir args) (λ n. env.run_gh n dir args)

-- `_ = bus.Emit(e)`, `_ = commenter.Comment(url, body)`
abbrev pub emit_event : Event → M (Unit {0})
emit_event e = tell (emit e)

abbrev pub post_comment : String → Comment → M (Unit {0})
post_comment url body = tell (comment url body)
