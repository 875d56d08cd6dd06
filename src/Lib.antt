-- ===== src/Lib.antt =====
-- Verification library of ponko, an agent server in Go.
--
-- The repository holds two programs over one code base. The issue runner (cmd/cli) takes GitHub
-- issues through an agent: the dev router (internal/devrouter) keeps a pipeline per issue in SQLite
-- (internal/sqlite) and advances it stage by stage, within a budget (internal/budget). The chat agent
-- (internal/jobs, internal/saga, internal/slack) answers threads over Postgres: a chain of jobs plans,
-- executes and composes a reply, and an outbox delivers it. This library models both.
--
-- Each Go function of a component is a definition by clauses, named after it in snake_case where the
-- name is free, with helpers for its parts. A call that touches the outside is a value of `Exec`
-- (Effect): from the state it gives an outcome (a value, an error or a panic) and the state after it,
-- which keeps what was written before a failure. The outside is `Env` (Orchestrator) or `ChatEnv`
-- (Chat): the clock, the
-- error of each database statement, the answers of the agent, the CI, the human and gh are functions of
-- the number of interactions so far, on which nothing is assumed. So a theorem without a hypothesis on
-- `Env` holds for every failure at every point. JSON is also in `Env`; the one assumption on it, that
-- Unmarshal reads what Marshal printed, is named PlanRoundTrip where it is used.
--
-- Common: the names that all share. Effect: the calls, errors and states; Effect/Triple, Effect/Keeps
--   and Effect/Total have the rules by which a property is carried through a call.
-- Event: internal/event/event.go.
-- Pipeline: internal/devrouter/pipeline.go; Pipeline/Graph is the diagram of the stages as a relation.
-- Orchestrator: the dependencies and the tables (internal/runtime/runtime.go, internal/approval,
--   internal/exec, parts of internal/config/config.go, internal/task/task.go).
-- PipelineStore: internal/sqlite/pipeline_store.go.
-- Budget: internal/budget/budget.go.
-- DevRouter: internal/devrouter, a module per job: Ingress, Planning, FanOut, Story, Validation, then
--   Runner (RunOnce, ProcessAll) and Intake (PollNewIssues). DevRouter/Progress has the invariant of a
--   pipeline.
-- Config: internal/config/config.go; Config/Load has Load and validate.
-- Task, TaskStore: internal/task/task.go and internal/sqlite/task_store.go.
-- Intake: internal/intake/github.go.
-- Worker: internal/worker, with what a phase waits for in Worker/Work and the wait for a human in
--   Worker/Poller; the jobs of the queue are in Orchestrator/Queue.
-- Chat: the tables of Postgres (Chat/Rows), the jobs of River, the dependencies and the calls of the
--   chat agent (internal/db, internal/jobs).
-- Outbox: internal/saga/outbox.go; Outbox/Deliver has internal/saga/deliver.go. The other children
--   follow the rows through a claim (Claim, Listed) and through a pass (InFlight, Pass, Settled).
-- Conversations: internal/saga/conversation.go. WorkflowStore: internal/workflow/workflow.go.
-- Channels, Threads, Users, Schedules: internal/channel, internal/conversation/thread.go,
--   internal/user, internal/schedule.
-- Slack: internal/slack/errors.go and, in Slack/Link, internal/slack/url.go.
-- Prompt: what the jobs hand to the model (internal/jobs/process.go).
-- Agent: internal/jobs, a module per job (Receive, Plan, Execute, Synthesize, Respond, Process,
--   Proactive) and Dispatch for the tools; Approval has the buttons of internal/api/interactions.go.
--   A job hands over to the next through the queue and the outputs of WorkflowStore.
-- Routing: internal/routing. Groom: internal/groom/state.go. Scheduler: internal/scheduler.
-- Examples: concrete inputs, tests and the theorems at them.
--
-- Numbers are natural numbers: counters, indices and times as the code has them, and money in
-- micro-dollars where the code has floating point; a negative cost or index has no counterpart. A text
-- is the native string. A panic of the code (a nil result of the agent) is an outcome. The loops are
-- over lists, the attempts of a story, a turn or a slug, which their bounds count down, and the
-- characters of a text, of which each round takes at least a byte, so that its length is enough fuel.
-- A statement of the database is one step, and jobs run one after the other.
--
-- Not modelled: log lines, spans and metrics, the literal text of the issue runner's prompts and
-- comments and of the schedule tools' replies (the values in them are), the scheduler's ticker and
-- locks, the files of the groomer, the regular expressions of internal/slack/mrkdwn.go, the HTTP API
-- but for the buttons of a plan, the clients of Slack, of the models and of MCP, the web interface, the
-- set-up of databases and of the job queue.
pub mod Common
pub mod Effect
pub mod Event
pub mod Pipeline
pub mod Orchestrator
pub mod Config
pub mod PipelineStore
pub mod Budget
pub mod DevRouter
pub mod Task
pub mod TaskStore
pub mod Intake
pub mod Worker
pub mod Examples
pub mod Agent
pub mod Channels
pub mod Chat
pub mod Conversations
pub mod Groom
pub mod Outbox
pub mod Prompt
pub mod Routing
pub mod Scheduler
pub mod Schedules
pub mod Slack
pub mod Threads
pub mod Users
pub mod WorkflowStore
