-- ===== src/Worker.antt =====
-- internal/worker/task.go: one phase of an issue's workflow, from its start on. Log lines are not
-- modelled.
pub mod Work
pub mod Poller
pub mod Phases
use ponko.Common.{
  ℕ, zero, suc, ◌+◌, String, List, [], ◌∷◌, Option, none, some, Bool, true, false, not, ◌&&◌, ◌||◌,
  ◌==◌, ◌⧺◌, is_empty, if◌then◌else◌,
}
use ponko.Effect.{Err, errorf, Result, ok, err, pure, raise, lift, attempt, ◌>>=◌, ◌>>◌}
use ponko.Event.{
  Value, Event, str, usd, budget_exceeded, task_blocked, phase_started, phase_completed,
  task_completed, task_started, task_cancelled as task_cancelled_event,
}
use ponko.Budget.{can_afford_run, can_afford_day, can_afford_task, record_spend}
use ponko.Orchestrator.{
  M, Env, Budget, Approval, waiting, approved, rejected, no_request, ExecuteResult, phase_summary,
  task_cancelled, TaskPhaseArgs, ApprovalPollerArgs, task_phase, approval_poller, run_agent,
  run_approval, run_has_label, insert_into_queue, emit_event, post_comment,
}
use ponko.Config.{Phase, Workflow, Config, lookup}

-- Which dependencies are not nil, and the limits of the budget controller.
pub record Deps : Type 0 where
  pub has_budget : Bool
  pub has_bus : Bool
  pub has_runtime : Bool
  pub has_gate_checker : Bool
  pub has_approval_checker : Bool
  pub has_commenter : Bool
  pub limits : Budget

-- What River is told: the job is done, or `river.JobSnooze`. Any other error is raised.
pub data Verdict : Type 0 where
  finished : Verdict
  snoozed : ℕ → Verdict

-- Five minutes.
abbrev pub snooze_interval : ℕ
snooze_interval = 300_000_000_000

abbrev pub estimated_usd : ℕ
estimated_usd = 1_000_000

unfoldable pub phase_named : String → List Phase → Option Phase
phase_named name [] = none
phase_named name (p ∷ phases) = if p.name == name then some p else phase_named name phases

abbrev first_phase : List Phase → Option Phase
first_phase [] = none
first_phase (p ∷ phases) = some p

unfoldable pub current_phase : Workflow → String → Option Phase
unfolding phase_named
current_phase wf name = if is_empty name then first_phase wf.phases else phase_named name wf.phases

unfoldable pub phase_after : String → List Phase → Option Phase
phase_after name [] = none
phase_after name (p ∷ []) = none
phase_after name (p ∷ q ∷ phases) = if p.name == name then some q else phase_after name (q ∷ phases)

unfoldable pub next_phase : Workflow → String → Option Phase
unfolding phase_after
next_phase wf name = phase_after name wf.phases

abbrev pub next_phase_args : TaskPhaseArgs → String → TaskPhaseArgs
next_phase_args args phase = record args { phase = phase }

abbrev or_fail : {A : Type 0} → String → Option A → Result A
or_fail text none = err (errorf text)
or_fail text (some a) = ok a

-- A nil result counts as an empty one.
abbrev or_empty : Option ExecuteResult → ExecuteResult
or_empty none = record { output = ""; cost_usd = 0 }
or_empty (some result) = result

abbrev of_issue : TaskPhaseArgs → List (String × Value) → List (String × Value)
of_issue args more = ("issue_url", str args.issue_url) ∷ more

abbrev publish : Deps → Event → M (Unit {0})
publish deps e = if deps.has_bus then emit_event e else pure tt

-- The id of the job in decimal, and Config.RepoPath, are parameters.
module _ (env : Env) (deps : Deps) (cfg : Config) (repo_path : String → String)
    (run_id : String) where
  charge : TaskPhaseArgs → ℕ → M (Unit {0})
  charge args zero = pure tt
  charge args (suc cost) = do attempt (record_spend env args.issue_url run_id (suc cost)); pure tt

  summarise : Phase → TaskPhaseArgs → M (Unit {0})
  summarise phase args =
      if deps.has_commenter
      then post_comment args.issue_url (phase_summary phase.name args.title)
      else pure tt

  wait_for_human : TaskPhaseArgs → Option Phase → M Verdict
  wait_for_human args none = pure finished
  wait_for_human args (some next) = do
    insert_into_queue env (
        approval_poller
          (record { issue_url = args.issue_url; next_phase_args = next_phase_args args next.name }))
    pure finished

  go_on_with : TaskPhaseArgs → Option Phase → M Verdict
  go_on_with args none = do
    publish deps
        (record { type = task_completed; task_id = args.issue_url; payload = of_issue args [] })
    pure finished
  go_on_with args (some next) = do
    insert_into_queue env (task_phase (next_phase_args args next.name))
    pure finished

  ask_human : Workflow → Phase → TaskPhaseArgs → M Verdict
  unfolding summarise wait_for_human
  ask_human wf phase args = do
    summarise phase args
    publish deps (record {
      type = task_blocked;
      task_id = args.issue_url;
      payload = of_issue args (("approval_gate", str phase.name) ∷ []);
    })
    wait_for_human args (next_phase wf phase.name)

  unfoldable pub after_phase : Workflow → Phase → TaskPhaseArgs → M Verdict
  unfolding ask_human go_on_with next_phase
  after_phase wf phase args =
      if phase.approval then ask_human wf phase args else go_on_with args (next_phase wf phase.name)

  unfoldable pub run_phase : Workflow → Phase → TaskPhaseArgs → M Verdict
  unfolding charge after_phase
  run_phase wf phase args = do
    publish deps (record {
      type = phase_started;
      task_id = args.issue_url;
      payload = of_issue args (("phase", str phase.name) ∷ []);
    })
    reply ← run_agent env (record no_request {
      working_dir = repo_path args.repo;
      skill = phase.skill;
      issue_title = args.title;
      issue_body = args.body;
      issue_url = args.issue_url;
      max_budget_usd = cfg.budget.per_task_usd;
      model = phase.model;
      provider = phase.provider;
    })
    let cost = (or_empty reply).cost_usd
    charge args cost
    publish deps (record {
      type = phase_completed;
      task_id = args.issue_url;
      payload = of_issue args (("phase", str phase.name) ∷ ("cost_usd", usd cost) ∷ []);
    })
    after_phase wf phase (record args { cost_usd = args.cost_usd + cost })
