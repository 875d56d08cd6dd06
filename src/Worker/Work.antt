-- ===== src/Worker/Work.antt =====
-- internal/worker/task.go: what a phase waits for before it starts.
pub mod Gates
use ponko.Common.{
  ℕ, zero, suc, ◌+◌, String, List, [], ◌∷◌, Option, none, some, Bool, true, false, not, ◌&&◌, ◌||◌,
  ◌==◌, ◌⧺◌, is_empty, if◌then◌else◌,
}
use ponko.Effect.{Err, errorf, Result, ok, err, pure, raise, lift, attempt, ◌>>=◌, ◌>>◌}
use ponko.Event.{
  Value, Event, str, usd, budget_exceeded, task_blocked, phase_started, phase_completed,
  task_completed, task_started, task_cancelled as task_cancelled_event,
}
use ponko.Budget.{can_afford_run, can_afford_day, can_afford_task, record_spend}
use ponko.Orchestrator.{
  M, Env, Budget, Approval, waiting, approved, rejected, no_request, ExecuteResult, phase_summary,
  task_cancelled, TaskPhaseArgs, ApprovalPollerArgs, task_phase, approval_poller, run_agent,
  run_approval, run_has_label, insert_into_queue, emit_event, post_comment,
}
use ponko.Config.{Phase, Workflow, Config, lookup}
use ponko.Worker.{
  Deps, Verdict, finished, snoozed, snooze_interval, estimated_usd, current_phase, or_fail,
  of_issue, publish, run_phase,
}

module _ (env : Env) (deps : Deps) (cfg : Config) (repo_path : String → String)
    (run_id : String) where
  and_then : M Bool → Bool → M Bool
  and_then next false = pure false
  and_then next true = next

  -- `a && b && c`: the later ones are not asked for when an earlier one is false.
  unfoldable pub affordable : TaskPhaseArgs → M Bool
  unfolding and_then
  affordable args =
      can_afford_run env deps.limits run_id estimated_usd
      >>= and_then (can_afford_day env deps.limits estimated_usd)
      >>= and_then (can_afford_task env deps.limits args.issue_url estimated_usd)

  on_label : Phase → TaskPhaseArgs → Result Bool → M Bool
  on_label phase args (err e) = pure false
  on_label phase args (ok true) = pure true
  on_label phase args (ok false) = do
    publish deps (record {
      type = task_blocked;
      task_id = args.issue_url;
      payload = of_issue args (("gate", str phase.gate) ∷ []);
    })
    pure false

  -- Whether the phase may start.
  unfoldable pub pass_gate : Phase → TaskPhaseArgs → M Bool
  unfolding on_label
  pass_gate phase args =
      if is_empty phase.gate || not deps.has_gate_checker
      then pure true
      else (lift (
            or_fail ("unknown gate " ⧺ phase.gate ⧺ " for " ⧺ args.issue_url)
              (lookup phase.gate cfg.gates))
          >>= λ required_label.
              attempt (run_has_label env args.issue_url required_label) >>= on_label phase args)

  past_gate : Workflow → Phase → TaskPhaseArgs → Bool → M Verdict
  unfolding run_phase
  past_gate wf phase args true = run_phase env deps cfg repo_path run_id wf phase args
  past_gate wf phase args false = pure (snoozed snooze_interval)

  within_budget : TaskPhaseArgs → Bool → M Verdict
  unfolding pass_gate past_gate current_phase
  within_budget args false = do
    publish deps
        (record { type = budget_exceeded; task_id = args.issue_url; payload = of_issue args [] })
    pure (snoozed snooze_interval)
  within_budget args true = do
    wf ← lift (
        or_fail ("unknown workflow " ⧺ args.workflow ⧺ " for " ⧺ args.issue_url)
          (lookup args.workflow cfg.workflows))
    phase ← lift (
        or_fail
          ("no phase found for workflow=" ⧺ args.workflow ⧺ " phase=" ⧺ args.phase ⧺ " issue="
            ⧺ args.issue_url)
          (current_phase wf args.phase))
    may_start ← pass_gate phase args
    past_gate wf phase args may_start

  -- TaskPhaseWorker.Work
  unfoldable pub work : TaskPhaseArgs → M Verdict
  unfolding affordable within_budget
  work args =
      if not deps.has_budget
      then raise (errorf "task phase worker: missing budget controller")
      else if not deps.has_runtime
      then raise (errorf "task phase worker: missing runtime")
      else affordable args >>= within_budget args
