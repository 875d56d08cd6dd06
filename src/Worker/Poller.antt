-- ===== src/Worker/Poller.antt =====
-- internal/worker/approval.go: the wait for a human.
pub mod Outcome
use ponko.Common.{
  ℕ, zero, suc, ◌+◌, String, List, [], ◌∷◌, Option, none, some, Bool, true, false, not, ◌&&◌, ◌||◌,
  ◌==◌, ◌⧺◌, is_empty, if◌then◌else◌,
}
use ponko.Effect.{Err, errorf, Result, ok, err, pure, raise, lift, attempt, ◌>>=◌, ◌>>◌}
use ponko.Event.{
  Value, Event, str, usd, budget_exceeded, task_blocked, phase_started, phase_completed,
  task_completed, task_started, task_cancelled as task_cancelled_event,
}
use ponko.Budget.{can_afford_run, can_afford_day, can_afford_task, record_spend}
use ponko.Orchestrator.{
  M, Env, Budget, Approval, waiting, approved, rejected, no_request, ExecuteResult, phase_summary,
  task_cancelled, TaskPhaseArgs, ApprovalPollerArgs, task_phase, approval_poller, run_agent,
  run_approval, run_has_label, insert_into_queue, emit_event, post_comment,
}
use ponko.Config.{Phase, Workflow, Config, lookup}
use ponko.Worker.{
  Deps, Verdict, finished, snoozed, snooze_interval, estimated_usd, current_phase, or_fail,
  of_issue, publish, run_phase,
}

module _ (env : Env) (deps : Deps) where
  on_status : ApprovalPollerArgs → Result Approval → M Verdict
  on_status args (err e) = pure (snoozed snooze_interval)
  on_status args (ok waiting) = pure (snoozed snooze_interval)
  on_status args (ok approved) = do
    publish deps (record {
      type = task_started;
      task_id = args.issue_url;
      payload = ("issue_url", str args.issue_url) ∷ ("approval", str "approved") ∷ [];
    })
    insert_into_queue env (task_phase args.next_phase_args)
    pure finished
  on_status args (ok rejected) = do
    (if deps.has_commenter then post_comment args.issue_url task_cancelled else pure tt)
    publish deps (record {
      type = task_cancelled_event;
      task_id = args.issue_url;
      payload = ("issue_url", str args.issue_url) ∷ ("approval", str "rejected") ∷ [];
    })
    pure finished

  -- ApprovalPollerWorker.Work
  unfoldable pub poll_approval : ApprovalPollerArgs → M Verdict
  unfolding on_status
  poll_approval args =
      if deps.has_approval_checker
      then attempt (run_approval env args.issue_url) >>= on_status args
      else pure (snoozed snooze_interval)
