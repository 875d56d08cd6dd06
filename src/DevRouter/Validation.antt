-- ===== src/DevRouter/Validation.antt =====
-- internal/devrouter/validation.go: CI, then a human, gate the end of a pipeline.
pub mod Sound
pub mod Stable
use ponko.Common.{String, List, [], ◌∷◌, Bool, ◌==◌, ◌⧺◌, if◌then◌else◌}
use ponko.Effect.{errorf, raise, pure, with_context, ◌>>=◌, ◌>>◌}
use ponko.Event.{str, Event, job_completed, task_completed, task_failed}
use ponko.Pipeline.{Stage, stage_string, Pipeline, validating, awaiting_approval, completed, failed}
use ponko.PipelineStore.{update_stage}
use ponko.Orchestrator.{
  M, Env, Approval, waiting, approved, rejected, pipeline_summary, run_ci, run_approval, emit_event,
  post_comment,
}

module _ (env : Env) where
  ci_green : Pipeline → M (Unit {0})
  ci_green p = do
    post_comment p.issue_url (pipeline_summary p.track p.stories_completed p.story_count p.cost_usd)
    with_context "transition to awaiting_approval"
        (update_stage env p.id validating awaiting_approval)
    emit_event (record {
      type = job_completed;
      task_id = p.id;
      payload =
          ("job", str "validation")
          ∷ ("ci", str "green")
          ∷ ("stage", str (stage_string awaiting_approval))
          ∷ [];
    })

  ci_failed : Pipeline → M (Unit {0})
  ci_failed p = do
    with_context "transition to failed" (update_stage env p.id validating failed)
    emit_event (record {
      type = task_failed;
      task_id = p.id;
      payload = ("job", str "validation") ∷ ("reason", str "CI failed") ∷ [];
    })

  on_ci_status : Pipeline → String → M (Unit {0})
  unfolding ci_green ci_failed
  on_ci_status p status =
      if status == "pending"
      then pure tt
      else if status == "green"
      then ci_green p
      else if status == "failed"
      then ci_failed p
      else raise (errorf ("unknown CI status: " ⧺ status))

  run_ci_check : Pipeline → M (Unit {0})
  unfolding on_ci_status
  run_ci_check p = with_context "check CI" (run_ci env p.repo "") >>= on_ci_status p

  on_approval : Pipeline → Approval → M (Unit {0})
  on_approval p waiting = pure tt
  on_approval p approved = do
    with_context "transition to completed" (update_stage env p.id awaiting_approval completed)
    emit_event
        (record { type = task_completed; task_id = p.id; payload = ("job", str "validation") ∷ [] })
  on_approval p rejected = do
    with_context "transition to failed" (update_stage env p.id awaiting_approval failed)
    emit_event (record {
      type = task_failed;
      task_id = p.id;
      payload = ("job", str "validation") ∷ ("reason", str "rejected by human") ∷ [];
    })

  run_approval_check : Pipeline → M (Unit {0})
  unfolding on_approval
  run_approval_check p =
      with_context "check approval" (run_approval env p.issue_url) >>= on_approval p

  by_stage : Stage → Pipeline → M (Unit {0})
  unfolding run_ci_check run_approval_check
  by_stage validating p = run_ci_check p
  by_stage awaiting_approval p = run_approval_check p
  by_stage stage p = raise (errorf ("validation job: unexpected stage " ⧺ stage_string stage))

  unfoldable pub validation_run : Pipeline → M (Unit {0})
  unfolding by_stage
  validation_run p = by_stage p.stage p
