-- ===== src/DevRouter/Validation/Stable.antt =====
-- Predicates of the tables, carried through the validation.
use ponko.Common.{String, ◌==◌, ◌≡◌, refl, ap}
use ponko.Effect.{Result, ok, err, World, continue, wrapped, lift, ask, with_context, ◌>>=◌}
use ponko.Effect.Keeps.{
  Keeps, Keeps-pure, Keeps-raise, Keeps-with_context, Keeps-ask, Keeps-if, Keeps-bind, Keeps-tell,
}
use ponko.PipelineStore.Stable.{
  IgnoresPipelines, IgnoresCompletion, update_stage-Keeps, update_stage-Keeps_completed,
}
use ponko.Orchestrator.{
  Tables, Call, Env, Approval, waiting, approved, rejected, run_ci, run_approval,
}
use ponko.Pipeline.{Stage, Pipeline, validating, awaiting_approval}
use ponko.DevRouter.Validation.{
  ci_green, ci_failed, on_ci_status, run_ci_check, on_approval, run_approval_check, by_stage,
  validation_run,
}

module _ (env : Env) {P : Tables → Type 0} (ignores : IgnoresPipelines P) where
  on_ci_status-Keeps : (p : Pipeline) (status : String) → Keeps P (on_ci_status env p status)
  unfolding on_ci_status ci_green ci_failed
  on_ci_status-Keeps p status = Keeps-if (status == "pending") (Keeps-pure _) (
      Keeps-if (status == "green")
        (Keeps-bind (Keeps-tell _) λ _.
          Keeps-bind (Keeps-with_context _ (update_stage-Keeps env ignores _ _ _ (λ e. cc)))
            λ _. Keeps-tell _)
        (Keeps-if (status == "failed")
          (Keeps-bind (Keeps-with_context _ (update_stage-Keeps env ignores _ _ _ (λ e. cc)))
            λ _. Keeps-tell _)
          (Keeps-raise _)))

  on_approval-Keeps :
      (p : Pipeline) (status : Approval)
      → (status ≡ approved → IgnoresCompletion P)
      → Keeps P (on_approval env p status)
  unfolding on_approval
  on_approval-Keeps p waiting completion = Keeps-pure _
  on_approval-Keeps p approved completion =
      Keeps-bind (Keeps-with_context _ (update_stage-Keeps_completed env _ _ (completion refl)))
        λ _. Keeps-tell _
  on_approval-Keeps p rejected completion =
      Keeps-bind (Keeps-with_context _ (update_stage-Keeps env ignores _ _ _ (λ e. cc)))
        λ _. Keeps-tell _

  -- The answer of the human decides whether the pipeline may be completed.
  answered :
      (p : Pipeline) (answer : Result Approval) (w : World Tables Call)
      → (answer ≡ ok approved → IgnoresCompletion P)
      → P w.tables
      → P (continue (on_approval env p) (wrapped "check approval" (lift answer w))).1.tables
  answered p (ok status) w completion h =
      (on_approval-Keeps p status (λ e. completion (ap ok e))).at w h
  answered p (err e) w completion h = h

  run_approval_check-keeps :
      (p : Pipeline) (w : World Tables Call)
      → (env.approval w.tick p.issue_url ≡ ok approved → IgnoresCompletion P)
      → P w.tables
      → P (run_approval_check env p w).1.tables
  unfolding run_approval_check run_approval ask with_context ◌>>=◌
  run_approval_check-keeps p w completion h =
      answered p (env.approval w.tick p.issue_url) _ completion h

  by_stage-keeps :
      (s : Stage) (p : Pipeline) (w : World Tables Call)
      → (s ≡ awaiting_approval
          → env.approval w.tick p.issue_url ≡ ok approved
          → IgnoresCompletion P)
      → P w.tables
      → P (by_stage env s p w).1.tables
  unfolding by_stage run_ci_check run_ci
  by_stage-keeps validating p w completion h =
      (Keeps-bind (Keeps-with_context _ (Keeps-ask _ _)) (on_ci_status-Keeps p)).at w h
  by_stage-keeps awaiting_approval p w completion h =
      run_approval_check-keeps p w (completion refl) h
  by_stage-keeps _ p w completion h = h

  -- Only a pipeline that waits for a human, who approves, is completed.
  pub validation_run-keeps :
      (p : Pipeline) (w : World Tables Call)
      → (p.stage ≡ awaiting_approval
          → env.approval w.tick p.issue_url ≡ ok approved
          → IgnoresCompletion P)
      → P w.tables
      → P (validation_run env p w).1.tables
  unfolding validation_run
  validation_run-keeps p w completion h = by_stage-keeps p.stage p w completion h
