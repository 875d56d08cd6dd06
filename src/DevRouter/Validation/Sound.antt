-- ===== src/DevRouter/Validation/Sound.antt =====
-- The row of a pipeline in the validation.
use ponko.Common.{String, ◌≡◌, refl, true, ◌==◌, arith, ℕ}
use ponko.Effect.{with_context}
use ponko.Effect.Triple.{
  Triple, Triple-on_fail, Triple-pure, Triple-raise, Triple-ask, Triple-with_context, Triple-bind,
  Triple-tell, Triple-if,
}
use ponko.Pipeline.{Stage, Pipeline, validating, awaiting_approval, completed, failed, executing}
use ponko.Pipeline.Graph.{◌⟶◌, await, break, approve, reject, validate}
use ponko.PipelineStore.{update_stage}
use ponko.PipelineStore.Rows.{At, At-weaken, update_stage-At}
use ponko.Orchestrator.{Tables, Env, Approval, waiting, approved, rejected, run_ci, run_approval}
use ponko.DevRouter.Progress.{IsValid, ComesFrom, is_past_execution, stays, moves}
use ponko.DevRouter.Validation.{
  ci_green, ci_failed, on_ci_status, run_ci_check, on_approval, run_approval_check, by_stage,
  validation_run,
}

module _ (env : Env) (p : Pipeline) where
  -- The stored pipeline is valid and still in the stage of `p`.
  pub record IsHere (s : Stage) (q : Pipeline) : Type 0 where
    pub from : p.stage ≡ s
    pub stage : q.stage ≡ s
    pub valid : IsValid env q

  IsHere-ComesFrom : {s : Stage} (q : Pipeline) → IsHere s q → ComesFrom env p q
  IsHere-ComesFrom q h = record { valid = h.valid; reached = stays h.from h.stage }

  -- Behind the execution a move along the diagram keeps the invariant.
  move_on :
      (t : ℕ) (s to : Stage) (q : Pipeline)
      → s ⟶ to
      → is_past_execution s ≡ true
      → IsHere s q
      → ComesFrom env p (record q { stage = to; updated_at = t })
  move_on t s to q edge past h = record {
    valid = record {
      planned = λ _. h.valid.planned (rw (h.stage) (ground (arith, past)));
      next_exists = λ x. absurd (not_executing edge past x);
      counted = λ x. absurd (not_executing edge past x);
      finished = λ _. h.valid.finished (rw (h.stage) past);
    };
    reached = moves h.from refl edge;
  }
    where
      not_executing : {s to : Stage} → s ⟶ to → is_past_execution s ≡ true → to ≡ executing → ⊥
      not_executing await past x = cc
      not_executing break past x = cc
      not_executing approve past x = cc
      not_executing reject past x = cc
      not_executing validate past x = cc
      not_executing _ past x = cc

module _ (env : Env) (start : Tables) (p : Pipeline) where
  abbrev Here : Stage → Tables → Type 0
  Here s = At p.id start (IsHere env p s)

  abbrev After : Tables → Type 0
  After = At p.id start (ComesFrom env p)

  ends : {s : Stage} (d : Tables) → Here s d → After d
  ends = At-weaken (IsHere-ComesFrom env p)

  move-At :
      (s to : Stage) (context : String)
      → is_past_execution s ≡ true
      → Triple (Here s) (with_context context (update_stage env p.id s to)) (λ _. After) After
  move-At s to context past =
      Triple-with_context context (
        Triple-on_fail ends (update_stage-At env s to (λ e t q h. move_on env p t s to q e past h)))

  on_ci_status-At :
      (status : String) → Triple (Here validating) (on_ci_status env p status) (λ _. After) After
  unfolding on_ci_status ci_green ci_failed
  on_ci_status-At status =
      Triple-if (status == "pending") (λ _. Triple-pure tt ends)
        (λ _.
          Triple-if (status == "green")
            (λ _.
              Triple-bind (Triple-tell _)
                λ _. Triple-bind (move-At validating awaiting_approval _ refl) λ _. Triple-tell _)
            (λ _.
              Triple-if (status == "failed")
                (λ _. Triple-bind (move-At validating failed _ refl) λ _. Triple-tell _)
                (λ _. Triple-raise _ ends)))

  on_approval-At :
      (a : Approval) → Triple (Here awaiting_approval) (on_approval env p a) (λ _. After) After
  unfolding on_approval
  on_approval-At waiting = Triple-pure tt ends
  on_approval-At approved =
      Triple-bind (move-At awaiting_approval completed _ refl) λ _. Triple-tell _
  on_approval-At rejected = Triple-bind (move-At awaiting_approval failed _ refl) λ _. Triple-tell _

  by_stage-At : (s : Stage) → Triple (Here s) (by_stage env s p) (λ _. After) After
  unfolding by_stage run_ci_check run_approval_check run_ci run_approval
  by_stage-At validating =
      Triple-bind (Triple-with_context "check CI" (Triple-on_fail ends (Triple-ask _ _)))
        on_ci_status-At
  by_stage-At awaiting_approval =
      Triple-bind (Triple-with_context "check approval" (Triple-on_fail ends (Triple-ask _ _)))
        on_approval-At
  by_stage-At _ = Triple-raise _ ends

  pub validation_run-At : Triple (Here p.stage) (validation_run env p) (λ _. After) After
  unfolding validation_run
  validation_run-At = by_stage-At p.stage
