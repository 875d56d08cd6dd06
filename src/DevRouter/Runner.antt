-- ===== src/DevRouter/Runner.antt =====
-- internal/devrouter/runner.go: a pipeline is advanced by one stage, and all of them are. Log lines
-- are not modelled.
pub mod Steps
pub mod Sound
pub mod All
pub mod Guards
pub mod Stable
pub mod Spending
pub mod Completion
use ponko.Common.{
  ℕ, suc, String, List, [], ◌∷◌, ◌++◌, Option, none, some, Bool, true, false, not, ◌&&◌, ◌||◌, ◌⧺◌,
  length, if◌then◌else◌,
}
use ponko.Effect.{
  Err, errorf, wrap, Result, ok, err, raise, pure, with_context, attempt, ◌>>=◌, ◌>>◌,
}
use ponko.Event.{Event, budget_exceeded}
use ponko.Pipeline.{
  Stage, stage_string, Pipeline, pending, classifying, planning, fanout, executing, validating,
  awaiting_approval, completed, failed,
}
use ponko.PipelineStore.{get, list, update_stage}
use ponko.Budget.{can_afford_run, can_afford_day}
use ponko.Orchestrator.{M, Env, Budget, DevRouterConfig, emit_event}
use ponko.DevRouter.Ingress.{ingress_run}
use ponko.DevRouter.Planning.{planning_run}
use ponko.DevRouter.FanOut.{fanout_run}
use ponko.DevRouter.Story.{story_run}
use ponko.DevRouter.Validation.{validation_run}

-- PipelineRunner, less the dependencies that `Env` holds; `has_exec` is `exec != nil`.
pub record PipelineRunner : Type 0 where
  pub limits : Budget
  pub has_exec : Bool
  pub cfg : DevRouterConfig
  pub dry_run : Bool

abbrev pub terminal_stages : Stage → Bool
terminal_stages completed = true
terminal_stages failed = true
terminal_stages _ = false

-- The stages for which RunOnce looks at the budget.
abbrev pub is_budgeted : Stage → Bool
is_budgeted pending = true
is_budgeted planning = true
is_budgeted executing = true
is_budgeted _ = false

-- The estimate of 1.0 dollars.
abbrev pub estimated_usd : ℕ
estimated_usd = 1_000_000

abbrev with_error : List Err → Result (Unit {0}) → List Err
with_error errs (ok _) = errs
with_error errs (err e) = errs ++ e ∷ []

-- The error that ProcessAll returns names the first one; the text also holds their number.
abbrev report : List Err → M (Unit {0})
report [] = pure tt
report (e ∷ errs) = raise (wrap "runner: pipeline(s) failed: first error" e)

module _ (env : Env) (r : PipelineRunner) where
  -- Pending: the transition to classifying, and the ingress on the pipeline in that stage.
  start_ingress : Pipeline → M (Unit {0})
  start_ingress p = do
    with_context "runner: transition to classifying" (update_stage env p.id pending classifying)
    ingress_run env r.cfg r.has_exec (record p { stage = classifying })

  by_stage : Stage → Pipeline → M (Unit {0})
  unfolding start_ingress
  by_stage pending p = start_ingress p
  by_stage classifying p = ingress_run env r.cfg r.has_exec p
  by_stage planning p = planning_run env r.cfg p
  by_stage fanout p = fanout_run env p
  by_stage executing p = story_run env r.cfg p p.current_story_index
  by_stage validating p = validation_run env p
  by_stage awaiting_approval p = validation_run env p
  by_stage stage p =
      raise (errorf ("runner: unknown stage " ⧺ stage_string stage ⧺ " for pipeline " ⧺ p.id))

  unfoldable pub dispatch : Pipeline → M (Unit {0})
  unfolding by_stage
  dispatch p = by_stage p.stage p

  -- `!CanAffordRun || !CanAffordDay`: the day is not asked for when the run has no money.
  then_day : Bool → M Bool
  then_day false = pure false
  then_day true = can_afford_day env r.limits estimated_usd

  unfoldable pub can_afford : Pipeline → M Bool
  unfolding then_day
  can_afford p = can_afford_run env r.limits p.id estimated_usd >>= then_day

  go_on : Pipeline → Bool → M (Unit {0})
  go_on p true = dispatch p
  go_on p false = emit_event (record { type = budget_exceeded; task_id = p.id; payload = [] })

  unfoldable pub advance : Pipeline → M (Unit {0})
  unfolding go_on
  advance p =
      if terminal_stages p.stage
      then pure tt
      else if r.dry_run
      then pure tt
      else if is_budgeted p.stage
      then can_afford p >>= go_on p
      else dispatch p

  found : String → Option Pipeline → M (Unit {0})
  found pipeline_id none = raise (errorf ("runner: pipeline " ⧺ pipeline_id ⧺ " not found"))
  found pipeline_id (some p) = advance p

  unfoldable pub run_once : String → M (Unit {0})
  unfolding found
  run_once pipeline_id =
      with_context ("runner: get pipeline " ⧺ pipeline_id) (get env pipeline_id)
      >>= found pipeline_id

  -- The loop of ProcessAll, with the errors so far.
  unfoldable pub process_from : List Err → List Pipeline → M (List Err)
  process_from errs [] = pure errs
  process_from errs (p ∷ ps) =
      (if terminal_stages p.stage then pure (ok tt) else attempt (run_once p.id)) >>= λ outcome.
      process_from (with_error errs outcome) ps

  unfoldable pub process_all : M (Unit {0})
  unfolding process_from
  process_all = do
    pipelines ← with_context "runner: list pipelines" (list env 0)
    errs ← process_from [] pipelines
    report errs
