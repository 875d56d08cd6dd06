-- ===== src/Examples/DevRouter.antt =====
-- The pipeline runner at the table with one new pipeline.
use ponko.Common.{ℕ, zero, suc, select, update, ◌≡◌, refl, Option, some, none, true, false}
use ponko.Effect.{
  World, ◌>>=◌, with_context, attempt, tell, ask, now, exec_db, query_db, statement_db,
}
use ponko.Pipeline.{Stage, planning, fanout, executing, validating, completed, Pipeline}
use ponko.Pipeline.{validate_transition, is_allowed}
use ponko.PipelineStore.{
  find, get, modify, update_stage, set_track, set_classification_rationale, set_plan_output,
  set_story_count, incr_stories_completed, set_current_story_index, add_cost, set_issue_content,
}
use ponko.Budget.{
  can_afford_run, can_afford_day, run_spent, day_spent, spent_where, sum_where, record_spend,
}
use ponko.DevRouter.Ingress.{ingress_run}
use ponko.DevRouter.Planning.{planning_run, parse_plan_response, is_complete, fallback_plan}
use ponko.DevRouter.FanOut.{fanout_run, check_stories, parse_stories}
use ponko.DevRouter.Story.{story_run, run_attempts}
use ponko.DevRouter.Validation.{validation_run}
use ponko.Examples.Codec.{read_plan, print_plan}
use ponko.Orchestrator.{Tables, Call, run_agent, run_ci, run_approval, run_command}
use ponko.DevRouter.Progress.{AllValid, IsValid-of_no_plan}
use ponko.DevRouter.Runner.{PipelineRunner, run_once, advance, dispatch, can_afford, process_all}
use ponko.DevRouter.Runner.Sound.{Advanced, run_once-Advanced}
use ponko.DevRouter.Runner.All.{AllAdvanced, process_all-AllAdvanced}
use ponko.Examples.World.{env, codec, new_pipeline, one_pipeline, AllValid-one_pipeline, world}

abbrev pub runner : PipelineRunner
runner = record {
  limits = record { per_run_usd = 5_000_000; per_day_usd = 20_000_000; per_task_usd = 3_000_000 };
  has_exec = true;
  cfg = record {
    classification_model = "sonnet";
    planning_model = "sonnet";
    execution_model = "sonnet";
    intake_label = "ponko-runner:dev-router";
    max_stories = 10;
    max_retries = 3;
  };
  dry_run = false;
}

abbrev pub start : World Tables Call
start = world (one_pipeline new_pipeline)

start_valid : AllValid env start.tables
start_valid = AllValid-one_pipeline new_pipeline (IsValid-of_no_plan env new_pipeline refl)

-- What a run opens.
running : Unit {0}
unfolding run_once advance dispatch can_afford can_afford_run can_afford_day run_spent day_spent
    spent_where sum_where record_spend get modify update_stage set_track
    set_classification_rationale set_plan_output set_story_count incr_stories_completed
    set_current_story_index add_cost set_issue_content ingress_run planning_run fanout_run story_run
    validation_run run_agent run_ci run_approval run_command parse_plan_response is_complete
    fallback_plan is_allowed validate_transition select update ◌>>=◌ with_context attempt tell ask
    now exec_db query_db statement_db read_plan print_plan check_stories run_attempts parse_stories
running = tt

abbrev stage_of : Option Pipeline → Option Stage
stage_of none = none
stage_of (some p) = some p.stage

abbrev passes : ℕ → World Tables Call → World Tables Call
passes zero w = w
passes (suc n) w = passes n (run_once env runner "p1" w).1

-- The whole life of a pipeline with one story, call by call.
one_life :
    (stage_of (find "p1" (passes 1 start).tables) ≡ some planning)
    × (stage_of (find "p1" (passes 2 start).tables) ≡ some fanout)
    × (stage_of (find "p1" (passes 3 start).tables) ≡ some executing)
    × (stage_of (find "p1" (passes 4 start).tables) ≡ some validating)
    × (stage_of (find "p1" (passes 6 start).tables) ≡ some completed)
unfolding running
one_life = (refl, refl, refl, refl, refl)

run_once-Advanced_example : Advanced env "p1" start.tables (run_once env runner "p1" start).1.tables
run_once-Advanced_example = run_once-Advanced env codec runner "p1" start start_valid

process_all-AllAdvanced_example :
    AllAdvanced env start.tables (process_all env runner start).1.tables
process_all-AllAdvanced_example = process_all-AllAdvanced env codec runner start start_valid
