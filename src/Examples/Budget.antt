-- ===== src/Examples/Budget.antt =====
-- The budget at a table with one record of spending.
use ponko.Common.{◌+◌, ◌≡◌, refl, ◌↔◌, inl, inr, [], ◌∷◌, none, true, arith}
use ponko.Effect.{World, done, ◌>>=◌, with_context, exec_db, now}
use ponko.Event.{budget_exceeded}
use ponko.Pipeline.{pending, classifying, validate_transition}
use ponko.Pipeline.Graph.{◌⟶◌, validate_transition_iff}
use ponko.Effect.{ok}
use ponko.PipelineStore.{find}
use ponko.Budget.{record_spend, sum_where, of_run, can_afford_run, can_afford_day, can_afford_task}
use ponko.Budget.Spending.{IsSum, OfRun, LeavesRoom, can_afford_iff, spend, record_spend-IsSum}
use ponko.Orchestrator.{Budget, Tables, Call, emit}
use ponko.DevRouter.Runner.{PipelineRunner, run_once}
use ponko.DevRouter.Runner.Guards.{
  HasBudget, run_times, run_times-at_rest, read_once, run_once_over_budget,
}
use ponko.DevRouter.Runner.Spending.{run_once-run_spent}
use ponko.DevRouter.Planning.Sound.{parse_plan_response-IsPlan}
use ponko.DevRouter.Planning.{parse_plan_response}
use ponko.DevRouter.Progress.{is_plan}
use ponko.Common.{length, select, some}
use ponko.Examples.World.{env, codec, new_pipeline, one_pipeline, world}
use ponko.Examples.DevRouter.{runner, start}

abbrev limits : Budget
limits = record { per_run_usd = 10; per_day_usd = 20; per_task_usd = 5 }

abbrev spent : World Tables Call
spent = world (record (one_pipeline new_pipeline) {
  usage = record { task_id = "t"; run_id = "r"; cost_usd = 4; date = "2026-01-01" } ∷ [];
})

can_afford_iff_example :
    (((can_afford_run env limits "r" 6 spent).0 ≡ done true)
      ↔ ((env.host.db_fault 0 ≡ none) × LeavesRoom (λ u. u.run_id ≡ "r") 6 10 spent.tables.usage))
    × (((can_afford_task env limits "t" 6 spent).0 ≡ done true)
        ↔ ((env.host.db_fault 0 ≡ none) × LeavesRoom (λ u. u.task_id ≡ "t") 6 5 spent.tables.usage))
    × (((can_afford_day env limits 6 spent).0 ≡ done true) ↔ (
        (env.host.db_fault 1 ≡ none)
        × LeavesRoom (λ u. u.date ≡ "2026-01-01") 6 20 spent.tables.usage))
can_afford_iff_example = can_afford_iff env limits 6 spent "r" "t"

recorded : (record_spend env "t" "r" 3 spent).0 ≡ done tt
unfolding record_spend ◌>>=◌ with_context exec_db now
recorded = refl

four_spent : IsSum (OfRun "r") spent.tables.usage 4
four_spent = (0, refl, λ same. refl, λ other. absurd (other refl))

record_spend-IsSum_example :
    let after = (record_spend env "t" "r" 3 spent).1.tables.usage in
    (OfRun "r" (spend env "t" "r" 3 spent) → IsSum (OfRun "r") after (4 + 3))
    × (¬ OfRun "r" (spend env "t" "r" 3 spent) → IsSum (OfRun "r") after 4)
record_spend-IsSum_example =
    record_spend-IsSum env "t" "r" 3 spent (OfRun "r") 4 recorded four_spent

validate_transition_iff_example :
    (validate_transition pending classifying ≡ ok tt) ↔ (pending ⟶ classifying)
validate_transition_iff_example = validate_transition_iff pending classifying

parse_plan_response-IsPlan_example :
    is_plan
      (env.parse_plan (parse_plan_response env "?" new_pipeline).1)
      (length (parse_plan_response env "?" new_pipeline).0)
    ≡ true
parse_plan_response-IsPlan_example = parse_plan_response-IsPlan env codec "?" new_pipeline

run_once-run_spent_example :
    sum_where (of_run "p1") (run_once env runner "p1" spent).1.tables.usage
    ≡ sum_where (of_run "p1") spent.tables.usage
run_once-run_spent_example = run_once-run_spent env runner "p1" "p1" spent (λ e. cc)

stored : find "p1" start.tables ≡ some new_pipeline
unfolding select
stored = refl

abbrev idle : PipelineRunner
idle = record runner { dry_run = true }

run_times-at_rest_example :
    let last = run_times env idle "p1" 3 start in
    (last.tables ≡ start.tables)
    × (last.trace ≡ [])
    × (env.host.db_fault last.tick ≡ none → (run_once env idle "p1" last).0 ≡ done tt)
run_times-at_rest_example =
    run_times-at_rest env idle "p1" new_pipeline (inr (inr refl)) 3 start stored

-- With a limit of nothing.
abbrev poor : PipelineRunner
poor = record runner { limits = record { per_run_usd = 0; per_day_usd = 0; per_task_usd = 0 } }

no_budget : ¬ HasBudget env poor new_pipeline (read_once start)
no_budget (_, (n, _, room), _, _) = omega arith

run_once_over_budget_example :
    ((run_once env poor "p1" start).0 ≡ done tt)
    × ((run_once env poor "p1" start).1.tables ≡ start.tables)
    × ((run_once env poor "p1" start).1.trace
        ≡ emit (record { type = budget_exceeded; task_id = "p1"; payload = [] }) ∷ [])
run_once_over_budget_example =
    run_once_over_budget env poor "p1" start new_pipeline refl stored refl (inl refl) no_budget
