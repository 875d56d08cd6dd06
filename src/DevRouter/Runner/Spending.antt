-- ===== src/DevRouter/Runner/Spending.antt =====
-- The spending that a call of RunOnce records, against the limit of a run that it checks first.
use ponko.Common.{String, ◌≡◌, refl, ◌≢◌, ◌==◌, false, arith, eq-of_ne, sym}
use ponko.Effect.{World}
use ponko.Budget.{sum_where, of_run}
use ponko.Budget.Spending.{sum_where-append}
use ponko.Orchestrator.{Tables, Call, Env}
use ponko.DevRouter.Runner.{PipelineRunner, run_once}
use ponko.DevRouter.Runner.Stable.{run_once-keeps}

-- The spending that is recorded under a run id, which is not empty, is the same after RunOnce: the
-- cost of a story never counts for the run of its pipeline.
pub run_once-run_spent :
    (env : Env) (r : PipelineRunner) (id run_id : String) (w : World Tables Call)
    → run_id ≢ ""
    → sum_where (of_run run_id) (run_once env r id w).1.tables.usage
      ≡ sum_where (of_run run_id) w.tables.usage
unfolding sum_where
run_once-run_spent env r id run_id w named =
    run_once-keeps env r
      {P = λ d. sum_where (of_run run_id) d.usage ≡ sum_where (of_run run_id) w.tables.usage}
      (λ j f d _ h. h)
      (λ task_id date cost d h.
        let other : (run_id == "") ≡ false = eq-of_ne run_id "" named in
        let none_more : ("" == run_id) ≡ false = eq-of_ne "" run_id (λ e. named (sym e)) in
        rw (sum_where-append (of_run run_id) d.usage _, none_more) (omega arith))
      id w (λ p _ _ _ j t d h. h) refl
