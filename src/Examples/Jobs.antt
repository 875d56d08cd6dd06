-- ===== src/Examples/Jobs.antt =====
-- The attempts of a story and the polling of issues.
use ponko.Effect.{World, ◌>>=◌, with_context, attempt, tell, ask, now, exec_db, query_db}
use ponko.Pipeline.{Pipeline, awaiting_approval, completed, is_allowed, validate_transition}
use ponko.Common.{true}
use ponko.Common.{select, update}
use ponko.PipelineStore.{find, get, modify, update_stage}
use ponko.Orchestrator.{approved, run_approval}
use ponko.DevRouter.Validation.{validation_run}
use ponko.DevRouter.Runner.{run_once, advance, dispatch}
use ponko.DevRouter.Runner.Completion.{run_once_completes}
use ponko.Examples.DevRouter.{runner}
use ponko.Examples.World.{one_pipeline, new_pipeline, world}
use ponko.Orchestrator.{Tables, Call}
use ponko.Common.{
  ℕ, zero, suc, ◌+◌, ◌<◌, ◌≡◌, refl, List, [], ◌∷◌, Option, none, some, false, arith,
}
use ponko.Effect.{Err, external, Result, ok, err, done}
use ponko.Orchestrator.{Env, ExecuteResult, no_request, Repo}
use ponko.DevRouter.Story.{run_attempts}
use ponko.DevRouter.Story.Attempts.{
  FailsAt, after_calls, run_attempts_answered, run_attempts_exhausted,
}
use ponko.DevRouter.Intake.{poll_new_issues}
use ponko.DevRouter.Intake.Grown.{HasDistinctUrls, Grown}
use ponko.DevRouter.Intake.DryRun.{poll_new_issues_dry_run}
use ponko.DevRouter.Intake.Poll.{poll_new_issues-Grown}
use ponko.Examples.World.{env}
use ponko.Examples.DevRouter.{start, runner}

abbrev result : ExecuteResult
result = record { output = "done"; cost_usd = 7 }

-- An agent that fails at first.
abbrev answer : ℕ → Result (Option ExecuteResult)
answer zero = err (external "overloaded")
answer (suc n) = ok (some result)

abbrev late_agent : Env
late_agent = record env { agent = λ n req. answer n }

first_fails : (j : ℕ) → j < 1 → FailsAt late_agent no_request (0 + j)
first_fails zero h = (external "overloaded", refl)
first_fails (suc j) h = absurd (omega arith)

run_attempts_answered_example :
    run_attempts late_agent 3 no_request (ok none) start
    ≡ (done (ok (some result)), after_calls late_agent no_request 2 start)
run_attempts_answered_example =
    run_attempts_answered late_agent no_request 3 1 (ok none) start (some result) (omega arith)
      first_fails refl

abbrev no_agent : Env
no_agent = record env { agent = λ n req. err (external "overloaded") }

run_attempts_exhausted_example :
    (e : Err) × (no_agent.agent 2 no_request ≡ err e)
    × (run_attempts no_agent 3 no_request (ok none) start
        ≡ (done (err e), after_calls no_agent no_request 3 start))
run_attempts_exhausted_example =
    run_attempts_exhausted no_agent no_request 2 (ok none) start
      (λ j h. (external "overloaded", refl))

abbrev repos : List Repo
repos = record { owner = "o"; name = "r"; path = "/r" } ∷ []

distinct : HasDistinctUrls start.tables.pipelines
distinct = (tt, tt)

poll_new_issues-Grown_example :
    let after = poll_new_issues env (λ n. "1") "label" false repos start in
    (r : ℕ × Result (Unit {0})) × (after.0 ≡ done r) × Grown start.tables r.0 after.1.tables
poll_new_issues-Grown_example =
    poll_new_issues-Grown env (λ n. "1") "label" false repos start distinct

abbrev waiting_pipeline : Pipeline
waiting_pipeline = record new_pipeline { stage = awaiting_approval }

abbrev at_gate : World Tables Call
at_gate = world (one_pipeline waiting_pipeline)

waits : find "p1" at_gate.tables ≡ some waiting_pipeline
unfolding select
waits = refl

abbrev approved_pipeline : Pipeline
approved_pipeline = record waiting_pipeline { stage = completed; updated_at = 1002 }

completes : find "p1" (run_once env runner "p1" at_gate).1.tables ≡ some approved_pipeline
unfolding run_once advance dispatch get update_stage modify validation_run run_approval is_allowed
    validate_transition select update ◌>>=◌ with_context attempt tell ask now exec_db query_db
completes = refl

run_once_completes_example :
    (awaiting_approval ≡ awaiting_approval) × (env.approval 1 "u/1" ≡ ok approved)
run_once_completes_example =
    run_once_completes env runner "p1" at_gate waiting_pipeline approved_pipeline waits (λ e. cc)
      completes refl

poll_new_issues_dry_run_example :
    (poll_new_issues env (λ n. "1") "label" true repos start).1.tables ≡ start.tables
poll_new_issues_dry_run_example = poll_new_issues_dry_run env (λ n. "1") "label" repos start
