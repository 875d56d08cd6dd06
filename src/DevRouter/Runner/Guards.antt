-- ===== src/DevRouter/Runner/Guards.antt =====
-- When RunOnce does nothing, and when it asks for the budget.
use ponko.Common.{
  ℕ, zero, refl, ap, ◌∙◌, suc, ◌+◌, ◌≤◌, String, ◌≡◌, ◌⊎◌, [], ◌∷◌, none, some, true, false, arith,
}
use ponko.Effect.{World, done, ◌>>=◌, with_context, attempt, query_db, now, tell}
use ponko.Event.{budget_exceeded}
use ponko.Pipeline.{Pipeline, pending, planning, executing, completed, failed}
use ponko.Budget.Spending.{LeavesRoom, OfRun, OfDay, run_room, day_room}
use ponko.PipelineStore.{find, get}
use ponko.Budget.{
  sum_where, of_run, of_day, can_afford_run, can_afford_day, run_spent, day_spent, spent_where,
}
use ponko.Orchestrator.{Tables, Call, emit, Env}
use ponko.DevRouter.Runner.{PipelineRunner, run_once, found, advance, can_afford, then_day, go_on}

-- The state after one read.
abbrev pub read_once : World Tables Call → World Tables Call
read_once w = record w { tick = suc w.tick }

module _ (env : Env) (r : PipelineRunner) (p : Pipeline) (w : World Tables Call) where
  abbrev today : String
  today = env.date_of (env.host.clock (suc w.tick))

  -- The costs recorded with the pipeline's id and those of the day leave room for a dollar each, and
  -- no fault when they are asked for.
  abbrev pub HasBudget : Type 0
  HasBudget =
      (env.host.db_fault w.tick ≡ none)
      × LeavesRoom (OfRun p.id) 1_000_000 r.limits.per_run_usd w.tables.usage
      × (env.host.db_fault (suc (suc w.tick)) ≡ none)
      × LeavesRoom (OfDay today) 1_000_000 r.limits.per_day_usd w.tables.usage

  -- The same by the sums of the queries.
  abbrev HasSums : Type 0
  HasSums =
      (env.host.db_fault w.tick ≡ none)
      × (sum_where (of_run p.id) w.tables.usage + 1_000_000 ≤ r.limits.per_run_usd)
      × (env.host.db_fault (suc (suc w.tick)) ≡ none)
      × (sum_where (of_day today) w.tables.usage + 1_000_000 ≤ r.limits.per_day_usd)

  HasBudget-of_sums : HasSums → HasBudget
  HasBudget-of_sums (run_ok, run_fits, day_ok, day_fits) = (
    run_ok,
    (run_room p.id 1_000_000 r.limits.per_run_usd w.tables.usage).0 run_fits,
    day_ok,
    (day_room today 1_000_000 r.limits.per_day_usd w.tables.usage).0 day_fits,
  )

  can_afford-of_short :
      ¬ HasSums
      → ((can_afford env r p w).0 ≡ done false)
        × ((can_afford env r p w).1.tables ≡ w.tables)
        × ((can_afford env r p w).1.trace ≡ w.trace)
  unfolding can_afford then_day can_afford_run can_afford_day run_spent day_spent spent_where ◌>>=◌
      with_context attempt query_db now
  can_afford-of_short short = ground arith

  can_afford-of_poor :
      ¬ HasBudget
      → ((can_afford env r p w).0 ≡ done false)
        × ((can_afford env r p w).1.tables ≡ w.tables)
        × ((can_afford env r p w).1.trace ≡ w.trace)
  can_afford-of_poor poor = can_afford-of_short (λ sums. poor (HasBudget-of_sums sums))

module _ (env : Env) (r : PipelineRunner) (id : String) where
  module _ (w : World Tables Call) (p : Pipeline) (answers : env.host.db_fault w.tick ≡ none)
      (stored : find id w.tables ≡ some p) where
    -- Outside a dry run, RunOnce asks for the budget before it advances a pending, planning or
    -- executing pipeline that it could read: without the money, or when the database does not tell,
    -- the call returns no error, writes nothing, and its only call is the event budget.exceeded.
    pub run_once_over_budget :
        r.dry_run ≡ false
        → (p.stage ≡ pending) ⊎ ((p.stage ≡ planning) ⊎ (p.stage ≡ executing))
        → ¬ HasBudget env r p (read_once w)
        → ((run_once env r id w).0 ≡ done tt)
          × ((run_once env r id w).1.tables ≡ w.tables)
          × ((run_once env r id w).1.trace
              ≡ emit (record { type = budget_exceeded; task_id = p.id; payload = [] }) ∷ w.trace)
    unfolding run_once found advance go_on get ◌>>=◌ with_context query_db tell
    run_once_over_budget real budgeted poor =
        ground (arith, can_afford-of_poor env r p (read_once w) poor)

  -- RunOnce called a number of times.
  unfoldable pub run_times : ℕ → World Tables Call → World Tables Call
  run_times zero w = w
  run_times (suc n) w = run_times n (run_once env r id w).1

  module _ (p : Pipeline)
      (at_rest : (p.stage ≡ completed) ⊎ ((p.stage ≡ failed) ⊎ (r.dry_run ≡ true))) where
    run_once-at_rest :
        (w : World Tables Call)
        → find id w.tables ≡ some p
        → ((run_once env r id w).1.tables ≡ w.tables)
          × ((run_once env r id w).1.trace ≡ w.trace)
          × (env.host.db_fault w.tick ≡ none → (run_once env r id w).0 ≡ done tt)
    unfolding run_once found advance get ◌>>=◌ with_context query_db
    run_once-at_rest w h = ground arith

    -- A completed or failed pipeline, and any in a dry run, stays as it is however often RunOnce is
    -- called, also when the database fails: no write and no call is made, and no error is returned
    -- by a call that can read the pipeline.
    pub run_times-at_rest :
        (n : ℕ) (w : World Tables Call)
        → find id w.tables ≡ some p
        → let last = run_times n w in
          (last.tables ≡ w.tables)
          × (last.trace ≡ w.trace)
          × (env.host.db_fault last.tick ≡ none → (run_once env r id last).0 ≡ done tt)
    unfolding run_times
    run_times-at_rest zero w h = (refl, refl, (run_once-at_rest w h).2)
    run_times-at_rest (suc n) w h =
        let (kept, silent, _) = run_once-at_rest w h in
        let (rest, quiet, fine) =
          run_times-at_rest n (run_once env r id w).1 (ap (λ d. find id d) kept ∙ h) in
        (rest ∙ kept, quiet ∙ silent, fine)
