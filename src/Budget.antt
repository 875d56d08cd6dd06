-- ===== src/Budget.antt =====
-- internal/budget/budget.go over the table budget_usage. A limit is a field of config.Budget.
pub mod Spending
use ponko.Common.{ℕ, ◌+◌, String, List, [], ◌∷◌, ◌++◌, Bool, true, false, ◌==◌, leb, if◌then◌else◌}
use ponko.Effect.{Result, ok, err, pure, with_context, attempt, ◌>>=◌, now, exec_db, query_db}
use ponko.Orchestrator.{Budget, Usage, Tables, M, Env}

-- SELECT COALESCE(SUM(cost_usd), 0) … WHERE …
unfoldable pub sum_where : (Usage → Bool) → List Usage → ℕ
sum_where test [] = 0
sum_where test (u ∷ us) = (if test u then u.cost_usd else 0) + sum_where test us

abbrev pub of_run : String → Usage → Bool
of_run run_id u = u.run_id == run_id

abbrev pub of_day : String → Usage → Bool
of_day date u = u.date == date

abbrev pub of_task : String → Usage → Bool
of_task task_id u = u.task_id == task_id

abbrev within : ℕ → ℕ → Result ℕ → Bool
within limit estimated (ok spent) = leb (spent + estimated) limit
within limit estimated (err e) = false

module _ (env : Env) where
  unfoldable pub record_spend : String → String → ℕ → M (Unit {0})
  record_spend task_id run_id cost = do
    t ← now env.host
    with_context "record budget" (
        exec_db env.host (λ d. record d {
          usage =
              d.usage
              ++ record {
                task_id = task_id;
                run_id = run_id;
                cost_usd = cost;
                date = env.date_of t;
              }
                ∷ [];
        }))

  unfoldable pub spent_where : (Usage → Bool) → M ℕ
  unfolding sum_where
  spent_where test = with_context "sum budget" (query_db env.host (λ d. sum_where test d.usage))

  unfoldable pub run_spent : String → M ℕ
  unfolding spent_where
  run_spent run_id = spent_where (of_run run_id)

  unfoldable pub day_spent : String → M ℕ
  unfolding spent_where
  day_spent date = spent_where (of_day date)

  module _ (limits : Budget) where
    unfoldable pub can_afford_run : String → ℕ → M Bool
    unfolding run_spent
    can_afford_run run_id estimated = do
      spent ← attempt (run_spent run_id)
      pure (within limits.per_run_usd estimated spent)

    unfoldable pub can_afford_day : ℕ → M Bool
    unfolding day_spent
    can_afford_day estimated = do
      t ← now env.host
      spent ← attempt (day_spent (env.date_of t))
      pure (within limits.per_day_usd estimated spent)

    unfoldable pub can_afford_task : String → ℕ → M Bool
    unfolding spent_where
    can_afford_task task_id estimated = do
      spent ← attempt (spent_where (of_task task_id))
      pure (within limits.per_task_usd estimated spent)
