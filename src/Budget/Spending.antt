-- ===== src/Budget/Spending.antt =====
-- When spending is affordable.
use ponko.Common.{
  ℕ, suc, ◌+◌, ◌≤◌, String, ◌≡◌, ◌↔◌, List, [], ◌∷◌, ◌++◌, none, Bool, arith, eq_iff, refl, subst,
  sym, true, false, if◌then◌else◌,
}
use ponko.Effect.{World, done, ◌>>=◌, with_context, attempt, query_db, exec_db, now}
use ponko.Orchestrator.{Budget, Usage, Tables, Call, Env}
use ponko.Budget.{
  record_spend, sum_where, of_run, of_day, of_task, spent_where, run_spent, day_spent,
  can_afford_run, can_afford_day, can_afford_task,
}

pub sum_where-append :
    (test : Usage → Bool) (us vs : List Usage)
    → sum_where test (us ++ vs) ≡ sum_where test us + sum_where test vs
unfolding sum_where
sum_where-append test [] vs = omega arith
sum_where-append test (u ∷ us) vs = ground (arith, sum_where-append test us vs)

-- A number is the sum of the costs of the rows with a property.
abbrev pub IsSum : (Usage → Type 0) → List Usage → ℕ → Type 0
IsSum P [] n = n ≡ 0
IsSum P (u ∷ us) n = (m : ℕ) × IsSum P us m × (P u → n ≡ u.cost_usd + m) × (¬ P u → n ≡ m)

-- The costs of the rows with a property leave room for an estimate below a limit.
abbrev pub LeavesRoom : (Usage → Type 0) → ℕ → ℕ → List Usage → Type 0
LeavesRoom P estimated limit us = (n : ℕ) × IsSum P us n × (n + estimated ≤ limit)

module _ (P : Usage → Type 0) (test : Usage → Bool)
    (decides : (u : Usage) → (test u ≡ true) ↔ P u) where
  sum_where-IsSum : (us : List Usage) → IsSum P us (sum_where test us)
  unfolding sum_where
  sum_where-IsSum [] = refl
  sum_where-IsSum (u ∷ us) = (
    sum_where test us,
    sum_where-IsSum us,
    λ holds. let h = (decides u).1 holds in ground arith,
    λ fails. let h = λ (e : test u ≡ true). fails ((decides u).0 e) in ground arith,
  )

  IsSum-unique : (us : List Usage) (n : ℕ) → IsSum P us n → n ≡ sum_where test us
  unfolding sum_where
  IsSum-unique [] n h = h
  IsSum-unique (u ∷ us) n (m, rest, if_so, if_not) = go (test u) refl (IsSum-unique us m rest)
    where
      go :
          (b : Bool)
          → test u ≡ b
          → m ≡ sum_where test us
          → n ≡ (if b then u.cost_usd else 0) + sum_where test us
      go true e same = let sum = if_so ((decides u).0 e) in omega arith
      go false e same = let sum = if_not (λ holds. cc ((decides u).1 holds)) in omega arith

  -- The sum that the query returns decides whether there is room.
  pub LeavesRoom-sum_where :
      (estimated limit : ℕ) (us : List Usage)
      → (sum_where test us + estimated ≤ limit) ↔ LeavesRoom P estimated limit us
  LeavesRoom-sum_where estimated limit us = (
    λ room. (sum_where test us, sum_where-IsSum us, room),
    λ (n, sum, room). let same = IsSum-unique us n sum in omega arith,
  )

abbrev pub OfRun : String → Usage → Type 0
OfRun run_id u = u.run_id ≡ run_id

abbrev pub OfDay : String → Usage → Type 0
OfDay date u = u.date ≡ date

abbrev pub OfTask : String → Usage → Type 0
OfTask task_id u = u.task_id ≡ task_id

-- The rows that the three queries add up.
pub run_room :
    (run_id : String) (estimated limit : ℕ) (us : List Usage)
    → (sum_where (of_run run_id) us + estimated ≤ limit)
      ↔ LeavesRoom (OfRun run_id) estimated limit us
run_room run_id = LeavesRoom-sum_where (OfRun run_id) (of_run run_id) (λ u. eq_iff u.run_id run_id)

pub day_room :
    (date : String) (estimated limit : ℕ) (us : List Usage)
    → (sum_where (of_day date) us + estimated ≤ limit) ↔ LeavesRoom (OfDay date) estimated limit us
day_room date = LeavesRoom-sum_where (OfDay date) (of_day date) (λ u. eq_iff u.date date)

task_room :
    (task_id : String) (estimated limit : ℕ) (us : List Usage)
    → (sum_where (of_task task_id) us + estimated ≤ limit)
      ↔ LeavesRoom (OfTask task_id) estimated limit us
task_room task_id =
    LeavesRoom-sum_where (OfTask task_id) (of_task task_id) (λ u. eq_iff u.task_id task_id)

-- A row that is added at the end.
IsSum-append :
    (P : Usage → Type 0) (row : Usage) (us : List Usage) (n : ℕ)
    → IsSum P us n
    → (P row → IsSum P (us ++ row ∷ []) (n + row.cost_usd)) × (¬ P row → IsSum P (us ++ row ∷ []) n)
IsSum-append P row [] n none_yet = (
  λ holds. (0, refl, λ _. omega arith, λ fails. absurd (fails holds)),
  λ fails. (0, refl, λ holds. absurd (fails holds), λ _. none_yet),
)
IsSum-append P row (u ∷ us) n (m, rest, if_so, if_not) =
    let (counted, passed) = IsSum-append P row us m rest in
    (
      λ holds. (
        m + row.cost_usd,
        counted holds,
        λ so. let e = if_so so in omega arith,
        λ fails. let e = if_not fails in omega arith,
      ),
      λ fails. (m, passed fails, if_so, if_not),
    )

both : {A B C D : Type 0} → A ↔ (B × C) → C ↔ D → A ↔ (B × D)
both answer room = (λ a. let (b, c) = answer.0 a in (b, room.0 c), λ (b, d). answer.1 (b, room.1 d))

module _ (env : Env) (limits : Budget) (estimated : ℕ) (w : World Tables Call) where
  run_answer :
      (run_id : String)
      → ((can_afford_run env limits run_id estimated w).0 ≡ done true) ↔ (
          (env.host.db_fault w.tick ≡ none)
          × (sum_where (of_run run_id) w.tables.usage + estimated ≤ limits.per_run_usd))
  unfolding can_afford_run run_spent spent_where ◌>>=◌ with_context attempt query_db
  run_answer run_id = ground arith

  day_answer : ((can_afford_day env limits estimated w).0 ≡ done true) ↔ (
      (env.host.db_fault (suc w.tick) ≡ none)
      × (sum_where (of_day (env.date_of (env.host.clock w.tick))) w.tables.usage + estimated
          ≤ limits.per_day_usd))
  unfolding can_afford_day day_spent spent_where ◌>>=◌ with_context attempt query_db now
  day_answer = ground arith

  task_answer :
      (task_id : String)
      → ((can_afford_task env limits task_id estimated w).0 ≡ done true) ↔ (
          (env.host.db_fault w.tick ≡ none)
          × (sum_where (of_task task_id) w.tables.usage + estimated ≤ limits.per_task_usd))
  unfolding can_afford_task spent_where ◌>>=◌ with_context attempt query_db
  task_answer task_id = ground arith

  -- CanAffordRun is true exactly when the database answers and the costs recorded with the id of the
  -- run leave room for the estimate below the limit of a run; CanAffordTask and CanAffordDay alike
  -- for the costs with the id of the task, and for those with the date that the clock shows.
  pub can_afford_iff :
      (run_id task_id : String)
      → (((can_afford_run env limits run_id estimated w).0 ≡ done true) ↔ (
          (env.host.db_fault w.tick ≡ none)
          × LeavesRoom (λ u. u.run_id ≡ run_id) estimated limits.per_run_usd w.tables.usage))
        × (((can_afford_task env limits task_id estimated w).0 ≡ done true) ↔ (
            (env.host.db_fault w.tick ≡ none)
            × LeavesRoom (λ u. u.task_id ≡ task_id) estimated limits.per_task_usd w.tables.usage))
        × (((can_afford_day env limits estimated w).0 ≡ done true) ↔ (
            (env.host.db_fault (suc w.tick) ≡ none)
            × LeavesRoom
                (λ u. u.date ≡ env.date_of (env.host.clock w.tick))
                estimated
                limits.per_day_usd
                w.tables.usage))
  can_afford_iff run_id task_id = (
    both (run_answer run_id) (run_room run_id estimated limits.per_run_usd w.tables.usage),
    both (task_answer task_id) (task_room task_id estimated limits.per_task_usd w.tables.usage),
    both day_answer (
        day_room (env.date_of (env.host.clock w.tick)) estimated limits.per_day_usd w.tables.usage),
  )

module _ (env : Env) (task_id run_id : String) (cost : ℕ) (w : World Tables Call) where
  abbrev pub spend : Usage
  spend = record {
    task_id = task_id;
    run_id = run_id;
    cost_usd = cost;
    date = env.date_of (env.host.clock w.tick);
  }

  recorded :
      (record_spend env task_id run_id cost w).0 ≡ done tt
      → (record_spend env task_id run_id cost w).1.tables.usage ≡ w.tables.usage ++ spend ∷ []
  unfolding record_spend ◌>>=◌ with_context exec_db now
  recorded h = ground arith

  -- For every property of rows: when Record returns no error, the sum of the costs of the rows with
  -- the property has grown by the cost if the row of the task, the run, the cost and the date that
  -- the clock shows has it, and is what it was if not.
  pub record_spend-IsSum :
      (P : Usage → Type 0) (n : ℕ)
      → (record_spend env task_id run_id cost w).0 ≡ done tt
      → IsSum P w.tables.usage n
      → let after = (record_spend env task_id run_id cost w).1.tables.usage in
        (P spend → IsSum P after (n + cost)) × (¬ P spend → IsSum P after n)
  record_spend-IsSum P n h sum =
      let (counted, passed) = IsSum-append P spend w.tables.usage n sum in
      (
        λ holds. subst (λ us. IsSum P us (n + cost)) (sym (recorded h)) (counted holds),
        λ fails. subst (λ us. IsSum P us n) (sym (recorded h)) (passed fails),
      )
