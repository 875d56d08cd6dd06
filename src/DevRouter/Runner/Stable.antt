-- ===== src/DevRouter/Runner/Stable.antt =====
-- Predicates of the tables, carried through a call of RunOnce.
use ponko.Common.{suc, String, ◌≡◌, refl, Option, none, some, Bool, true, false, ◌⧺◌, if◌then◌else◌}
use ponko.Effect.{
  Err, ok, World, attempt, pure, with_context, query_db, answer_db, wrapped, continue, ◌>>=◌,
}
use ponko.Effect.Keeps.{
  Keeps, Keeps-pure, Keeps-with_context, Keeps-attempt, Keeps-bind, Keeps-tell, Keeps-now,
  Keeps-query_db,
}
use ponko.Pipeline.{
  Stage, Pipeline, pending, classifying, planning, fanout, executing, validating, awaiting_approval,
}
use ponko.PipelineStore.{find, get}
use ponko.PipelineStore.Stable.{IgnoresPipelines, IgnoresCompletion, update_stage-Keeps}
use ponko.Budget.{can_afford_run, can_afford_day, run_spent, day_spent, spent_where}
use ponko.Orchestrator.{Usage, Tables, Call, Env, approved}
use ponko.DevRouter.Ingress.Stable.{ingress_run-Keeps}
use ponko.DevRouter.Planning.Stable.{planning_run-Keeps}
use ponko.DevRouter.FanOut.Stable.{fanout_run-Keeps}
use ponko.DevRouter.Story.Stable.{IgnoresRunless, story_run-Keeps}
use ponko.DevRouter.Validation.Stable.{validation_run-keeps}
use ponko.DevRouter.Runner.{
  PipelineRunner, run_once, found, advance, can_afford, then_day, go_on, dispatch, by_stage,
  start_ingress, terminal_stages, is_budgeted,
}

-- The state after one read.
abbrev pub read_once : World Tables Call → World Tables Call
read_once w = record w { tick = suc w.tick }

module _ (env : Env) (r : PipelineRunner) {P : Tables → Type 0} (ignores : IgnoresPipelines P)
    (runless : IgnoresRunless P) where
  -- What is known when a pipeline may be completed: it waits for a human, who approves.
  abbrev pub MayComplete : Pipeline → World Tables Call → Type 0
  MayComplete p w =
      p.stage ≡ awaiting_approval
      → env.approval w.tick p.issue_url ≡ ok approved
      → IgnoresCompletion P

  by_stage-keeps :
      (s : Stage) (p : Pipeline) (w : World Tables Call)
      → MayComplete p w
      → P w.tables
      → P (by_stage env r s p w).1.tables
  unfolding by_stage start_ingress
  by_stage-keeps pending p w completion h =
      (Keeps-bind
          (Keeps-with_context _ (update_stage-Keeps env ignores p.id pending classifying (λ e. cc)))
          λ _. ingress_run-Keeps env ignores _ _ _).at
        w h
  by_stage-keeps classifying p w completion h = (ingress_run-Keeps env ignores _ _ _).at w h
  by_stage-keeps planning p w completion h = (planning_run-Keeps env ignores _ _).at w h
  by_stage-keeps fanout p w completion h = (fanout_run-Keeps env ignores _).at w h
  by_stage-keeps executing p w completion h = (story_run-Keeps env ignores runless _ _ _).at w h
  by_stage-keeps validating p w completion h = validation_run-keeps env ignores p w completion h
  by_stage-keeps awaiting_approval p w completion h =
      validation_run-keeps env ignores p w completion h
  by_stage-keeps _ p w completion h = h

  spent_where-Keeps : (test : Usage → Bool) → Keeps P (attempt (spent_where env test))
  unfolding spent_where
  spent_where-Keeps test = Keeps-attempt (Keeps-with_context _ (Keeps-query_db env.host _))

  then_day-Keeps : (b : Bool) → Keeps P (then_day env r b)
  unfolding then_day can_afford_day day_spent
  then_day-Keeps true =
      Keeps-bind (Keeps-now env.host) λ t. Keeps-bind (spent_where-Keeps _) λ _. Keeps-pure _
  then_day-Keeps false = Keeps-pure _

  can_afford-Keeps : (p : Pipeline) → Keeps P (can_afford env r p)
  unfolding can_afford can_afford_run run_spent
  can_afford-Keeps p =
      Keeps-bind (Keeps-bind (spent_where-Keeps _) λ _. Keeps-pure _) then_day-Keeps

  -- A stage that asks for the budget completes nothing.
  budgeted : (p : Pipeline) (w : World Tables Call) → is_budgeted p.stage ≡ true → MayComplete p w
  budgeted p w b e = cc

  go_on-Keeps : (p : Pipeline) (b : Bool) → is_budgeted p.stage ≡ true → Keeps P (go_on env r p b)
  unfolding go_on dispatch
  go_on-Keeps p true e = record { at = λ w h. by_stage-keeps p.stage p w (budgeted p w e) h }
  go_on-Keeps p false e = Keeps-tell _

  advance-keeps :
      (p : Pipeline) (w : World Tables Call)
      → MayComplete p w
      → P w.tables
      → P (advance env r p w).1.tables
  unfolding advance dispatch
  advance-keeps p w completion h = go (terminal_stages p.stage) r.dry_run (is_budgeted p.stage) refl
    where
      go :
          (terminal dry b : Bool)
          → is_budgeted p.stage ≡ b
          → P
              ((if terminal
                  then pure tt
                  else if dry
                  then pure tt
                  else if b
                  then can_afford env r p >>= go_on env r p
                  else by_stage env r p.stage p)
                w).1.tables
      go true dry b e = h
      go false true b e = h
      go false false true e =
          (Keeps-bind (can_afford-Keeps p) (λ afford. go_on-Keeps p afford e)).at w h
      go false false false e = by_stage-keeps p.stage p w completion h

  read :
      (id : String) (fault : Option Err) (o : Option Pipeline) (w : World Tables Call)
      → ((p : Pipeline) → o ≡ some p → MayComplete p (read_once w))
      → P w.tables
      → P
          (continue
            (found env r id)
            (wrapped ("runner: get pipeline " ⧺ id) (answer_db env.host fault o w))).1.tables
  unfolding found
  read id (some e) o w completion h = h
  read id none none w completion h = h
  read id none (some p) w completion h = advance-keeps p (read_once w) (completion p refl) h

  pub run_once-keeps :
      (id : String) (w : World Tables Call)
      → ((p : Pipeline) → find id w.tables ≡ some p → MayComplete p (read_once w))
      → P w.tables
      → P (run_once env r id w).1.tables
  unfolding run_once get query_db with_context ◌>>=◌
  run_once-keeps id w completion h =
      read id (env.host.db_fault w.tick) (find id w.tables) w completion h
