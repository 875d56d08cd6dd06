-- ===== src/Worker/Work/Gates.antt =====
-- The budget and the gate before a phase.
use ponko.Common.{
  suc, ◌+◌, ◌≤◌, ℕ, String, ◌≡◌, ◌≢◌, refl, List, Bool, Option, eq-of_ne, [], ◌∷◌, none, some, true,
  false, arith,
}
use ponko.Effect.{
  ok, Outcome, Result, err, World, done, fail, panic, ◌>>=◌, with_context, attempt, query_db, now,
  tell, ask,
}
use ponko.Budget.{
  sum_where, of_run, of_day, of_task, can_afford_run, can_afford_day, can_afford_task, run_spent,
  day_spent, spent_where,
}
use ponko.Orchestrator.{Tables, Call, Env, execute, enqueue, comment, TaskPhaseArgs, run_has_label}
use ponko.Config.{Phase, Workflow, Config, lookup}
use ponko.Worker.{Deps, Verdict, finished, estimated_usd, current_phase}
use ponko.Worker.Work.{affordable, and_then, pass_gate, on_label, past_gate, within_budget, work}

module _ (env : Env) (deps : Deps) (cfg : Config) (repo_path : String → String) (run_id : String)
    (args : TaskPhaseArgs) (w : World Tables Call) where
  -- The money that is there for the run, the day and the issue, and no fault when it is asked for.
  abbrev pub HasRoom : Type 0
  HasRoom =
      (env.host.db_fault w.tick ≡ none)
      × (sum_where (of_run run_id) w.tables.usage + estimated_usd ≤ deps.limits.per_run_usd)
      × (env.host.db_fault (suc (suc w.tick)) ≡ none)
      × (sum_where (of_day (env.date_of (env.host.clock (suc w.tick)))) w.tables.usage
            + estimated_usd
          ≤ deps.limits.per_day_usd)
      × (env.host.db_fault (suc (suc (suc w.tick))) ≡ none)
      × (sum_where (of_task args.issue_url) w.tables.usage + estimated_usd
          ≤ deps.limits.per_task_usd)

-- The calls that work on an issue: to the agent, to the queue, and a comment.
abbrev pub acts : List Call → List Call
acts [] = []
acts (execute r ∷ calls) = execute r ∷ acts calls
acts (enqueue j ∷ calls) = enqueue j ∷ acts calls
acts (comment url c ∷ calls) = comment url c ∷ acts calls
acts (c ∷ calls) = acts calls

-- No write, no such call, and the phase is not over.
abbrev pub IsHeld : World Tables Call → Outcome Verdict × World Tables Call → Type 0
IsHeld w r = (r.1.tables ≡ w.tables) × (acts r.1.trace ≡ acts w.trace) × (r.0 ≢ done finished)

module _ (env : Env) (deps : Deps) (cfg : Config) (repo_path : String → String) (run_id : String)
    (args : TaskPhaseArgs) where
  abbrev Still : {A : Type 0} → World Tables Call → Outcome A × World Tables Call → Type 0
  Still w r = (r.1.tables ≡ w.tables) × (r.1.trace ≡ w.trace)

  affordable-Still :
      (w : World Tables Call) → Still w (affordable env deps cfg repo_path run_id args w)
  unfolding affordable and_then can_afford_run can_afford_day can_afford_task run_spent day_spent
      spent_where ◌>>=◌ with_context attempt query_db now
  affordable-Still w = ground arith

  module _ (wf : Workflow) (phase : Phase) (checked : deps.has_gate_checker ≡ true)
      (known : lookup args.workflow cfg.workflows ≡ some wf)
      (found : current_phase wf args.phase ≡ some phase) (gated : phase.gate ≢ "")
      (missing : (label : String)
        → lookup phase.gate cfg.gates ≡ some label
        → (n : ℕ) → env.label n args.issue_url label ≢ ok true) where
    within_budget-IsHeld :
        (b : Bool) (w : World Tables Call)
        → IsHeld w (within_budget env deps cfg repo_path run_id args b w)
    unfolding within_budget pass_gate on_label past_gate run_has_label ask attempt ◌>>=◌ tell
    within_budget-IsHeld false w = ground arith
    within_budget-IsHeld true w = go (lookup phase.gate cfg.gates) refl
      where
        asked :
            (label : String)
            → lookup phase.gate cfg.gates ≡ some label
            → (answer : Result Bool) → env.label w.tick args.issue_url label ≡ answer
            → IsHeld w (within_budget env deps cfg repo_path run_id args true w)
        asked label named (ok true) h = absurd (missing label named w.tick h)
        asked label named (ok false) h = ground (arith, eq-of_ne phase.gate "" gated)
        asked label named (err e) h = ground (arith, eq-of_ne phase.gate "" gated)

        go :
            (label : Option String)
            → lookup phase.gate cfg.gates ≡ label
            → IsHeld w (within_budget env deps cfg repo_path run_id args true w)
        go none h = ground (arith, eq-of_ne phase.gate "" gated)
        go (some label) h = asked label h (env.label w.tick args.issue_url label) refl

    -- A gate that is not passed holds a phase back: if the workflow and the phase are known, the
    -- phase has a gate, there is a gate checker, and the issue is never said to have the label of
    -- the gate, then, whatever else is missing or fails, the phase writes nothing, calls no agent,
    -- puts no job into the queue, posts no comment, and is not reported as finished.
    pub work-IsHeld : (w : World Tables Call) → IsHeld w (work env deps cfg repo_path run_id args w)
    unfolding work ◌>>=◌
    work-IsHeld w = go (affordable env deps cfg repo_path run_id args w) refl (affordable-Still w)
      where
        go :
            (r : Outcome Bool × World Tables Call)
            → affordable env deps cfg repo_path run_id args w ≡ r
            → Still w r
            → IsHeld w (work env deps cfg repo_path run_id args w)
        go (done b, w') e still = ground (arith, within_budget-IsHeld b w')
        go (fail x, w') e still = ground arith
        go (panic, w') e still = ground arith
