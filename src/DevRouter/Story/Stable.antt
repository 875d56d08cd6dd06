-- ===== src/DevRouter/Story/Stable.antt =====
-- Predicates of the tables, carried through a story; its cost is recorded under no run.
use ponko.Common.{ℕ, suc, ◌+◌, zero, String, [], ◌∷◌, ◌++◌, Option, nat_eq}
use ponko.Effect.{Exec, Err, Result, ok, err}
use ponko.Effect.Keeps.{
  Keeps, Keeps-pure, Keeps-lift, Keeps-deref, Keeps-with_context, Keeps-attempt, Keeps-ask,
  Keeps-if, Keeps-bind, Keeps-tell, Keeps-now, Keeps-exec_db,
}
use ponko.PipelineStore.Stable.{
  IgnoresPipelines, update_stage-Keeps, set_current_story_index-Keeps, add_cost-Keeps,
  incr_stories_completed-Keeps,
}
use ponko.Orchestrator.{
  Tables, Call, Env, DevRouterConfig, ExecuteRequest, ExecuteResult, run_agent,
}
use ponko.Pipeline.{Pipeline}
use ponko.Budget.{record_spend}
use ponko.DevRouter.FanOut.{parse_stories}
use ponko.DevRouter.Story.{
  retry, run_attempts, record_cost, advance, story_done, story_failed, finish_story, story_run,
}

-- Predicates of the tables that spending under no run does not touch.
abbrev pub IgnoresRunless : (Tables → Type 0) → Type 0
IgnoresRunless P =
    (task_id date : String) (cost : ℕ) (d : Tables)
    → P d
    → P (record d {
      usage =
          d.usage ++ record { task_id = task_id; run_id = ""; cost_usd = cost; date = date } ∷ [];
    })

module _ (env : Env) {P : Tables → Type 0} (ignores : IgnoresPipelines P)
    (runless : IgnoresRunless P) where
  retry-Keeps :
      (again : Err → Exec Tables Call (Result (Option ExecuteResult)))
      → ((e : Err) → Keeps P (again e))
      → (r : Result (Option ExecuteResult)) → Keeps P (retry again r)
  retry-Keeps again k (ok result) = Keeps-pure _
  retry-Keeps again k (err e) = k e

  run_attempts-Keeps :
      (n : ℕ) (req : ExecuteRequest) (last : Result (Option ExecuteResult))
      → Keeps P (run_attempts env n req last)
  unfolding run_attempts run_agent
  run_attempts-Keeps zero req last = Keeps-pure _
  run_attempts-Keeps (suc n) req last =
      Keeps-bind (Keeps-attempt (Keeps-ask _ _))
        (retry-Keeps _ (λ e. run_attempts-Keeps n req (err e)))

  record_cost-Keeps : (p : Pipeline) (cost : ℕ) → Keeps P (record_cost env p cost)
  unfolding record_cost record_spend
  record_cost-Keeps p zero = Keeps-pure _
  record_cost-Keeps p (suc cost) = Keeps-bind (Keeps-attempt (add_cost-Keeps env ignores _ _)) λ _.
      Keeps-bind
        (Keeps-attempt (
          Keeps-bind (Keeps-now env.host) λ t.
            Keeps-with_context _
              (Keeps-exec_db env.host _ (runless p.id (env.date_of t) (suc cost)))))
        λ _. Keeps-pure _

  advance-Keeps : (p : Pipeline) (i : ℕ) → Keeps P (advance env p i)
  unfolding advance
  advance-Keeps p i =
      Keeps-if (nat_eq (i + 1) p.story_count)
        (Keeps-with_context _ (update_stage-Keeps env ignores _ _ _ (λ e. cc)))
        (Keeps-with_context _ (set_current_story_index-Keeps env ignores _ _))

  finish_story-Keeps :
      (p : Pipeline) (i : ℕ) (r : Result (Option ExecuteResult)) → Keeps P (finish_story env p i r)
  unfolding finish_story story_done story_failed
  finish_story-Keeps p i (err e) =
      Keeps-bind (Keeps-attempt (update_stage-Keeps env ignores _ _ _ (λ e. cc))) λ _. Keeps-tell _
  finish_story-Keeps p i (ok o) = Keeps-bind (Keeps-deref o) λ result.
      Keeps-bind (record_cost-Keeps p result.cost_usd) λ _.
        Keeps-bind (Keeps-with_context _ (incr_stories_completed-Keeps env ignores _))
          λ _. Keeps-bind (Keeps-tell _) λ _. advance-Keeps p i

  pub story_run-Keeps :
      (cfg : DevRouterConfig) (p : Pipeline) (i : ℕ) → Keeps P (story_run env cfg p i)
  unfolding story_run parse_stories
  story_run-Keeps cfg p i =
      Keeps-bind (Keeps-with_context _ (Keeps-with_context _ (Keeps-lift _))) λ stories.
        Keeps-bind (Keeps-lift _)
          λ story. Keeps-bind (run_attempts-Keeps _ _ _) λ last. finish_story-Keeps p i last
