-- ===== src/DevRouter/Planning/Stable.antt =====
-- Predicates of the tables, carried through the planning.
use ponko.Effect.Keeps.{Keeps, Keeps-deref, Keeps-with_context, Keeps-ask, Keeps-bind, Keeps-tell}
use ponko.PipelineStore.Stable.{
  IgnoresPipelines, update_stage-Keeps, set_plan_output-Keeps, set_story_count-Keeps,
}
use ponko.Orchestrator.{Tables, Env, DevRouterConfig, run_agent}
use ponko.Pipeline.{Pipeline}
use ponko.DevRouter.Planning.{planning_run}

module _ (env : Env) {P : Tables → Type 0} (ignores : IgnoresPipelines P) where
  pub planning_run-Keeps : (cfg : DevRouterConfig) (p : Pipeline) → Keeps P (planning_run env cfg p)
  unfolding planning_run run_agent
  planning_run-Keeps cfg p = Keeps-bind (Keeps-with_context _ (Keeps-ask _ _)) λ reply.
      Keeps-bind (Keeps-deref reply) λ result.
        Keeps-bind (Keeps-with_context _ (set_plan_output-Keeps env ignores _ _)) λ _.
          Keeps-bind (Keeps-with_context _ (set_story_count-Keeps env ignores _ _)) λ _.
            Keeps-bind (Keeps-with_context _ (update_stage-Keeps env ignores _ _ _ (λ e. cc)))
              λ _. Keeps-tell _
