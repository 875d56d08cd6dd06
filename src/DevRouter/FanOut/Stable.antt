-- ===== src/DevRouter/FanOut/Stable.antt =====
-- Predicates of the tables, carried through the fan-out.
use ponko.Effect.Keeps.{Keeps, Keeps-lift, Keeps-with_context, Keeps-bind, Keeps-tell}
use ponko.PipelineStore.Stable.{IgnoresPipelines, update_stage-Keeps, set_current_story_index-Keeps}
use ponko.Orchestrator.{Tables, Env}
use ponko.Pipeline.{Pipeline}
use ponko.DevRouter.FanOut.{fanout_run, parse_stories}

module _ (env : Env) {P : Tables → Type 0} (ignores : IgnoresPipelines P) where
  pub fanout_run-Keeps : (p : Pipeline) → Keeps P (fanout_run env p)
  unfolding fanout_run parse_stories
  fanout_run-Keeps p =
      Keeps-bind (Keeps-with_context _ (Keeps-with_context _ (Keeps-lift _))) λ stories.
        Keeps-bind (Keeps-lift _) λ _. Keeps-bind (Keeps-lift _) λ _.
          Keeps-bind (Keeps-with_context _ (set_current_story_index-Keeps env ignores _ _)) λ _.
            Keeps-bind (Keeps-with_context _ (update_stage-Keeps env ignores _ _ _ (λ e. cc)))
              λ _. Keeps-tell _
