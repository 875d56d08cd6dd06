-- ===== src/DevRouter/Ingress/Stable.antt =====
-- Predicates of the tables, carried through the ingress.
use ponko.Common.{String, List, Bool, not, ◌||◌, is_empty}
use ponko.Effect.{Result, ok, err}
use ponko.Effect.Keeps.{
  Keeps, Keeps-pure, Keeps-lift, Keeps-deref, Keeps-with_context, Keeps-attempt, Keeps-ask,
  Keeps-if, Keeps-bind, Keeps-tell,
}
use ponko.PipelineStore.Stable.{
  IgnoresPipelines, update_stage-Keeps, set_track-Keeps, set_classification_rationale-Keeps,
  set_issue_content-Keeps,
}
use ponko.Orchestrator.{Tables, Env, DevRouterConfig, GhIssue, run_agent, run_command}
use ponko.Pipeline.{Pipeline}
use ponko.DevRouter.Ingress.{
  view, store_content, fetch_labels, fetch_issue_content, classify_with, ingress_run,
}

module _ (env : Env) {P : Tables → Type 0} (ignores : IgnoresPipelines P) where
  view-Keeps : (fields a b : String) (p : Pipeline) → Keeps P (view env fields a b p)
  unfolding view run_command
  view-Keeps fields a b p =
      Keeps-bind (Keeps-with_context _ (Keeps-ask _ _)) λ out. Keeps-with_context _ (Keeps-lift _)

  store_content-Keeps : (p : Pipeline) (r : Result GhIssue) → Keeps P (store_content env p r)
  unfolding store_content
  store_content-Keeps p (ok issue) =
      Keeps-bind (Keeps-attempt (Keeps-with_context _ (set_issue_content-Keeps env ignores _ _ _)))
        λ _. Keeps-pure _
  store_content-Keeps p (err e) = Keeps-pure _

  fetch_labels-Keeps : (p : Pipeline) (r : Result GhIssue) → Keeps P (fetch_labels env p r)
  unfolding fetch_labels
  fetch_labels-Keeps p (ok issue) = Keeps-pure _
  fetch_labels-Keeps p (err e) = Keeps-pure _

  fetch_issue_content-Keeps :
      (has_exec : Bool) (p : Pipeline) → Keeps P (fetch_issue_content env has_exec p)
  unfolding fetch_issue_content
  fetch_issue_content-Keeps has_exec p =
      Keeps-if (is_empty p.issue_url || not has_exec) (Keeps-pure _) (
        Keeps-if (is_empty p.issue_title)
          (Keeps-bind (Keeps-attempt (view-Keeps _ _ _ p)) (store_content-Keeps p))
          (Keeps-bind (Keeps-attempt (view-Keeps _ _ _ p)) (fetch_labels-Keeps p)))

  classify_with-Keeps :
      (cfg : DevRouterConfig) (p : Pipeline) (labels : Result (List String))
      → Keeps P (classify_with env cfg (p, labels))
  unfolding classify_with run_agent
  classify_with-Keeps cfg p labels = Keeps-bind (Keeps-with_context _ (Keeps-ask _ _)) λ reply.
      Keeps-bind (Keeps-deref reply) λ result.
        Keeps-bind (Keeps-with_context _ (set_track-Keeps env ignores _ _)) λ _.
          Keeps-bind (Keeps-with_context _ (set_classification_rationale-Keeps env ignores _ _))
            λ _.
              Keeps-bind (Keeps-with_context _ (update_stage-Keeps env ignores _ _ _ (λ e. cc)))
                λ _. Keeps-tell _

  pub ingress_run-Keeps :
      (cfg : DevRouterConfig) (has_exec : Bool) (p : Pipeline)
      → Keeps P (ingress_run env cfg has_exec p)
  unfolding ingress_run
  ingress_run-Keeps cfg has_exec p =
      Keeps-bind (fetch_issue_content-Keeps has_exec p)
        λ (q, labels). classify_with-Keeps cfg q labels
