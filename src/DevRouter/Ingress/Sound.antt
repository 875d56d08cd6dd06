-- ===== src/DevRouter/Ingress/Sound.antt =====
-- The row of a pipeline in the ingress.
use ponko.Common.{String, ◌≡◌, refl, List, [], Bool, is_empty, not, ◌||◌}
use ponko.Effect.{Result, ok, err, attempt}
use ponko.Effect.Triple.{
  Triple, Triple-weaken, Triple-pure, Triple-with_context, Triple-attempt, Triple-ask, Triple-lift,
  Triple-bind, Triple-tell, Triple-if,
}
use ponko.Pipeline.{Stage, classifying, Pipeline, planning as planning_stage}
use ponko.PipelineStore.{set_track, set_classification_rationale, set_issue_content}
use ponko.PipelineStore.Rows.{At, modify-At, update_stage-At, run_agent-At, deref-At}
use ponko.Orchestrator.{Tables, Env, DevRouterConfig, GhIssue, run_command}
use ponko.DevRouter.Ingress.{
  view, store_content, fetch_labels, fetch_issue_content, classify_with, ingress_run,
}

module _ (env : Env) {id : String} {start : Tables} {φ : Pipeline → Type 0} where
  view-At :
      (fields failing parsing : String) (p : Pipeline)
      → Triple
          (At id start φ)
          (attempt (view env fields failing parsing p))
          (λ _. At id start φ)
          (At id start φ)
  unfolding view run_command
  view-At fields failing parsing p = Triple-attempt (
      Triple-bind (Triple-with_context failing (Triple-ask _ _)) λ out.
        Triple-with_context parsing
          (Triple-weaken (λ d a. a) (λ _ d a. a.0) (λ d a. a) (Triple-lift (env.parse_issue out))))

-- Writing the title and the body keeps what is said of the row.
abbrev IgnoresContent : (Pipeline → Type 0) → Type 0
IgnoresContent φ =
    (t : _) (title body : String) (p : Pipeline)
    → φ p
    → φ (record p { issue_title = title; issue_body = body; updated_at = t })

abbrev SameId : String → Pipeline × Result (List String) → Type 0
SameId id fetched = fetched.0.id ≡ id

module _ (env : Env) {start : Tables} {φ : Pipeline → Type 0} (ignores : IgnoresContent φ) where
  store_content-At :
      (p : Pipeline) (r : Result GhIssue)
      → Triple
          (At p.id start φ)
          (store_content env p r)
          (λ fetched d. At p.id start φ d × SameId p.id fetched)
          (At p.id start φ)
  unfolding store_content set_issue_content
  store_content-At p (err e) = Triple-pure (p, err e) (λ d a. (a, refl))
  store_content-At p (ok issue) =
      Triple-bind
        (Triple-attempt (
          Triple-with_context "persist issue content"
            (modify-At env _ _ (λ t p. refl) (λ t q. ignores t issue.title issue.body q))))
        λ saved. Triple-pure _ (λ d a. (a, refl))

  fetch_labels-At :
      (p : Pipeline) (r : Result GhIssue)
      → Triple
          (At p.id start φ)
          (fetch_labels env p r)
          (λ fetched d. At p.id start φ d × SameId p.id fetched)
          (At p.id start φ)
  unfolding fetch_labels
  fetch_labels-At p (err e) = Triple-pure (p, err e) (λ d a. (a, refl))
  fetch_labels-At p (ok issue) = Triple-pure _ (λ d a. (a, refl))

  fetch_issue_content-At :
      (has_exec : Bool) (p : Pipeline)
      → Triple
          (At p.id start φ)
          (fetch_issue_content env has_exec p)
          (λ fetched d. At p.id start φ d × SameId p.id fetched)
          (At p.id start φ)
  unfolding fetch_issue_content
  fetch_issue_content-At has_exec p =
      Triple-if (is_empty p.issue_url || not has_exec)
        (λ _. Triple-pure (p, ok []) (λ d a. (a, refl)))
        (λ _.
          Triple-if (is_empty p.issue_title)
            (λ _. Triple-bind (view-At env _ _ _ p) (store_content-At p))
            (λ _. Triple-bind (view-At env _ _ _ p) (fetch_labels-At p)))

abbrev In : Stage → Pipeline → Type 0
In s p = p.stage ≡ s

module _ (env : Env) {start : Tables} where
  classify_with-At :
      {id : String} (cfg : DevRouterConfig) (fetched : Pipeline × Result (List String))
      → SameId id fetched
      → Triple
          (At id start (In classifying))
          (classify_with env cfg fetched)
          (λ _. At id start (In planning_stage))
          (At id start (In classifying))
  unfolding classify_with set_track set_classification_rationale
  classify_with-At cfg (p, labels) same = rw (← same) (
      Triple-bind (Triple-with_context "classify issue" (run_agent-At env _)) λ reply.
        Triple-bind (deref-At env reply) λ result.
          Triple-bind
            (Triple-with_context "set track" (modify-At env _ _ (λ t p. refl) (λ t p h. h)))
            λ _.
              Triple-bind
                (Triple-with_context "set rationale" (modify-At env _ _ (λ t p. refl) (λ t p h. h)))
                λ _.
                  Triple-bind
                    (Triple-with_context "transition to planning"
                      (update_stage-At env classifying planning_stage (λ e t p h. refl)))
                    λ _. Triple-tell _)

  pub ingress_run-At :
      (cfg : DevRouterConfig) (has_exec : Bool) (p : Pipeline)
      → Triple
          (At p.id start (In classifying))
          (ingress_run env cfg has_exec p)
          (λ _. At p.id start (In planning_stage))
          (At p.id start (In classifying))
  unfolding ingress_run
  ingress_run-At cfg has_exec p =
      Triple-bind (fetch_issue_content-At env (λ t title body q h. h) has_exec p) λ fetched.
        record { at = λ w (a, same). (classify_with-At {id = p.id} cfg fetched same).at w a }
