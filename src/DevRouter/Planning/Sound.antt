-- ===== src/DevRouter/Planning/Sound.antt =====
-- The row of a pipeline in the planning, and the plan that is stored.
use ponko.Common.{
  String, ◌≡◌, refl, List, [], ◌∷◌, true, arith, is_empty-append, all, all-keep, keep, length,
}
use ponko.Effect.{Result, ok, err}
use ponko.Effect.Triple.{Triple, Triple-on_fail, Triple-with_context, Triple-bind, Triple-tell}
use ponko.Pipeline.{Stage, Story, Pipeline, fanout as fanout_stage, planning as planning_stage}
use ponko.PipelineStore.{set_plan_output, set_story_count}
use ponko.PipelineStore.Rows.{At, At-weaken, modify-At, update_stage-At, run_agent-At, deref-At}
use ponko.Orchestrator.{Tables, Env, DevRouterConfig}
use ponko.DevRouter.Progress.{is_plan}
use ponko.DevRouter.Planning.{
  is_complete, fallback_story, fallback_plan, plan_of, clean_plan, parse_plan_response,
  planning_run,
}

-- encoding/json: what Marshal printed, Unmarshal reads back.
abbrev pub PlanRoundTrip : Env → Type 0
PlanRoundTrip env = (stories : List Story) → env.parse_plan (env.marshal_plan stories) ≡ ok stories

fallback_story-is_complete : (p : Pipeline) → is_complete (fallback_story p) ≡ true
unfolding fallback_story is_complete
fallback_story-is_complete p = rw (is_empty-append "Implement issue " p.issue_url refl)

module _ (env : Env) (codec : PlanRoundTrip env) where
  plan_of-IsPlan :
      (p : Pipeline) (valid : List Story)
      → all is_complete valid ≡ true
      → let plan = plan_of env p valid in is_plan (env.parse_plan plan.1) (length plan.0) ≡ true
  unfolding fallback_plan
  plan_of-IsPlan p [] h = rw (codec _) (ground (arith, fallback_story-is_complete p))
  plan_of-IsPlan p (s ∷ valid) h = rw (codec (s ∷ valid)) (ground arith)

  -- Whatever the agent answers, the plan that is stored parses to as many stories as are counted, at
  -- least one, each with title, description and success criteria.
  pub parse_plan_response-IsPlan :
      (output : String) (p : Pipeline)
      → let plan = parse_plan_response env output p in
        is_plan (env.parse_plan plan.1) (length plan.0) ≡ true
  unfolding parse_plan_response
  parse_plan_response-IsPlan output p = go (env.parse_plan output)
    where
      go :
          (r : Result (List Story))
          → let plan = clean_plan env p r in is_plan (env.parse_plan plan.1) (length plan.0) ≡ true
      go (err e) = plan_of-IsPlan p [] refl
      go (ok stories) = plan_of-IsPlan p (keep is_complete stories) (all-keep is_complete stories)

  abbrev In : Stage → Pipeline → Type 0
  In s p = p.stage ≡ s

  pub planning_run-At :
      (start : Tables) (cfg : DevRouterConfig) (p : Pipeline)
      → Triple
          (At p.id start (In planning_stage))
          (planning_run env cfg p)
          (λ _. At p.id start (λ q.
            In fanout_stage q × (is_plan (env.parse_plan q.plan_output) q.story_count ≡ true)))
          (At p.id start (In planning_stage))
  unfolding planning_run set_plan_output set_story_count
  planning_run-At start cfg p =
      Triple-bind (Triple-with_context "planning execute" (run_agent-At env _)) λ reply.
        Triple-bind (deref-At env reply) λ result.
          let plan = parse_plan_response env result.output p in
          let IsStored : Pipeline → Type 0 = λ q. In planning_stage q × (q.plan_output ≡ plan.1) in
          let IsCounted : Pipeline → Type 0 = λ q.
            In planning_stage q × (is_plan (env.parse_plan q.plan_output) q.story_count ≡ true) in
          Triple-bind
            (Triple-with_context "set plan output"
              (modify-At env {ψ = IsStored} _ _ (λ t q. refl) (λ t q h. (h, refl))))
            λ _.
              Triple-bind
                (Triple-with_context "set story count" (
                  Triple-on_fail (At-weaken (λ q h. h.0)) (
                    modify-At env {ψ = IsCounted} _ _ (λ t q. refl)
                      (λ t q h. (h.0, rw (h.1) (parse_plan_response-IsPlan result.output p))))))
                λ _.
                  Triple-bind
                    (Triple-with_context "transition to fanout" (
                      Triple-on_fail (At-weaken (λ q h. h.0))
                        (update_stage-At env planning_stage fanout_stage (λ e t q h. (refl, h.1)))))
                    λ _. Triple-tell _
