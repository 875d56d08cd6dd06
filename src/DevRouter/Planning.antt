-- ===== src/DevRouter/Planning.antt =====
-- internal/devrouter/planning.go, and PlanningPrompt of internal/devrouter/prompts.go: the agent is
-- asked for a plan, and what it answers is cleaned up. Log lines are not modelled.
pub mod Sound
pub mod Stable
use ponko.Common.{
  ℕ, String, List, [], ◌∷◌, Option, none, some, Bool, true, false, not, ◌||◌, is_empty, ◌⧺◌, keep,
  length, if◌then◌else◌,
}
use ponko.Effect.{Result, ok, err, deref, with_context, ◌>>=◌, ◌>>◌}
use ponko.Event.{str, num, Event, job_completed}
use ponko.Pipeline.{
  Track, fix, rpi, ralph, track_string, Stage, Story, Pipeline, fanout as fanout_stage,
  planning as planning_stage,
}
use ponko.PipelineStore.{set_plan_output, set_story_count, update_stage}
use ponko.Orchestrator.{
  M, Env, Prompt, planning, no_request, ExecuteResult, DevRouterConfig, run_agent, emit_event,
}

unfoldable pub planning_guidance_for_track : Track → String
planning_guidance_for_track fix =
    "This is a fix track issue. Produce exactly 1 story covering the complete fix."
planning_guidance_for_track rpi =
    "This is an RPI track issue. Produce 2-5 stories: research/design first, then implementation steps, then verification."
planning_guidance_for_track ralph =
    "This is a Ralph track issue. Produce 3-10 stories as independent units of work that can be implemented sequentially."
planning_guidance_for_track (Track.other s) =
    "Produce a minimal set of stories to implement this issue."

unfoldable pub planning_prompt : Track → String → String → String → Prompt
unfolding planning_guidance_for_track
planning_prompt track title body rationale =
    planning title body (track_string track) rationale (planning_guidance_for_track track)

abbrev is_nil {ℓ} : {A : Type ℓ} → List A → Bool
is_nil [] = true
is_nil (x ∷ xs) = false

-- Title, description and at least one success criterion.
unfoldable pub is_complete : Story → Bool
is_complete s = not (is_empty s.title || is_empty s.description || is_nil s.success_criteria)

unfoldable pub fallback_story : Pipeline → Story
fallback_story p = record {
  title = "Implement issue " ⧺ p.issue_url;
  description = "Implement the full issue as described.";
  success_criteria = "Issue requirements are met" ∷ "Tests pass" ∷ "Lint passes" ∷ [];
}

module _ (env : Env) where
  unfoldable pub fallback_plan : Pipeline → List Story × String
  unfolding fallback_story
  fallback_plan p = let stories = fallback_story p ∷ [] in (stories, env.marshal_plan stories)

  -- The stories that are kept; with none, the fallback.
  abbrev plan_of : Pipeline → List Story → List Story × String
  plan_of p [] = fallback_plan p
  plan_of p (s ∷ valid) = (s ∷ valid, env.marshal_plan (s ∷ valid))

  abbrev clean_plan : Pipeline → Result (List Story) → List Story × String
  clean_plan p (err e) = fallback_plan p
  clean_plan p (ok stories) = plan_of p (keep is_complete stories)

  unfoldable pub parse_plan_response : String → Pipeline → List Story × String
  unfolding fallback_plan is_complete
  parse_plan_response output p = clean_plan p (env.parse_plan output)

  unfoldable pub planning_run : DevRouterConfig → Pipeline → M (Unit {0})
  unfolding planning_prompt parse_plan_response
  planning_run cfg p = do
    reply ← with_context "planning execute" (
        run_agent env (record no_request {
          prompt = planning_prompt p.track p.issue_title p.issue_body p.classification_rationale;
          model = cfg.planning_model;
        }))
    result ← deref reply
    let plan = parse_plan_response result.output p
    with_context "set plan output" (set_plan_output env p.id plan.1)
    with_context "set story count" (set_story_count env p.id (length plan.0))
    with_context "transition to fanout" (update_stage env p.id planning_stage fanout_stage)
    emit_event (record {
      type = job_completed;
      task_id = p.id;
      payload = ("job", str "planning") ∷ ("story_count", num (length plan.0)) ∷ [];
    })
