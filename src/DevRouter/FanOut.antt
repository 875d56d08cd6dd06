-- ===== src/DevRouter/FanOut.antt =====
-- internal/devrouter/fanout.go: the stored plan is checked and the execution starts at its first
-- story.
pub mod Sound
pub mod Stable
use ponko.Common.{
  ℕ, suc, String, List, [], ◌∷◌, Option, none, some, Bool, map, length, if◌then◌else◌,
}
use ponko.Effect.{Result, ok, err, errorf, errorn, raise, lift, pure, with_context, ◌>>=◌, ◌>>◌}
use ponko.Event.{str, num, strs, Event, job_completed}
use ponko.Pipeline.{Story, Pipeline, fanout, executing}
use ponko.PipelineStore.{set_current_story_index, update_stage}
use ponko.Orchestrator.{M, Env, emit_event}
use ponko.DevRouter.Planning.{is_complete}

-- The loop that rejects a plan with an incomplete story; `i` is the index of the first one left.
unfoldable pub check_stories : ℕ → List Story → Result (Unit {0})
unfolding is_complete
check_stories i [] = ok tt
check_stories i (s ∷ stories) =
    if is_complete s
    then check_stories (suc i) stories
    else err (
        errorn "fanout: story[%d] is missing required fields (title, description, success_criteria)"
          (i ∷ []))

abbrev check_count : List Story → Result (Unit {0})
check_count [] = err (errorf "fanout: plan has no stories")
check_count (s ∷ stories) = ok tt

module _ (env : Env) where
  unfoldable pub parse_stories : String → M (List Story)
  parse_stories plan_output = with_context "invalid plan JSON" (lift (env.parse_plan plan_output))

  unfoldable pub fanout_run : Pipeline → M (Unit {0})
  unfolding check_stories parse_stories
  fanout_run p = do
    stories ← with_context "fanout: parse plan" (parse_stories p.plan_output)
    lift (check_count stories)
    lift (check_stories 0 stories)
    with_context "fanout: set current story index" (set_current_story_index env p.id 0)
    with_context "fanout: transition to executing" (update_stage env p.id fanout executing)
    emit_event (record {
      type = job_completed;
      task_id = p.id;
      payload =
          ("job", str "fanout")
          ∷ ("story_count", num (length stories))
          ∷ ("stories", strs (map (λ s. s.title) stories))
          ∷ [];
    })
