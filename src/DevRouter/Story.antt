-- ===== src/DevRouter/Story.antt =====
-- internal/devrouter/story.go, and StoryPrompt of internal/devrouter/prompts.go: one story is given
-- to the agent, with retries. Log lines are not modelled.
pub mod Sound
pub mod Stable
pub mod Attempts
use ponko.Common.{
  ℕ, zero, suc, ◌+◌, String, List, [], ◌∷◌, ◌++◌, Option, none, some, Bool, is_empty, ◌⧺◌, ltb, leb,
  nat_eq, get_elem?, take, length, if◌then◌else◌,
}
use ponko.Effect.{
  Err, error, Result, ok, err, errorn, raise, lift, pure, deref, with_context, attempt, ◌>>=◌, ◌>>◌,
}
use ponko.Event.{str, num, Event, job_completed, task_failed}
use ponko.Pipeline.{Track, fix, rpi, ralph, Stage, Story, Pipeline, executing, validating, failed}
use ponko.PipelineStore.{add_cost, incr_stories_completed, set_current_story_index, update_stage}
use ponko.Budget.{record_spend}
use ponko.Orchestrator.{
  M, Env, Prompt, implement, no_request, ExecuteRequest, ExecuteResult, DevRouterConfig, run_agent,
  emit_event,
}
use ponko.DevRouter.Ingress.{join}
use ponko.DevRouter.FanOut.{parse_stories}

unfoldable pub skill_for_track : Track → String
skill_for_track fix = "fix"
skill_for_track rpi = "rpi-implement"
skill_for_track ralph = "ralph-ship"
skill_for_track (Track.other s) = "fix"

abbrev bulleted : String → String
bulleted criteria = if is_empty criteria then criteria else "- " ⧺ criteria

unfoldable pub story_prompt : Story → String → String → List (ℕ × String) → Prompt
unfolding join
story_prompt story issue_title issue_body previous =
    implement issue_title issue_body previous story.title story.description
      (bulleted (join "\n- " story.success_criteria))

-- "Story %d (%s): completed" for each story before the current one, from number `n` on.
unfoldable pub previous_results : ℕ → ℕ → List Story → List (ℕ × String)
previous_results zero n stories = []
previous_results (suc k) n [] = []
previous_results (suc k) n (s ∷ stories) = (n, s.title) ∷ previous_results k (suc n) stories

abbrev story_at : ℕ → List Story → Result Story
story_at i stories = elim (get_elem? stories i) [
  | some s ↦ ok s
  | none ↦ err (errorn "story job: storyIndex %d out of range (len=%d)" (i ∷ length stories ∷ []))
]

-- `if lastErr == nil { break }`
abbrev retry :
    (Err → M (Result (Option ExecuteResult)))
    → Result (Option ExecuteResult)
    → M (Result (Option ExecuteResult))
retry again (ok result) = pure (ok result)
retry again (err e) = again e

module _ (env : Env) where
  -- The retry loop. `last` is the pair (result, lastErr) of the attempt before.
  unfoldable pub run_attempts :
      ℕ → ExecuteRequest → Result (Option ExecuteResult) → M (Result (Option ExecuteResult))
  run_attempts zero req last = pure last
  run_attempts (suc n) req last =
      attempt (run_agent env req) >>= retry (λ e. run_attempts n req (err e))

  record_cost : Pipeline → ℕ → M (Unit {0})
  record_cost p zero = pure tt
  record_cost p (suc cost) = do
    attempt (add_cost env p.id (suc cost))
    attempt (record_spend env p.id "" (suc cost))
    pure tt

  -- The last story moves the pipeline on, any other moves the index.
  advance : Pipeline → ℕ → M (Unit {0})
  advance p story_index =
      if nat_eq (story_index + 1) p.story_count
      then with_context "story job: transition to validating"
          (update_stage env p.id executing validating)
      else with_context "story job: advance story index"
          (set_current_story_index env p.id (story_index + 1))

  -- After an attempt that succeeded.
  story_done : Pipeline → ℕ → ExecuteResult → M (Unit {0})
  unfolding record_cost advance
  story_done p story_index result = do
    record_cost p result.cost_usd
    new_count ← with_context "story job: incr stories completed" (incr_stories_completed env p.id)
    emit_event (record {
      type = job_completed;
      task_id = p.id;
      payload =
          ("job", str "story")
          ∷ ("story_index", num story_index)
          ∷ ("stories_completed", num new_count)
          ∷ [];
    })
    advance p story_index

  -- After the last attempt failed: both errors here are dropped.
  story_failed : Pipeline → ℕ → Err → M (Unit {0})
  story_failed p story_index e = do
    attempt (update_stage env p.id executing failed)
    emit_event (record {
      type = task_failed;
      task_id = p.id;
      payload = ("story_index", num story_index) ∷ ("error", str (error e)) ∷ [];
    })

  finish_story : Pipeline → ℕ → Result (Option ExecuteResult) → M (Unit {0})
  unfolding story_done story_failed
  finish_story p story_index (err e) = story_failed p story_index e
  finish_story p story_index (ok result) = deref result >>= story_done p story_index

  unfoldable pub story_run : DevRouterConfig → Pipeline → ℕ → M (Unit {0})
  unfolding skill_for_track story_prompt previous_results run_attempts finish_story parse_stories
  story_run cfg p story_index = do
    stories ← with_context "story job: parse plan" (parse_stories env p.plan_output)
    story ← lift (story_at story_index stories)
    last ←
        run_attempts cfg.max_retries
          (record no_request {
            prompt =
                story_prompt story p.issue_title p.issue_body
                  (previous_results story_index 1 stories);
            skill = skill_for_track p.track;
            model = cfg.execution_model;
            issue_url = p.issue_url;
          })
          (ok none)
    finish_story p story_index last
