-- ===== src/DevRouter/FanOut/Sound.antt =====
-- The row of a pipeline in the fan-out.
use ponko.Common.{ℕ, ◌<◌, ◌≡◌, refl, List, true, arith}
use ponko.Effect.{Result, ok, err, lift}
use ponko.Effect.Triple.{
  Triple, Triple-weaken, Triple-on_fail, Triple-lift, Triple-with_context, Triple-bind, Triple-tell,
}
use ponko.Pipeline.{Story, Pipeline, fanout, executing}
use ponko.PipelineStore.{set_current_story_index}
use ponko.PipelineStore.Rows.{At, At-weaken, modify-At, update_stage-At}
use ponko.Orchestrator.{Tables, Call, Env}
use ponko.DevRouter.Progress.{is_plan, IsValid}
use ponko.DevRouter.FanOut.{parse_stories, check_stories, check_count, fanout_run}

module _ (env : Env) where
  -- A valid pipeline in the fan-out, and one whose index is already back at the first story.
  abbrev IsReady : Pipeline → Type 0
  IsReady q = (q.stage ≡ fanout) × (is_plan (env.parse_plan q.plan_output) q.story_count ≡ true)

  abbrev IsReset : Pipeline → Type 0
  IsReset q =
      (q.stage ≡ fanout)
      × (is_plan (env.parse_plan q.plan_output) q.story_count ≡ true)
      × (q.current_story_index ≡ 0)

  is_plan-pos : (r : Result (List Story)) (n : ℕ) → is_plan r n ≡ true → 0 < n
  is_plan-pos (ok stories) n h = ground arith
  is_plan-pos (err e) n h = cc

  IsReset-IsValid :
      (t : ℕ) (q : Pipeline)
      → IsReset q
      → IsValid env (record q { stage = executing; updated_at = t })
  IsReset-IsValid t q (stage, planned, first) =
      let some_story = is_plan-pos (env.parse_plan q.plan_output) q.story_count planned in
      record {
        planned = λ _. planned;
        next_exists = λ _. omega arith;
        counted = λ _. omega arith;
        finished = λ h. cc;
      }

  lift-At :
      {A : Type 0} {P : Tables → Type 0} (r : Result A) → Triple {C = Call} P (lift r) (λ _. P) P
  lift-At r = Triple-weaken (λ d a. a) (λ _ d a. a.0) (λ d a. a) (Triple-lift r)

  pub fanout_run-At :
      (start : Tables) (p : Pipeline)
      → Triple
          (At p.id start IsReady)
          (fanout_run env p)
          (λ _. At p.id start (λ q. (q.stage ≡ executing) × IsValid env q))
          (At p.id start IsReady)
  unfolding fanout_run parse_stories set_current_story_index
  fanout_run-At start p =
      Triple-bind
        (Triple-with_context "fanout: parse plan"
          (Triple-with_context "invalid plan JSON" (lift-At _)))
        λ stories. Triple-bind (lift-At (check_count stories)) λ _.
          Triple-bind (lift-At (check_stories 0 stories)) λ _.
            Triple-bind
              (Triple-with_context "fanout: set current story index"
                (modify-At env {ψ = IsReset} _ _ (λ t q. refl) (λ t q h. (h.0, h.1, refl))))
              λ _.
                Triple-bind
                  (Triple-with_context "fanout: transition to executing" (
                    Triple-on_fail (At-weaken (λ q h. (h.0, h.1))) (
                      update_stage-At env fanout executing
                        (λ e t q h. (refl, IsReset-IsValid t q h)))))
                  λ _. Triple-tell _
