-- ===== src/DevRouter/Story/Sound.antt =====
-- The row of a pipeline whose story is executed.
use ponko.Common.{ℕ, zero, suc, ◌+◌, ◌<◌, ◌≤◌, ◌≡◌, refl, true, false, Option, arith, nat_eq}
use ponko.Effect.{Result, ok, err, Err, lift}
use ponko.Effect.Triple.{
  Triple, Triple-weaken, Triple-on_fail, Triple-pure, Triple-lift, Triple-with_context,
  Triple-attempt, Triple-bind, Triple-tell, Triple-if,
}
use ponko.Pipeline.{Pipeline, executing, validating, failed}
use ponko.Pipeline.Graph.{validate, give_up}
use ponko.PipelineStore.{bump_completed, add_cost, set_current_story_index}
use ponko.PipelineStore.Rows.{
  At, At-weaken, modify-At, update_stage-At, incr_stories_completed-At, record_spend-At,
  run_agent-At, deref-At,
}
use ponko.Orchestrator.{Tables, M, Call, Env, DevRouterConfig, ExecuteRequest, ExecuteResult}
use ponko.DevRouter.FanOut.{parse_stories}
use ponko.DevRouter.Progress.{is_plan, ComesFrom, stays, moves}
use ponko.DevRouter.Story.{
  retry, run_attempts, record_cost, advance, story_done, story_failed, finish_story, story_run,
  story_at,
}

module _ (env : Env) (p : Pipeline) where
  -- The stored pipeline is still in the execution, at the story that `p` names, of which `done`
  -- says whether it is counted.
  pub record IsExecuting (done : ℕ) (q : Pipeline) : Type 0 where
    pub here : p.stage ≡ executing
    pub stage : q.stage ≡ executing
    pub planned : is_plan (env.parse_plan q.plan_output) q.story_count ≡ true
    pub same_count : q.story_count ≡ p.story_count
    pub same_index : q.current_story_index ≡ p.current_story_index
    pub next_exists : p.current_story_index < p.story_count
    pub counted : p.current_story_index + done ≤ q.stories_completed

  IsExecuting-ComesFrom : {done : ℕ} (q : Pipeline) → IsExecuting done q → ComesFrom env p q
  IsExecuting-ComesFrom q h = record {
    valid = record {
      planned = λ _. h.planned;
      next_exists = λ _. omega arith;
      counted = λ _. omega arith;
      finished = λ x. ground arith;
    };
    reached = stays h.here h.stage;
  }

  count_story : (t : ℕ) (q : Pipeline) → IsExecuting 0 q → IsExecuting 1 (bump_completed t q)
  count_story t q h = record {
    here = h.here;
    stage = h.stage;
    planned = h.planned;
    same_count = h.same_count;
    same_index = h.same_index;
    next_exists = h.next_exists;
    counted = omega arith;
  }

  last_story :
      (t : ℕ) (q : Pipeline)
      → p.current_story_index + 1 ≡ p.story_count
      → IsExecuting 1 q
      → ComesFrom env p (record q { stage = validating; updated_at = t })
  last_story t q last h = record {
    valid = record {
      planned = λ _. h.planned;
      next_exists = λ x. cc;
      counted = λ x. cc;
      finished = λ _. omega arith;
    };
    reached = moves h.here refl validate;
  }

  next_story :
      (t : ℕ) (q : Pipeline)
      → nat_eq (p.current_story_index + 1) p.story_count ≡ false
      → IsExecuting 1 q
      → ComesFrom env p
          (record q { current_story_index = p.current_story_index + 1; updated_at = t })
  next_story t q more h = record {
    valid = record {
      planned = λ _. h.planned;
      next_exists = λ _. ground arith;
      counted = λ _. omega arith;
      finished = λ x. ground arith;
    };
    reached = stays h.here h.stage;
  }

  failed_story :
      (t : ℕ) (q : Pipeline)
      → IsExecuting 0 q
      → ComesFrom env p (record q { stage = failed; updated_at = t })
  failed_story t q h = record {
    valid = record {
      planned = λ x. cc;
      next_exists = λ x. cc;
      counted = λ x. cc;
      finished = λ x. cc;
    };
    reached = moves h.here refl give_up;
  }

  same_story :
      (t cost : ℕ) (q : Pipeline)
      → IsExecuting 0 q
      → IsExecuting 0 (record q { cost_usd = q.cost_usd + cost; updated_at = t })
  same_story t cost q h = record {
    here = h.here;
    stage = h.stage;
    planned = h.planned;
    same_count = h.same_count;
    same_index = h.same_index;
    next_exists = h.next_exists;
    counted = h.counted;
  }

module _ (env : Env) (start : Tables) (p : Pipeline) where
  abbrev Before : Tables → Type 0
  Before = At p.id start (IsExecuting env p 0)

  abbrev Counted : Tables → Type 0
  Counted = At p.id start (IsExecuting env p 1)

  abbrev After : Tables → Type 0
  After = At p.id start (ComesFrom env p)

  retry-At :
      (again : Err → M (Result (Option ExecuteResult)))
      → ((e : Err) → Triple Before (again e) (λ _. Before) Before)
      → (r : Result (Option ExecuteResult)) → Triple Before (retry again r) (λ _. Before) Before
  retry-At again ih (ok result) = Triple-pure (ok result) (λ d a. a)
  retry-At again ih (err e) = ih e

  run_attempts-At :
      (n : ℕ) (req : ExecuteRequest) (last : Result (Option ExecuteResult))
      → Triple Before (run_attempts env n req last) (λ _. Before) Before
  unfolding run_attempts
  run_attempts-At zero req last = Triple-pure last (λ d a. a)
  run_attempts-At (suc n) req last =
      Triple-bind (Triple-attempt (run_agent-At env req))
        (retry-At (λ e. run_attempts env n req (err e)) (λ e. run_attempts-At n req (err e)))

  record_cost-At : (cost : ℕ) → Triple Before (record_cost env p cost) (λ _. Before) Before
  unfolding record_cost add_cost
  record_cost-At zero = Triple-pure tt (λ d a. a)
  record_cost-At (suc cost) =
      Triple-bind
        (Triple-attempt
          (modify-At env _ _ (λ t q. refl) (λ t q h. same_story env p t (suc cost) q h)))
        λ _.
          Triple-bind (Triple-attempt (record_spend-At env p.id "" (suc cost)))
            λ _. Triple-pure tt (λ d a. a)

  advance-At : Triple Counted (advance env p p.current_story_index) (λ _. After) After
  unfolding advance set_current_story_index
  advance-At =
      Triple-if (nat_eq (p.current_story_index + 1) p.story_count)
        (λ last. Triple-with_context "story job: transition to validating" (
          Triple-on_fail (At-weaken (IsExecuting-ComesFrom env p)) (
            update_stage-At env executing validating
              (λ e t q h. last_story env p t q (ground arith) h))))
        (λ more. Triple-with_context "story job: advance story index" (
          Triple-on_fail (At-weaken (IsExecuting-ComesFrom env p))
            (modify-At env _ _ (λ t q. refl) (λ t q h. next_story env p t q more h))))

  story_done-At :
      (result : ExecuteResult)
      → Triple Before (story_done env p p.current_story_index result) (λ _. After) After
  unfolding story_done
  story_done-At result =
      Triple-bind
        (Triple-on_fail (At-weaken (IsExecuting-ComesFrom env p)) (record_cost-At result.cost_usd))
        λ _.
          Triple-bind
            (Triple-with_context "story job: incr stories completed" (
              Triple-on_fail (At-weaken (IsExecuting-ComesFrom env p))
                (incr_stories_completed-At env (count_story env p))))
            λ count. Triple-bind (Triple-tell _) λ _. advance-At

  story_failed-At :
      (e : Err) → Triple Before (story_failed env p p.current_story_index e) (λ _. After) After
  unfolding story_failed
  story_failed-At e =
      Triple-bind
        (Triple-attempt (
          Triple-weaken {P' = Before} {Q' = λ _. After} {E' = Before} (λ d a. a) (λ _ d a. a)
            (At-weaken (IsExecuting-ComesFrom env p))
            (update_stage-At env executing failed (λ _ t q h. failed_story env p t q h))))
        λ _. Triple-tell _

  finish_story-At :
      (last : Result (Option ExecuteResult))
      → Triple Before (finish_story env p p.current_story_index last) (λ _. After) After
  unfolding finish_story
  finish_story-At (err e) = story_failed-At e
  finish_story-At (ok reply) =
      Triple-bind (Triple-on_fail (At-weaken (IsExecuting-ComesFrom env p)) (deref-At env reply))
        story_done-At

  lift-At : {A : Type 0} (r : Result A) → Triple {C = Call} Before (lift r) (λ _. Before) After
  lift-At r =
      Triple-weaken (λ d a. a) (λ _ d a. a.0) (At-weaken (IsExecuting-ComesFrom env p))
        (Triple-lift r)

  pub story_run-At :
      (cfg : DevRouterConfig)
      → Triple Before (story_run env cfg p p.current_story_index) (λ _. After) After
  unfolding story_run parse_stories
  story_run-At cfg =
      Triple-bind
        (Triple-with_context "story job: parse plan"
          (Triple-with_context "invalid plan JSON" (lift-At (env.parse_plan p.plan_output))))
        λ stories. Triple-bind (lift-At (story_at p.current_story_index stories)) λ story.
          Triple-bind
            (Triple-on_fail (At-weaken (IsExecuting-ComesFrom env p)) (run_attempts-At _ _ _))
            finish_story-At
