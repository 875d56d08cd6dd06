-- ===== src/DevRouter/Runner/Steps.antt =====
-- The row of a pipeline that is advanced.
use ponko.Common.{◌≡◌, refl, Bool, true, false, arith}
use ponko.Effect.{attempt}
use ponko.Effect.Triple.{
  Triple, Triple-weaken, Triple-on_fail, Triple-pure, Triple-raise, Triple-query_db, Triple-now,
  Triple-attempt, Triple-with_context, Triple-bind, Triple-tell, Triple-if,
}
use ponko.Pipeline.{
  Stage, Pipeline, pending, classifying, planning, fanout, executing, validating, awaiting_approval,
}
use ponko.Pipeline.Graph.{◌⟶*◌, here, next, classify, plan, fan_out, execute, ⟶*_trans}
use ponko.PipelineStore.Rows.{At, At-weaken, update_stage-At}
use ponko.Budget.{can_afford_run, can_afford_day, run_spent, day_spent, spent_where}
use ponko.Orchestrator.{Usage, Tables, Env}
use ponko.DevRouter.Progress.{
  is_plan, IsValid, ComesFrom, stays, moves, has_plan, IsValid-of_no_plan,
}
use ponko.DevRouter.Ingress.Sound.{ingress_run-At}
use ponko.DevRouter.Planning.Sound.{PlanRoundTrip, planning_run-At}
use ponko.DevRouter.FanOut.Sound.{fanout_run-At}
use ponko.DevRouter.Story.Sound.{IsExecuting, story_run-At}
use ponko.DevRouter.Validation.Sound.{validation_run-At}
use ponko.DevRouter.Runner.{
  PipelineRunner, start_ingress, by_stage, dispatch, then_day, can_afford, go_on, advance,
  terminal_stages, is_budgeted,
}

module _ (env : Env) (codec : PlanRoundTrip env) (r : PipelineRunner) (start : Tables)
    (p : Pipeline) (valid : IsValid env p) where
  abbrev pub Is : Tables → Type 0
  Is = At p.id start (λ q. q ≡ p)

  abbrev pub Came : Tables → Type 0
  Came = At p.id start (ComesFrom env p)

  still : (q : Pipeline) → q ≡ p → ComesFrom env p q
  still q e = rw e (record { valid = valid; reached = here })

  -- A pipeline before its plan is valid wherever it stands.
  unplanned :
      (q : Pipeline) {s : Stage}
      → p.stage ⟶* s
      → has_plan s ≡ false
      → q.stage ≡ s
      → ComesFrom env p q
  unplanned q path none_yet e = record {
    valid = IsValid-of_no_plan env q (rw e none_yet);
    reached = rw e path;
  }

  -- With a plan, in the fan-out.
  ready :
      (q : Pipeline)
      → p.stage ⟶* fanout
      → (q.stage ≡ fanout) × (is_plan (env.parse_plan q.plan_output) q.story_count ≡ true)
      → ComesFrom env p q
  ready q path h = record {
    valid = record {
      planned = λ _. h.1;
      next_exists = λ x. ground arith;
      counted = λ x. ground arith;
      finished = λ x. ground arith;
    };
    reached = rw (h.0) path;
  }

  as_it_is : (e : p.stage ≡ executing) → IsExecuting env p 0 p
  as_it_is e = record {
    here = e;
    stage = e;
    planned = valid.planned (rw e);
    same_count = refl;
    same_index = refl;
    next_exists = valid.next_exists e;
    counted = omega (arith, valid.counted e);
  }

  start_ingress-At : p.stage ≡ pending → Triple Is (start_ingress env r p) (λ _. Came) Came
  unfolding start_ingress
  start_ingress-At e =
      Triple-bind
        (Triple-with_context "runner: transition to classifying" (
          Triple-on_fail (At-weaken still) (
            update_stage-At env {ψ = λ q. q.stage ≡ classifying} pending classifying
              (λ _ t q h. refl))))
        λ _.
          Triple-weaken (λ d a. a)
            (λ _.
              At-weaken
                (λ q h. unplanned q (⟶*_trans (moves e refl classify) (next plan here)) refl h))
            (At-weaken (λ q h. unplanned q (moves e refl classify) refl h))
            (ingress_run-At env r.cfg r.has_exec (record p { stage = classifying }))

  by_stage-At : (s : Stage) → p.stage ≡ s → Triple Is (by_stage env r s p) (λ _. Came) Came
  unfolding by_stage
  by_stage-At pending e = start_ingress-At e
  by_stage-At classifying e =
      Triple-weaken (At-weaken (λ q same. rw same e))
        (λ _. At-weaken (λ q h. unplanned q (moves e refl plan) refl h))
        (At-weaken (λ q h. unplanned q (stays e refl) refl h))
        (ingress_run-At env r.cfg r.has_exec p)
  by_stage-At planning e =
      Triple-weaken (At-weaken (λ q same. rw same e))
        (λ _. At-weaken (λ q h. ready q (moves e refl fan_out) h))
        (At-weaken (λ q h. unplanned q (stays e refl) refl h))
        (planning_run-At env codec start r.cfg p)
  by_stage-At fanout e =
      Triple-weaken (At-weaken (λ q same. rw same (e, valid.planned (rw e))))
        (λ _. At-weaken (λ q h. record { valid = h.1; reached = moves e h.0 execute }))
        (At-weaken (λ q h. ready q (stays e refl) h)) (fanout_run-At env start p)
  by_stage-At executing e =
      Triple-weaken (At-weaken (λ q same. rw same (as_it_is e))) (λ _ d a. a) (λ d a. a)
        (story_run-At env start p r.cfg)
  by_stage-At validating e =
      Triple-weaken
        (At-weaken (λ q same. rw same (record { from = refl; stage = refl; valid = valid })))
        (λ _ d a. a) (λ d a. a) (validation_run-At env start p)
  by_stage-At awaiting_approval e =
      Triple-weaken
        (At-weaken (λ q same. rw same (record { from = refl; stage = refl; valid = valid })))
        (λ _ d a. a) (λ d a. a) (validation_run-At env start p)
  by_stage-At _ e = Triple-raise _ (At-weaken still)

  -- Asking for the budget writes nothing.
  spent_where-At : (test : Usage → Bool) → Triple Is (attempt (spent_where env test)) (λ _. Is) Is
  unfolding spent_where
  spent_where-At test = Triple-attempt (
      Triple-with_context "sum budget"
        (Triple-weaken (λ d a. a) (λ _ d a. a.0) (λ d a. a) (Triple-query_db env.host _)))

  then_day-At : (b : Bool) → Triple Is (then_day env r b) (λ _. Is) Is
  unfolding then_day can_afford_day day_spent
  then_day-At true =
      Triple-bind (Triple-now env.host)
        λ t. Triple-bind (spent_where-At _) λ _. Triple-pure _ (λ d a. a)
  then_day-At false = Triple-pure false (λ d a. a)

  can_afford-At : Triple Is (can_afford env r p) (λ _. Is) Is
  unfolding can_afford can_afford_run run_spent
  can_afford-At =
      Triple-bind (Triple-bind (spent_where-At _) λ _. Triple-pure _ (λ d a. a)) then_day-At

  go_on-At : (b : Bool) → Triple Is (go_on env r p b) (λ _. Came) Came
  unfolding go_on dispatch
  go_on-At true = by_stage-At p.stage refl
  go_on-At false = Triple-weaken (λ d a. a) (λ _. At-weaken still) (λ d a. a) (Triple-tell _)

  pub advance-At : Triple Is (advance env r p) (λ _. Came) Came
  unfolding advance dispatch
  advance-At =
      Triple-if (terminal_stages p.stage) (λ _. Triple-pure tt (At-weaken still))
        (λ _.
          Triple-if r.dry_run (λ _. Triple-pure tt (At-weaken still))
            (λ _.
              Triple-if (is_budgeted p.stage)
                (λ _. Triple-bind (Triple-on_fail (At-weaken still) can_afford-At) go_on-At)
                (λ _. by_stage-At p.stage refl)))
