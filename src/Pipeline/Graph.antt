-- ===== src/Pipeline/Graph.antt =====
-- The diagram of the stages, as a relation, beside the table of internal/devrouter/pipeline.go.
use ponko.Common.{◌≡◌, refl, ◌↔◌, arith}
use ponko.Effect.{ok}
use ponko.Pipeline.{
  Stage, pending, classifying, planning, fanout, executing, validating, awaiting_approval,
  completed, failed, validate_transition,
}

infix 40 ◌⟶◌ ◌⟶*◌
pub data ◌⟶◌ : Stage → Stage → Type 0 where
  classify : pending ⟶ classifying
  plan : classifying ⟶ planning
  fan_out : planning ⟶ fanout
  execute : fanout ⟶ executing
  validate : executing ⟶ validating
  give_up : executing ⟶ failed
  await : validating ⟶ awaiting_approval
  break : validating ⟶ failed
  approve : awaiting_approval ⟶ completed
  reject : awaiting_approval ⟶ failed

pub data ◌⟶*◌ : Stage → Stage → Type 0 where
  here : {s : Stage} → s ⟶* s
  next : {s t u : Stage} → s ⟶ t → t ⟶* u → s ⟶* u

pub ruleset edges =
    (classify, plan, fan_out, execute, validate, give_up, await, break, approve, reject)

pub ⟶*_trans : {s t u : Stage} → s ⟶* t → t ⟶* u → s ⟶* u
⟶*_trans here r = r
⟶*_trans (next e p) r = next e (⟶*_trans p r)

pub validate_transition_sound : (from to : Stage) → validate_transition from to ≡ ok tt → from ⟶ to
unfolding validate_transition
validate_transition_sound from to h = grind (arith, edges)

pub validate_transition_complete :
    {from to : Stage} → from ⟶ to → validate_transition from to ≡ ok tt
unfolding validate_transition
validate_transition_complete classify = refl
validate_transition_complete plan = refl
validate_transition_complete fan_out = refl
validate_transition_complete execute = refl
validate_transition_complete validate = refl
validate_transition_complete give_up = refl
validate_transition_complete await = refl
validate_transition_complete break = refl
validate_transition_complete approve = refl
validate_transition_complete reject = refl

-- The table of the code accepts a move exactly when it is an edge of the diagram.
pub validate_transition_iff :
    (from to : Stage) → (validate_transition from to ≡ ok tt) ↔ (from ⟶ to)
validate_transition_iff from to = (validate_transition_sound from to, validate_transition_complete)
