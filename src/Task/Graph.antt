-- ===== src/Task/Graph.antt =====
-- The diagram of a task's statuses, beside the table of internal/task/task.go.
use ponko.Common.{◌≡◌, refl, ◌↔◌, true, arith}
use ponko.Effect.{World, done, ◌>>=◌, now}
use ponko.Orchestrator.{
  Status, queued, in_progress, blocked, awaiting_approval, completed, failed, cancelled, Task,
  Tables, Call, Env,
}
use ponko.Task.{can_transition_to, transition_to}

infix 40 ◌⇒◌ ◌⇒*◌
pub data ◌⇒◌ : Status → Status → Type 0 where
  start : queued ⇒ in_progress
  block : in_progress ⇒ blocked
  ask : in_progress ⇒ awaiting_approval
  finish : in_progress ⇒ completed
  break : in_progress ⇒ failed
  approve : awaiting_approval ⇒ in_progress
  cancel : awaiting_approval ⇒ cancelled
  unblock : blocked ⇒ in_progress
  give_up : blocked ⇒ failed

pub data ◌⇒*◌ : Status → Status → Type 0 where
  here : {s : Status} → s ⇒* s
  next : {s t u : Status} → s ⇒ t → t ⇒* u → s ⇒* u

pub ruleset moves = (start, block, ask, finish, break, approve, cancel, unblock, give_up)

pub can_transition_to_sound : (s t : Status) → can_transition_to s t ≡ true → s ⇒ t
unfolding can_transition_to
can_transition_to_sound s t h = grind (arith, moves)

pub can_transition_to_complete : {s t : Status} → s ⇒ t → can_transition_to s t ≡ true
unfolding can_transition_to
can_transition_to_complete start = refl
can_transition_to_complete block = refl
can_transition_to_complete ask = refl
can_transition_to_complete finish = refl
can_transition_to_complete break = refl
can_transition_to_complete approve = refl
can_transition_to_complete cancel = refl
can_transition_to_complete unblock = refl
can_transition_to_complete give_up = refl

-- TransitionTo succeeds exactly along an edge of the diagram, and then it changes the status, and the
-- time of the update to the reading of the clock, and nothing else.
pub transition_to_iff :
    (env : Env) (t t' : Task) (target : Status) (w : World Tables Call)
    → ((transition_to env t target w).0 ≡ done t') ↔ (
        (t.status ⇒ target)
        × (t' ≡ record t { status = target; updated_at = env.host.clock w.tick }))
unfolding transition_to ◌>>=◌ now
transition_to_iff env t t' target w = (
  λ h.
      let allowed : can_transition_to t.status target ≡ true = ground arith in
      (can_transition_to_sound t.status target allowed, ground arith),
  λ (edge, e). ground (arith, can_transition_to_complete edge),
)
