-- ===== src/Outbox/History.antt =====
-- The outbox after any sequence of its operations.
use ponko.Common.{◌≤◌, List, [], ◌∷◌, All, All-weaken}
use ponko.Effect.{World}
use ponko.Effect.Triple.{After-same}
use ponko.Chat.{OutboxEntry, ChatTables, ChatCall, ChatEnv}
use ponko.Outbox.{enqueue, max_delivery_attempts}
use ponko.Outbox.Deliver.{deliver_pending}
use ponko.Outbox.InFlight.{IsSound, IsBounded}
use ponko.Outbox.Bounds.{enqueue-IsSound, deliver_pending-IsSound}

pub data OutboxStep : Type 0 where
  enqueues : OutboxEntry → OutboxStep
  delivers : OutboxStep

module _ (env : ChatEnv) where
  unfoldable pub after_step : OutboxStep → World ChatTables ChatCall → World ChatTables ChatCall
  after_step (enqueues entry) w = (enqueue env entry w).1
  after_step delivers w = (deliver_pending env w).1

  unfoldable pub after_steps :
      List OutboxStep → World ChatTables ChatCall → World ChatTables ChatCall
  unfolding after_step
  after_steps [] w = w
  after_steps (step ∷ steps) w = after_steps steps (after_step step w)

  after_step-IsSound :
      (step : OutboxStep) (w : World ChatTables ChatCall)
      → IsSound w.tables.outbox
      → IsSound (after_step step w).tables.outbox
  unfolding after_step
  after_step-IsSound (enqueues entry) w h = (enqueue-IsSound env entry).at w h
  after_step-IsSound delivers w h =
      After-same (λ d. IsSound d.outbox) (deliver_pending env w)
        ((deliver_pending-IsSound env).at w h)

  -- Whatever messages are put into the outbox and however often it is delivered, and whatever the
  -- database and the Slack API answer, no message is tried more than five times.
  pub after_steps-attempts :
      (steps : List OutboxStep) (w : World ChatTables ChatCall)
      → IsSound w.tables.outbox
      → All (λ r. r.attempts ≤ max_delivery_attempts) (after_steps steps w).tables.outbox
  unfolding after_steps
  after_steps-attempts [] w h = All-weaken IsBounded _ (λ r b. b.0) w.tables.outbox h.bounded
  after_steps-attempts (step ∷ steps) w h =
      after_steps-attempts steps (after_step step w) (after_step-IsSound step w h)
