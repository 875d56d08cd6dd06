-- ===== src/Examples/Outbox.antt =====
-- The delivery of one message that the Slack API refuses at first.
use ponko.Common.{◌≡◌, refl, ◌≤◌, ◌⊎◌, List, [], ◌∷◌, some, arith, All, select}
use ponko.Effect.{World}
use ponko.Chat.{OutboxEntry, ChatTables, ChatCall, delivering, delivered, failed}
use ponko.Outbox.{entry_id, max_delivery_attempts}
use ponko.Outbox.Deliver.{deliver_pending}
use ponko.Outbox.InFlight.{IsSound}
use ponko.Outbox.History.{OutboxStep, enqueues, delivers, after_steps, after_steps-attempts}
use ponko.Outbox.Frame.{deliver_pending-at_rest}
use ponko.Outbox.Liveness.{NoneInFlight, after_passes, after_passes-ends}
use ponko.Examples.Chat.{env, healthy, waiting, tables, world}

one-IsSound : IsSound (waiting ∷ [])
one-IsSound = record { keyed = (tt, tt); bounded = ((omega arith, λ w. omega arith), tt) }

at_rest : NoneInFlight (waiting ∷ [])
at_rest = ((λ e. cc), tt)

after_passes-ends_example :
    All
      (λ r. (r.status ≡ delivered) ⊎ (r.status ≡ failed))
      (after_passes env 5 (world tables)).tables.outbox
after_passes-ends_example =
    after_passes-ends env healthy (world tables) one-IsSound at_rest (omega arith)

abbrev steps : List OutboxStep
steps = enqueues waiting ∷ delivers ∷ delivers ∷ []

after_steps-attempts_example :
    All
      (λ r. r.attempts ≤ max_delivery_attempts)
      (after_steps env steps (world tables)).tables.outbox
after_steps-attempts_example = after_steps-attempts env steps (world tables) one-IsSound

-- A message whose worker stopped between the claim and the mark.
abbrev stuck : OutboxEntry
stuck = record waiting { status = delivering; attempts = 1 }

abbrev stuck_world : World ChatTables ChatCall
stuck_world = world (record tables { outbox = stuck ∷ [] })

found : select entry_id "o1" (stuck ∷ []) ≡ some stuck
unfolding select
found = refl

deliver_pending-at_rest_example :
    select entry_id "o1" (deliver_pending env stuck_world).1.tables.outbox ≡ some stuck
deliver_pending-at_rest_example =
    deliver_pending-at_rest env "o1" stuck (λ e. cc) stuck_world (tt, tt) found
