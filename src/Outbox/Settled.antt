-- ===== src/Outbox/Settled.antt =====
-- Passes of the delivery over a database that takes every statement.
use ponko.Common.{String, ◌≡◌, refl, ◌≢◌, List, [], ◌∷◌, true, ◌==◌, is_empty, All, leb}
use ponko.Effect.{Err, Result, ok, err}
use ponko.Effect.Triple.{
  Triple, Triple-bind, Triple-with_context, Triple-now, Triple-attempt, Triple-attempt_ask,
  Triple-pure, Triple-raise, Triple-if,
}
use ponko.Effect.Healthy.{
  IsHealthy, Triple-exec_healthy, Triple-statement_healthy, Triple-attempt_safe,
}
use ponko.Chat.{delivering, OutboxEntry, ChatTables, ChatEnv, slack_post, slack_post_blocks}
use ponko.Slack.{is_permanent_error}
use ponko.Outbox.{
  entry_id, listed, max_delivery_attempts, set_entry, mark_entry, mark_delivered, mark_failed,
  reset_for_retry, set_slack_message_ts,
}
use ponko.Outbox.Deliver.{
  fail_entry, retry_entry, handle_failure, settle_entry, settle_blocks, deliver_blocks, deliver,
  deliver_all,
}
use ponko.Outbox.Completion.{deliver-Completes}
use ponko.Effect.Total.{Triple-Completes}
use ponko.Outbox.Pass.{EachFollows, update-EachFollows, update-EachFollows_same}

module _ (env : ChatEnv) (healthy : IsHealthy env.host) (all : List OutboxEntry)
    (rows : List OutboxEntry) where
  abbrev Pass : List OutboxEntry → ChatTables → Type 0
  Pass left d = EachFollows all left rows d.outbox

  module _ (e : OutboxEntry) (left : List OutboxEntry) (own : listed e.outbox_id all ≡ true) where
    mark_entry-Lands :
        (context : String) (f : OutboxEntry → OutboxEntry)
        → ((r : OutboxEntry) → entry_id (f r) ≡ entry_id r)
        → ((r : OutboxEntry) → (f r).attempts ≡ r.attempts)
        → ((r : OutboxEntry) → (f r).status ≢ delivering)
        → Triple
            (Pass (e ∷ left))
            (mark_entry env context e.outbox_id f)
            (λ _. Pass left)
            (Pass left)
    unfolding mark_entry set_entry
    mark_entry-Lands context f i n lands =
        Triple-bind
          (Triple-with_context context (
            Triple-statement_healthy env.host healthy {Q = λ _. Pass left} _
              (λ d h. update-EachFollows all left e f i n lands own rows d.outbox h)))
          (λ found.
            Triple-if found (λ _. Triple-pure tt (λ d h. h)) (λ _. Triple-raise _ (λ d h. h)))

    fail_entry-Lands : Triple (Pass (e ∷ left)) (fail_entry env e) (λ _. Pass left) (Pass left)
    unfolding fail_entry mark_failed
    fail_entry-Lands =
        Triple-bind (Triple-attempt (mark_entry-Lands _ _ (λ r. refl) (λ r. refl) (λ r w. cc)))
          (λ _. Triple-pure tt (λ d h. h))

    settled-Lands :
        Triple (Pass (e ∷ left)) (settle_entry env e (ok tt)) (λ _. Pass left) (Pass left)
    unfolding settle_entry mark_delivered
    settled-Lands =
        Triple-bind
          (Triple-attempt (
            Triple-bind (Triple-now env.host)
              (λ moment. mark_entry-Lands _ _ (λ r. refl) (λ r. refl) (λ r w. cc))))
          (λ _. Triple-pure tt (λ d h. h))

    retry_entry-Lands : Triple (Pass (e ∷ left)) (retry_entry env e) (λ _. Pass left) (Pass left)
    unfolding retry_entry reset_for_retry set_entry
    retry_entry-Lands =
        Triple-bind
          (Triple-attempt (
            Triple-with_context _ (
              Triple-exec_healthy env.host healthy _ (λ d h.
                update-EachFollows all left e _ (λ r. refl) (λ r. refl) (λ r w. cc) own rows
                  d.outbox h))))
          (λ _. Triple-pure tt (λ d h. h))

    handle_failure-Lands :
        (x : Err) → Triple (Pass (e ∷ left)) (handle_failure env e x) (λ _. Pass left) (Pass left)
    unfolding handle_failure
    handle_failure-Lands x =
        Triple-if (is_permanent_error x) (λ _. fail_entry-Lands)
          (λ _.
            Triple-if (leb max_delivery_attempts e.attempts) (λ _. fail_entry-Lands)
              (λ _. retry_entry-Lands))

    settle_entry-Lands :
        (r : Result (Unit {0}))
        → Triple (Pass (e ∷ left)) (settle_entry env e r) (λ _. Pass left) (Pass left)
    unfolding settle_entry
    settle_entry-Lands (ok tt) = settled-Lands
    settle_entry-Lands (err x) = handle_failure-Lands x

    settle_blocks-Lands :
        (r : Result String)
        → Triple (Pass (e ∷ left)) (settle_blocks env e r) (λ _. Pass left) (Pass left)
    unfolding settle_blocks set_slack_message_ts set_entry
    settle_blocks-Lands (err x) = handle_failure-Lands x
    settle_blocks-Lands (ok ts) =
        Triple-bind
          (Triple-if (is_empty ts) (λ _. Triple-pure _ (λ d h. h))
            (λ _. Triple-attempt_safe (
              Triple-with_context _ (
                Triple-exec_healthy env.host healthy _ (λ d h.
                  update-EachFollows_same all (e ∷ left) e.outbox_id _ (λ r. refl) (λ r. refl)
                    (λ r. refl) rows d.outbox h)))))
          (λ _. settled-Lands)

    deliver_blocks-Lands :
        (r : Result (List String))
        → Triple (Pass (e ∷ left)) (deliver_blocks env e r) (λ _. Pass left) (Pass left)
    unfolding deliver_blocks slack_post_blocks
    deliver_blocks-Lands (err x) = handle_failure-Lands _
    deliver_blocks-Lands (ok blocks) =
        Triple-bind (Triple-attempt_ask _ env.post_ts) settle_blocks-Lands

    deliver-Lands : Triple (Pass (e ∷ left)) (deliver env e) (λ _. Pass left) (Pass left)
    unfolding deliver slack_post
    deliver-Lands =
        Triple-if (e.message_type == "blocks") (λ _. deliver_blocks-Lands _)
          (λ _. Triple-bind (Triple-attempt_ask _ env.slack) settle_entry-Lands)

  pub deliver_all-Lands :
      (es : List OutboxEntry)
      → All (λ e. listed e.outbox_id all ≡ true) es
      → Triple (Pass es) (deliver_all env es) (λ _. Pass []) (Pass [])
  unfolding deliver_all
  deliver_all-Lands [] own = Triple-pure tt (λ d h. h)
  deliver_all-Lands (e ∷ es) (o, own) =
      Triple-bind (Triple-Completes (deliver-Completes env e) (deliver-Lands e es o))
        (λ _. deliver_all-Lands es own)
