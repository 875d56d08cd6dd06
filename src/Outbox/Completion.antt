-- ===== src/Outbox/Completion.antt =====
-- Posting a message always returns, whatever the database and the Slack API answer.
use ponko.Common.{String, List, ◌==◌, is_empty, leb}
use ponko.Effect.{Err, Result, ok, err}
use ponko.Effect.Total.{
  NoPanic, Completes, NoPanic-pure, NoPanic-raise, NoPanic-ask, NoPanic-if, NoPanic-with_context,
  NoPanic-bind, NoPanic-now, NoPanic-statement_db, NoPanic-exec_db, Completes-pure,
  Completes-attempt, Completes-bind, Completes-if,
}
use ponko.Chat.{OutboxEntry, ChatEnv, slack_post, slack_post_blocks}
use ponko.Slack.{is_permanent_error}
use ponko.Outbox.{
  max_delivery_attempts, mark_entry, mark_delivered, mark_failed, reset_for_retry,
  set_slack_message_ts,
}
use ponko.Outbox.Deliver.{
  fail_entry, retry_entry, handle_failure, settle_entry, settle_blocks, deliver_blocks, deliver,
}

module _ (env : ChatEnv) where
  mark_entry-NoPanic :
      (context id : String) (f : OutboxEntry → OutboxEntry) → NoPanic (mark_entry env context id f)
  unfolding mark_entry
  mark_entry-NoPanic context id f =
      NoPanic-bind (NoPanic-with_context context (NoPanic-statement_db env.host _))
        (λ found. NoPanic-if found (NoPanic-pure tt) (NoPanic-raise _))

  module _ (e : OutboxEntry) where
    fail_entry-Completes : Completes (fail_entry env e)
    unfolding fail_entry mark_failed
    fail_entry-Completes =
        Completes-bind (Completes-attempt (mark_entry-NoPanic _ _ _)) (λ _. Completes-pure tt)

    retry_entry-Completes : Completes (retry_entry env e)
    unfolding retry_entry reset_for_retry
    retry_entry-Completes =
        Completes-bind (Completes-attempt (NoPanic-with_context _ (NoPanic-exec_db env.host _)))
          (λ _. Completes-pure tt)

    handle_failure-Completes : (x : Err) → Completes (handle_failure env e x)
    unfolding handle_failure
    handle_failure-Completes x = Completes-if (is_permanent_error x) fail_entry-Completes (
        Completes-if (leb max_delivery_attempts e.attempts) fail_entry-Completes
          retry_entry-Completes)

    settle_entry-Completes : (r : Result (Unit {0})) → Completes (settle_entry env e r)
    unfolding settle_entry mark_delivered
    settle_entry-Completes (err x) = handle_failure-Completes x
    settle_entry-Completes (ok _) =
        Completes-bind
          (Completes-attempt
            (NoPanic-bind (NoPanic-now env.host) (λ moment. mark_entry-NoPanic _ _ _)))
          (λ _. Completes-pure tt)

    settle_blocks-Completes : (r : Result String) → Completes (settle_blocks env e r)
    unfolding settle_blocks set_slack_message_ts
    settle_blocks-Completes (err x) = settle_entry-Completes (err x)
    settle_blocks-Completes (ok ts) =
        Completes-bind
          (Completes-if (is_empty ts) (Completes-pure _)
            (Completes-attempt (NoPanic-with_context _ (NoPanic-exec_db env.host _))))
          (λ _. settle_entry-Completes (ok tt))

    deliver_blocks-Completes : (r : Result (List String)) → Completes (deliver_blocks env e r)
    unfolding deliver_blocks slack_post_blocks
    deliver_blocks-Completes (err x) = handle_failure-Completes _
    deliver_blocks-Completes (ok blocks) =
        Completes-bind (Completes-attempt (NoPanic-ask _ env.post_ts)) settle_blocks-Completes

    pub deliver-Completes : Completes (deliver env e)
    unfolding deliver slack_post
    deliver-Completes =
        Completes-if (e.message_type == "blocks") (deliver_blocks-Completes _)
          (Completes-bind (Completes-attempt (NoPanic-ask _ env.slack)) settle_entry-Completes)
