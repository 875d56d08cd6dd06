-- ===== src/Outbox/Deliver.antt =====
-- internal/saga/deliver.go: the worker that posts what waits in the outbox.
use ponko.Common.{
  String, List, [], ◌∷◌, map, Option, none, some, ◌==◌, is_empty, leb, if◌then◌else◌,
}
use ponko.Effect.{Err, wrap, Result, ok, err, pure, with_context, attempt, ◌>>=◌, ◌>>◌}
use ponko.Chat.{OutboxEntry, ChatM, ChatEnv, raw_block, slack_post, slack_post_blocks}
use ponko.Slack.{is_permanent_error}
use ponko.Outbox.{
  max_delivery_attempts, claim_pending, mark_delivered, mark_failed, reset_for_retry,
  set_slack_message_ts,
}

abbrev or_raw : String → Option String → String
or_raw content none = content
or_raw content (some text) = text

-- The text that a message of any type but "blocks" is posted as.
unfoldable pub rendered : ChatEnv → OutboxEntry → String
rendered env entry =
    env.render_mrkdwn (or_raw entry.content (env.codec.unmarshal_text entry.content))

module _ (env : ChatEnv) where
  -- The updates whose error is only logged.
  unfoldable pub fail_entry : OutboxEntry → ChatM (Unit {0})
  fail_entry entry = do logged ← attempt (mark_failed env entry.outbox_id); pure tt

  unfoldable pub retry_entry : OutboxEntry → ChatM (Unit {0})
  retry_entry entry = do logged ← attempt (reset_for_retry env entry.outbox_id); pure tt

  unfoldable pub handle_failure : OutboxEntry → Err → ChatM (Unit {0})
  unfolding fail_entry retry_entry
  handle_failure entry e =
      if is_permanent_error e
      then fail_entry entry
      else if leb max_delivery_attempts entry.attempts
      then fail_entry entry
      else retry_entry entry

  unfoldable pub settle_entry : OutboxEntry → Result (Unit {0}) → ChatM (Unit {0})
  unfolding handle_failure
  settle_entry entry (err e) = handle_failure entry e
  settle_entry entry (ok _) = do logged ← attempt (mark_delivered env entry.outbox_id); pure tt

  -- After PostBlocks: the message's timestamp is stored, if it has one.
  unfoldable pub settle_blocks : OutboxEntry → Result String → ChatM (Unit {0})
  unfolding settle_entry
  settle_blocks entry (err e) = settle_entry entry (err e)
  settle_blocks entry (ok ts) = do
    logged ←
        (if is_empty ts
          then pure (ok tt)
          else attempt (set_slack_message_ts env entry.outbox_id ts))
    settle_entry entry (ok tt)

  unfoldable pub deliver_blocks : OutboxEntry → Result (List String) → ChatM (Unit {0})
  unfolding handle_failure settle_blocks
  deliver_blocks entry (err e) = handle_failure entry (wrap "unmarshaling block content" e)
  deliver_blocks entry (ok blocks) =
      attempt (
        slack_post_blocks env entry.channel_id "New message" (map raw_block blocks) entry.thread_ts)
      >>= settle_blocks entry

  unfoldable pub deliver : OutboxEntry → ChatM (Unit {0})
  unfolding deliver_blocks settle_entry rendered
  deliver entry =
      if entry.message_type == "blocks"
      then deliver_blocks entry (env.codec.unmarshal_blocks entry.content)
      else attempt (slack_post env entry.channel_id (rendered env entry) entry.thread_ts)
        >>= settle_entry entry

  unfoldable pub deliver_all : List OutboxEntry → ChatM (Unit {0})
  unfolding deliver
  deliver_all [] = pure tt
  deliver_all (entry ∷ entries) = deliver entry >> deliver_all entries

  -- OutboxDeliverWorker.Work is DeliverPending.
  unfoldable pub deliver_pending : ChatM (Unit {0})
  unfolding deliver_all
  deliver_pending = with_context "claiming pending entries" (claim_pending env 10) >>= deliver_all
