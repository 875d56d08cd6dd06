-- ===== src/Outbox/InFlight.antt =====
-- The rows while a pass of the delivery goes on, with the copies that it works on.
use ponko.Common.{
  ◌≤◌, ◌<◌, String, ◌≡◌, refl, sym, ◌∙◌, subst, List, [], ◌∷◌, Bool, true, false, arith, All,
  All-weaken, All-both, leb, if◌then◌else◌, Distinct, update-All, update-Distinct, select, update,
  ◌==◌, is_empty,
}
use ponko.Effect.{Err, Result, ok, err}
use ponko.Effect.Keeps.{
  Keeps, Keeps-statement_db, Keeps-exec_db, Keeps-bind, Keeps-if, Keeps-pure, Keeps-raise,
  Keeps-with_context, Keeps-attempt, Keeps-ask, Keeps-now,
}
use ponko.Chat.{pending, OutboxEntry, ChatTables, ChatEnv, slack_post, slack_post_blocks}
use ponko.Outbox.{
  entry_id, max_delivery_attempts, set_entry, mark_entry, mark_delivered, is_some, mark_failed,
  reset_for_retry, set_slack_message_ts,
}
use ponko.Outbox.Deliver.{
  fail_entry, retry_entry, handle_failure, settle_entry, settle_blocks, deliver_blocks, deliver,
  deliver_all,
}
use ponko.Slack.{is_permanent_error}

abbrev pub IsBounded : OutboxEntry → Type 0
IsBounded e =
    (e.attempts ≤ max_delivery_attempts) × (e.status ≡ pending → e.attempts < max_delivery_attempts)

-- The ids are distinct, no message was tried more than five times, and one that waits fewer.
pub record IsSound (rows : List OutboxEntry) : Type 0 where
  pub keyed : Distinct entry_id rows
  pub bounded : All IsBounded rows

-- The row of a copy has as many attempts as the copy.
abbrev pub Tracked : List OutboxEntry → OutboxEntry → Type 0
Tracked rows e = All (λ r. entry_id r ≡ entry_id e → r.attempts ≡ e.attempts) rows

pub record InFlight (entries : List OutboxEntry) (d : ChatTables) : Type 0 where
  pub sound : IsSound d.outbox
  pub tracked : All (Tracked d.outbox) entries

-- An update of one row that keeps its id and its attempts.
module _ (entries : List OutboxEntry) (id : String) (f : OutboxEntry → OutboxEntry)
    (same_id : (r : OutboxEntry) → entry_id (f r) ≡ entry_id r)
    (same_attempts : (r : OutboxEntry) → (f r).attempts ≡ r.attempts) where
  update-Tracked :
      (rows : List OutboxEntry) (e : OutboxEntry)
      → Tracked rows e
      → Tracked (update entry_id id f rows) e
  update-Tracked rows e t =
      update-All entry_id _ (λ r. entry_id r ≡ entry_id e → r.attempts ≡ e.attempts) id f (λ r h. h)
        (λ r _ h same. same_attempts r ∙ h (sym (same_id r) ∙ same)) rows t

  abbrev Harmless : OutboxEntry → Type 0
  Harmless r = entry_id r ≡ id → IsBounded r → IsBounded (f r)

  set_entry-InFlight :
      (d : ChatTables)
      → All Harmless d.outbox
      → InFlight entries d
      → InFlight entries (set_entry id f d)
  unfolding set_entry
  set_entry-InFlight d safe h = record {
    sound = record {
      keyed = update-Distinct entry_id id f same_id d.outbox h.sound.keyed;
      bounded =
          update-All entry_id _ IsBounded id f (λ r b. b.0) (λ r same b. b.1 same b.0) d.outbox
            (All-both IsBounded Harmless d.outbox h.sound.bounded safe);
    };
    tracked = All-weaken _ _ (update-Tracked d.outbox) entries h.tracked;
  }

All-every :
    (P : OutboxEntry → Type 0) → ((r : OutboxEntry) → P r) → (rs : List OutboxEntry) → All P rs
All-every P f [] = tt
All-every P f (r ∷ rs) = (f r, All-every P f rs)

module _ (env : ChatEnv) (entries : List OutboxEntry) where
  mark_entry-Keeps :
      (context id : String) (f : OutboxEntry → OutboxEntry)
      → ((r : OutboxEntry) → entry_id (f r) ≡ entry_id r)
      → ((r : OutboxEntry) → (f r).attempts ≡ r.attempts)
      → ((r : OutboxEntry) → IsBounded r → IsBounded (f r))
      → Keeps (InFlight entries) (mark_entry env context id f)
  unfolding mark_entry
  mark_entry-Keeps context id f same_id same_attempts safe =
      Keeps-bind
        (Keeps-with_context context (
          Keeps-statement_db env.host _ (λ d found d' h e.
            subst (InFlight entries) (written d found d' e) (
              set_entry-InFlight entries id f same_id same_attempts d
                (All-every _ (λ r _. safe r) d.outbox) h))))
        (λ found. Keeps-if found (Keeps-pure tt) (Keeps-raise _))
    where
      written :
          (d : ChatTables) (found : Bool) (d' : ChatTables)
          → ◌≡◌ {A = Result (Bool × ChatTables)}
              (ok (is_some (select entry_id id d.outbox), set_entry id f d))
              (ok (found, d'))
          → set_entry id f d ≡ d'
      written d found d' e = cc

  fail_entry-Keeps : (e : OutboxEntry) → Keeps (InFlight entries) (fail_entry env e)
  unfolding fail_entry mark_failed
  fail_entry-Keeps e =
      Keeps-bind
        (Keeps-attempt
          (mark_entry-Keeps _ e.outbox_id _ (λ r. refl) (λ r. refl) (λ r b. (b.0, λ w. cc))))
        (λ _. Keeps-pure tt)

  settled-Keeps : (e : OutboxEntry) → Keeps (InFlight entries) (settle_entry env e (ok tt))
  unfolding settle_entry mark_delivered
  settled-Keeps e =
      Keeps-bind
        (Keeps-attempt (
          Keeps-bind (Keeps-now env.host) (λ moment.
            mark_entry-Keeps _ e.outbox_id _ (λ r. refl) (λ r. refl) (λ r b. (b.0, λ w. cc)))))
        (λ _. Keeps-pure tt)

  -- The copy is one of those that are tracked.
  module _ (e : OutboxEntry)
      (own : (d : ChatTables) → InFlight entries d → Tracked d.outbox e) where
    retry_entry-Keeps :
        e.attempts < max_delivery_attempts → Keeps (InFlight entries) (retry_entry env e)
    unfolding retry_entry reset_for_retry
    retry_entry-Keeps few =
        Keeps-bind
          (Keeps-attempt (
            Keeps-with_context _ (
              Keeps-exec_db env.host _ (λ d h.
                set_entry-InFlight entries e.outbox_id _ (λ r. refl) (λ r. refl) d
                  (All-weaken _ _ (λ r same id b. (b.0, λ _. omega (arith, same id))) d.outbox
                    (own d h))
                  h))))
          (λ _. Keeps-pure tt)

    handle_failure-Keeps : (x : Err) → Keeps (InFlight entries) (handle_failure env e x)
    unfolding handle_failure
    handle_failure-Keeps x =
        Keeps-if (is_permanent_error x) (fail_entry-Keeps e)
          (go (leb max_delivery_attempts e.attempts) refl)
      where
        go :
            (b : Bool)
            → leb max_delivery_attempts e.attempts ≡ b
            → Keeps (InFlight entries) (if b then fail_entry env e else retry_entry env e)
        go true _ = fail_entry-Keeps e
        go false few = retry_entry-Keeps (ground arith)

    settle_entry-Keeps : (r : Result (Unit {0})) → Keeps (InFlight entries) (settle_entry env e r)
    unfolding settle_entry
    settle_entry-Keeps (ok tt) = settled-Keeps e
    settle_entry-Keeps (err x) = handle_failure-Keeps x

    settle_blocks-Keeps : (r : Result String) → Keeps (InFlight entries) (settle_blocks env e r)
    unfolding settle_blocks set_slack_message_ts
    settle_blocks-Keeps (err x) = handle_failure-Keeps x
    settle_blocks-Keeps (ok ts) =
        Keeps-bind
          (Keeps-if (is_empty ts) (Keeps-pure _) (
            Keeps-attempt (
              Keeps-with_context _ (
                Keeps-exec_db env.host _ (λ d h.
                  set_entry-InFlight entries e.outbox_id _ (λ r. refl) (λ r. refl) d
                    (All-every _ (λ r _ b. b) d.outbox) h)))))
          (λ _. settled-Keeps e)

    deliver_blocks-Keeps :
        (r : Result (List String)) → Keeps (InFlight entries) (deliver_blocks env e r)
    unfolding deliver_blocks slack_post_blocks
    deliver_blocks-Keeps (err x) = handle_failure-Keeps _
    deliver_blocks-Keeps (ok blocks) =
        Keeps-bind (Keeps-attempt (Keeps-ask _ env.post_ts)) settle_blocks-Keeps

    deliver-Keeps : Keeps (InFlight entries) (deliver env e)
    unfolding deliver slack_post
    deliver-Keeps =
        Keeps-if (e.message_type == "blocks") (deliver_blocks-Keeps _)
          (Keeps-bind (Keeps-attempt (Keeps-ask _ env.slack)) settle_entry-Keeps)

  pub deliver_all-Keeps :
      (es : List OutboxEntry)
      → ((d : ChatTables) → InFlight entries d → All (Tracked d.outbox) es)
      → Keeps (InFlight entries) (deliver_all env es)
  unfolding deliver_all
  deliver_all-Keeps [] own = Keeps-pure tt
  deliver_all-Keeps (e ∷ es) own =
      Keeps-bind (deliver-Keeps e (λ d h. (own d h).0))
        (λ _. deliver_all-Keeps es (λ d h. (own d h).1))
