-- ===== src/Outbox/Frame.antt =====
-- What a pass of the delivery leaves alone.
use ponko.Common.{
  ℕ, ◌≡◌, refl, sym, ◌∙◌, subst, String, ◌≢◌, List, [], ◌∷◌, some, Bool, true, false, ◌==◌, eq_iff,
  arith, is_empty, All, All-weaken, keep-All, leb, select, select-update_ne, select-key, All-unit,
  Distinct, if◌then◌else◌,
}
use ponko.Effect.{Err, Result, ok, err, World}
use ponko.Effect.Keeps.{
  Keeps, Keeps-statement_db, Keeps-exec_db, Keeps-bind, Keeps-if, Keeps-pure, Keeps-raise,
  Keeps-with_context, Keeps-attempt, Keeps-ask, Keeps-now,
}
use ponko.Effect.Triple.{
  Triple, After-same, After-intro, Triple-bind, Triple-with_context, Triple-statement_db,
  Triple-now, Triple-weaken,
}
use ponko.Chat.{pending, OutboxEntry, ChatTables, ChatEnv, ChatCall, slack_post, slack_post_blocks}
use ponko.Slack.{is_permanent_error}
use ponko.Outbox.{
  entry_id, is_some, listed, max_delivery_attempts, next_pending, claim_listed, claim_entry,
  claim_rows, set_entry, mark_entry, mark_delivered, mark_failed, reset_for_retry,
  set_slack_message_ts, claim_pending,
}
use ponko.Outbox.Deliver.{
  fail_entry, retry_entry, handle_failure, settle_entry, settle_blocks, deliver_blocks, deliver,
  deliver_all, deliver_pending,
}
use ponko.Outbox.Claim.{next_pending-OnlyPending}

-- A predicate that no update of the row `id` changes.
abbrev pub IgnoresEntry : String → (ChatTables → Type 0) → Type 0
IgnoresEntry id P =
    (f : OutboxEntry → OutboxEntry)
    → ((r : OutboxEntry) → entry_id (f r) ≡ entry_id r)
    → (d : ChatTables) → P d
    → P (set_entry id f d)

module _ (env : ChatEnv) (P : ChatTables → Type 0) (e : OutboxEntry)
    (ignores : IgnoresEntry e.outbox_id P) where
  mark_entry-Ignores :
      (context : String) (f : OutboxEntry → OutboxEntry)
      → ((r : OutboxEntry) → entry_id (f r) ≡ entry_id r)
      → Keeps P (mark_entry env context e.outbox_id f)
  unfolding mark_entry
  mark_entry-Ignores context f same =
      Keeps-bind
        (Keeps-with_context context (
          Keeps-statement_db env.host _
            (λ d found d' h q. subst P (written d found d' q) (ignores f same d h))))
        (λ found. Keeps-if found (Keeps-pure tt) (Keeps-raise _))
    where
      written :
          (d : ChatTables) (found : Bool) (d' : ChatTables)
          → ◌≡◌ {A = Result (Bool × ChatTables)}
              (ok (is_some (select entry_id e.outbox_id d.outbox), set_entry e.outbox_id f d))
              (ok (found, d'))
          → set_entry e.outbox_id f d ≡ d'
      written d found d' q = cc

  fail_entry-Ignores : Keeps P (fail_entry env e)
  unfolding fail_entry mark_failed
  fail_entry-Ignores =
      Keeps-bind (Keeps-attempt (mark_entry-Ignores _ _ (λ r. refl))) (λ _. Keeps-pure tt)

  retry_entry-Ignores : Keeps P (retry_entry env e)
  unfolding retry_entry reset_for_retry
  retry_entry-Ignores =
      Keeps-bind
        (Keeps-attempt (Keeps-with_context _ (Keeps-exec_db env.host _ (ignores _ (λ r. refl)))))
        (λ _. Keeps-pure tt)

  handle_failure-Ignores : (x : Err) → Keeps P (handle_failure env e x)
  unfolding handle_failure
  handle_failure-Ignores x =
      Keeps-if (is_permanent_error x) fail_entry-Ignores
        (Keeps-if (leb max_delivery_attempts e.attempts) fail_entry-Ignores retry_entry-Ignores)

  settle_entry-Ignores : (r : Result (Unit {0})) → Keeps P (settle_entry env e r)
  unfolding settle_entry mark_delivered
  settle_entry-Ignores (err x) = handle_failure-Ignores x
  settle_entry-Ignores (ok _) =
      Keeps-bind
        (Keeps-attempt
          (Keeps-bind (Keeps-now env.host) (λ moment. mark_entry-Ignores _ _ (λ r. refl))))
        (λ _. Keeps-pure tt)

  settle_blocks-Ignores : (r : Result String) → Keeps P (settle_blocks env e r)
  unfolding settle_blocks set_slack_message_ts
  settle_blocks-Ignores (err x) = settle_entry-Ignores (err x)
  settle_blocks-Ignores (ok ts) =
      Keeps-bind
        (Keeps-if (is_empty ts) (Keeps-pure _)
          (Keeps-attempt (Keeps-with_context _ (Keeps-exec_db env.host _ (ignores _ (λ r. refl))))))
        (λ _. settle_entry-Ignores (ok tt))

  deliver_blocks-Ignores : (r : Result (List String)) → Keeps P (deliver_blocks env e r)
  unfolding deliver_blocks slack_post_blocks
  deliver_blocks-Ignores (err x) = handle_failure-Ignores _
  deliver_blocks-Ignores (ok blocks) =
      Keeps-bind (Keeps-attempt (Keeps-ask _ env.post_ts)) settle_blocks-Ignores

  deliver-Ignores : Keeps P (deliver env e)
  unfolding deliver slack_post
  deliver-Ignores =
      Keeps-if (e.message_type == "blocks") (deliver_blocks-Ignores _)
        (Keeps-bind (Keeps-attempt (Keeps-ask _ env.slack)) settle_entry-Ignores)

deliver_all-Ignores :
    (env : ChatEnv) (P : ChatTables → Type 0) (es : List OutboxEntry)
    → All (λ e. IgnoresEntry e.outbox_id P) es
    → Keeps P (deliver_all env es)
unfolding deliver_all
deliver_all-Ignores env P [] a = Keeps-pure tt
deliver_all-Ignores env P (e ∷ es) (i, a) =
    Keeps-bind (deliver-Ignores env P e i) (λ _. deliver_all-Ignores env P es a)

select-All :
    (P : OutboxEntry → Type 0) (id : String) (rows : List OutboxEntry)
    → All P rows
    → (r : OutboxEntry) → select entry_id id rows ≡ some r
    → P r
unfolding select
select-All P id [] a r h = cc
select-All P id (x ∷ xs) (p, a) r h = go (entry_id x == id) h (select-All P id xs a r)
  where
    go :
        (b : Bool)
        → (if b then some x else select entry_id id xs) ≡ some r
        → (select entry_id id xs ≡ some r → P r)
        → P r
    go true e rest = let same : x ≡ r = cc in subst P same p
    go false e rest = rest e

-- A row that the claim does not list stays.
select-claim_listed :
    (moment : ℕ) (chosen : List OutboxEntry) (id : String)
    → listed id chosen ≡ false
    → (rows : List OutboxEntry)
    → select entry_id id (claim_listed moment chosen rows) ≡ select entry_id id rows
unfolding select claim_listed
select-claim_listed moment chosen id out [] = refl
select-claim_listed moment chosen id out (r ∷ rs) =
    go (listed r.outbox_id chosen) refl (entry_id r == id) refl
      (select-claim_listed moment chosen id out rs)
  where
    go :
        (c : Bool)
        → listed r.outbox_id chosen ≡ c
        → (b : Bool) → (entry_id r == id) ≡ b
        → select entry_id id (claim_listed moment chosen rs) ≡ select entry_id id rs
        → (if entry_id (if c then claim_entry moment r else r) == id
            then some (if c then claim_entry moment r else r)
            else select entry_id id (claim_listed moment chosen rs))
          ≡ (if b then some r else select entry_id id rs)
    go true l true b rest =
        let same : r.outbox_id ≡ id = (eq_iff r.outbox_id id).0 b in
        let clash : listed id chosen ≡ true = subst (λ x. listed x chosen ≡ true) same l in cc
    go true l false b rest = ground arith
    go false l true b rest = ground arith
    go false l false b rest = ground arith

module _ (env : ChatEnv) (id : String) (row : OutboxEntry) (at_rest : row.status ≢ pending) where
  abbrev Holds : ChatTables → Type 0
  Holds d = select entry_id id d.outbox ≡ some row

  claim_rows-Holds :
      (batch moment : ℕ) (d : ChatTables)
      → Distinct entry_id d.outbox
      → Holds d
      → let (es, d') = claim_rows batch moment d in All (λ e. e.outbox_id ≢ id) es × Holds d'
  unfolding claim_rows
  claim_rows-Holds batch moment d keyed h =
      let chosen = next_pending batch d.outbox in
      let own : entry_id row ≡ id = select-key entry_id id d.outbox row h in
      let only : listed row.outbox_id chosen ≡ true → row.status ≡ pending =
        select-All (λ r. listed r.outbox_id chosen ≡ true → r.status ≡ pending) id d.outbox
          (next_pending-OnlyPending batch d.outbox keyed) row h in
      let out : (x : String) → x ≡ id → ¬ (listed x chosen ≡ true) =
        λ x e l. at_rest (only (subst (λ y. listed y chosen ≡ true) (e ∙ sym own) l)) in
      let rows = claim_listed moment chosen d.outbox in
      (
        keep-All (λ _. Unit {0}) _ (λ e. listed e.outbox_id chosen)
            (λ e l _ same. out e.outbox_id same l) rows (All-unit rows),
        select-claim_listed moment chosen id (not_listed (listed id chosen) refl (out id refl))
              d.outbox
            ∙ h,
      )
    where
      not_listed : {b : Bool} (c : Bool) → b ≡ c → ¬ (b ≡ true) → b ≡ false
      not_listed true e n = absurd (n e)
      not_listed false e n = e

  deliver_pending-Holds :
      Triple (λ d. Distinct entry_id d.outbox × Holds d) (deliver_pending env) (λ _. Holds) Holds
  unfolding deliver_pending claim_pending set_entry
  deliver_pending-Holds =
      Triple-bind
        (Triple-weaken (λ d h. h) (λ _ d h. h) (λ d h. h.1)
          (Triple-with_context _ (
            Triple-bind (Triple-now env.host) λ moment. Triple-with_context _ (
              Triple-statement_db {Q = λ es d'. All (λ e. e.outbox_id ≢ id) es × Holds d'} env.host
                _
                (λ d es d' h e.
                  let both : claim_rows 10 moment d ≡ (es, d') = cc in
                  subst (λ x. All (λ e. e.outbox_id ≢ id) x.0 × Holds x.1) both
                    (claim_rows-Holds 10 moment d h.0 h.1))))))
        (λ es. record {
          at = λ w h. After-intro Holds (deliver_all env es w) (
              (deliver_all-Ignores env Holds es (
                  All-weaken _ _
                    (λ e n f same d hd.
                      select-update_ne entry_id e.outbox_id id f d.outbox same (λ q. n (sym q))
                      ∙ hd)
                    es h.0)).at
                w h.1);
        })

  -- A message that is not waiting, be it delivered, failed or left in delivery by an earlier pass, is
  -- never touched by a pass of the delivery, whatever the database and the Slack API answer.
  pub deliver_pending-at_rest :
      (w : World ChatTables ChatCall)
      → Distinct entry_id w.tables.outbox
      → select entry_id id w.tables.outbox ≡ some row
      → select entry_id id (deliver_pending env w).1.tables.outbox ≡ some row
  deliver_pending-at_rest w keyed h =
      After-same Holds (deliver_pending env w) (deliver_pending-Holds.at w (keyed, h))
