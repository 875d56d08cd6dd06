-- ===== src/Outbox.antt =====
-- internal/saga/outbox.go over the table outbox, whose primary key is `outbox_id`. A default of the
-- table and the now() of a statement are readings of the clock and of gen_random_uuid before it.
pub mod Deliver
pub mod Claim
pub mod InFlight
pub mod Bounds
pub mod Pass
pub mod Listed
pub mod Completion
pub mod Settled
pub mod Liveness
pub mod History
pub mod Frame
use ponko.Common.{
  ℕ, suc, ◌+◌, String, List, [], ◌∷◌, ◌++◌, map, Option, none, some, Bool, true, false, ◌||◌, ◌==◌,
  ◌⧺◌, is_empty, leb, take, keep, if◌then◌else◌, select, update, order_by,
}
use ponko.Effect.{
  Result, ok, err, errorf, no_rows, constraint_failed, pure, raise, with_context, ◌>>=◌, ◌>>◌, now,
  new_uuid, exec_db, query_db, statement_db,
}
use ponko.Chat.{
  DeliveryStatus, pending, delivering, delivered, failed, OutboxEntry, ChatTables, ChatM, ChatEnv,
}

abbrev pub max_delivery_attempts : ℕ
max_delivery_attempts = 5

abbrev pub entry_id : OutboxEntry → String
entry_id e = e.outbox_id

abbrev pub is_pending : OutboxEntry → Bool
is_pending e = go e.status
  where
    go : DeliveryStatus → Bool
    go pending = true
    go _ = false

abbrev pub created_before : OutboxEntry → OutboxEntry → Bool
created_before e f = leb e.created_at f.created_at

-- The columns that Enqueue fills in, the others by their defaults.
abbrev pub new_entry : String → ℕ → OutboxEntry → OutboxEntry
new_entry fresh moment e = record e {
  outbox_id = fresh;
  created_at = moment;
  status = pending;
  attempts = 0;
  last_attempt_at = none;
  delivered_at = none;
  slack_message_ts = none;
}

abbrev pub insert_entry :
    OutboxEntry → Option OutboxEntry → ChatTables → Result (String × ChatTables)
insert_entry e none d = ok (e.outbox_id, record d { outbox = d.outbox ++ e ∷ [] })
insert_entry e (some f) d = err constraint_failed

-- WHERE outbox_id IN (SELECT … WHERE status = 'pending' ORDER BY created_at LIMIT n)
unfoldable pub next_pending : ℕ → List OutboxEntry → List OutboxEntry
unfolding order_by
next_pending n rows = take n (order_by created_before (keep is_pending rows))

unfoldable pub listed : String → List OutboxEntry → Bool
listed id [] = false
listed id (e ∷ es) = e.outbox_id == id || listed id es

abbrev pub claim_entry : ℕ → OutboxEntry → OutboxEntry
claim_entry moment e = record e {
  status = delivering;
  last_attempt_at = some moment;
  attempts = e.attempts + 1;
}

-- The table after the statement, and the rows it returns.
unfoldable pub claim_listed : ℕ → List OutboxEntry → List OutboxEntry → List OutboxEntry
unfolding listed
claim_listed moment chosen [] = []
claim_listed moment chosen (e ∷ es) =
    (if listed e.outbox_id chosen then claim_entry moment e else e) ∷ claim_listed moment chosen es

unfoldable pub claim_rows : ℕ → ℕ → ChatTables → List OutboxEntry × ChatTables
unfolding next_pending claim_listed listed
claim_rows batch moment d =
    let chosen = next_pending batch d.outbox in
    let rows = claim_listed moment chosen d.outbox in
    (keep (λ e. listed e.outbox_id chosen) rows, record d { outbox = rows })

abbrev row_or_none : Option OutboxEntry → ChatTables → Result (OutboxEntry × ChatTables)
row_or_none none d = err no_rows
row_or_none (some e) d = ok (e, d)

-- RowsAffected() ≠ 0 of an UPDATE … WHERE outbox_id = $1.
abbrev pub is_some : Option OutboxEntry → Bool
is_some none = false
is_some (some e) = true

unfoldable pub set_entry : String → (OutboxEntry → OutboxEntry) → ChatTables → ChatTables
set_entry id f d = record d { outbox = update entry_id id f d.outbox }

module _ (env : ChatEnv) where
  unfoldable pub enqueue : OutboxEntry → ChatM String
  enqueue entry = do
    fresh ← new_uuid env.host
    moment ← now env.host
    with_context "enqueuing outbox entry" (
        statement_db env.host
          (λ d. insert_entry (new_entry fresh moment entry) (select entry_id fresh d.outbox) d))

  unfoldable pub claim_pending : ℕ → ChatM (List OutboxEntry)
  unfolding claim_rows
  claim_pending batch = do
    moment ← now env.host
    with_context "claiming pending outbox entries"
        (statement_db env.host (λ d. ok (claim_rows batch moment d)))

  -- An UPDATE whose number of rows the code looks at.
  unfoldable pub mark_entry : String → String → (OutboxEntry → OutboxEntry) → ChatM (Unit {0})
  unfolding set_entry
  mark_entry context id f = do
    found ←
        with_context context (
          statement_db env.host (λ d. ok (is_some (select entry_id id d.outbox), set_entry id f d)))
    if found then pure tt else raise (errorf ("outbox entry " ⧺ id ⧺ " not found"))

  unfoldable pub mark_delivered : String → ChatM (Unit {0})
  unfolding mark_entry
  mark_delivered id = do
    moment ← now env.host
    mark_entry "marking outbox entry delivered" id
        (λ e. record e { status = delivered; delivered_at = some moment })

  unfoldable pub mark_failed : String → ChatM (Unit {0})
  unfolding mark_entry
  mark_failed id = mark_entry "marking outbox entry failed" id (λ e. record e { status = failed })

  unfoldable pub reset_for_retry : String → ChatM (Unit {0})
  unfolding set_entry
  reset_for_retry id =
      with_context "resetting outbox entry for retry"
        (exec_db env.host (set_entry id (λ e. record e { status = pending })))

  unfoldable pub get_outbox_entry : String → ChatM OutboxEntry
  get_outbox_entry id =
      with_context "getting outbox entry"
        (statement_db env.host (λ d. row_or_none (select entry_id id d.outbox) d))

  unfoldable pub set_slack_message_ts : String → String → ChatM (Unit {0})
  unfolding set_entry
  set_slack_message_ts id ts =
      with_context "setting slack_message_ts"
        (exec_db env.host (set_entry id (λ e. record e { slack_message_ts = some ts })))

  unfoldable pub list_outbox_by_conversation : String → ChatM (List OutboxEntry)
  unfolding order_by
  list_outbox_by_conversation id = with_context "listing outbox entries for conversation" (
      query_db env.host
        (λ d. order_by created_before (keep (λ e. e.conversation_id == id) d.outbox)))
