-- ===== src/Outbox/Bounds.antt =====
-- How often a message is tried.
use ponko.Common.{
  ℕ, String, ◌≡◌, refl, ap, subst, [], ◌∷◌, ◌++◌, Option, none, some, arith, All-weaken, append-All,
  keep-All, Distinct-same, append_new-Distinct, select-none-All, select,
}
use ponko.Effect.{ok}
use ponko.Effect.Keeps.{
  Keeps, Keeps-statement_db, Keeps-bind, Keeps-with_context, Keeps-now, Keeps-new_uuid,
}
use ponko.Effect.Triple.{
  Triple, After-intro, Triple-bind, Triple-with_context, Triple-statement_db, Triple-now,
}
use ponko.Chat.{OutboxEntry, ChatTables, ChatEnv}
use ponko.Outbox.{
  entry_id, next_pending, listed, claim_listed, claim_rows, enqueue, claim_pending, new_entry,
  insert_entry,
}
use ponko.Outbox.Deliver.{deliver_all, deliver_pending}
use ponko.Outbox.Claim.{next_pending-OnlyPending, claim_listed-All, claim_listed-Distinct}
use ponko.Outbox.InFlight.{IsBounded, IsSound, InFlight, Tracked, deliver_all-Keeps}

claim_rows-InFlight :
    (batch moment : ℕ) (d : ChatTables)
    → IsSound d.outbox
    → InFlight (claim_rows batch moment d).0 (claim_rows batch moment d).1
unfolding claim_rows
claim_rows-InFlight batch moment d h =
    let chosen = next_pending batch d.outbox in
    let rows = claim_listed moment chosen d.outbox in
    let only = next_pending-OnlyPending batch d.outbox h.keyed in
    let keyed = claim_listed-Distinct moment chosen d.outbox only h.keyed in
    record {
      sound = record {
        keyed = keyed;
        bounded =
            claim_listed-All moment chosen IsBounded IsBounded (λ r b. b)
              (λ r b waits. let few = b.1 waits in (omega arith, λ w. cc)) d.outbox only h.bounded;
      };
      tracked =
          keep-All _ (Tracked rows) (λ e. listed e.outbox_id chosen)
            (λ c _ same. All-weaken _ _ (λ r s id. ap (λ x. x.attempts) (s id)) rows same) rows
            (Distinct-same entry_id rows keyed);
    }

module _ (env : ChatEnv) where
  pub deliver_pending-IsSound :
      Triple
        (λ d. IsSound d.outbox)
        (deliver_pending env)
        (λ _ d. IsSound d.outbox)
        (λ d. IsSound d.outbox)
  unfolding deliver_pending claim_pending
  deliver_pending-IsSound =
      Triple-bind
        (Triple-with_context _ (
          Triple-bind (Triple-now env.host) λ moment. Triple-with_context _ (
            Triple-statement_db {Q = InFlight} env.host _ (λ d es d' h e.
              let both : claim_rows 10 moment d ≡ (es, d') = cc in
              subst (λ x. InFlight x.0 x.1) both (claim_rows-InFlight 10 moment d h)))))
        (λ es. record {
          at = λ w h.
              After-intro (λ d. IsSound d.outbox) (deliver_all env es w)
                ((deliver_all-Keeps env es es (λ d t. t.tracked)).at w h).sound;
        })

  -- Inserting.
  pub enqueue-IsSound : (entry : OutboxEntry) → Keeps (λ d. IsSound d.outbox) (enqueue env entry)
  unfolding enqueue
  enqueue-IsSound entry = Keeps-bind (Keeps-new_uuid env.host) λ fresh.
      Keeps-bind (Keeps-now env.host) λ moment. Keeps-with_context _ (
        Keeps-statement_db env.host _
          (λ d id d' h e. go fresh moment d id d' h (select entry_id fresh d.outbox) refl e))
    where
      go :
          (fresh : String) (moment : ℕ) (d : ChatTables) (id : String) (d' : ChatTables)
          → IsSound d.outbox
          → (row : Option OutboxEntry) → select entry_id fresh d.outbox ≡ row
          → insert_entry (new_entry fresh moment entry) row d ≡ ok (id, d')
          → IsSound d'.outbox
      go fresh moment d id d' h (some r) _ e = cc
      go fresh moment d id d' h none free e =
          let fresh_row = new_entry fresh moment entry in
          let same : record d { outbox = d.outbox ++ fresh_row ∷ [] } ≡ d' = cc in
          subst (λ x. IsSound x.outbox) same
            (record {
              keyed =
                  append_new-Distinct entry_id d.outbox fresh_row h.keyed
                    (select-none-All entry_id fresh d.outbox free);
              bounded =
                  append-All IsBounded d.outbox (fresh_row ∷ []) h.bounded
                    (((omega arith, λ _. omega arith), tt));
            })
