-- ===== src/Outbox/Liveness.antt =====
-- Every message that waits comes to an end.
use ponko.Common.{
  ℕ, zero, suc, ◌≤◌, ◌≡◌, refl, subst, sym, ◌≢◌, ◌⊎◌, inl, inr, List, [], ◌∷◌, Bool, true, false,
  ◌||◌, ◌==◌, eq_refl, arith, ap, All, All-weaken, All-both, length, keep, if◌then◌else◌,
}
use ponko.Effect.{World}
use ponko.Effect.Triple.{
  Triple, After-same, Triple-bind, Triple-with_context, Triple-now, Triple-weaken,
}
use ponko.Effect.Healthy.{IsHealthy, Triple-statement_healthy}
use ponko.Chat.{
  DeliveryStatus, pending, delivering, delivered, failed, OutboxEntry, ChatTables, ChatEnv,
  ChatCall,
}
use ponko.Outbox.{entry_id, is_pending, listed, claim_rows, claim_pending}
use ponko.Outbox.Deliver.{deliver_pending}
use ponko.Outbox.InFlight.{IsSound, IsBounded}
use ponko.Outbox.Bounds.{deliver_pending-IsSound}
use ponko.Outbox.Pass.{Follows, EachFollows, claim_rows-EachFollows}
use ponko.Outbox.Settled.{deliver_all-Lands}

abbrev pub NoneInFlight : List OutboxEntry → Type 0
NoneInFlight rows = All (λ r. r.status ≢ delivering) rows

listed_self : (es : List OutboxEntry) → All (λ e. listed e.outbox_id es ≡ true) es
unfolding listed
listed_self [] = tt
listed_self (e ∷ es) = (
  ap (λ t. t || listed e.outbox_id es) (eq_refl e.outbox_id),
  All-weaken _ _ (λ x h. go (entry_id e == entry_id x) h) es (listed_self es),
)
  where
    go : (t : Bool) {b : Bool} → b ≡ true → (t || b) ≡ true
    go true h = refl
    go false h = h

module _ (env : ChatEnv) where
  unfoldable pub after_passes : ℕ → World ChatTables ChatCall → World ChatTables ChatCall
  after_passes zero w = w
  after_passes (suc n) w = after_passes n (deliver_pending env w).1

module _ (env : ChatEnv) (healthy : IsHealthy env.host) (d : ChatTables) (sound : IsSound d.outbox)
    (still : NoneInFlight d.outbox) (few : length (keep is_pending d.outbox) ≤ 10) where
  abbrev Landed : ChatTables → Type 0
  Landed d' = (es : List OutboxEntry) × EachFollows es [] d.outbox d'.outbox

  deliver_pending-Landed : Triple (λ x. x ≡ d) (deliver_pending env) (λ _. Landed) Landed
  unfolding deliver_pending claim_pending
  deliver_pending-Landed =
      Triple-bind
        (Triple-with_context _ (
          Triple-bind (Triple-now env.host) λ moment. Triple-with_context _ (
            Triple-statement_healthy env.host healthy
              {Q = λ es d'. EachFollows es es d.outbox d'.outbox} _
              (λ x same.
                subst
                  (λ y.
                    let (es, d') = claim_rows 10 moment y in EachFollows es es d.outbox d'.outbox)
                  (sym same) (claim_rows-EachFollows 10 moment d sound.keyed still few)))))
        (λ es.
          Triple-weaken (λ x h. h) (λ _ x h. (es, h)) (λ x h. (es, h))
            (deliver_all-Lands env healthy es d.outbox es (listed_self es)))

-- After n passes a message that still waits was tried n times.
record Tried (n : ℕ) (rows : List OutboxEntry) : Type 0 where
  sound : IsSound rows
  still : NoneInFlight rows
  few : length (keep is_pending rows) ≤ 10
  tried : All (λ r. r.status ≡ pending → n ≤ r.attempts) rows

module _ (es : List OutboxEntry) where
  landed-NoneInFlight : (bs cs : List OutboxEntry) → EachFollows es [] bs cs → NoneInFlight cs
  unfolding listed
  landed-NoneInFlight [] [] h = tt
  landed-NoneInFlight (b ∷ bs) (c ∷ cs) (h, hs) =
      ((λ e. cc (h.in_flight e)), landed-NoneInFlight bs cs hs)
  landed-NoneInFlight [] (c ∷ cs) h = elim h [ ]
  landed-NoneInFlight (b ∷ bs) [] h = elim h [ ]

  landed-tried :
      (n : ℕ) (bs cs : List OutboxEntry)
      → EachFollows es [] bs cs
      → All (λ r. r.status ≡ pending → n ≤ r.attempts) bs
      → All (λ r. r.status ≡ pending → suc n ≤ r.attempts) cs
  landed-tried n [] [] h a = tt
  landed-tried n (b ∷ bs) (c ∷ cs) (h, hs) (t, a) = (
    λ w. let (was, more) = h.waits w in let many = t was in omega arith,
    landed-tried n bs cs hs a,
  )
  landed-tried n [] (c ∷ cs) h a = elim h [ ]
  landed-tried n (b ∷ bs) [] h a = elim h [ ]

  was_pending : (b c : OutboxEntry) → Follows es [] b c → is_pending c ≡ true → is_pending b ≡ true
  was_pending b c h e = let waits = h.waits in ground arith

  landed-few :
      (bs cs : List OutboxEntry)
      → EachFollows es [] bs cs
      → length (keep is_pending cs) ≤ length (keep is_pending bs)
  landed-few [] [] h = omega arith
  landed-few (b ∷ bs) (c ∷ cs) (h, hs) =
      go (is_pending b) (is_pending c) (was_pending b c h) (landed-few bs cs hs)
    where
      go :
          (p q : Bool)
          → (q ≡ true → p ≡ true)
          → length (keep is_pending cs) ≤ length (keep is_pending bs)
          → length (if q then c ∷ keep is_pending cs else keep is_pending cs)
            ≤ length (if p then b ∷ keep is_pending bs else keep is_pending bs)
      go true true f rest = omega arith
      go true false f rest = omega arith
      go false true f rest = let e = f refl in cc
      go false false f rest = rest
  landed-few [] (c ∷ cs) h = elim h [ ]
  landed-few (b ∷ bs) [] h = elim h [ ]

Tried-ends :
    (rows : List OutboxEntry)
    → Tried 5 rows
    → All (λ r. (r.status ≡ delivered) ⊎ (r.status ≡ failed)) rows
Tried-ends rows h =
    All-weaken _ _ (λ r x. go r r.status refl x.0 x.1) rows
      (All-both _ _ rows h.still (All-both _ _ rows h.tried h.sound.bounded))
  where
    go :
        (r : OutboxEntry) (s : DeliveryStatus)
        → r.status ≡ s
        → r.status ≢ delivering
        → (r.status ≡ pending → 5 ≤ r.attempts) × IsBounded r
        → (r.status ≡ delivered) ⊎ (r.status ≡ failed)
    go r pending e n (t, b) = let many = t e in let less = b.1 e in absurd (omega arith)
    go r delivering e n x = absurd (n e)
    go r delivered e n x = inl e
    go r failed e n x = inr e

module _ (env : ChatEnv) (healthy : IsHealthy env.host) where
  deliver_pending-Tried :
      (n : ℕ) (w : World ChatTables ChatCall)
      → Tried n w.tables.outbox
      → Tried (suc n) (deliver_pending env w).1.tables.outbox
  deliver_pending-Tried n w h =
      let after = deliver_pending env w in
      let (es, each) =
        After-same (Landed env healthy w.tables h.sound h.still h.few) after
          ((deliver_pending-Landed env healthy w.tables h.sound h.still h.few).at w refl) in
      let less = landed-few es w.tables.outbox after.1.tables.outbox each in
      let few = h.few in
      record {
        sound =
            After-same (λ d. IsSound d.outbox) after ((deliver_pending-IsSound env).at w h.sound);
        still = landed-NoneInFlight es w.tables.outbox after.1.tables.outbox each;
        few = omega arith;
        tried = landed-tried es n w.tables.outbox after.1.tables.outbox each h.tried;
      }

  -- If the database takes every statement and at most ten messages wait, none of them half delivered,
  -- then after five passes each message is delivered or failed, whatever the Slack API answers.
  pub after_passes-ends :
      (w : World ChatTables ChatCall)
      → IsSound w.tables.outbox
      → NoneInFlight w.tables.outbox
      → length (keep is_pending w.tables.outbox) ≤ 10
      → All (λ r. (r.status ≡ delivered) ⊎ (r.status ≡ failed)) (after_passes env 5 w).tables.outbox
  unfolding after_passes
  after_passes-ends w sound still few = Tried-ends _ (
      deliver_pending-Tried 4 _ (
        deliver_pending-Tried 3 _ (
          deliver_pending-Tried 2 _ (
            deliver_pending-Tried 1 _ (
              deliver_pending-Tried 0 w (record {
                sound = sound;
                still = still;
                few = few;
                tried = All-weaken _ _ (λ r n w. omega arith) w.tables.outbox still;
              }))))))
