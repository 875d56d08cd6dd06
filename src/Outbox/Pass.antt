-- ===== src/Outbox/Pass.antt =====
-- A row of the outbox before a pass of the delivery and while it goes on.
use ponko.Common.{
  ℕ, suc, ◌≤◌, String, ◌≡◌, refl, sym, ◌∙◌, subst, ◌≢◌, List, [], ◌∷◌, Bool, true, false, ◌||◌,
  ◌==◌, eq_iff, arith, All, length, keep, if◌then◌else◌, update, Distinct,
}
use ponko.Chat.{pending, delivering, OutboxEntry, ChatTables}
use ponko.Outbox.{entry_id, is_pending, next_pending, listed, claim_entry, claim_listed, claim_rows}
use ponko.Outbox.Listed.{listed-keep_test, keep-listed, next_pending-listed}
use ponko.Outbox.Claim.{OnlyPending, next_pending-OnlyPending}

-- `all` are the claimed rows, `left` those not yet posted; the first row is the one before the pass.
-- A row that waits now did so before and has one attempt more, a claimed row waited before, and a row
-- that is being delivered is one of those not yet posted.
pub record Follows (all left : List OutboxEntry) (before after : OutboxEntry) : Type 0 where
  pub waits :
      after.status ≡ pending → (before.status ≡ pending) × (after.attempts ≡ suc before.attempts)
  pub claimed :
      listed after.outbox_id all ≡ true
      → (before.status ≡ pending) × (after.attempts ≡ suc before.attempts)
  pub in_flight : after.status ≡ delivering → listed after.outbox_id left ≡ true

abbrev pub EachFollows :
    (all left : List OutboxEntry) → List OutboxEntry → List OutboxEntry → Type 0
EachFollows all left [] [] = Unit
EachFollows all left (b ∷ bs) (a ∷ cs) = Follows all left b a × EachFollows all left bs cs
EachFollows all left [] (a ∷ cs) = ⊥
EachFollows all left (b ∷ bs) [] = ⊥

-- The row of a claimed message gets a status that ends its flight.
pub update-EachFollows :
    (all left : List OutboxEntry) (e : OutboxEntry) (f : OutboxEntry → OutboxEntry)
    → ((r : OutboxEntry) → entry_id (f r) ≡ entry_id r)
    → ((r : OutboxEntry) → (f r).attempts ≡ r.attempts)
    → ((r : OutboxEntry) → (f r).status ≢ delivering)
    → listed e.outbox_id all ≡ true
    → (bs cs : List OutboxEntry) → EachFollows all (e ∷ left) bs cs
    → EachFollows all left bs (update entry_id e.outbox_id f cs)
unfolding update listed
update-EachFollows all left e f same_id same_attempts lands own [] [] h = tt
update-EachFollows all left e f same_id same_attempts lands own (b ∷ bs) (a ∷ cs) (h, hs) = (
  go (entry_id a == e.outbox_id) refl,
  update-EachFollows all left e f same_id same_attempts lands own bs cs hs,
)
  where
    later :
        (entry_id a == e.outbox_id) ≡ false
        → (e.outbox_id == entry_id a || listed (entry_id a) left) ≡ true
        → listed (entry_id a) left ≡ true
    later other at =
        ground (arith, eq_iff (entry_id a) e.outbox_id, eq_iff e.outbox_id (entry_id a))

    go : (t : Bool) → (entry_id a == e.outbox_id) ≡ t → Follows all left b (if t then f a else a)
    go true s =
        let id : entry_id a ≡ e.outbox_id = (eq_iff (entry_id a) e.outbox_id).0 s in
        let (was, more) = h.claimed (subst (λ x. listed x all ≡ true) (sym id) own) in
        record {
          waits = λ _. (was, same_attempts a ∙ more);
          claimed = λ _. (was, same_attempts a ∙ more);
          in_flight = λ flying. absurd (lands a flying);
        }
    go false s = record {
      waits = h.waits;
      claimed = h.claimed;
      in_flight = λ flying.
          let at : (e.outbox_id == entry_id a || listed (entry_id a) left) ≡ true =
            h.in_flight flying in
          later s at;
    }
update-EachFollows all left e f same_id same_attempts lands own [] (a ∷ cs) h = elim h [ ]
update-EachFollows all left e f same_id same_attempts lands own (b ∷ bs) [] h = elim h [ ]

-- An update that changes none of this.
pub update-EachFollows_same :
    (all left : List OutboxEntry) (id : String) (f : OutboxEntry → OutboxEntry)
    → ((r : OutboxEntry) → entry_id (f r) ≡ entry_id r)
    → ((r : OutboxEntry) → (f r).attempts ≡ r.attempts)
    → ((r : OutboxEntry) → (f r).status ≡ r.status)
    → (bs cs : List OutboxEntry) → EachFollows all left bs cs
    → EachFollows all left bs (update entry_id id f cs)
unfolding update
update-EachFollows_same all left id f i n s [] [] h = tt
update-EachFollows_same all left id f i n s (b ∷ bs) (a ∷ cs) (h, hs) =
    (go (entry_id a == id), update-EachFollows_same all left id f i n s bs cs hs)
  where
    go : (t : Bool) → Follows all left b (if t then f a else a)
    go true = record {
      waits = λ e. let (was, more) = h.waits (sym (s a) ∙ e) in (was, n a ∙ more);
      claimed = λ e.
          let (was, more) = h.claimed (subst (λ x. listed x all ≡ true) (i a) e) in
          (was, n a ∙ more);
      in_flight = λ e. subst (λ x. listed x left ≡ true) (sym (i a)) (h.in_flight (sym (s a) ∙ e));
    }
    go false = h
update-EachFollows_same all left id f i n s [] (a ∷ cs) h = elim h [ ]
update-EachFollows_same all left id f i n s (b ∷ bs) [] h = elim h [ ]

-- After the claim, if no row was being delivered and the batch is large enough.
module _ (moment : ℕ) (chosen es : List OutboxEntry)
    (back : (id : String) → listed id es ≡ true → listed id chosen ≡ true) where
  claim_listed-EachFollows :
      (bs : List OutboxEntry)
      → OnlyPending chosen bs
      → All (λ b. b.status ≢ delivering) bs
      → All (λ b. is_pending b ≡ true → listed b.outbox_id chosen ≡ true) bs
      → All
          (λ a. listed a.outbox_id chosen ≡ true → listed a.outbox_id es ≡ true)
          (claim_listed moment chosen bs)
      → EachFollows es es bs (claim_listed moment chosen bs)
  unfolding claim_listed
  claim_listed-EachFollows [] only still every there = tt
  claim_listed-EachFollows (b ∷ bs) (o, only) (s, still) (v, every) (t, there) =
      (go (listed b.outbox_id chosen) refl t, claim_listed-EachFollows bs only still every there)
    where
      waits_pending : b.status ≡ pending → is_pending b ≡ true
      waits_pending e = ground arith

      go :
          (c : Bool)
          → listed b.outbox_id chosen ≡ c
          → (listed (entry_id (if c then claim_entry moment b else b)) chosen ≡ true
              → listed (entry_id (if c then claim_entry moment b else b)) es ≡ true)
          → Follows es es b (if c then claim_entry moment b else b)
      go true e there = record {
        waits = λ w. cc;
        claimed = λ _. (o e, omega arith);
        in_flight = λ _. there e;
      }
      go false e there = record {
        waits = λ w. let l = v (waits_pending w) in cc;
        claimed = λ l. let l' = back b.outbox_id l in cc;
        in_flight = λ flying. absurd (s flying);
      }

pub claim_rows-EachFollows :
    (batch moment : ℕ) (d : ChatTables)
    → Distinct entry_id d.outbox
    → All (λ r. r.status ≢ delivering) d.outbox
    → length (keep is_pending d.outbox) ≤ batch
    → let (es, d') = claim_rows batch moment d in EachFollows es es d.outbox d'.outbox
unfolding claim_rows
claim_rows-EachFollows batch moment d keyed still few =
    let chosen = next_pending batch d.outbox in
    let rows = claim_listed moment chosen d.outbox in
    let test : OutboxEntry → Bool = λ e. listed e.outbox_id chosen in
    claim_listed-EachFollows moment chosen (keep test rows)
      (λ id h.
        let (r, same, e) = listed-keep_test test id rows h in
        subst (λ x. listed x chosen ≡ true) same e)
      d.outbox (next_pending-OnlyPending batch d.outbox keyed) still
      (next_pending-listed batch d.outbox few) (keep-listed test rows)
