-- ===== src/Outbox/Claim.antt =====
-- Which rows a claim takes.
use ponko.Common.{
  ℕ, String, ◌≡◌, refl, sym, subst, ◌≢◌, List, [], ◌∷◌, Bool, true, false, ◌||◌, ◌==◌, eq_iff,
  arith, All, All-weaken, All-both, All-swap, keep-All, take-All, order_by-All, if◌then◌else◌,
  Distinct, Distinct-same,
}
use ponko.Chat.{pending, OutboxEntry}
use ponko.Outbox.{
  entry_id, is_pending, created_before, next_pending, listed, claim_entry, claim_listed,
}

-- What is known of a claimed row's copy: it is the only row with its id, and it is pending.
abbrev Taken : List OutboxEntry → OutboxEntry → Type 0
Taken rows c = All (λ r. entry_id r ≡ entry_id c → r ≡ c) rows × (is_pending c ≡ true)

next_pending-Taken :
    (batch : ℕ) (rows : List OutboxEntry)
    → Distinct entry_id rows
    → All (Taken rows) (next_pending batch rows)
unfolding next_pending
next_pending-Taken batch rows d = take-All _ batch _ (
    order_by-All _ created_before _
      (keep-All _ (Taken rows) is_pending (λ c e h. (h, e)) rows (Distinct-same entry_id rows d)))

listed-find :
    (P : OutboxEntry → Type 0) (id : String) (chosen : List OutboxEntry)
    → All P chosen
    → listed id chosen ≡ true
    → (c : OutboxEntry) × (entry_id c ≡ id) × P c
unfolding listed
listed-find P id [] a e = cc
listed-find P id (c ∷ cs) (p, a) e = go (entry_id c == id) refl e (listed-find P id cs a)
  where
    go :
        (b : Bool)
        → (entry_id c == id) ≡ b
        → (b || listed id cs) ≡ true
        → (listed id cs ≡ true → (x : OutboxEntry) × (entry_id x ≡ id) × P x)
        → (x : OutboxEntry) × (entry_id x ≡ id) × P x
    go true s e rest = (c, (eq_iff (entry_id c) id).0 s, p)
    go false s e rest = rest e

-- A row is listed among the claimed ones only if it is pending.
abbrev pub OnlyPending : List OutboxEntry → List OutboxEntry → Type 0
OnlyPending chosen rows = All (λ r. listed r.outbox_id chosen ≡ true → r.status ≡ pending) rows

is_pending-status : (r : OutboxEntry) → is_pending r ≡ true → r.status ≡ pending
is_pending-status r e = ground arith

pub next_pending-OnlyPending :
    (batch : ℕ) (rows : List OutboxEntry)
    → Distinct entry_id rows
    → OnlyPending (next_pending batch rows) rows
next_pending-OnlyPending batch rows d = each rows (
    All-swap (λ r c. entry_id r ≡ entry_id c → r ≡ c) rows chosen
      (All-weaken _ _ (λ c h. h.0) chosen (next_pending-Taken batch rows d)))
  where
    chosen : List OutboxEntry
    chosen = next_pending batch rows

    go :
        (r : OutboxEntry)
        → All (λ c. entry_id r ≡ entry_id c → r ≡ c) chosen
        → listed r.outbox_id chosen ≡ true
        → r.status ≡ pending
    go r same e =
        let (c, id, (unique, p)) =
          listed-find (λ c. (entry_id r ≡ entry_id c → r ≡ c) × (is_pending c ≡ true)) r.outbox_id
            chosen
            (All-both _ _ chosen same
              (All-weaken _ _ (λ c h. h.1) chosen (next_pending-Taken batch rows d)))
            e in
        is_pending-status r (subst (λ x. is_pending x ≡ true) (sym (unique (sym id))) p)

    each :
        (rs : List OutboxEntry)
        → All (λ r. All (λ c. entry_id r ≡ entry_id c → r ≡ c) chosen) rs
        → OnlyPending chosen rs
    each [] a = tt
    each (r ∷ rs) (h, a) = (go r h, each rs a)

-- A claim of rows with distinct ids, at most five attempts, and fewer if they wait.
module _ (moment : ℕ) (chosen : List OutboxEntry) where
  pub claim_listed-All :
      (P Q : OutboxEntry → Type 0)
      → ((r : OutboxEntry) → P r → Q r)
      → ((r : OutboxEntry) → P r → r.status ≡ pending → Q (claim_entry moment r))
      → (rows : List OutboxEntry) → OnlyPending chosen rows
      → All P rows
      → All Q (claim_listed moment chosen rows)
  unfolding claim_listed
  claim_listed-All P Q other self [] only a = tt
  claim_listed-All P Q other self (r ∷ rs) (waits, only) (p, a) =
      (go (listed r.outbox_id chosen) refl, claim_listed-All P Q other self rs only a)
    where
      go : (b : Bool) → listed r.outbox_id chosen ≡ b → Q (if b then claim_entry moment r else r)
      go true e = self r p (waits e)
      go false e = other r p

  pub claim_listed-Distinct :
      (rows : List OutboxEntry)
      → OnlyPending chosen rows
      → Distinct entry_id rows
      → Distinct entry_id (claim_listed moment chosen rows)
  unfolding claim_listed
  claim_listed-Distinct [] only d = tt
  claim_listed-Distinct (r ∷ rs) (waits, only) (a, d) = (
    go (listed r.outbox_id chosen) (
        claim_listed-All (λ x. entry_id x ≢ entry_id r) (λ x. entry_id x ≢ entry_id r) (λ x n. n)
          (λ x n _. n) rs only a),
    claim_listed-Distinct rs only d,
  )
    where
      go :
          (b : Bool)
          → All (λ x. entry_id x ≢ entry_id r) (claim_listed moment chosen rs)
          → All
              (λ x. entry_id x ≢ entry_id (if b then claim_entry moment r else r))
              (claim_listed moment chosen rs)
      go true h = h
      go false h = h
