-- ===== src/Outbox/Listed.antt =====
-- How a list of rows tells which rows it has.
use ponko.Common.{
  ℕ, zero, suc, ◌≤◌, String, ◌≡◌, refl, sym, ◌∙◌, ap, subst, List, [], ◌∷◌, Bool, true, false, ◌||◌,
  ◌==◌, eq_iff, eq_refl, arith, All, All-weaken, length, keep, take, order_by, insert_by,
  if◌then◌else◌,
}
use ponko.Chat.{OutboxEntry}
use ponko.Outbox.{entry_id, is_pending, created_before, next_pending, listed}

pub listed-keep_test :
    (p : OutboxEntry → Bool) (id : String) (rows : List OutboxEntry)
    → listed id (keep p rows) ≡ true
    → (r : OutboxEntry) × (entry_id r ≡ id) × (p r ≡ true)
unfolding listed
listed-keep_test p id [] h = cc
listed-keep_test p id (r ∷ rs) h = go (p r) refl (listed-keep_test p id rs) h
  where
    here :
        (t : Bool)
        → (entry_id r == id) ≡ t
        → p r ≡ true
        → (listed id (keep p rs) ≡ true → (x : OutboxEntry) × (entry_id x ≡ id) × (p x ≡ true))
        → (t || listed id (keep p rs)) ≡ true
        → (x : OutboxEntry) × (entry_id x ≡ id) × (p x ≡ true)
    here true s e rest h = (r, (eq_iff (entry_id r) id).0 s, e)
    here false s e rest h = rest h

    go :
        (b : Bool)
        → p r ≡ b
        → (listed id (keep p rs) ≡ true → (x : OutboxEntry) × (entry_id x ≡ id) × (p x ≡ true))
        → listed id (if b then r ∷ keep p rs else keep p rs) ≡ true
        → (x : OutboxEntry) × (entry_id x ≡ id) × (p x ≡ true)
    go true e rest h = here (entry_id r == id) refl e rest h
    go false e rest h = rest h

keep-listed_weaken :
    (p : OutboxEntry → Bool) (r : OutboxEntry) (rs : List OutboxEntry) (id : String)
    → listed id (keep p rs) ≡ true
    → listed id (keep p (r ∷ rs)) ≡ true
unfolding listed
keep-listed_weaken p r rs id h = go (p r)
  where
    more : (t : Bool) → (t || listed id (keep p rs)) ≡ true
    more true = refl
    more false = h

    go : (b : Bool) → listed id (if b then r ∷ keep p rs else keep p rs) ≡ true
    go true = more (entry_id r == id)
    go false = h

-- A row that passes the test is among those that the test keeps.
pub keep-listed :
    (p : OutboxEntry → Bool) (rows : List OutboxEntry)
    → All (λ r. p r ≡ true → listed r.outbox_id (keep p rows) ≡ true) rows
unfolding listed
keep-listed p [] = tt
keep-listed p (r ∷ rs) = (
  go (p r),
  All-weaken _ _ (λ x h e. keep-listed_weaken p r rs x.outbox_id (h e)) rs (keep-listed p rs),
)
  where
    go : (b : Bool) → b ≡ true → listed r.outbox_id (if b then r ∷ keep p rs else keep p rs) ≡ true
    go true e = ap (λ t. t || listed r.outbox_id (keep p rs)) (eq_refl r.outbox_id)
    go false e = cc

module _ (le : OutboxEntry → OutboxEntry → Bool) (id : String) where
  listed-insert_by :
      (x : OutboxEntry) (ys : List OutboxEntry) → listed id (insert_by le x ys) ≡ listed id (x ∷ ys)
  unfolding listed insert_by
  listed-insert_by x [] = refl
  listed-insert_by x (y ∷ ys) = go (le x y) (listed-insert_by x ys)
    where
      swap : (a b c : Bool) → (a || (b || c)) ≡ (b || (a || c))
      swap true true c = refl
      swap true false c = refl
      swap false b c = refl

      go :
          (t : Bool)
          → listed id (insert_by le x ys) ≡ listed id (x ∷ ys)
          → listed id (if t then x ∷ y ∷ ys else y ∷ insert_by le x ys) ≡ listed id (x ∷ y ∷ ys)
      go true h = refl
      go false h =
          ap (λ t. (entry_id y == id) || t) h
          ∙ swap (entry_id y == id) (entry_id x == id) (listed id ys)

  pub listed-order_by : (xs : List OutboxEntry) → listed id (order_by le xs) ≡ listed id xs
  unfolding listed order_by
  listed-order_by [] = refl
  listed-order_by (x ∷ xs) =
      listed-insert_by x (order_by le xs) ∙ ap (λ t. (entry_id x == id) || t) (listed-order_by xs)

length-insert_by :
    (le : OutboxEntry → OutboxEntry → Bool) (x : OutboxEntry) (ys : List OutboxEntry)
    → length (insert_by le x ys) ≡ suc (length ys)
unfolding insert_by
length-insert_by le x [] = refl
length-insert_by le x (y ∷ ys) = ground (arith, length-insert_by le x ys)

length-order_by :
    (le : OutboxEntry → OutboxEntry → Bool) (xs : List OutboxEntry)
    → length (order_by le xs) ≡ length xs
unfolding order_by
length-order_by le [] = refl
length-order_by le (x ∷ xs) =
    length-insert_by le x (order_by le xs) ∙ ap suc (length-order_by le xs)

take-all : (n : ℕ) (xs : List OutboxEntry) → length xs ≤ n → take n xs ≡ xs
take-all zero [] h = refl
take-all zero (x ∷ xs) h = absurd (omega arith)
take-all (suc n) [] h = refl
take-all (suc n) (x ∷ xs) h = ap (λ t. x ∷ t) (take-all n xs (omega arith))

-- A batch that is large enough takes every row that waits.
pub next_pending-listed :
    (batch : ℕ) (rows : List OutboxEntry)
    → length (keep is_pending rows) ≤ batch
    → All (λ r. is_pending r ≡ true → listed r.outbox_id (next_pending batch rows) ≡ true) rows
unfolding next_pending
next_pending-listed batch rows few =
    let waiting = keep is_pending rows in
    let fits : length (order_by created_before waiting) ≤ batch =
      omega (arith, length-order_by created_before waiting) in
    All-weaken _ _
      (λ r h e.
        subst (λ xs. listed r.outbox_id xs ≡ true) (sym (take-all batch _ fits))
          (listed-order_by created_before r.outbox_id waiting ∙ h e))
      rows (keep-listed is_pending rows)
