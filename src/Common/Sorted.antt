-- ===== src/Common/Sorted.antt =====
-- ORDER BY as a stable insertion sort, LIMIT, and what they leave of a predicate on the rows.
use Prim.Native.Nat.{ℕ, zero, suc}
use mathlib.Core.Path.{◌≡◌, refl}
use mathlib.Core.Bool.{Bool, true, false}
use mathlib.Core.List.{List, [], ◌∷◌, ◌++◌, Perm}
use mathlib.Core.List.Perm
use ponko.Common.Tests.{if◌then◌else◌}
use ponko.Common.Lists.{All, keep, take}

module _ {R : Type 0} (le : R → R → Bool) where
  unfoldable pub insert_by : R → List R → List R
  insert_by x [] = x ∷ []
  insert_by x (y ∷ ys) = let rest = insert_by x ys in if le x y then x ∷ y ∷ ys else y ∷ rest

  unfoldable pub order_by : List R → List R
  unfolding insert_by
  order_by [] = []
  order_by (x ∷ xs) = insert_by x (order_by xs)

  insert_by-Perm : (x : R) (ys : List R) → Perm (insert_by x ys) (x ∷ ys)
  unfolding insert_by
  insert_by-Perm x [] = Perm.rfl
  insert_by-Perm x (y ∷ ys) = go (le x y) (insert_by-Perm x ys)
    where
      go :
          (b : Bool)
          → Perm (insert_by x ys) (x ∷ ys)
          → Perm (if b then x ∷ y ∷ ys else y ∷ insert_by x ys) (x ∷ y ∷ ys)
      go true rest = Perm.rfl
      go false rest = Perm.trans (Perm.cons y rest) (Perm.swap x y ys)

  pub order_by-Perm : (xs : List R) → Perm (order_by xs) xs
  unfolding order_by
  order_by-Perm [] = Perm.rfl
  order_by-Perm (x ∷ xs) =
      Perm.trans (insert_by-Perm x (order_by xs)) (Perm.cons x (order_by-Perm xs))

module _ {R : Type 0} (P : R → Type 0) where
  insert_by-All :
      (le : R → R → Bool) (x : R) (ys : List R) → P x → All P ys → All P (insert_by le x ys)
  unfolding insert_by
  insert_by-All le x [] p a = (p, tt)
  insert_by-All le x (y ∷ ys) p (q, a) = go (le x y) (insert_by-All le x ys p a)
    where
      go :
          (b : Bool)
          → All P (insert_by le x ys)
          → All P (if b then x ∷ y ∷ ys else y ∷ insert_by le x ys)
      go true rest = (p, (q, a))
      go false rest = (q, rest)

  pub order_by-All : (le : R → R → Bool) (xs : List R) → All P xs → All P (order_by le xs)
  unfolding order_by
  order_by-All le [] a = tt
  order_by-All le (x ∷ xs) (p, a) = insert_by-All le x (order_by le xs) p (order_by-All le xs a)

  pub take-All : (n : ℕ) (xs : List R) → All P xs → All P (take n xs)
  take-All zero xs a = tt
  take-All (suc n) [] a = tt
  take-All (suc n) (x ∷ xs) (p, a) = (p, take-All n xs a)

  pub append-All : (xs ys : List R) → All P xs → All P ys → All P (xs ++ ys)
  append-All [] ys a b = b
  append-All (x ∷ xs) ys (p, a) b = (p, append-All xs ys a b)

module _ {R : Type 0} (P Q : R → Type 0) where
  pub All-weaken : ((r : R) → P r → Q r) → (rs : List R) → All P rs → All Q rs
  All-weaken f [] a = tt
  All-weaken f (r ∷ rs) (p, a) = (f r p, All-weaken f rs a)

  pub All-both : (rs : List R) → All P rs → All Q rs → All (λ r. P r × Q r) rs
  All-both [] a b = tt
  All-both (r ∷ rs) (p, a) (q, b) = ((p, q), All-both rs a b)

module _ {R : Type 0} (P Q : R → Type 0) (test : R → Bool) where
  pub keep-All :
      ((r : R) → test r ≡ true → P r → Q r) → (rs : List R) → All P rs → All Q (keep test rs)
  keep-All f [] a = tt
  keep-All f (r ∷ rs) (p, a) = go (test r) refl (keep-All f rs a)
    where
      go :
          (b : Bool)
          → test r ≡ b
          → All Q (keep test rs)
          → All Q (if b then r ∷ keep test rs else keep test rs)
      go true e rest = (f r e p, rest)
      go false e rest = rest

pub All-unit : {R : Type 0} (rs : List R) → All (λ r. Unit {0}) rs
All-unit [] = tt
All-unit (r ∷ rs) = (tt, All-unit rs)

module _ {R S : Type 0} (T : R → S → Type 0) where
  pub All-swap :
      (rs : List R) (ss : List S)
      → All (λ s. All (λ r. T r s) rs) ss
      → All (λ r. All (λ s. T r s) ss) rs
  All-swap rs [] a = All-unit rs
  All-swap rs (s ∷ ss) (h, a) = All-both _ _ rs h (All-swap rs ss a)
