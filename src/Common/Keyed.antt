-- ===== src/Common/Keyed.antt =====
-- A table's key: no two rows have the same, and what the statements leave of that.
use Prim.Native.String.{String}
use mathlib.Core.Path.{◌≡◌, refl, sym, ◌∙◌}
use mathlib.Core.Logic.{◌≢◌}
use mathlib.Core.Bool.{Bool, true, false}
use mathlib.Core.List.{List, [], ◌∷◌, ◌++◌}
use mathlib.Core.Option.{none, some}
use text.Mathlib.Text.{◌==◌}
use text.Mathlib.TextEquality.{eq_iff}
use ponko.Common.Tests.{if◌then◌else◌}
use ponko.Common.Lists.{All}
use ponko.Common.Table.{select, update, KeepsKey}
use ponko.Common.Sorted.{All-weaken, append-All}

module _ {R : Type 0} (key : R → String) where
  abbrev pub Distinct : List R → Type 0
  Distinct [] = Unit
  Distinct (r ∷ rs) = All (λ x. key x ≢ key r) rs × Distinct rs

  pub update-All :
      (P Q : R → Type 0) (k : String) (f : R → R)
      → ((r : R) → P r → Q r)
      → ((r : R) → key r ≡ k → P r → Q (f r))
      → (rs : List R) → All P rs
      → All Q (update key k f rs)
  unfolding update
  update-All P Q k f other self [] a = tt
  update-All P Q k f other self (r ∷ rs) (p, a) =
      (go (key r == k) refl, update-All P Q k f other self rs a)
    where
      go : (b : Bool) → (key r == k) ≡ b → Q (if b then f r else r)
      go true e = self r ((eq_iff (key r) k).0 e) p
      go false e = other r p

  pub update-Distinct :
      (k : String) (f : R → R)
      → KeepsKey key f
      → (rs : List R) → Distinct rs
      → Distinct (update key k f rs)
  unfolding update
  update-Distinct k f keeps [] d = tt
  update-Distinct k f keeps (r ∷ rs) (a, d) = (
    go (key r == k) (
        update-All (λ x. key x ≢ key r) (λ x. key x ≢ key r) k f (λ x n. n)
          (λ x _ n e. n (sym (keeps x) ∙ e)) rs a),
    update-Distinct k f keeps rs d,
  )
    where
      go :
          (b : Bool)
          → All (λ x. key x ≢ key r) (update key k f rs)
          → All (λ x. key x ≢ key (if b then f r else r)) (update key k f rs)
      go true h = All-weaken _ _ (λ x n e. n (e ∙ keeps r)) (update key k f rs) h
      go false h = h

  -- What an update makes of every row with the key.
  pub update-All_key :
      (Q : R → Type 0) (k : String) (f : R → R)
      → ((r : R) → Q (f r))
      → (rs : List R) → All (λ r. key r ≡ k → Q r) (update key k f rs)
  unfolding update
  update-All_key Q k f made [] = tt
  update-All_key Q k f made (r ∷ rs) = (go (key r == k) refl, update-All_key Q k f made rs)
    where
      go : (b : Bool) → (key r == k) ≡ b → key (if b then f r else r) ≡ k → Q (if b then f r else r)
      go true e same = made r
      go false e same = cc ((eq_iff (key r) k).1 same)

  -- Rows with the same key are the same row.
  pub Distinct-same :
      (rs : List R) → Distinct rs → All (λ c. All (λ r. key r ≡ key c → r ≡ c) rs) rs
  Distinct-same [] d = tt
  Distinct-same (r ∷ rs) (a, d) =
      (((λ _. refl), All-weaken _ _ (λ x n e. absurd (n e)) rs a), both rs a (Distinct-same rs d))
    where
      both :
          (cs : List R)
          → All (λ x. key x ≢ key r) cs
          → All (λ c. All (λ x. key x ≡ key c → x ≡ c) rs) cs
          → All (λ c. (key r ≡ key c → r ≡ c) × All (λ x. key x ≡ key c → x ≡ c) rs) cs
      both [] a b = tt
      both (c ∷ cs) (n, a) (h, b) = (((λ e. absurd (n (sym e))), h), both cs a b)

  pub select-none-All :
      (k : String) (rs : List R) → select key k rs ≡ none → All (λ r. key r ≢ k) rs
  unfolding select
  select-none-All k [] e = tt
  select-none-All k (r ∷ rs) e = go (key r == k) refl e (select-none-All k rs)
    where
      go :
          (b : Bool)
          → (key r == k) ≡ b
          → (if b then some r else select key k rs) ≡ none
          → (select key k rs ≡ none → All (λ x. key x ≢ k) rs)
          → All (λ x. key x ≢ k) (r ∷ rs)
      go true s e rest = cc
      go false s e rest = ((λ same. cc ((eq_iff (key r) k).1 same)), rest e)

  pub append_new-Distinct :
      (rs : List R) (r : R) → Distinct rs → All (λ x. key x ≢ key r) rs → Distinct (rs ++ r ∷ [])
  append_new-Distinct [] r d a = (tt, tt)
  append_new-Distinct (x ∷ xs) r (h, d) (n, a) =
      (append-All _ xs (r ∷ []) h ((λ e. n (sym e)), tt), append_new-Distinct xs r d a)
