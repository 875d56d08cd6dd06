-- ===== src/Common/Table.antt =====
-- A database table as the list of its rows, with the SQL statements that the stores use:
-- SELECT … WHERE key = ? (the first match) and UPDATE … WHERE key = ? (every match).
use Prim.Native.String.{String}
use mathlib.Core.Path.{◌≡◌, refl}
use mathlib.Core.Logic.{◌≢◌}
use mathlib.Core.List.{List, [], ◌∷◌, ◌++◌}
use mathlib.Core.Option.{Option, none, some}
use native.Mathlib.Omega.{arith}
use text.Mathlib.Text.{◌==◌}
use text.Mathlib.TextEquality.{eq_iff}
use ponko.Common.Tests.{if◌then◌else◌}

module _ {R : Type 0} (key : R → String) where
  unfoldable pub select : String → List R → Option R
  select k [] = none
  select k (r ∷ rs) = if key r == k then some r else select k rs

  unfoldable pub update : String → (R → R) → List R → List R
  update k f [] = []
  update k f (r ∷ rs) = (if key r == k then f r else r) ∷ update k f rs

  -- An update keeps the key of the row it writes.
  abbrev pub KeepsKey : (R → R) → Type 0
  KeepsKey f = (r : R) → key (f r) ≡ key r

  pub select-key : (k : String) (rs : List R) (r : R) → select k rs ≡ some r → key r ≡ k
  unfolding select
  select-key k [] r h = cc
  select-key k (x ∷ rs) r h = ground (arith, eq_iff (key x) k, select-key k rs r)

  pub select-update_self :
      (k : String) (f : R → R) (rs : List R)
      → KeepsKey f
      → (r : R) → select k rs ≡ some r
      → select k (update k f rs) ≡ some (f r)
  unfolding select update
  select-update_self k f [] keeps r h = cc
  select-update_self k f (x ∷ rs) keeps r h =
      ground
        (arith, keeps x, eq_iff (key x) k, eq_iff (key (f x)) k, select-update_self k f rs keeps r)

  pub select-update_ne :
      (k j : String) (f : R → R) (rs : List R)
      → KeepsKey f
      → j ≢ k
      → select j (update k f rs) ≡ select j rs
  unfolding select update
  select-update_ne k j f [] keeps ne = refl
  select-update_ne k j f (x ∷ rs) keeps ne = ground (
    arith,
    keeps x,
    eq_iff (key x) k,
    eq_iff (key x) j,
    eq_iff (key (f x)) j,
    select-update_ne k j f rs keeps ne,
  )

  pub select-update-none :
      (k : String) (f : R → R) (rs : List R)
      → KeepsKey f
      → select k rs ≡ none
      → select k (update k f rs) ≡ none
  unfolding select update
  select-update-none k f [] keeps h = refl
  select-update-none k f (x ∷ rs) keeps h =
      ground
        (arith, keeps x, eq_iff (key x) k, eq_iff (key (f x)) k, select-update-none k f rs keeps)

  pub select-append_new :
      (k : String) (rs : List R) (r : R)
      → select k rs ≡ none
      → key r ≡ k
      → select k (rs ++ r ∷ []) ≡ some r
  unfolding select
  select-append_new k [] r h e = ground (arith, eq_iff (key r) k)
  select-append_new k (x ∷ rs) r h e = ground (arith, eq_iff (key x) k, select-append_new k rs r)

  pub select-append_ne :
      (j : String) (rs : List R) (r : R) → j ≢ key r → select j (rs ++ r ∷ []) ≡ select j rs
  unfolding select
  select-append_ne j [] r ne = ground (arith, eq_iff (key r) j)
  select-append_ne j (x ∷ rs) r ne = ground (arith, eq_iff (key x) j, select-append_ne j rs r ne)

  pub select-one : (k : String) (r q : R) → select k (r ∷ []) ≡ some q → r ≡ q
  unfolding select
  select-one k r q h = ground arith

  -- A row written in the place of one with the same key.
  pub select-update_put :
      (v : R) (rs : List R) (old : R)
      → select (key v) rs ≡ some old
      → select (key v) (update (key v) (λ o. v) rs) ≡ some v
  unfolding select update
  select-update_put v [] old h = cc
  select-update_put v (r ∷ rs) old h =
      ground (arith, eq_iff (key r) (key v), eq_iff (key v) (key v), select-update_put v rs old)

  pub select-update_put_ne :
      (v : R) (k : String) (rs : List R)
      → k ≢ key v
      → select k (update (key v) (λ o. v) rs) ≡ select k rs
  unfolding select update
  select-update_put_ne v k [] ne = refl
  select-update_put_ne v k (r ∷ rs) ne = ground (
    arith,
    eq_iff (key r) (key v),
    eq_iff (key r) k,
    eq_iff (key v) k,
    select-update_put_ne v k rs ne,
  )
