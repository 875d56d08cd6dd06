-- ===== src/Effect/Healthy.antt =====
-- A database that takes every statement.
use ponko.Common.{ℕ, ◌≡◌, Option, none, some}
use ponko.Effect.{
  Err, ok, Outcome, done, fail, panic, World, Host, Exec, exec_db, statement_db, commit,
  run_statement, attempt, settle,
}
use ponko.Effect.Triple.{Triple, After}

abbrev pub IsHealthy : Host → Type 0
IsHealthy host = (n : ℕ) → host.db_fault n ≡ none

module _ {D C : Type 0} {P E : D → Type 0} (host : Host) (healthy : IsHealthy host) where
  pub Triple-exec_healthy :
      {Q : D → Type 0} (f : D → D)
      → ((d : D) → P d → Q (f d))
      → Triple {C = C} P (exec_db host f) (λ _. Q) E
  unfolding exec_db
  Triple-exec_healthy {Q} f h = record {
    at = λ w p. go (host.db_fault w.tick) (healthy w.tick) w p;
  }
    where
      go :
          (fault : Option Err)
          → fault ≡ none
          → (w : World D C) → P w.tables
          → After (λ _. Q) E (commit host fault (f w.tables) w)
      go none _ w p = h w.tables p
      go (some x) e w p = cc

  pub Triple-statement_healthy :
      {A : Type 0} {Q : A → D → Type 0} (g : D → A × D)
      → ((d : D) → P d → Q (g d).0 (g d).1)
      → Triple {C = C} P (statement_db host (λ d. ok (g d))) Q E
  unfolding statement_db
  Triple-statement_healthy {A} {Q} g h = record {
    at = λ w p. go (host.db_fault w.tick) (healthy w.tick) w p;
  }
    where
      go :
          (fault : Option Err)
          → fault ≡ none
          → (w : World D C) → P w.tables
          → After Q E (run_statement host fault (ok (g w.tables)) w)
      go none _ w p = h w.tables p
      go (some x) e w p = cc

module _ {D C A : Type 0} {P Q E : D → Type 0} where
  -- A call that does not fail, of which the caller would drop the error.
  pub Triple-attempt_safe :
      {m : Exec D C A} → Triple P m (λ _. Q) (λ _. ⊥) → Triple P (attempt m) (λ _. Q) E
  unfolding attempt
  Triple-attempt_safe {m} t = record { at = λ w p. go (m w) (t.at w p) }
    where
      go : (r : Outcome A × World D C) → After (λ _. Q) (λ _. ⊥) r → After (λ _. Q) E (settle r)
      go (done a, w) h = h
      go (fail x, w) h = elim h [ ]
      go (panic, w) h = elim h [ ]
