-- ===== src/Effect/Keeps.antt =====
-- Calls that keep a predicate of the tables, whatever their outcome: one rule for each way to build a
-- call, for `search`.
use ponko.Common.{ℕ, String, ◌≡◌, refl, Option, none, some, Bool, true, false, if◌then◌else◌}
use ponko.Effect.{
  Err, Result, ok, err, Outcome, done, fail, panic, World, Host, Exec, pure, raise, lift, deref,
  with_context, attempt, settle, ◌>>=◌, ask, tell, now, new_uuid, exec_db, query_db, statement_db,
  run_statement, commit, answer_db, continue, wrapped,
}

pub record Keeps {D C A : Type 0} (P : D → Type 0) (m : Exec D C A) : Type 0 where
  pub at : (w : World D C) → P w.tables → P (m w).1.tables

module _ {D C A : Type 0} {P : D → Type 0} where
  pub Keeps-pure : (a : A) → Keeps {C = C} P (pure a)
  Keeps-pure a = record { at = λ w h. h }

  pub Keeps-raise : (e : Err) → Keeps {C = C} P (raise {A = A} e)
  Keeps-raise e = record { at = λ w h. h }

  pub Keeps-lift : (r : Result A) → Keeps {C = C} P (lift r)
  Keeps-lift (ok a) = record { at = λ w h. h }
  Keeps-lift (err e) = record { at = λ w h. h }

  pub Keeps-deref : (o : Option A) → Keeps {C = C} P (deref o)
  Keeps-deref none = record { at = λ w h. h }
  Keeps-deref (some a) = record { at = λ w h. h }

  pub Keeps-with_context :
      {m : Exec D C A} (context : String) → Keeps P m → Keeps P (with_context context m)
  unfolding with_context
  Keeps-with_context {m} context k = record { at = λ w h. go (m w) (k.at w h) }
    where
      go : (r : Outcome A × World D C) → P r.1.tables → P (wrapped context r).1.tables
      go (done a, w) h = h
      go (fail e, w) h = h
      go (panic, w) h = h

  pub Keeps-attempt : {m : Exec D C A} → Keeps P m → Keeps P (attempt m)
  unfolding attempt
  Keeps-attempt {m} k = record { at = λ w h. go (m w) (k.at w h) }
    where
      go : (r : Outcome A × World D C) → P r.1.tables → P (settle r).1.tables
      go (done a, w) h = h
      go (fail e, w) h = h
      go (panic, w) h = h

  pub Keeps-ask : (call : C) (answer : ℕ → Result A) → Keeps P (ask {D = D} call answer)
  unfolding ask
  Keeps-ask call answer = record { at = λ w h. go (answer w.tick) _ h }
    where
      go : (r : Result A) (w : World D C) → P w.tables → P (lift r w).1.tables
      go (ok a) w h = h
      go (err e) w h = h

  pub Keeps-if :
      (b : Bool) {m n : Exec D C A} → Keeps P m → Keeps P n → Keeps P (if b then m else n)
  Keeps-if true km kn = km
  Keeps-if false km kn = kn

module _ {D C A B : Type 0} {P : D → Type 0} where
  pub Keeps-bind :
      {m : Exec D C A} {f : A → Exec D C B}
      → Keeps P m
      → ((a : A) → Keeps P (f a))
      → Keeps P (m >>= f)
  unfolding ◌>>=◌
  Keeps-bind {m} {f} k kf = record { at = λ w h. go (m w) (k.at w h) }
    where
      go : (r : Outcome A × World D C) → P r.1.tables → P (continue f r).1.tables
      go (done a, w) h = (kf a).at w h
      go (fail e, w) h = h
      go (panic, w) h = h

module _ {D C : Type 0} {P : D → Type 0} where
  pub Keeps-tell : (call : C) → Keeps P (tell {D = D} call)
  unfolding tell
  Keeps-tell call = record { at = λ w h. h }

  pub Keeps-now : (host : Host) → Keeps {C = C} P (now host)
  unfolding now
  Keeps-now host = record { at = λ w h. h }

  pub Keeps-new_uuid : (host : Host) → Keeps {C = C} P (new_uuid host)
  unfolding new_uuid
  Keeps-new_uuid host = record { at = λ w h. h }

  pub Keeps-query_db : {A : Type 0} (host : Host) (f : D → A) → Keeps {C = C} P (query_db host f)
  unfolding query_db
  Keeps-query_db {A} host f = record { at = λ w h. go (host.db_fault w.tick) w h }
    where
      go :
          (o : Option Err) (w : World D C)
          → P w.tables
          → P (answer_db host o (f w.tables) w).1.tables
      go none w h = h
      go (some e) w h = h

  pub Keeps-exec_db :
      (host : Host) (f : D → D) → ((d : D) → P d → P (f d)) → Keeps {C = C} P (exec_db host f)
  unfolding exec_db
  Keeps-exec_db host f k = record { at = λ w h. go (host.db_fault w.tick) w h }
    where
      go : (o : Option Err) (w : World D C) → P w.tables → P (commit host o (f w.tables) w).1.tables
      go none w h = k w.tables h
      go (some e) w h = h

  pub Keeps-statement_db :
      {A : Type 0} (host : Host) (f : D → Result (A × D))
      → ((d : D) (a : A) (d' : D) → P d → f d ≡ ok (a, d') → P d')
      → Keeps {C = C} P (statement_db host f)
  unfolding statement_db
  Keeps-statement_db {A} host f k = record {
    at = λ w h. go (host.db_fault w.tick) (f w.tables) w refl h;
  }
    where
      go :
          (o : Option Err) (r : Result (A × D)) (w : World D C)
          → f w.tables ≡ r
          → P w.tables
          → P (run_statement host o r w).1.tables
      go none (ok (a, d)) w e h = k w.tables a d h e
      go none (err e) w _ h = h
      go (some e) r w _ h = h

pub ruleset keeps_rules = (
  Keeps-pure, Keeps-raise, Keeps-lift, Keeps-deref, Keeps-with_context, Keeps-attempt, Keeps-ask,
  Keeps-if, Keeps-bind, Keeps-tell, Keeps-now, Keeps-new_uuid, Keeps-query_db,
)
