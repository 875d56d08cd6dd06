-- ===== src/Effect/Total.antt =====
-- Calls that do not panic, and calls that always give a value: one rule for each way to build a call.
use ponko.Common.{ℕ, ◌≡◌, refl, subst, Option, none, some, Bool, true, false, String, if◌then◌else◌}
use ponko.Effect.{
  Err, Result, ok, err, Outcome, done, fail, panic, World, Host, Exec, pure, raise, lift,
  with_context, wrapped, attempt, settle, continue, ◌>>=◌, ask, now, new_uuid, query_db, answer_db,
  statement_db, run_statement, exec_db, commit,
}
use ponko.Effect.Triple.{After, Triple}

pub record NoPanic {D C A : Type 0} (m : Exec D C A) : Type 0 where
  pub at : (w : World D C) → ¬ ((m w).0 ≡ panic)

pub record Completes {D C A : Type 0} (m : Exec D C A) : Type 0 where
  pub at : (w : World D C) → (a : A) × ((m w).0 ≡ done a)

module _ {D C A : Type 0} where
  pub NoPanic-pure : (a : A) → NoPanic (pure {D = D} {C = C} a)
  NoPanic-pure a = record { at = λ w e. cc }

  pub NoPanic-raise : (x : Err) → NoPanic (raise {D = D} {C = C} {A = A} x)
  NoPanic-raise x = record { at = λ w e. cc }

  pub NoPanic-lift : (r : Result A) → NoPanic (lift {D = D} {C = C} r)
  NoPanic-lift (ok a) = record { at = λ w e. cc }
  NoPanic-lift (err x) = record { at = λ w e. cc }

  pub NoPanic-ask : (call : C) (answer : ℕ → Result A) → NoPanic (ask {D = D} call answer)
  unfolding ask
  NoPanic-ask call answer = record { at = λ w e. (NoPanic-lift (answer w.tick)).at _ e }

  pub NoPanic-if :
      (b : Bool) {m n : Exec D C A} → NoPanic m → NoPanic n → NoPanic (if b then m else n)
  NoPanic-if true tm tn = tm
  NoPanic-if false tm tn = tn

  pub NoPanic-with_context :
      {m : Exec D C A} (context : String) → NoPanic m → NoPanic (with_context context m)
  unfolding with_context
  NoPanic-with_context {m} context t = record { at = λ w e. go (m w) (t.at w) e }
    where
      go : (r : Outcome A × World D C) → ¬ (r.0 ≡ panic) → ¬ ((wrapped context r).0 ≡ panic)
      go (done a, w) h e = cc
      go (fail x, w) h e = cc
      go (panic, w) h e = h refl

  pub Completes-pure : (a : A) → Completes (pure {D = D} {C = C} a)
  Completes-pure a = record { at = λ w. (a, refl) }

  pub Completes-attempt : {m : Exec D C A} → NoPanic m → Completes (attempt m)
  unfolding attempt
  Completes-attempt {m} t = record { at = λ w. go (m w) (t.at w) }
    where
      go : (r : Outcome A × World D C) → ¬ (r.0 ≡ panic) → (a : Result A) × ((settle r).0 ≡ done a)
      go (done a, w) h = (ok a, refl)
      go (fail x, w) h = (err x, refl)
      go (panic, w) h = absurd (h refl)

  pub Completes-if :
      (b : Bool) {m n : Exec D C A} → Completes m → Completes n → Completes (if b then m else n)
  Completes-if true cm cn = cm
  Completes-if false cm cn = cn

  -- What is said of the failures of a call that has none is free.
  pub Triple-Completes :
      {P E E' : D → Type 0} {Q : A → D → Type 0} {m : Exec D C A}
      → Completes m
      → Triple P m Q E
      → Triple P m Q E'
  Triple-Completes {E} {E'} {Q} {m} c t = record {
    at = λ w p. let (a, d) = c.at w in go (m w) a d (t.at w p);
  }
    where
      go : (r : Outcome A × World D C) (a : A) → r.0 ≡ done a → After Q E r → After Q E' r
      go (done b, w) a d h = h
      go (fail x, w) a d h = cc
      go (panic, w) a d h = cc

  pub NoPanic-of_Completes : {m : Exec D C A} → Completes m → NoPanic m
  NoPanic-of_Completes c = record { at = λ w e. let (a, d) = c.at w in cc }

  -- What a triple says when the value is known.
  pub After-done :
      (Q : A → D → Type 0) (E : D → Type 0) (r : Outcome A × World D C) (a : A)
      → After Q E r
      → r.0 ≡ done a
      → Q a r.1.tables
  After-done Q E (done b, w) a h e = let same : b ≡ a = cc in subst (λ x. Q x w.tables) same h
  After-done Q E (fail x, w) a h e = cc
  After-done Q E (panic, w) a h e = cc

module _ {D C A B : Type 0} where
  pub NoPanic-bind :
      {m : Exec D C A} {f : A → Exec D C B}
      → NoPanic m
      → ((a : A) → NoPanic (f a))
      → NoPanic (m >>= f)
  unfolding ◌>>=◌
  NoPanic-bind {m} {f} t k = record { at = λ w e. go (m w) (t.at w) e }
    where
      go : (r : Outcome A × World D C) → ¬ (r.0 ≡ panic) → ¬ ((continue f r).0 ≡ panic)
      go (done a, w) h e = (k a).at w e
      go (fail x, w) h e = cc
      go (panic, w) h e = h refl

  pub Completes-bind :
      {m : Exec D C A} {f : A → Exec D C B}
      → Completes m
      → ((a : A) → Completes (f a))
      → Completes (m >>= f)
  unfolding ◌>>=◌
  Completes-bind {m} {f} t k = record { at = λ w. go (m w) (t.at w) }
    where
      go :
          (r : Outcome A × World D C)
          → ((a : A) × (r.0 ≡ done a))
          → (b : B) × ((continue f r).0 ≡ done b)
      go (done a, w) h = (k a).at w
      go (fail x, w) (a, e) = cc
      go (panic, w) (a, e) = cc

module _ {D C : Type 0} (host : Host) where
  pub NoPanic-now : NoPanic (now {D = D} {C = C} host)
  unfolding now
  NoPanic-now = record { at = λ w e. cc }

  pub NoPanic-new_uuid : NoPanic (new_uuid {D = D} {C = C} host)
  unfolding new_uuid
  NoPanic-new_uuid = record { at = λ w e. cc }

  pub NoPanic-exec_db : (f : D → D) → NoPanic (exec_db {C = C} host f)
  unfolding exec_db
  NoPanic-exec_db f = record { at = λ w e. go (host.db_fault w.tick) w e }
    where
      go : (o : Option Err) (w : World D C) → ¬ ((commit host o (f w.tables) w).0 ≡ panic)
      go none w e = cc
      go (some x) w e = cc

  pub NoPanic-query_db : {A : Type 0} (f : D → A) → NoPanic (query_db {C = C} host f)
  unfolding query_db
  NoPanic-query_db {A} f = record { at = λ w e. go (host.db_fault w.tick) w e }
    where
      go : (o : Option Err) (w : World D C) → ¬ ((answer_db host o (f w.tables) w).0 ≡ panic)
      go none w e = cc
      go (some x) w e = cc

  pub NoPanic-statement_db :
      {A : Type 0} (f : D → Result (A × D)) → NoPanic (statement_db {C = C} host f)
  unfolding statement_db
  NoPanic-statement_db {A} f = record { at = λ w e. go (host.db_fault w.tick) (f w.tables) w e }
    where
      go :
          (o : Option Err) (r : Result (A × D)) (w : World D C)
          → ¬ ((run_statement host o r w).0 ≡ panic)
      go none (ok (a, d)) w e = cc
      go none (err x) w e = cc
      go (some x) r w e = cc
