-- ===== src/Effect/Triple.antt =====
-- Triples over the tables: from tables in `P`, a call that returns `a` leaves them in `Q a`, and one
-- that fails or panics leaves them in `E`.
use ponko.Common.{ℕ, String, ◌≡◌, refl, Option, none, some, Bool, true, false, if◌then◌else◌}
use ponko.Effect.{
  Err, Result, ok, err, Outcome, done, fail, panic, World, Host, Exec, pure, raise, lift, deref,
  with_context, attempt, settle, ◌>>=◌, ask, tell, now, new_uuid, exec_db, query_db, statement_db,
  run_statement, commit, answer_db, continue, wrapped,
}

module _ {D C A : Type 0} where
  abbrev pub After : (A → D → Type 0) → (D → Type 0) → Outcome A × World D C → Type 0
  After Q E (done a, w) = Q a w.tables
  After Q E (fail e, w) = E w.tables
  After Q E (panic, w) = E w.tables

  pub record Triple (P : D → Type 0) (m : Exec D C A) (Q : A → D → Type 0) (E : D → Type 0)
      : Type 0 where
    pub at : (w : World D C) → P w.tables → After Q E (m w)

module _ {D C A : Type 0} {P : D → Type 0} where
  -- Weakening: a stronger precondition, weaker postconditions.
  pub Triple-weaken :
      {P' : D → Type 0} {Q Q' : A → D → Type 0} {E E' : D → Type 0} {m : Exec D C A}
      → ((d : D) → P d → P' d)
      → ((a : A) (d : D) → Q' a d → Q a d)
      → ((d : D) → E' d → E d)
      → Triple P' m Q' E'
      → Triple P m Q E
  Triple-weaken {P'} {Q} {Q'} {E} {E'} {m} pre post fails t = record {
    at = λ w h. go (m w) (t.at w (pre w.tables h));
  }
    where
      go : (r : Outcome A × World D C) → After Q' E' r → After Q E r
      go (done a, w) h = post a w.tables h
      go (fail e, w) h = fails w.tables h
      go (panic, w) h = fails w.tables h

  pub Triple-pure :
      {Q : A → D → Type 0} {E : D → Type 0} (a : A)
      → ((d : D) → P d → Q a d)
      → Triple {C = C} P (pure a) Q E
  Triple-pure a h = record { at = λ w p. h w.tables p }

  pub Triple-raise :
      {Q : A → D → Type 0} {E : D → Type 0} (e : Err)
      → ((d : D) → P d → E d)
      → Triple {C = C} P (raise e) Q E
  Triple-raise e h = record { at = λ w p. h w.tables p }

  -- What the result of a dependency says is in `r ≡ ok a`.
  pub Triple-lift : (r : Result A) → Triple {C = C} P (lift r) (λ a d. P d × (r ≡ ok a)) P
  Triple-lift (ok a) = record { at = λ w p. (p, refl) }
  Triple-lift (err e) = record { at = λ w p. p }

  pub Triple-deref : (o : Option A) → Triple {C = C} P (deref o) (λ a d. P d × (o ≡ some a)) P
  Triple-deref none = record { at = λ w p. p }
  Triple-deref (some a) = record { at = λ w p. (p, refl) }

  pub Triple-with_context :
      {Q : A → D → Type 0} {E : D → Type 0} {m : Exec D C A} (context : String)
      → Triple P m Q E
      → Triple P (with_context context m) Q E
  unfolding with_context
  Triple-with_context {Q} {E} {m} context t = record { at = λ w p. go (m w) (t.at w p) }
    where
      go : (r : Outcome A × World D C) → After Q E r → After Q E (wrapped context r)
      go (done a, w) h = h
      go (fail e, w) h = h
      go (panic, w) h = h

  -- A dropped error: the caller goes on from either state.
  pub Triple-attempt :
      {E : D → Type 0} {m : Exec D C A} → Triple P m (λ _. E) E → Triple P (attempt m) (λ _. E) E
  unfolding attempt
  Triple-attempt {E} {m} t = record { at = λ w p. go (m w) (t.at w p) }
    where
      go : (r : Outcome A × World D C) → After (λ _. E) E r → After (λ _. E) E (settle r)
      go (done a, w) h = h
      go (fail e, w) h = h
      go (panic, w) h = h

  pub Triple-ask :
      (call : C) (answer : ℕ → Result A) → Triple P (ask {D = D} call answer) (λ _. P) P
  unfolding ask
  Triple-ask call answer = record { at = λ w p. go (answer w.tick) _ p }
    where
      go : (r : Result A) (w : World D C) → P w.tables → After (λ _. P) P (lift r w)
      go (ok a) w p = p
      go (err e) w p = p

module _ {D A : Type 0} where
  abbrev pub Settled : (A → D → Type 0) → (D → Type 0) → Result A → D → Type 0
  Settled Q E (ok a) = Q a
  Settled Q E (err e) = E

module _ {D C A : Type 0} {P : D → Type 0} where
  -- The caller sees from the result in which state it goes on.
  pub Triple-attempt_result :
      {Q : A → D → Type 0} {E : D → Type 0} {m : Exec D C A}
      → Triple P m Q E
      → Triple P (attempt m) (Settled Q E) E
  unfolding attempt
  Triple-attempt_result {Q} {E} {m} t = record { at = λ w p. go (m w) (t.at w p) }
    where
      go : (r : Outcome A × World D C) → After Q E r → After (Settled Q E) E (settle r)
      go (done a, w) h = h
      go (fail e, w) h = h
      go (panic, w) h = h

  -- A question whose error is dropped does not fail.
  pub Triple-attempt_ask :
      {E : D → Type 0} (call : C) (answer : ℕ → Result A)
      → Triple P (attempt (ask {D = D} call answer)) (λ _. P) E
  unfolding attempt ask
  Triple-attempt_ask {E} call answer = record { at = λ w p. go (answer w.tick) _ p }
    where
      go : (r : Result A) (w : World D C) → P w.tables → After (λ _. P) E (settle (lift r w))
      go (ok a) w p = p
      go (err e) w p = p

module _ {D C A B : Type 0} where
  pub Triple-bind :
      {P : D → Type 0} {Q : A → D → Type 0} {R : B → D → Type 0} {E : D → Type 0} {m : Exec D C A}
      {f : A → Exec D C B}
      → Triple P m Q E
      → ((a : A) → Triple (Q a) (f a) R E)
      → Triple P (m >>= f) R E
  unfolding ◌>>=◌
  Triple-bind {P} {Q} {R} {E} {m} {f} t k = record { at = λ w p. go (m w) (t.at w p) }
    where
      go : (r : Outcome A × World D C) → After Q E r → After R E (continue f r)
      go (done a, w) h = (k a).at w h
      go (fail e, w) h = h
      go (panic, w) h = h

module _ {D C : Type 0} {P : D → Type 0} where
  pub Triple-tell : {E : D → Type 0} (call : C) → Triple P (tell {D = D} call) (λ _. P) E
  unfolding tell
  Triple-tell call = record { at = λ w p. p }

  pub Triple-now : {E : D → Type 0} (host : Host) → Triple {C = C} P (now host) (λ _. P) E
  unfolding now
  Triple-now host = record { at = λ w p. p }

  pub Triple-new_uuid : {E : D → Type 0} (host : Host) → Triple {C = C} P (new_uuid host) (λ _. P) E
  unfolding new_uuid
  Triple-new_uuid host = record { at = λ w p. p }

  -- A statement either writes, or fails and writes nothing.
  pub Triple-exec_db :
      {Q : D → Type 0} (host : Host) (f : D → D)
      → ((d : D) → P d → Q (f d))
      → Triple {C = C} P (exec_db host f) (λ _. Q) P
  unfolding exec_db
  Triple-exec_db {Q} host f h = record { at = λ w p. go (host.db_fault w.tick) w p }
    where
      go :
          (fault : Option Err) (w : World D C)
          → P w.tables
          → After (λ _. Q) P (commit host fault (f w.tables) w)
      go none w p = h w.tables p
      go (some e) w p = p

  pub Triple-query_db :
      {A : Type 0} (host : Host) (f : D → A)
      → Triple {C = C} P (query_db host f) (λ a d. P d × (f d ≡ a)) P
  unfolding query_db
  Triple-query_db {A} host f = record { at = λ w p. go (host.db_fault w.tick) w p }
    where
      go :
          (fault : Option Err) (w : World D C)
          → P w.tables
          → After (λ a d. P d × (f d ≡ a)) P (answer_db host fault (f w.tables) w)
      go none w p = (p, refl)
      go (some e) w p = p

  pub Triple-if :
      {A : Type 0} {Q : A → D → Type 0} {E : D → Type 0} (b : Bool) {m n : Exec D C A}
      → (b ≡ true → Triple P m Q E)
      → (b ≡ false → Triple P n Q E)
      → Triple P (if b then m else n) Q E
  Triple-if true t f = t refl
  Triple-if false t f = f refl

  pub Triple-statement_db :
      {A : Type 0} {Q : A → D → Type 0} (host : Host) (f : D → Result (A × D))
      → ((d : D) (a : A) (d' : D) → P d → f d ≡ ok (a, d') → Q a d')
      → Triple {C = C} P (statement_db host f) Q P
  unfolding statement_db
  Triple-statement_db {A} {Q} host f h = record {
    at = λ w p. go (host.db_fault w.tick) (f w.tables) w refl p;
  }
    where
      go :
          (fault : Option Err) (r : Result (A × D)) (w : World D C)
          → f w.tables ≡ r
          → P w.tables
          → After Q P (run_statement host fault r w)
      go none (ok (a, d)) w e p = h w.tables a d p e
      go none (err e) w _ p = p
      go (some e) r w _ p = p

module _ {D C A : Type 0} {P : D → Type 0} {Q : A → D → Type 0} {m : Exec D C A} where
  -- What is known after a failure may be weakened.
  pub Triple-on_fail :
      {E E' : D → Type 0} → ((d : D) → E' d → E d) → Triple P m Q E' → Triple P m Q E
  Triple-on_fail fails t = Triple-weaken (λ d h. h) (λ a d h. h) fails t

module _ {D C A : Type 0} where
  -- One predicate for every outcome is a predicate on the tables afterwards.
  pub After-same :
      (I : D → Type 0) (result : Outcome A × World D C)
      → After (λ _. I) I result
      → I result.1.tables
  After-same I (done a, w) h = h
  After-same I (fail e, w) h = h
  After-same I (panic, w) h = h

  pub After-intro :
      (I : D → Type 0) (result : Outcome A × World D C)
      → I result.1.tables
      → After (λ _. I) I result
  After-intro I (done a, w) h = h
  After-intro I (fail e, w) h = h
  After-intro I (panic, w) h = h
