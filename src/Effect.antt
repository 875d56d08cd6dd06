-- ===== src/Effect.antt =====
-- The effects of the Go code: a call that can fail with an `error` or panic, over a state that
-- keeps what was written before the failure.
-- `tick` counts the interactions with the outside, so that a reading of the clock or the outcome of
-- a statement is a function of the history's length, on which nothing is assumed. `trace` is the
-- list of calls made to the dependencies, the newest first, and `tables` is the database.
pub mod Triple
pub mod Keeps
pub mod Total
pub mod Healthy
use ponko.Common.{ℕ, suc, String, ◌⧺◌, Option, none, some, List, ◌∷◌, Bool, if◌then◌else◌}

-- Go's `error`: of a dependency, `fmt.Errorf(text)`, `fmt.Errorf` of a text with numbers, and
-- `fmt.Errorf("…: %w", err)`. A `%q` stands without its quotes.
pub data Err : Type 0 where
  external : String → Err
  errorf : String → Err
  errorn : String → List ℕ → Err
  wrap : String → Err → Err

-- `err.Error()`
unfoldable pub error : Err → String
error (external s) = s
error (errorf s) = s
error (errorn s ns) = s
error (wrap context e) = context ⧺ ": " ⧺ error e

-- The pair `(value, error)` of a call that does not touch the state.
pub data Result {ℓ} (A : Type ℓ) : Type ℓ where
  ok : A → Result A
  err : Err → Result A

-- `panic` is a nil dereference or an index out of range.
pub data Outcome {ℓ} (A : Type ℓ) : Type ℓ where
  done : A → Outcome A
  fail : Err → Outcome A
  panic : Outcome A

pub record World (D C : Type 0) : Type 0 where
  pub tick : ℕ
  pub trace : List C
  pub tables : D

-- The host: the clock (nanoseconds since Go's zero time), uuid.NewString, and the error, if any, of
-- a statement sent to the database.
pub record Host : Type 0 where
  pub clock : ℕ → ℕ
  pub uuid : ℕ → String
  pub db_fault : ℕ → Option Err

abbrev pub Exec : Type 0 → Type 0 → Type 0 → Type 0
Exec D C A = World D C → Outcome A × World D C

module _ {D C A : Type 0} where
  abbrev pub pure : A → Exec D C A
  pure a w = (done a, w)

  abbrev pub raise : Err → Exec D C A
  raise e w = (fail e, w)

  abbrev pub lift : Result A → Exec D C A
  lift (ok a) w = (done a, w)
  lift (err e) w = (fail e, w)

  -- Reading through a pointer.
  abbrev pub deref : Option A → Exec D C A
  deref none w = (panic, w)
  deref (some a) w = (done a, w)

  -- `if err != nil { return fmt.Errorf("context: %w", err) }`
  abbrev pub wrapped : String → Outcome A × World D C → Outcome A × World D C
  wrapped context (fail e, w) = (fail (wrap context e), w)
  wrapped context r = r

  unfoldable pub with_context : String → Exec D C A → Exec D C A
  with_context context m w = wrapped context (m w)

  -- A call whose error the code looks at itself.
  abbrev pub settle : Outcome A × World D C → Outcome (Result A) × World D C
  settle (done a, w) = (done (ok a), w)
  settle (fail e, w) = (done (err e), w)
  settle (panic, w) = (panic, w)

  unfoldable pub attempt : Exec D C A → Exec D C (Result A)
  attempt m w = settle (m w)

module _ {D C A B : Type 0} where
  abbrev pub continue : (A → Exec D C B) → Outcome A × World D C → Outcome B × World D C
  continue f (done a, w) = f a w
  continue f (fail e, w) = (fail e, w)
  continue f (panic, w) = (panic, w)

  infixl 5 ◌>>=◌ ◌>>◌
  unfoldable pub ◌>>=◌ : Exec D C A → (A → Exec D C B) → Exec D C B
  ◌>>=◌ m f w = continue f (m w)

  abbrev pub ◌>>◌ : Exec D C A → Exec D C B → Exec D C B
  m >> n = m >>= λ _. n

module _ {D C : Type 0} where
  -- A dependency's answer, a function of the history's length. The call is put on record.
  unfoldable pub ask : {A : Type 0} → C → (ℕ → Result A) → Exec D C A
  ask call answer w = lift (answer w.tick) (record w { tick = suc w.tick; trace = call ∷ w.trace })

  -- A call whose result the code drops.
  unfoldable pub tell : C → Exec D C (Unit {0})
  tell call w = (done tt, record w { tick = suc w.tick; trace = call ∷ w.trace })

module _ {D C : Type 0} (host : Host) where
  unfoldable pub now : Exec D C ℕ
  now w = (done (host.clock w.tick), record w { tick = suc w.tick })

  unfoldable pub new_uuid : Exec D C String
  new_uuid w = (done (host.uuid w.tick), record w { tick = suc w.tick })

  -- A statement that changes the tables, if the database takes it.
  abbrev pub commit : Option Err → D → World D C → Outcome (Unit {0}) × World D C
  commit none d w = (done tt, record w { tick = suc w.tick; tables = d })
  commit (some e) d w = (fail e, record w { tick = suc w.tick })

  unfoldable pub exec_db : (D → D) → Exec D C (Unit {0})
  exec_db f w = commit (host.db_fault w.tick) (f w.tables) w

  -- A query.
  abbrev pub answer_db : {A : Type 0} → Option Err → A → World D C → Outcome A × World D C
  answer_db none a w = (done a, record w { tick = suc w.tick })
  answer_db (some e) a w = (fail e, record w { tick = suc w.tick })

  unfoldable pub query_db : {A : Type 0} → (D → A) → Exec D C A
  query_db f w = answer_db (host.db_fault w.tick) (f w.tables) w

  -- A statement with a result, which the database may refuse (a constraint, no row to return).
  abbrev pub run_statement :
      {A : Type 0} → Option Err → Result (A × D) → World D C → Outcome A × World D C
  run_statement none (ok (a, d)) w = (done a, record w { tick = suc w.tick; tables = d })
  run_statement none (err e) w = (fail e, record w { tick = suc w.tick })
  run_statement (some e) r w = (fail e, record w { tick = suc w.tick })

  unfoldable pub statement_db : {A : Type 0} → (D → Result (A × D)) → Exec D C A
  statement_db f w = run_statement (host.db_fault w.tick) (f w.tables) w

-- sql.ErrNoRows, and a violated UNIQUE or PRIMARY KEY constraint.
abbrev pub no_rows : Err
no_rows = external "sql: no rows in result set"

abbrev pub constraint_failed : Err
constraint_failed = external "UNIQUE constraint failed"
