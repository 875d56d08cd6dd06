-- ===== src/DevRouter/Story/Attempts.antt =====
-- The attempts at one story.
use ponko.Common.{ℕ, zero, suc, ◌+◌, ◌<◌, ◌≡◌, refl, List, ◌∷◌, Option, arith, subst, ap, ◌∙◌}
use ponko.Effect.{Err, Result, ok, err, done, World, attempt, ask, ◌>>=◌}
use ponko.Orchestrator.{Env, ExecuteRequest, ExecuteResult, Tables, Call, execute, run_agent}
use ponko.DevRouter.Story.{run_attempts}

-- So many calls of the same kind in front of a list of calls.
abbrev pub tried : ℕ → Call → List Call → List Call
tried zero call calls = calls
tried (suc n) call calls = tried n call (call ∷ calls)

module _ (env : Env) (req : ExecuteRequest) where
  -- The agent fails at the interaction `t`.
  abbrev pub FailsAt : ℕ → Type 0
  FailsAt t = (e : Err) × (env.agent t req ≡ err e)

  -- The state after `n` calls of the agent.
  abbrev pub after_calls : ℕ → World Tables Call → World Tables Call
  after_calls n w = record w { tick = w.tick + n; trace = tried n (execute req) w.trace }

  abbrev called : World Tables Call → World Tables Call
  called w = record w { tick = suc w.tick; trace = execute req ∷ w.trace }

  after_calls-called :
      (n : ℕ) (w : World Tables Call) → after_calls n (called w) ≡ after_calls (suc n) w
  after_calls-called n w =
      let shift : suc w.tick + n ≡ w.tick + suc n = omega arith in
      ap (λ t. record w { tick = t; trace = tried n (execute req) (execute req ∷ w.trace) }) shift

  one_failure :
      (n : ℕ) (last : Result (Option ExecuteResult)) (w : World Tables Call) (e : Err)
      → env.agent w.tick req ≡ err e
      → run_attempts env (suc n) req last w ≡ run_attempts env n req (err e) (called w)
  unfolding run_attempts run_agent ask attempt ◌>>=◌
  one_failure n last w e h = rw h refl

  one_success :
      (n : ℕ) (last : Result (Option ExecuteResult)) (w : World Tables Call)
      (o : Option ExecuteResult)
      → env.agent w.tick req ≡ ok o
      → run_attempts env (suc n) req last w ≡ (done (ok o), called w)
  unfolding run_attempts run_agent ask attempt ◌>>=◌
  one_success n last w o h = rw h refl

  later :
      (t k : ℕ) → ((j : ℕ) → j < suc k → FailsAt (t + j)) → (j : ℕ) → j < k → FailsAt (suc t + j)
  later t k h j lt =
      let shift : t + suc j ≡ suc t + j = omega arith in
      subst FailsAt shift (h (suc j) (omega arith))

  -- When the agent fails at the first attempts and answers the next one, within the bound, the loop
  -- gives that answer, after one call of the agent for it and one for each failure before it.
  pub run_attempts_answered :
      (n k : ℕ) (last : Result (Option ExecuteResult)) (w : World Tables Call)
      (o : Option ExecuteResult)
      → k < n
      → ((j : ℕ) → j < k → FailsAt (w.tick + j))
      → env.agent (w.tick + k) req ≡ ok o
      → run_attempts env n req last w ≡ (done (ok o), after_calls (suc k) w)
  run_attempts_answered zero k last w o lt fails h = absurd (omega arith)
  run_attempts_answered (suc n) zero last w o lt fails h =
      let here : w.tick + 0 ≡ w.tick = omega arith in
      let shift : suc w.tick ≡ w.tick + 1 = omega arith in
      one_success n last w o (subst (λ t. env.agent t req ≡ ok o) here h)
      ∙ ap (λ t. (done (ok o), record w { tick = t; trace = execute req ∷ w.trace })) shift
  run_attempts_answered (suc n) (suc k) last w o lt fails h =
      let (e, failed) = fails 0 (omega arith) in
      let here : w.tick + 0 ≡ w.tick = omega arith in
      let shift : w.tick + suc k ≡ suc w.tick + k = omega arith in
      one_failure n last w e (subst (λ t. env.agent t req ≡ err e) here failed)
      ∙ run_attempts_answered n k (err e) (called w) o (omega arith) (later w.tick k fails)
          (subst (λ t. env.agent t req ≡ ok o) shift h)
      ∙ ap (λ x. (done (ok o), x)) (after_calls-called (suc k) w)

  -- When the agent fails at every attempt, there are as many calls as the bound says, and the last
  -- error is returned.
  pub run_attempts_exhausted :
      (n : ℕ) (last : Result (Option ExecuteResult)) (w : World Tables Call)
      → ((j : ℕ) → j < suc n → FailsAt (w.tick + j))
      → (e : Err) × (env.agent (w.tick + n) req ≡ err e)
        × (run_attempts env (suc n) req last w ≡ (done (err e), after_calls (suc n) w))
  unfolding run_attempts
  run_attempts_exhausted zero last w fails =
      let (e, failed) = fails 0 (omega arith) in
      let here : w.tick + 0 ≡ w.tick = omega arith in
      let shift : suc w.tick ≡ w.tick + 1 = omega arith in
      (
        e,
        failed,
        one_failure zero last w e (subst (λ t. env.agent t req ≡ err e) here failed)
            ∙ ap (λ t. (done (err e), record w { tick = t; trace = execute req ∷ w.trace })) shift,
      )
  run_attempts_exhausted (suc n) last w fails =
      let (e, failed) = fails 0 (omega arith) in
      let here : w.tick + 0 ≡ w.tick = omega arith in
      let shift : suc w.tick + n ≡ w.tick + suc n = omega arith in
      let (f, at_last, rest) =
        run_attempts_exhausted n (err e) (called w) (later w.tick (suc n) fails) in
      (
        f,
        subst (λ t. env.agent t req ≡ err f) shift at_last,
        one_failure (suc n) last w e (subst (λ t. env.agent t req ≡ err e) here failed)
            ∙ rest
            ∙ ap (λ x. (done (err f), x)) (after_calls-called (suc n) w),
      )
