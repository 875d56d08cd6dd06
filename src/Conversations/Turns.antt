-- ===== src/Conversations/Turns.antt =====
-- The numbers of a conversation's turns.
use ponko.Common.{
  ℕ, zero, suc, ◌+◌, String, ◌≡◌, refl, sym, ◌∙◌, ap, subst, List, [], ◌∷◌, ◌++◌, Bool, true, false,
  ◌==◌, eq_iff, arith, length, keep, if◌then◌else◌,
}
use ponko.Effect.{Result, ok, err}
use ponko.Effect.Keeps.{
  Keeps, Keeps-bind, Keeps-attempt, Keeps-now, Keeps-new_uuid, Keeps-exec_db, Keeps-pure,
  Keeps-raise, Keeps-if,
}
use ponko.Chat.{Turn, ChatTables, ChatEnv}
use ponko.Conversations.{
  of_conversation, next_index, insert_turn, insert_one, after_turn, try_turn, add_turn,
}

-- The indexes are those from `from` on, in the order of the insertions.
abbrev pub CountsFrom : ℕ → List Turn → Type 0
CountsFrom from [] = Unit
CountsFrom from (t ∷ ts) = (t.turn_index ≡ from) × CountsFrom (suc from) ts

-- Every conversation's turns are numbered from 0 without a gap.
abbrev pub IsNumbered : ChatTables → Type 0
IsNumbered d = (id : String) → CountsFrom 0 (of_conversation id d.turns)

next_index-CountsFrom :
    (from : ℕ) (t : Turn) (ts : List Turn)
    → CountsFrom from (t ∷ ts)
    → next_index (t ∷ ts) ≡ from + length (t ∷ ts)
unfolding next_index
next_index-CountsFrom from t [] (e, c) = ground arith
next_index-CountsFrom from t (u ∷ us) (e, c) =
    ground (arith, next_index-CountsFrom (suc from) u us c)

next_index-length : (ts : List Turn) → CountsFrom 0 ts → next_index ts ≡ length ts
unfolding next_index
next_index-length [] c = refl
next_index-length (t ∷ ts) c = omega (arith, next_index-CountsFrom 0 t ts c)

CountsFrom-append :
    (from : ℕ) (ts : List Turn) (t : Turn)
    → CountsFrom from ts
    → t.turn_index ≡ from + length ts
    → CountsFrom from (ts ++ t ∷ [])
CountsFrom-append from [] t c e = (omega arith, tt)
CountsFrom-append from (u ∷ us) t (f, c) e = (f, CountsFrom-append (suc from) us t c (omega arith))

keep-append :
    (p : Turn → Bool) (ts : List Turn) (t : Turn)
    → keep p (ts ++ t ∷ []) ≡ keep p ts ++ (if p t then t ∷ [] else [])
keep-append p [] t = refl
keep-append p (u ∷ us) t = go (p u) (keep-append p us t)
  where
    go :
        (b : Bool)
        → keep p (us ++ t ∷ []) ≡ keep p us ++ (if p t then t ∷ [] else [])
        → (if b then u ∷ keep p (us ++ t ∷ []) else keep p (us ++ t ∷ []))
          ≡ (if b then u ∷ keep p us else keep p us) ++ (if p t then t ∷ [] else [])
    go true h = ap (λ xs. u ∷ xs) h
    go false h = h

append-nil : (ts : List Turn) → ts ++ [] ≡ ts
append-nil [] = refl
append-nil (t ∷ ts) = ap (λ xs. t ∷ xs) (append-nil ts)

module _ (fresh : String) (moment : ℕ) (id workflow trigger : String) where
  insert_turn-IsNumbered :
      (d : ChatTables) → IsNumbered d → IsNumbered (insert_turn fresh moment id workflow trigger d)
  unfolding insert_turn
  insert_turn-IsNumbered d h other =
      subst (CountsFrom 0) (sym (keep-append (λ t. t.conversation_id == other) d.turns added))
        (go (id == other) refl)
    where
      added : Turn
      added = record {
        created_at = moment;
        turn_id = fresh;
        conversation_id = id;
        workflow_id = workflow;
        trigger_type = trigger;
        turn_index = next_index (of_conversation id d.turns);
      }

      go :
          (b : Bool)
          → (id == other) ≡ b
          → CountsFrom 0 (of_conversation other d.turns ++ (if b then added ∷ [] else []))
      go true e =
          let same : id ≡ other = (eq_iff id other).0 e in
          let number : added.turn_index ≡ length (of_conversation other d.turns) =
            next_index-length (of_conversation id d.turns) (h id)
            ∙ ap (λ x. length (of_conversation x d.turns)) same in
          CountsFrom-append 0 (of_conversation other d.turns) added (h other)
            (omega (arith, number))
      go false e = subst (CountsFrom 0) (sym (append-nil _)) (h other)

module _ (env : ChatEnv) where
  try_turn-IsNumbered :
      (left : ℕ) (id workflow trigger : String)
      → Keeps IsNumbered (try_turn env left id workflow trigger)
  unfolding try_turn insert_one
  try_turn-IsNumbered zero id workflow trigger = Keeps-raise _
  try_turn-IsNumbered (suc left) id workflow trigger =
      Keeps-bind
        (Keeps-attempt (
          Keeps-bind (Keeps-new_uuid env.host) λ fresh. Keeps-bind (Keeps-now env.host) λ moment.
            Keeps-exec_db env.host _ (insert_turn-IsNumbered fresh moment id workflow trigger)))
        (after (try_turn-IsNumbered left id workflow trigger))
    where
      after :
          Keeps IsNumbered (try_turn env left id workflow trigger)
          → (r : Result (Unit {0}))
          → Keeps IsNumbered (after_turn env left (try_turn env left id workflow trigger) r)
      after again (ok _) = Keeps-pure tt
      after again (err e) = Keeps-if _ again (Keeps-raise _)

  -- AddTurn keeps the turns of every conversation numbered 0, 1, 2, … in the order of their
  -- insertion, also when it gives up or tries again.
  pub add_turn-IsNumbered :
      (id workflow trigger : String) → Keeps IsNumbered (add_turn env id workflow trigger)
  unfolding add_turn
  add_turn-IsNumbered = try_turn-IsNumbered 3
