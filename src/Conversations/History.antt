-- ===== src/Conversations/History.antt =====
-- A thread's conversation through the later calls of the store.
use ponko.Common.{
  ℕ, String, ◌≡◌, refl, subst, ◌∙◌, ap, List, [], ◌∷◌, ◌++◌, Option, none, some, Bool, true, false,
  ◌&&◌, ◌==◌, arith, if◌then◌else◌, select, update, zero, suc,
}
use ponko.Effect.{Result, ok, err, World, done}
use ponko.Effect.Keeps.{
  Keeps, Keeps-pure, Keeps-raise, Keeps-with_context, Keeps-attempt, Keeps-bind, Keeps-if,
  Keeps-now, Keeps-new_uuid, Keeps-exec_db, Keeps-statement_db,
}
use ponko.Chat.{Conversation, ChatTables, ChatCall, ChatEnv}
use ponko.Conversations.{
  conv_id, find_thread, new_conversation, insert_conversation, find_or_insert, insert_turn,
  insert_one, after_turn, try_turn, add_turn, move_conversation, transition_status,
  find_or_create_conversation,
}
use ponko.Conversations.Identity.{IsOwn, find_or_create_conversation-IsOwn, again}

-- The calls of the store that write.
pub data StoreCall : Type 0 where
  find_or_create : (channel thread : String) → StoreCall
  add : (conversation workflow trigger : String) → StoreCall
  move : (conversation from to : String) → StoreCall

module _ (env : ChatEnv) where
  unfoldable pub run_call : StoreCall → World ChatTables ChatCall → World ChatTables ChatCall
  run_call (find_or_create channel thread) w = (find_or_create_conversation env channel thread w).1
  run_call (add id workflow trigger) w = (add_turn env id workflow trigger w).1
  run_call (move id from to) w = (transition_status env id from to w).1

  unfoldable pub run_calls : List StoreCall → World ChatTables ChatCall → World ChatTables ChatCall
  unfolding run_call
  run_calls [] w = w
  run_calls (call ∷ calls) w = run_calls calls (run_call call w)

module _ (channel thread : String) where
  -- A row of the thread with a given id.
  abbrev HasRow : String → List Conversation → Type 0
  HasRow id cs = (k : Conversation) × (find_thread channel thread cs ≡ some k) × (conv_id k ≡ id)

  find_thread-append_found :
      (k c : Conversation) (cs : List Conversation)
      → find_thread channel thread cs ≡ some k
      → find_thread channel thread (cs ++ c ∷ []) ≡ some k
  unfolding find_thread
  find_thread-append_found k c [] h = cc
  find_thread-append_found k c (x ∷ xs) h = ground (arith, find_thread-append_found k c xs)

  -- One row in front of the others, which may change but for its key.
  HasRow-cons :
      (id : String) (x x' : Conversation) (xs xs' : List Conversation)
      → x'.channel_id ≡ x.channel_id
      → x'.thread_ts ≡ x.thread_ts
      → conv_id x' ≡ conv_id x
      → (HasRow id xs → HasRow id xs')
      → HasRow id (x ∷ xs)
      → HasRow id (x' ∷ xs')
  unfolding find_thread
  HasRow-cons id x x' xs xs' e f n rest (k, own, name) =
      go (x.channel_id == channel && x.thread_ts == thread) refl
    where
      go :
          (b : Bool) → (x.channel_id == channel && x.thread_ts == thread) ≡ b → HasRow id (x' ∷ xs')
      go true h =
          let first : x ≡ k = ground arith in (x', (rw (e, f, h) refl), n ∙ ap conv_id first ∙ name)
      go false h =
          let (k', own', name') = rest (k, (ground arith), name) in (k', (rw (e, f, h) own'), name')

  move-HasRow :
      (id other : String) (moment : ℕ) (from to : String) (cs : List Conversation)
      → HasRow id cs
      → HasRow id (update conv_id other (move_conversation moment from to) cs)
  unfolding update
  move-HasRow id other moment from to [] h = h
  move-HasRow id other moment from to (x ∷ xs) h =
      go _ (conv_id x == other) (x.status == from) (move-HasRow id other moment from to xs)
    where
      go :
          (moved : List Conversation) (b b' : Bool)
          → (HasRow id xs → HasRow id moved)
          → HasRow id (
              (if b then (if b' then record x { status = to; updated_at = moment } else x) else x)
              ∷ moved)
      go moved true true rest = HasRow-cons id x _ xs _ refl refl refl rest h
      go moved true false rest = HasRow-cons id x x xs _ refl refl refl rest h
      go moved false b' rest = HasRow-cons id x x xs _ refl refl refl rest h

  find_or_insert-IsOwn :
      (id : String) (c : Conversation) (d d' : ChatTables) (a : String × Bool)
      → IsOwn channel thread id d
      → (o : Option Conversation) → find_or_insert c o d ≡ ok (a, d')
      → IsOwn channel thread id d'
  find_or_insert-IsOwn id c d d' a (k, own, name) (some old) h =
      let after : d ≡ d' = cc in subst (IsOwn channel thread id) after (k, own, name)
  find_or_insert-IsOwn id c d d' a (k, own, name) none h =
      go (select conv_id c.conversation_id d.conversations) h
    where
      go :
          (o : Option Conversation)
          → insert_conversation c o d ≡ ok (a, d')
          → IsOwn channel thread id d'
      go none h =
          let after : record d { conversations = d.conversations ++ c ∷ [] } ≡ d' = cc in
          subst (IsOwn channel thread id) after
            (k, find_thread-append_found k c d.conversations own, name)
      go (some old) h = cc

  module _ (env : ChatEnv) (id : String) where
    abbrev Own : ChatTables → Type 0
    Own = IsOwn channel thread id

    find_or_create_conversation-KeepsOwn :
        (channel' thread' : String) → Keeps Own (find_or_create_conversation env channel' thread')
    unfolding find_or_create_conversation
    find_or_create_conversation-KeepsOwn channel' thread' =
        Keeps-bind (Keeps-new_uuid env.host) λ fresh. Keeps-bind (Keeps-now env.host) λ moment.
          Keeps-with_context _ (
            Keeps-statement_db env.host _ λ d a d' own h.
              find_or_insert-IsOwn id (new_conversation fresh moment channel' thread') d d' a own
                (find_thread channel' thread' d.conversations) h)

    try_turn-KeepsOwn :
        (left : ℕ) (other workflow trigger : String)
        → Keeps Own (try_turn env left other workflow trigger)
    unfolding try_turn insert_one insert_turn
    try_turn-KeepsOwn zero other workflow trigger = Keeps-raise _
    try_turn-KeepsOwn (suc left) other workflow trigger =
        Keeps-bind
          (Keeps-attempt (
            Keeps-bind (Keeps-new_uuid env.host) λ fresh.
              Keeps-bind (Keeps-now env.host) λ moment. Keeps-exec_db env.host _ λ d own. own))
          (after (try_turn-KeepsOwn left other workflow trigger))
      where
        after :
            Keeps Own (try_turn env left other workflow trigger)
            → (r : Result (Unit {0}))
            → Keeps Own (after_turn env left (try_turn env left other workflow trigger) r)
        after once_more (ok _) = Keeps-pure tt
        after once_more (err e) = Keeps-if _ once_more (Keeps-raise _)

    add_turn-KeepsOwn :
        (other workflow trigger : String) → Keeps Own (add_turn env other workflow trigger)
    unfolding add_turn
    add_turn-KeepsOwn = try_turn-KeepsOwn 3

    transition_status-KeepsOwn :
        (other from to : String) → Keeps Own (transition_status env other from to)
    unfolding transition_status
    transition_status-KeepsOwn other from to = Keeps-bind (Keeps-now env.host) λ moment.
        Keeps-bind
          (Keeps-with_context _ (
            Keeps-statement_db env.host _ λ d a d' own h.
              let after : record d {
                conversations =
                    update conv_id other (move_conversation moment from to) d.conversations;
              }
                  ≡ d' =
                cc in
              subst Own after (move-HasRow id other moment from to d.conversations own)))
          λ moved. Keeps-if moved (Keeps-pure tt) (Keeps-raise _)

    run_calls-IsOwn :
        (calls : List StoreCall) (w : World ChatTables ChatCall)
        → Own w.tables
        → Own (run_calls env calls w).tables
    unfolding run_calls run_call
    run_calls-IsOwn [] w own = own
    run_calls-IsOwn (find_or_create c t ∷ calls) w own =
        run_calls-IsOwn calls _ ((find_or_create_conversation-KeepsOwn c t).at w own)
    run_calls-IsOwn (add other workflow trigger ∷ calls) w own =
        run_calls-IsOwn calls _ ((add_turn-KeepsOwn other workflow trigger).at w own)
    run_calls-IsOwn (move other from to ∷ calls) w own =
        run_calls-IsOwn calls _ ((transition_status-KeepsOwn other from to).at w own)

  -- FindOrCreateConversation gives a thread one conversation: after a call that succeeds, whatever
  -- calls of the store come between and whatever the database answers to them, a later call for the
  -- same thread that succeeds answers with the same id, says that nothing was inserted, and changes
  -- no table.
  pub find_or_create_conversation-later :
      (env : ChatEnv) (calls : List StoreCall) (w : World ChatTables ChatCall) (id id' : String)
      (b b' : Bool)
      → (find_or_create_conversation env channel thread w).0 ≡ done (id, b)
      → let later = run_calls env calls (find_or_create_conversation env channel thread w).1 in
        (find_or_create_conversation env channel thread later).0 ≡ done (id', b')
        → (id' ≡ id)
          × (b' ≡ false)
          × ((find_or_create_conversation env channel thread later).1.tables ≡ later.tables)
  find_or_create_conversation-later env calls w id id' b b' h h' =
      let next = (find_or_create_conversation env channel thread w).1 in
      let (k, own, name) =
        run_calls-IsOwn env id calls next
          (find_or_create_conversation-IsOwn channel thread env w id b h) in
      let (same, old, kept) = again channel thread env (run_calls env calls next) k id' b' own h' in
      (same ∙ name, old, kept)
