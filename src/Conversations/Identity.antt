-- ===== src/Conversations/Identity.antt =====
-- Which conversation a thread has, and who may move one.
use ponko.Common.{
  ℕ, String, ◌≡◌, refl, sym, ◌∙◌, ap, subst, ◌≢◌, List, [], ◌∷◌, ◌++◌, Option, none, some, Bool,
  true, false, ◌&&◌, ◌==◌, eq_iff, arith, if◌then◌else◌, select, select-update_self, Option-cases,
  inl, inr, eq-of_ne,
}
use ponko.Effect.{
  Err, Host, Result, ok, err, World, done, wrapped, run_statement, ◌>>=◌, with_context,
  statement_db, now, new_uuid,
}
use ponko.Chat.{Conversation, ChatTables, ChatCall, ChatEnv}
use ponko.Conversations.{
  conv_id, find_thread, insert_conversation, find_or_insert, find_or_create_conversation,
  move_conversation, transition_status,
}

-- A conversation that is appended for a thread is the one that the thread has.
find_thread-append :
    (channel thread : String) (c : Conversation) (cs : List Conversation)
    → find_thread channel thread cs ≡ none
    → c.channel_id ≡ channel
    → c.thread_ts ≡ thread
    → find_thread channel thread (cs ++ c ∷ []) ≡ some c
unfolding find_thread
find_thread-append channel thread c [] n e f =
    ground (arith, eq_iff c.channel_id channel, eq_iff c.thread_ts thread)
find_thread-append channel thread c (x ∷ xs) n e f =
    go (x.channel_id == channel && x.thread_ts == thread) n
      (λ rest. find_thread-append channel thread c xs rest e f)
  where
    go :
        (b : Bool)
        → (if b then some x else find_thread channel thread xs) ≡ none
        → (find_thread channel thread xs ≡ none
            → find_thread channel thread (xs ++ c ∷ []) ≡ some c)
        → (if b then some x else find_thread channel thread (xs ++ c ∷ [])) ≡ some c
    go true n rest = cc
    go false n rest = rest n

-- What a statement that succeeds has answered and left.
module _ {D C A : Type 0} where
  statement-done :
      (host : Host) (context : String) (fault : Option Err) (r : Result (A × D)) (w : World D C)
      (a : A)
      → (wrapped context (run_statement host fault r w)).0 ≡ done a
      → r ≡ ok (a, (wrapped context (run_statement host fault r w)).1.tables)
  statement-done host context none (ok (b, d)) w a h =
      let same : b ≡ a = cc in ap (λ x. ok (x, d)) same
  statement-done host context none (err e) w a h = cc
  statement-done host context (some e) r w a h = cc

module _ (channel thread : String) where
  -- The conversation of the thread after the statement.
  abbrev pub IsOwn : String → ChatTables → Type 0
  IsOwn id d =
      (k : Conversation) × (find_thread channel thread d.conversations ≡ some k) × (conv_id k ≡ id)

  inserted-IsOwn :
      (c : Conversation) (d d' : ChatTables) (id : String) (b : Bool)
      → c.channel_id ≡ channel
      → c.thread_ts ≡ thread
      → find_thread channel thread d.conversations ≡ none
      → (s : Option Conversation) → insert_conversation c s d ≡ ok ((id, b), d')
      → IsOwn id d'
  inserted-IsOwn c d d' id b e f new none h =
      let same : c.conversation_id ≡ id = cc in
      let after : record d { conversations = d.conversations ++ c ∷ [] } ≡ d' = cc in
      subst (IsOwn id) after (c, find_thread-append channel thread c d.conversations new e f, same)
  inserted-IsOwn c d d' id b e f new (some old) h = cc

  found-IsOwn :
      (c : Conversation) (d d' : ChatTables) (id : String) (b : Bool)
      → c.channel_id ≡ channel
      → c.thread_ts ≡ thread
      → (o : Option Conversation) → find_thread channel thread d.conversations ≡ o
      → find_or_insert c o d ≡ ok ((id, b), d')
      → IsOwn id d'
  found-IsOwn c d d' id b e f (some old) own h =
      let same : old.conversation_id ≡ id = cc in
      let after : d ≡ d' = cc in subst (IsOwn id) after (old, own, same)
  found-IsOwn c d d' id b e f none own h =
      inserted-IsOwn c d d' id b e f own (select conv_id c.conversation_id d.conversations) h

  module _ (env : ChatEnv) where
    pub find_or_create_conversation-IsOwn :
        (w : World ChatTables ChatCall) (id : String) (b : Bool)
        → (find_or_create_conversation env channel thread w).0 ≡ done (id, b)
        → IsOwn id (find_or_create_conversation env channel thread w).1.tables
    unfolding find_or_create_conversation ◌>>=◌ with_context statement_db now new_uuid
    find_or_create_conversation-IsOwn w id b h =
        found-IsOwn _ w.tables _ id b refl refl (find_thread channel thread w.tables.conversations)
          refl (statement-done env.host _ _ _ _ (id, b) h)

    pub again :
        (w : World ChatTables ChatCall) (k : Conversation) (id : String) (b : Bool)
        → find_thread channel thread w.tables.conversations ≡ some k
        → (find_or_create_conversation env channel thread w).0 ≡ done (id, b)
        → (id ≡ conv_id k)
          × (b ≡ false)
          × ((find_or_create_conversation env channel thread w).1.tables ≡ w.tables)
    unfolding find_or_create_conversation ◌>>=◌ with_context statement_db now new_uuid
    again w k id b own h = ground arith

pub move_conversation-KeepsKey :
    (moment : ℕ) (from to : String) (c : Conversation)
    → conv_id (move_conversation moment from to c) ≡ conv_id c
move_conversation-KeepsKey moment from to c = go (c.status == from)
  where
    go :
        (b : Bool)
        → conv_id (if b then record c { status = to; updated_at = moment } else c) ≡ conv_id c
    go true = refl
    go false = refl

module _ (env : ChatEnv) (id : String) where
  moved-status :
      (w : World ChatTables ChatCall) (from to : String)
      → (transition_status env id from to w).0 ≡ done tt
      → (c : Conversation) × (select conv_id id
            (transition_status env id from to w).1.tables.conversations
          ≡ some c)
        × (c.status ≡ to)
  unfolding transition_status ◌>>=◌ with_context statement_db now
  moved-status w from to h = elim (Option-cases (select conv_id id w.tables.conversations)) [
    | inl missing ↦ ground arith
    | inr (c, found) ↦
        let moment = env.host.clock w.tick in
        let updated =
          select-update_self conv_id id (move_conversation moment from to) w.tables.conversations
            (move_conversation-KeepsKey moment from to) c found in
        (move_conversation moment from to c, ground arith, ground arith)
  ]

  refused :
      (w : World ChatTables ChatCall) (from to : String) (c : Conversation)
      → select conv_id id w.tables.conversations ≡ some c
      → (c.status == from) ≡ false
      → ¬ ((transition_status env id from to w).0 ≡ done tt)
  unfolding transition_status ◌>>=◌ with_context statement_db now
  refused w from to c found other h = ground arith

  -- TransitionStatus moves a conversation out of a status once: after a move from one status to
  -- another one, a second move from the first status fails, wherever it leads.
  pub transition_status-once :
      (w : World ChatTables ChatCall) (from to to' : String)
      → to ≢ from
      → (transition_status env id from to w).0 ≡ done tt
      → ¬ ((transition_status env id from to' (transition_status env id from to w).1).0 ≡ done tt)
  transition_status-once w from to to' differs h =
      let (c, found, status) = moved-status w from to h in
      refused (transition_status env id from to w).1 from to' c found
        (eq-of_ne c.status from (λ e. differs (sym status ∙ e)))
