-- ===== src/Conversations.antt =====
-- internal/saga/conversation.go over the tables conversations, with the key `conversation_id` and
-- the constraint UNIQUE(channel_id, thread_ts), and conversation_turns, with the constraint
-- UNIQUE(conversation_id, turn_index).
pub mod Turns
pub mod Identity
pub mod History
use ponko.Common.{
  ℕ, zero, suc, ◌+◌, ◌-◌, String, List, [], ◌∷◌, ◌++◌, map, Option, none, some, Bool, true, false,
  ◌&&◌, ◌==◌, ◌⧺◌, leb, ltb, nat_eq, length, take, keep, if◌then◌else◌, select, update, order_by,
}
use ponko.Effect.{
  Err, Result, ok, err, errorf, wrap, no_rows, constraint_failed, pure, raise, with_context,
  attempt, ◌>>=◌, ◌>>◌, now, new_uuid, exec_db, query_db, statement_db,
}
use ponko.Chat.{Conversation, Turn, ChatTables, ChatM, ChatEnv}

abbrev pub conv_id : Conversation → String
conv_id c = c.conversation_id

unfoldable pub find_thread : String → String → List Conversation → Option Conversation
find_thread channel thread [] = none
find_thread channel thread (c ∷ cs) =
    if c.channel_id == channel && c.thread_ts == thread
    then some c
    else find_thread channel thread cs

abbrev pub new_conversation : String → ℕ → String → String → Conversation
new_conversation fresh moment channel thread = record {
  created_at = moment;
  updated_at = moment;
  conversation_id = fresh;
  channel_id = channel;
  thread_ts = thread;
  status = "active";
  turns = [];
}

-- The INSERT … ON CONFLICT DO NOTHING with the SELECT of the row that is there. A fresh id that is
-- taken violates the primary key.
abbrev pub insert_conversation :
    Conversation → Option Conversation → ChatTables → Result ((String × Bool) × ChatTables)
insert_conversation c none d =
    ok ((c.conversation_id, true), record d { conversations = d.conversations ++ c ∷ [] })
insert_conversation c (some old) d = err constraint_failed

abbrev pub find_or_insert :
    Conversation → Option Conversation → ChatTables → Result ((String × Bool) × ChatTables)
find_or_insert c (some old) d = ok ((old.conversation_id, false), d)
find_or_insert c none d = insert_conversation c (select conv_id c.conversation_id d.conversations) d

abbrev pub of_conversation : String → List Turn → List Turn
of_conversation id turns = keep (λ t. t.conversation_id == id) turns

-- COALESCE(MAX(turn_index), -1) + 1
unfoldable pub next_index : List Turn → ℕ
next_index [] = 0
next_index (t ∷ ts) =
    let rest = next_index ts in if ltb t.turn_index rest then rest else suc t.turn_index

abbrev pub turn_before : Turn → Turn → Bool
turn_before t u = leb t.turn_index u.turn_index

unfoldable pub insert_turn : String → ℕ → String → String → String → ChatTables → ChatTables
unfolding next_index
insert_turn fresh moment id workflow trigger d = record d {
  turns =
      d.turns
      ++ record {
        created_at = moment;
        turn_id = fresh;
        conversation_id = id;
        workflow_id = workflow;
        trigger_type = trigger;
        turn_index = next_index (of_conversation id d.turns);
      }
        ∷ [];
}

-- `UPDATE … WHERE conversation_id = $2 AND status = $3`: the number of rows, and the table.
abbrev pub move_conversation : ℕ → String → String → Conversation → Conversation
move_conversation moment from to c =
    if c.status == from then record c { status = to; updated_at = moment } else c

abbrev pub is_at : String → Option Conversation → Bool
is_at from none = false
is_at from (some c) = c.status == from

abbrev row_or_none : Option Conversation → ChatTables → Result (Conversation × ChatTables)
row_or_none none d = err no_rows
row_or_none (some c) d = ok (c, d)

pub record ConversationSummary : Type 0 where
  pub created_at : ℕ
  pub updated_at : ℕ
  pub conversation_id : String
  pub channel_id : String
  pub status : String
  pub turn_count : ℕ

abbrev pub summary : List Turn → Conversation → ConversationSummary
summary turns c = record {
  created_at = c.created_at;
  updated_at = c.updated_at;
  conversation_id = c.conversation_id;
  channel_id = c.channel_id;
  status = c.status;
  turn_count = length (of_conversation c.conversation_id turns);
}

abbrev pub updated_after : Conversation → Conversation → Bool
updated_after c e = leb e.updated_at c.updated_at

module _ (env : ChatEnv) where
  unfoldable pub find_or_create_conversation : String → String → ChatM (String × Bool)
  unfolding find_thread
  find_or_create_conversation channel thread = do
    fresh ← new_uuid env.host
    moment ← now env.host
    with_context "finding or creating conversation" (
        statement_db env.host (λ d.
          find_or_insert (new_conversation fresh moment channel thread)
            (find_thread channel thread d.conversations) d))

  -- One round of the loop of AddTurn, and the rounds that are left after it.
  unfoldable pub insert_one : String → String → String → ChatM (Unit {0})
  unfolding insert_turn
  insert_one id workflow trigger = do
    fresh ← new_uuid env.host
    moment ← now env.host
    exec_db env.host (insert_turn fresh moment id workflow trigger)

  abbrev pub after_turn : ℕ → ChatM (Unit {0}) → Result (Unit {0}) → ChatM (Unit {0})
  after_turn left again (ok _) = pure tt
  after_turn left again (err e) =
      if ltb 0 left && env.is_unique_violation e then again else raise (wrap "adding turn" e)

  unfoldable pub try_turn : ℕ → String → String → String → ChatM (Unit {0})
  unfolding insert_one
  try_turn zero id workflow trigger =
      raise (errorf ("adding turn: exhausted retries for conversation " ⧺ id))
  try_turn (suc left) id workflow trigger =
      let again = try_turn left id workflow trigger in
      attempt (insert_one id workflow trigger) >>= after_turn left again

  unfoldable pub add_turn : String → String → String → ChatM (Unit {0})
  unfolding try_turn
  add_turn id workflow trigger = try_turn 3 id workflow trigger

  unfoldable pub transition_status : String → String → String → ChatM (Unit {0})
  transition_status id from to = do
    moment ← now env.host
    moved ← with_context "transitioning conversation status" (
        statement_db env.host (λ d. ok (
          is_at from (select conv_id id d.conversations),
          record d {
            conversations = update conv_id id (move_conversation moment from to) d.conversations;
          },
        )))
    (if moved then pure tt else raise (errorf ("conversation " ⧺ id ⧺ " is not in status " ⧺ from)))

  unfoldable pub get_conversation : String → ChatM Conversation
  unfolding order_by
  get_conversation id = do
    c ←
        with_context "getting conversation"
          (statement_db env.host (λ d. row_or_none (select conv_id id d.conversations) d))
    rows ←
        with_context "querying conversation turns"
          (query_db env.host (λ d. order_by turn_before (of_conversation id d.turns)))
    pure (record c { turns = rows })

  unfoldable pub list_recent_conversations : ℕ → ChatM (List ConversationSummary)
  unfolding order_by
  list_recent_conversations limit = with_context "listing recent conversations" (
      query_db env.host
        (λ d. map (summary d.turns) (take limit (order_by updated_after d.conversations))))
