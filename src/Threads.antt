-- ===== src/Threads.antt =====
-- internal/conversation/thread.go over the table thread_messages. Both rows of a pair get the time of
-- their statement.
use ponko.Common.{
  ℕ, ◌-◌, String, List, [], ◌∷◌, ◌++◌, Bool, false, ◌&&◌, ◌||◌, ◌==◌, ◌⧺◌, leb, ltb, take, keep,
  order_by,
}
use ponko.Effect.{with_context, ◌>>=◌, now, exec_db, query_db}
use ponko.Chat.{ThreadMessage, ChatM, ChatEnv}

abbrev pub thread_key_of : String → String → String
thread_key_of channel thread_ts = channel ⧺ ":" ⧺ thread_ts

abbrev pub message : ℕ → String → String → String → String → ThreadMessage
message moment key role content user = record {
  thread_key = key;
  created_at = moment;
  role = role;
  content = content;
  user_id = user;
}

abbrev pub of_thread : String → List ThreadMessage → List ThreadMessage
of_thread key rows = keep (λ m. m.thread_key == key) rows

abbrev pub sent_before : ThreadMessage → ThreadMessage → Bool
sent_before m n = leb m.created_at n.created_at

abbrev pub sent_after : ThreadMessage → ThreadMessage → Bool
sent_after m n = leb n.created_at m.created_at

pub record Participation : Type 0 where
  pub any : Bool
  pub recent : Bool

unfoldable pub exists_message : (ThreadMessage → Bool) → List ThreadMessage → Bool
exists_message p [] = false
exists_message p (m ∷ ms) = p m || exists_message p ms

module _ (env : ChatEnv) where
  unfoldable pub save_thread_message : String → String → String → String → ChatM (Unit {0})
  save_thread_message key role content user = do
    moment ← now env.host
    with_context "saving thread message" (
        exec_db env.host
          (λ d. record d { messages = d.messages ++ message moment key role content user ∷ [] }))

  unfoldable pub save_thread_messages :
      String → String → String → String → String → String → ChatM (Unit {0})
  save_thread_messages key user_role user_content assistant_role assistant_content user = do
    moment ← now env.host
    with_context "saving thread messages" (
        exec_db env.host (λ d. record d {
          messages =
              d.messages
              ++ message moment key user_role user_content user
                ∷ message moment key assistant_role assistant_content ""
                ∷ [];
        }))

  -- The cutoff is max_age before the time of the call.
  unfoldable pub check_participation : String → ℕ → ChatM Participation
  unfolding exists_message
  check_participation key max_age = do
    moment ← now env.host
    with_context "checking participation" (
        query_db env.host (λ d.
          let said : ThreadMessage → Bool = λ m. m.thread_key == key && m.role == "assistant" in
          record {
            any = exists_message said d.messages;
            recent = exists_message (λ m. said m && ltb (moment - max_age) m.created_at) d.messages;
          }))

  unfoldable pub get_thread_messages : String → ℕ → ChatM (List ThreadMessage)
  unfolding order_by
  get_thread_messages key limit = with_context "querying thread messages" (
      query_db env.host
        (λ d. order_by sent_before (take limit (order_by sent_after (of_thread key d.messages)))))
