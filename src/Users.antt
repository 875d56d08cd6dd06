-- ===== src/Users.antt =====
-- internal/user/store.go over the table users, whose primary key is `slack_user_id`. A time is in
-- nanoseconds.
pub mod Cache
use ponko.Common.{
  ℕ, ◌-◌, ◌*◌, String, List, [], ◌∷◌, ◌++◌, Option, none, some, Bool, ltb, if◌then◌else◌, select,
  update,
}
use ponko.Effect.{Result, ok, err, pure, with_context, ◌>>=◌, ◌>>◌, now, exec_db, query_db}
use ponko.Chat.{User, SlackProfile, ChatTables, ChatM, ChatEnv, get_profile}

abbrev pub cache_ttl : ℕ
cache_ttl = 24 * 60 * 60 * 1000000000

abbrev pub user_key : User → String
user_key u = u.slack_user_id

abbrev pub put_user : User → Option User → ChatTables → ChatTables
put_user u none d = record d { users = d.users ++ u ∷ [] }
put_user u (some old) d = record d { users = update user_key u.slack_user_id (λ o. u) d.users }

abbrev pub fetched : String → SlackProfile → ℕ → User
fetched id profile moment = record {
  cached_at = moment;
  slack_user_id = id;
  display_name = profile.name;
  timezone = profile.zone;
  is_admin = profile.admin;
}

module _ (env : ChatEnv) where
  unfoldable pub fetch_user : String → ChatM User
  fetch_user id = do
    profile ← with_context "fetching user profile from Slack" (get_profile env id)
    moment ← now env.host
    with_context "upserting user cache" (
        exec_db env.host (λ d. put_user (fetched id profile moment) (select user_key id d.users) d))
    pure (fetched id profile moment)

  -- The clock is read only when there is a row.
  abbrev pub use_cached : String → Option User → ChatM User
  use_cached id none = fetch_user id
  use_cached id (some u) = do
    moment ← now env.host
    (if ltb (moment - u.cached_at) cache_ttl then pure u else fetch_user id)

  unfoldable pub get_or_fetch : String → ChatM User
  unfolding fetch_user
  get_or_fetch id =
      with_context "querying user cache" (query_db env.host (λ d. select user_key id d.users))
      >>= use_cached id
