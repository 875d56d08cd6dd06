-- ===== src/Users/Cache.antt =====
-- When the Slack API is asked for a user's profile.
use ponko.Common.{
  ◌<◌, ◌+◌, ◌*◌, ap, ◌∙◌, ℕ, suc, ◌-◌, String, ◌≡◌, refl, ◌∷◌, Option, none, some, Bool, true,
  false, arith, ltb, select, if◌then◌else◌, select-append_new, select-update_put,
}
use ponko.Effect.{Result, ok, err, World, done, ◌>>=◌, with_context, query_db, exec_db, now, ask}
use ponko.Chat.{SlackProfile, User, ChatTables, ChatCall, ChatEnv, get_profile, get_user_profile}
use ponko.Users.{put_user, fetched, user_key, cache_ttl, fetch_user, get_or_fetch}

-- A row whose time is less than 24 hours back.
unfoldable pub is_fresh : ℕ → Option User → Bool
is_fresh moment none = false
is_fresh moment (some u) = ltb moment (u.cached_at + 24 * 60 * 60 * 1_000_000_000)

module _ (env : ChatEnv) (id : String) (w : World ChatTables ChatCall)
    (reads : env.host.db_fault w.tick ≡ none) where
  missing-asks :
      select user_key id w.tables.users ≡ none
      → (get_or_fetch env id w).1.trace ≡ get_user_profile id ∷ w.trace
  unfolding get_or_fetch fetch_user get_profile ◌>>=◌ with_context query_db exec_db now ask
  missing-asks h = ground arith

  fresh-kept :
      (u : User)
      → select user_key id w.tables.users ≡ some u
      → ltb (env.host.clock (suc w.tick) - u.cached_at) cache_ttl ≡ true
      → ((get_or_fetch env id w).0 ≡ done u)
        × ((get_or_fetch env id w).1.trace ≡ w.trace)
        × ((get_or_fetch env id w).1.tables ≡ w.tables)
  unfolding get_or_fetch ◌>>=◌ with_context query_db now
  fresh-kept u h young = ground arith

  stale-asks :
      (u : User)
      → select user_key id w.tables.users ≡ some u
      → ltb (env.host.clock (suc w.tick) - u.cached_at) cache_ttl ≡ false
      → (get_or_fetch env id w).1.trace ≡ get_user_profile id ∷ w.trace
  unfolding get_or_fetch fetch_user get_profile ◌>>=◌ with_context query_db exec_db now ask
  stale-asks u h old = ground arith

  -- If the table can be read, GetOrFetch asks the Slack API for the profile once when there is no row
  -- of the user whose time is less than 24 hours back, and makes no call when there is one.
  pub get_or_fetch-trace : (get_or_fetch env id w).1.trace ≡ (
      if is_fresh (env.host.clock (suc w.tick)) (select user_key id w.tables.users)
      then w.trace
      else get_user_profile id ∷ w.trace)
  unfolding is_fresh
  get_or_fetch-trace = go (select user_key id w.tables.users) refl
    where
      dated :
          (u : User)
          → select user_key id w.tables.users ≡ some u
          → (b : Bool) → is_fresh (env.host.clock (suc w.tick)) (some u) ≡ b
          → (get_or_fetch env id w).1.trace ≡ (if b then w.trace else get_user_profile id ∷ w.trace)
      dated u h true young = let (_, silent, _) = fresh-kept u h (ground arith) in silent
      dated u h false old = stale-asks u h (ground arith)

      go :
          (o : Option User)
          → select user_key id w.tables.users ≡ o
          → (get_or_fetch env id w).1.trace ≡ (
              if is_fresh (env.host.clock (suc w.tick)) o
              then w.trace
              else get_user_profile id ∷ w.trace)
      go none h = missing-asks h
      go (some u) h = dated u h (is_fresh (env.host.clock (suc w.tick)) (some u)) refl

-- The row that a call returns is in the table.
put_user-select :
    (u : User) (d : ChatTables) (o : Option User)
    → select user_key u.slack_user_id d.users ≡ o
    → select user_key u.slack_user_id (put_user u o d).users ≡ some u
put_user-select u d none h = select-append_new user_key u.slack_user_id d.users u h refl
put_user-select u d (some old) h = select-update_put user_key u d.users old h

module _ (env : ChatEnv) (id : String) (u : User) where
  fetch_user-select :
      (w : World ChatTables ChatCall)
      → (fetch_user env id w).0 ≡ done u
      → select user_key id (fetch_user env id w).1.tables.users ≡ some u
  unfolding fetch_user get_profile ◌>>=◌ with_context exec_db now ask
  fetch_user-select w h = go (env.profile w.tick) refl
    where
      go :
          (answer : Result SlackProfile)
          → env.profile w.tick ≡ answer
          → select user_key id (fetch_user env id w).1.tables.users ≡ some u
      go (err e) p = ground arith
      go (ok profile) p =
          let row = fetched id profile (env.host.clock (suc w.tick)) in
          ground (arith, put_user-select row w.tables (select user_key id w.tables.users) refl)

  get_or_fetch-select :
      (w : World ChatTables ChatCall)
      → (get_or_fetch env id w).0 ≡ done u
      → select user_key id (get_or_fetch env id w).1.tables.users ≡ some u
  unfolding get_or_fetch ◌>>=◌ with_context query_db now
  get_or_fetch-select w h = ground (
    arith,
    fetch_user-select (record w { tick = suc w.tick }),
    fetch_user-select (record w { tick = suc (suc w.tick) }),
  )

  -- A user that GetOrFetch has returned is had from the table for 24 hours from the time of its row:
  -- while the clock shows less than that, and with the table as the call left it and able to be read,
  -- a call returns the same user, does not ask the Slack API, and writes nothing.
  pub get_or_fetch-cached :
      (w w' : World ChatTables ChatCall)
      → (get_or_fetch env id w).0 ≡ done u
      → w'.tables ≡ (get_or_fetch env id w).1.tables
      → env.host.db_fault w'.tick ≡ none
      → env.host.clock (suc w'.tick) < u.cached_at + 24 * 60 * 60 * 1_000_000_000
      → ((get_or_fetch env id w').0 ≡ done u)
        × ((get_or_fetch env id w').1.trace ≡ w'.trace)
        × ((get_or_fetch env id w').1.tables ≡ w'.tables)
  get_or_fetch-cached w w' h same reads young =
      let found : select user_key id w'.tables.users ≡ some u =
        ap (λ d. select user_key id d.users) same ∙ get_or_fetch-select w h in
      fresh-kept env id w' reads u found (ground arith)
