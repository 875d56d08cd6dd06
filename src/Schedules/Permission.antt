-- ===== src/Schedules/Permission.antt =====
-- Who may cancel a schedule.
use ponko.Common.{
  String, ◌≡◌, refl, List, Option, none, some, select, Bool, true, false, ap, ◌∙◌, if◌then◌else◌,
}
use ponko.Effect.{
  ok, Outcome, done, fail, panic, World, ◌>>=◌, with_context, attempt, continue, pure, wrapped,
  settle,
}
use ponko.Effect.Keeps.{
  Keeps, Keeps-bind, Keeps-now, Keeps-query_db, Keeps-with_context, Keeps-pure, Keeps-lift,
  Keeps-if, Keeps-ask, Keeps-exec_db,
}
use ponko.Chat.{ScheduledMessage, User, ChatTables, ChatCall, ChatEnv, get_profile}
use ponko.Users.{fetch_user, use_cached, get_or_fetch, put_user, user_key, fetched}
use ponko.Schedules.{get_by_slug}
use ponko.Schedules.Tools.{
  is_creator, may_cancel, cancel_allowed, on_schedule, execute_cancel_schedule,
}

-- Fetching a user writes the table of the users only.
abbrev SameSchedules : List ScheduledMessage → ChatTables → Type 0
SameSchedules rows d = d.schedules ≡ rows

module _ (env : ChatEnv) (rows : List ScheduledMessage) where
  fetch_user-Keeps : (user : String) → Keeps (SameSchedules rows) (fetch_user env user)
  unfolding fetch_user get_profile
  fetch_user-Keeps user = Keeps-bind (Keeps-with_context _ (Keeps-ask _ env.profile)) λ profile.
      Keeps-bind (Keeps-now env.host) λ moment.
        Keeps-bind
          (Keeps-with_context _ (
            Keeps-exec_db env.host _
              (λ d h. put (fetched user profile moment) d (select user_key user d.users) h)))
          (λ _. Keeps-pure _)
    where
      put :
          (u : User) (d : ChatTables) (o : Option User)
          → SameSchedules rows d
          → SameSchedules rows (put_user u o d)
      put u d none h = h
      put u d (some old) h = h

  get_or_fetch-Keeps : (user : String) → Keeps (SameSchedules rows) (get_or_fetch env user)
  unfolding get_or_fetch
  get_or_fetch-Keeps user = Keeps-bind (Keeps-with_context _ (Keeps-query_db env.host _)) cached
    where
      cached : (o : Option User) → Keeps (SameSchedules rows) (use_cached env user o)
      cached none = (fetch_user-Keeps user)
      cached (some u) =
          Keeps-bind (Keeps-now env.host)
            (λ moment. Keeps-if _ (Keeps-pure u) (fetch_user-Keeps user))

  get_by_slug-Keeps :
      (channel slug : String) → Keeps (SameSchedules rows) (get_by_slug env channel slug)
  unfolding get_by_slug
  get_by_slug-Keeps channel slug =
      Keeps-bind (Keeps-with_context _ (Keeps-query_db env.host _)) (λ found. Keeps-lift _)

-- After the schedule is found, and after the user is fetched.
found-step :
    (env : ChatEnv) (slug user : String) (m : ScheduledMessage)
    (r : Outcome ScheduledMessage × World ChatTables ChatCall)
    → r.0 ≡ done m
    → continue (on_schedule env slug user) (settle r) ≡ on_schedule env slug user (ok m) r.1
found-step env slug user m (done n, w) h =
    let same : n ≡ m = cc in ap (λ x. on_schedule env slug user (ok x) w) same
found-step env slug user m (fail e, w) h = cc
found-step env slug user m (panic, w) h = cc

refused-step :
    (env : ChatEnv) (m : ScheduledMessage) (rows : List ScheduledMessage)
    (r : Outcome User × World ChatTables ChatCall)
    → r.1.tables.schedules ≡ rows
    → ((u : User) → r.0 ≡ done u → u.is_admin ≡ false)
    → (continue (cancel_allowed env m) (
        continue (λ u. pure u.is_admin) (wrapped "checking user permissions" r))).1.tables.schedules
      ≡ rows
unfolding cancel_allowed
refused-step env m rows (done u, w) same plain = go u.is_admin (plain u refl)
  where
    go : (b : Bool) → b ≡ false → (cancel_allowed env m b w).1.tables.schedules ≡ rows
    go true e = cc
    go false e = same
refused-step env m rows (fail e, w) same plain = same
refused-step env m rows (panic, w) same plain = same

module _ (env : ChatEnv) (channel slug user : String) (w : World ChatTables ChatCall) where
  -- The cancel tool changes no schedule for a user who neither made it nor is, as far as the user's
  -- profile can be had, an admin.
  pub execute_cancel_schedule-refused :
      (m : ScheduledMessage)
      → (get_by_slug env channel slug w).0 ≡ done m
      → is_creator m user ≡ false
      → ((u : User)
          → (get_or_fetch env user (get_by_slug env channel slug w).1).0 ≡ done u
          → u.is_admin ≡ false)
      → (execute_cancel_schedule env channel slug user w).1.tables.schedules ≡ w.tables.schedules
  unfolding execute_cancel_schedule ◌>>=◌ attempt on_schedule may_cancel with_context
  execute_cancel_schedule-refused m found other plain =
      let here = get_by_slug env channel slug w in
      let same : here.1.tables.schedules ≡ w.tables.schedules =
        (get_by_slug-Keeps env w.tables.schedules channel slug).at w refl in
      ap (λ r. r.1.tables.schedules) (found-step env slug user m here found)
      ∙ ap
          (λ b.
            (continue (cancel_allowed env m) (
              (if b
                  then pure true
                  else (with_context "checking user permissions" (get_or_fetch env user) >>= λ u.
                      pure u.is_admin))
                here.1)).1.tables.schedules)
          other
      ∙ refused-step env m w.tables.schedules (get_or_fetch env user here.1)
          ((get_or_fetch-Keeps env w.tables.schedules user).at here.1 same) plain
