-- ===== src/Schedules/Quota.antt =====
-- How many schedules of a channel are active.
use ponko.Common.{
  ℕ, zero, suc, ◌+◌, ◌≤◌, String, ◌≡◌, subst, List, [], ◌∷◌, ◌++◌, Bool, eq_iff, arith, length,
  keep, if◌then◌else◌,
}
use ponko.Effect.{Result, ok, err}
use ponko.Effect.Keeps.{
  Keeps, Keeps-bind, Keeps-attempt, Keeps-now, Keeps-new_uuid, Keeps-statement_db, Keeps-pure,
  Keeps-raise, Keeps-if,
}
use ponko.Chat.{ScheduledMessage, ChatTables, ChatEnv, ChatM}
use ponko.Schedules.{
  Inserted, inserted, over_quota, collides, is_active_in, count_active, new_schedule, add_within,
  after_insert, insert_schedule, try_slugs, slug_of, create_with_quota,
}

keep-append :
    (p : ScheduledMessage → Bool) (ms : List ScheduledMessage) (m : ScheduledMessage)
    → length (keep p (ms ++ m ∷ [])) ≡ length (keep p ms) + (if p m then 1 else 0)
keep-append p [] m = ground arith
keep-append p (n ∷ ms) m = ground (arith, keep-append p ms m)

module _ (max : ℕ) (channel : String) where
  abbrev pub IsWithin : ChatTables → Type 0
  IsWithin d = count_active channel d.schedules ≤ max

  add_within-IsWithin :
      (m : ScheduledMessage) (d : ChatTables) → IsWithin d → IsWithin (add_within max m d).1
  unfolding add_within
  add_within-IsWithin m d h =
      ground (arith, eq_iff m.channel_id channel, keep-append (is_active_in channel) d.schedules m)

  try_slugs-IsWithin :
      (env : ChatEnv) (left n : ℕ) (msg : ScheduledMessage)
      → Keeps IsWithin (try_slugs env (add_within max) left n msg)
  unfolding try_slugs insert_schedule
  try_slugs-IsWithin env zero n msg = Keeps-raise _
  try_slugs-IsWithin env (suc left) n msg =
      Keeps-bind
        (Keeps-attempt (
          Keeps-bind (Keeps-new_uuid env.host) λ fresh. Keeps-bind (Keeps-now env.host) λ moment.
            Keeps-statement_db env.host _ (λ d i d' h e.
              let row = new_schedule fresh moment (slug_of env msg.slug n) msg in
              let both : add_within max row d ≡ (i, d') = cc in
              subst (λ x. IsWithin x.1) both (add_within-IsWithin row d h))))
        (after (try_slugs-IsWithin env left (suc n) msg))
    where
      after :
          {again : ChatM (Unit {0})}
          → Keeps IsWithin again
          → (r : Result Inserted) → Keeps IsWithin (after_insert env again r)
      after again (ok inserted) = Keeps-pure tt
      after again (ok over_quota) = Keeps-raise _
      after again (ok collides) = again
      after again (err e) = Keeps-if _ again (Keeps-raise _)

  -- CreateWithQuota never takes a channel over its quota, whatever slugs are taken and whatever the
  -- database answers.
  pub create_with_quota-IsWithin :
      (env : ChatEnv) (msg : ScheduledMessage) → Keeps IsWithin (create_with_quota env msg max)
  unfolding create_with_quota
  create_with_quota-IsWithin env = try_slugs-IsWithin env 10 0
