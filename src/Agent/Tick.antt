-- ===== src/Agent/Tick.antt =====
-- What one tick of the scheduler puts into the queue.
use ponko.Common.{suc, ◌≡◌, refl, List, [], ◌∷◌, arith, take, keep, order_by}
use ponko.Effect.{World, done, ◌>>=◌, attempt, ask, with_context, now, query_db}
use ponko.Chat.{ScheduledMessage, ChatTables, ChatCall, ChatEnv, insert, insert_job, proactive_job}
use ponko.Schedules.{get_due, is_due, due_before}
use ponko.Agent.Proactive.{enqueue_due, scheduler_tick}

abbrev pub job_of : ScheduledMessage → ChatCall
job_of m = insert_job (proactive_job m.schedule_id m.channel_id m.prompt m.schedule_cron)

-- The calls in the order in which they were made, put before an older trace.
abbrev pub recorded : List ScheduledMessage → List ChatCall → List ChatCall
recorded [] trace = trace
recorded (m ∷ ms) trace = recorded ms (job_of m ∷ trace)

module _ (env : ChatEnv) where
  enqueue_due-trace :
      (ms : List ScheduledMessage) (w : World ChatTables ChatCall)
      → ((enqueue_due env ms w).1.trace ≡ recorded ms w.trace)
        × ((enqueue_due env ms w).1.tables ≡ w.tables)
  unfolding enqueue_due insert ◌>>=◌ attempt ask
  enqueue_due-trace [] w = (refl, refl)
  enqueue_due-trace (m ∷ ms) w =
      let rest =
        enqueue_due-trace ms (record w { tick = suc w.tick; trace = job_of m ∷ w.trace }) in
      ground arith

  -- A tick hands one job for each due message to the queue, at most a hundred and the longest due
  -- first, also when the queue refuses some of them, and leaves the messages due: it writes no table.
  pub scheduler_tick-jobs :
      (w : World ChatTables ChatCall) (due : List ScheduledMessage)
      → (get_due env w).0 ≡ done due
      → (due
          ≡ take 100
              (order_by due_before (keep (is_due (env.host.clock w.tick)) w.tables.schedules)))
        × ((scheduler_tick env w).1.trace ≡ recorded due w.trace)
        × ((scheduler_tick env w).1.tables ≡ w.tables)
  unfolding scheduler_tick get_due ◌>>=◌ with_context now query_db
  scheduler_tick-jobs w due h = let all = enqueue_due-trace due (get_due env w).1 in ground arith
