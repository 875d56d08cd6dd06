-- ===== src/Scheduler.antt =====
-- internal/scheduler/scheduler.go: one tick of the loop and the snapshot of the states. The ticker, which
-- drops a tick that comes while tasks run, and the locks are left out: the loop is the only writer.
use ponko.Common.{
  ℕ, suc, ◌+◌, String, List, [], ◌∷◌, map, Option, none, some, Bool, true, false, if◌then◌else◌,
  select, update,
}
use ponko.Effect.{error, Result, ok, err, Host, World}

pub record TaskState : Type 0 where
  pub name : String
  pub last_run_at : Option ℕ
  pub last_error : String
  pub running : Bool

-- The map `states` with the time of the start. The tasks are the names, in their order.
pub record Scheduler : Type 0 where
  pub started_at : ℕ
  pub interval : ℕ
  pub tasks : List String
  pub states : List TaskState

pub record TaskStatus : Type 0 where
  pub next_run_at : ℕ
  pub last_run_at : Option ℕ
  pub name : String
  pub last_error : String
  pub running : Bool

pub data SchedulerCall : Type 0 where
  run_task : (name : String) → SchedulerCall

abbrev state_name : TaskState → String
state_name s = s.name

abbrev idle : String → TaskState
idle name = record { name = name; last_run_at = none; last_error = ""; running = false }

-- New: a map has each name once.
unfoldable pub with_name : String → List TaskState → List TaskState
with_name name states = go (select state_name name states)
  where
    go : Option TaskState → List TaskState
    go none = idle name ∷ states
    go (some s) = states

unfoldable pub new_states : List String → List TaskState
unfolding with_name
new_states [] = []
new_states (name ∷ names) = with_name name (new_states names)

abbrev pub new_scheduler : ℕ → List String → Scheduler
new_scheduler interval tasks = record {
  started_at = 0;
  interval = interval;
  tasks = tasks;
  states = new_states tasks;
}

abbrev pub set_state : String → (TaskState → TaskState) → Scheduler → Scheduler
set_state name f s = record s { states = update state_name name f s.states }

abbrev pub error_text : Result (Unit {0}) → String
error_text (ok _) = ""
error_text (err e) = error e

abbrev pub finished_at : ℕ → Result (Unit {0}) → TaskState → TaskState
finished_at moment r s = record s {
  running = false;
  last_run_at = some moment;
  last_error = error_text r;
}

-- Whether the context is done, and the error of a task's run.
pub record SchedulerEnv : Type 0 where
  pub host : Host
  pub cancelled : ℕ → Bool
  pub run : ℕ → Result (Unit {0})

abbrev pub SchedulerM : Type 0
SchedulerM = World Scheduler SchedulerCall → World Scheduler SchedulerCall

module _ (env : SchedulerEnv) where
  -- An assignment to a field under the lock.
  abbrev pub modify_state : (Scheduler → Scheduler) → SchedulerM
  modify_state f w = record w { tables = f w.tables }

  abbrev run_outcome :
      String → World Scheduler SchedulerCall → Result (Unit {0}) × World Scheduler SchedulerCall
  run_outcome name w =
      (env.run w.tick, record w { tick = suc w.tick; trace = run_task name ∷ w.trace })

  unfoldable pub run_one : String → SchedulerM
  run_one name w =
      let started = modify_state (set_state name (λ s. record s { running = true })) w in
      let (r, ran) = run_outcome name started in
      let moment = env.host.clock ran.tick in
      modify_state (set_state name (finished_at moment r)) (record ran { tick = suc ran.tick })

  unfoldable pub run_all : List String → SchedulerM
  unfolding run_one
  run_all [] w = w
  run_all (name ∷ names) w =
      let rest = run_all names (run_one name w) in if env.cancelled w.tick then w else rest

  -- Start up to its loop, and one tick of it.
  unfoldable pub start : SchedulerM
  start w = record w {
    tick = suc w.tick;
    tables = record w.tables { started_at = env.host.clock w.tick };
  }

  unfoldable pub scheduler_run : SchedulerM
  unfolding run_all
  scheduler_run w = run_all w.tables.tasks w

-- A name without a state is a nil dereference: none.
unfoldable pub status_of : Scheduler → String → Option TaskStatus
status_of s name = go (select state_name name s.states)
  where
    next : Option ℕ → ℕ
    next none = s.started_at + s.interval
    next (some t) = t + s.interval

    go : Option TaskState → Option TaskStatus
    go none = none
    go (some st) = some (record {
      next_run_at = next st.last_run_at;
      last_run_at = st.last_run_at;
      name = name;
      last_error = st.last_error;
      running = st.running;
    })

unfoldable pub statuses : Scheduler → List (Option TaskStatus)
unfolding status_of
statuses s = map (status_of s) s.tasks
