-- ===== src/Task.antt =====
-- internal/task/task.go: the status of a task and the moves between them.
pub mod Graph
use ponko.Common.{ℕ, String, List, [], ◌∷◌, Bool, true, false, ◌||◌, ◌==◌, ◌⧺◌, if◌then◌else◌}
use ponko.Effect.{errorf, pure, raise, ◌>>=◌, now}
use ponko.Orchestrator.{
  Status, queued, in_progress, blocked, awaiting_approval, completed, failed, cancelled, other,
  Task, M, Env,
}

abbrev pub status_string : Status → String
status_string queued = "queued"
status_string in_progress = "in_progress"
status_string blocked = "blocked"
status_string awaiting_approval = "awaiting_approval"
status_string completed = "completed"
status_string failed = "failed"
status_string cancelled = "cancelled"
status_string (other s) = s

-- Go's `s == t`.
unfoldable pub status_eq : Status → Status → Bool
status_eq queued queued = true
status_eq in_progress in_progress = true
status_eq blocked blocked = true
status_eq awaiting_approval awaiting_approval = true
status_eq completed completed = true
status_eq failed failed = true
status_eq cancelled cancelled = true
status_eq (other s) (other t) = s == t
status_eq _ _ = false

-- A status that is no key of the map gives a nil slice.
unfoldable pub valid_transitions : Status → List Status
valid_transitions queued = in_progress ∷ []
valid_transitions in_progress = blocked ∷ awaiting_approval ∷ completed ∷ failed ∷ []
valid_transitions awaiting_approval = in_progress ∷ cancelled ∷ []
valid_transitions blocked = in_progress ∷ failed ∷ []
valid_transitions completed = []
valid_transitions failed = []
valid_transitions cancelled = []
valid_transitions (other s) = []

unfoldable pub is_one_of : Status → List Status → Bool
unfolding status_eq
is_one_of target [] = false
is_one_of target (s ∷ allowed) = status_eq s target || is_one_of target allowed

unfoldable pub can_transition_to : Status → Status → Bool
unfolding valid_transitions is_one_of
can_transition_to s target = is_one_of target (valid_transitions s)

module _ (env : Env) where
  moved_to : Status → Task → M Task
  moved_to target t = do
    updated ← now env.host
    pure (record t { status = target; updated_at = updated })

  -- The task after the call, which the code changes in place.
  unfoldable pub transition_to : Task → Status → M Task
  unfolding can_transition_to moved_to
  transition_to t target =
      if can_transition_to t.status target
      then moved_to target t
      else raise
          (errorf ("invalid transition: " ⧺ status_string t.status ⧺ " → " ⧺ status_string target))
