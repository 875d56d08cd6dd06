-- ===== src/Examples/Tasks.antt =====
-- The task store at a table with two tasks.
use mathlib.Core.List.{Perm}
use ponko.Common.{◌+◌, ◌≡◌, refl, ◌↔◌, [], ◌∷◌, length, keep}
use ponko.Effect.{World, done, with_context, query_db}
use ponko.Orchestrator.{Task, queued, in_progress, blocked, Tables, Call}
use ponko.Task.{transition_to, is_one_of}
use ponko.Task.Graph.{◌⇒◌, transition_to_iff}
use ponko.TaskStore.{active, list_by_status, count_active, oldest_first}
use ponko.TaskStore.Rows.{IsOldestFirst, list_by_status-sorted, count_active-list_by_status}
use ponko.Intake.{task_of, carries, approval_label, judge}
use ponko.Intake.Verdict.{after_comments, judge-after_comments}
use ponko.Orchestrator.{waiting, approved}
use ponko.Common.{true, false}
use ponko.Examples.World.{env, issue, one_pipeline, new_pipeline, world}
use ponko.Examples.Config.{raw}

abbrev task : Task
task = task_of "o/r" issue

abbrev late : Task
late = record task { id = "t1"; created_at = 9 }

abbrev early : Task
early = record task { id = "t2"; created_at = 4; status = blocked }

abbrev two_tasks : World Tables Call
two_tasks = world (record (one_pipeline new_pipeline) { tasks = late ∷ early ∷ [] })

listed : (list_by_status env active two_tasks).0 ≡ done (early ∷ late ∷ [])
unfolding list_by_status with_context query_db oldest_first is_one_of
listed = refl

counted : (count_active env two_tasks).0 ≡ done 2
unfolding count_active with_context query_db is_one_of
counted = refl

list_by_status-sorted_example :
    Perm (early ∷ late ∷ []) (keep (λ t. is_one_of t.status active) two_tasks.tables.tasks)
    × IsOldestFirst (early ∷ late ∷ [])
list_by_status-sorted_example =
    list_by_status-sorted env two_tasks queued (in_progress ∷ blocked ∷ []) (early ∷ late ∷ [])
      listed

queued_listed : (list_by_status env (queued ∷ []) two_tasks).0 ≡ done (late ∷ [])
unfolding list_by_status with_context query_db oldest_first is_one_of
queued_listed = refl

running_listed : (list_by_status env (in_progress ∷ []) two_tasks).0 ≡ done []
unfolding list_by_status with_context query_db oldest_first is_one_of
running_listed = refl

blocked_listed : (list_by_status env (blocked ∷ []) two_tasks).0 ≡ done (early ∷ [])
unfolding list_by_status with_context query_db oldest_first is_one_of
blocked_listed = refl

count_active-list_by_status_example :
    2 ≡ length (late ∷ []) + length {A = Task} [] + length (early ∷ [])
count_active-list_by_status_example =
    count_active-list_by_status env two_tasks 2 (late ∷ []) [] (early ∷ []) counted queued_listed
      running_listed blocked_listed

abbrev stored : Task
stored = record task { id = "new"; created_at = 1001; updated_at = 1001 }

abbrev restarted : Task
restarted = record early { status = in_progress; updated_at = 1000 }

transition_to_iff_example : ((transition_to env early in_progress two_tasks).0 ≡ done restarted) ↔ (
    (blocked ⇒ in_progress)
    × (restarted ≡ record early { status = in_progress; updated_at = env.host.clock 0 }))
transition_to_iff_example = transition_to_iff env early restarted in_progress two_tasks

judge-after_comments_example :
    (carries (approval_label raw) [] ≡ true
      → judge (λ s. s) raw ("/approve" ∷ "/reject" ∷ [], []) ≡ approved)
    × (carries (approval_label raw) [] ≡ false
        → judge (λ s. s) raw ("/approve" ∷ "/reject" ∷ [], [])
          ≡ after_comments (λ s. s) waiting ("/approve" ∷ "/reject" ∷ []))
judge-after_comments_example = judge-after_comments (λ s. s) raw ("/approve" ∷ "/reject" ∷ []) []
