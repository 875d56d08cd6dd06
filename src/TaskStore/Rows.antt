-- ===== src/TaskStore/Rows.antt =====
-- What the queries on tasks answer, and what an insertion leaves.
use mathlib.Core.List.{Perm}
use mathlib.Core.List.Perm
use ponko.Common.{
  ℕ, suc, ◌+◌, ◌≤◌, ◌≡◌, refl, List, [], ◌∷◌, Bool, true, false, arith, All, leb, length, keep,
  if◌then◌else◌, subst, ◌∙◌, ap,
}
use ponko.Effect.{World, done, with_context, query_db}
use ponko.Orchestrator.{Status, queued, in_progress, blocked, Task, Tables, Call, Env}
use ponko.Task.{is_one_of}
use ponko.TaskStore.{by_created_asc, oldest_first, active, list_by_status, count_active}

abbrev pub IsOldestFirst : List Task → Type 0
IsOldestFirst [] = Unit
IsOldestFirst (t ∷ ts) = All (λ u. t.created_at ≤ u.created_at) ts × IsOldestFirst ts

All-weaken :
    {P Q : Task → Type 0} → ((t : Task) → P t → Q t) → (ts : List Task) → All P ts → All Q ts
All-weaken f [] a = tt
All-weaken f (t ∷ ts) (p, a) = (f t p, All-weaken f ts a)

by_created_asc-All :
    (P : Task → Type 0) (t : Task) (us : List Task) → P t → All P us → All P (by_created_asc t us)
unfolding by_created_asc
by_created_asc-All P t [] p a = (p, tt)
by_created_asc-All P t (u ∷ us) p (q, a) =
    go (leb t.created_at u.created_at) (by_created_asc-All P t us p a)
  where
    go :
        (b : Bool)
        → All P (by_created_asc t us)
        → All P (if b then t ∷ u ∷ us else u ∷ by_created_asc t us)
    go true rest = (p, (q, a))
    go false rest = (q, rest)

by_created_asc-IsOldestFirst :
    (t : Task) (us : List Task) → IsOldestFirst us → IsOldestFirst (by_created_asc t us)
unfolding by_created_asc
by_created_asc-IsOldestFirst t [] h = (tt, tt)
by_created_asc-IsOldestFirst t (u ∷ us) (least, h) =
    go (leb t.created_at u.created_at) refl (by_created_asc-IsOldestFirst t us h)
  where
    go :
        (b : Bool)
        → leb t.created_at u.created_at ≡ b
        → IsOldestFirst (by_created_asc t us)
        → IsOldestFirst (if b then t ∷ u ∷ us else u ∷ by_created_asc t us)
    go true e rest =
        let le : t.created_at ≤ u.created_at = ground arith in
        ((le, All-weaken (λ x lx. omega arith) us least), (least, h))
    go false e rest =
        let le : u.created_at ≤ t.created_at = ground arith in
        (by_created_asc-All (λ x. u.created_at ≤ x.created_at) t us le least, rest)

by_created_asc-Perm : (t : Task) (us : List Task) → Perm (by_created_asc t us) (t ∷ us)
unfolding by_created_asc
by_created_asc-Perm t [] = Perm.rfl
by_created_asc-Perm t (u ∷ us) = go (leb t.created_at u.created_at) (by_created_asc-Perm t us)
  where
    go :
        (b : Bool)
        → Perm (by_created_asc t us) (t ∷ us)
        → Perm (if b then t ∷ u ∷ us else u ∷ by_created_asc t us) (t ∷ u ∷ us)
    go true rest = Perm.rfl
    go false rest = Perm.trans (Perm.cons u rest) (Perm.swap t u us)

oldest_first-IsOldestFirst : (ts : List Task) → IsOldestFirst (oldest_first ts)
unfolding oldest_first
oldest_first-IsOldestFirst [] = tt
oldest_first-IsOldestFirst (t ∷ ts) =
    by_created_asc-IsOldestFirst t (oldest_first ts) (oldest_first-IsOldestFirst ts)

oldest_first-Perm : (ts : List Task) → Perm (oldest_first ts) ts
unfolding oldest_first
oldest_first-Perm [] = Perm.rfl
oldest_first-Perm (t ∷ ts) =
    Perm.trans (by_created_asc-Perm t (oldest_first ts)) (Perm.cons t (oldest_first-Perm ts))

length-by_created_asc : (t : Task) (us : List Task) → length (by_created_asc t us) ≡ suc (length us)
unfolding by_created_asc
length-by_created_asc t [] = refl
length-by_created_asc t (u ∷ us) = ground (arith, length-by_created_asc t us)

length-oldest_first : (ts : List Task) → length (oldest_first ts) ≡ length ts
unfolding oldest_first
length-oldest_first [] = refl
length-oldest_first (t ∷ ts) =
    length-by_created_asc t (oldest_first ts) ∙ ap suc (length-oldest_first ts)

length-active :
    (ts : List Task)
    → length (keep (λ t. is_one_of t.status active) ts)
      ≡ length (keep (λ t. is_one_of t.status (queued ∷ [])) ts)
        + length (keep (λ t. is_one_of t.status (in_progress ∷ [])) ts)
        + length (keep (λ t. is_one_of t.status (blocked ∷ [])) ts)
unfolding is_one_of
length-active [] = omega arith
length-active (t ∷ ts) = ground (arith, length-active ts)

module _ (env : Env) (w : World Tables Call) where
  -- The tasks that ListByStatus returns for some statuses are the rows with one of them, each as
  -- often as it is stored, the oldest first.
  pub list_by_status-sorted :
      (s : Status) (statuses : List Status) (ts : List Task)
      → (list_by_status env (s ∷ statuses) w).0 ≡ done ts
      → Perm ts (keep (λ t. is_one_of t.status (s ∷ statuses)) w.tables.tasks) × IsOldestFirst ts
  unfolding list_by_status with_context query_db
  list_by_status-sorted s statuses ts h =
      let rows = keep (λ t. is_one_of t.status (s ∷ statuses)) w.tables.tasks in
      let same : oldest_first rows ≡ ts = ground arith in
      (
        subst (λ x. Perm x rows) same (oldest_first-Perm rows),
        subst IsOldestFirst same (oldest_first-IsOldestFirst rows),
      )

  -- Asked in one state of the table, and if each query succeeds, CountActive counts the tasks that
  -- ListByStatus lists for queued, those that it lists for in progress and those that it lists for
  -- blocked.
  pub count_active-list_by_status :
      (n : ℕ) (waiting running stuck : List Task)
      → (count_active env w).0 ≡ done n
      → (list_by_status env (queued ∷ []) w).0 ≡ done waiting
      → (list_by_status env (in_progress ∷ []) w).0 ≡ done running
      → (list_by_status env (blocked ∷ []) w).0 ≡ done stuck
      → n ≡ length waiting + length running + length stuck
  unfolding count_active list_by_status with_context query_db
  count_active-list_by_status n waiting running stuck counted listed listed' listed'' =
      let rows = λ (s : Status). keep (λ t. is_one_of t.status (s ∷ [])) w.tables.tasks in
      ground (
        arith,
        length-active w.tables.tasks,
        length-oldest_first (rows queued),
        length-oldest_first (rows in_progress),
        length-oldest_first (rows blocked),
      )
