-- ===== src/PipelineStore.antt =====
-- internal/sqlite/pipeline_store.go over the table pipelines of internal/sqlite/migrate.go, whose
-- primary key is `id`.
pub mod Rows
pub mod Stable
use ponko.Common.{
  ℕ, suc, ◌+◌, String, List, [], ◌∷◌, ◌++◌, Option, none, some, Bool, true, false, is_empty, ltb,
  leb, nat_eq, if◌then◌else◌, select, update, take, ◌==◌, zero,
}
use ponko.Effect.{
  Err, external, errorf, Result, ok, err, Host, Exec, pure, raise, lift, with_context, ◌>>=◌, ◌>>◌,
  now, new_uuid, exec_db, query_db, statement_db, no_rows, constraint_failed,
}
use ponko.Pipeline.{Stage, Track, Pipeline, validate_transition}
use ponko.Orchestrator.{Tables, M, Call, Env}

abbrev pub pipeline_id : Pipeline → String
pipeline_id p = p.id

-- The first row with the id, which is the only one: `id` is the primary key.
abbrev pub find : String → Tables → Option Pipeline
find id d = select pipeline_id id d.pipelines

abbrev pub write : String → (Pipeline → Pipeline) → Tables → Tables
write id f d = record d { pipelines = update pipeline_id id f d.pipelines }

unfoldable pub select_url : String → List Pipeline → Option Pipeline
select_url url [] = none
select_url url (p ∷ ps) = if p.issue_url == url then some p else select_url url ps

-- INSERT: the primary key is checked by the database.
unfoldable pub insert : Pipeline → Tables → Tables
insert p d = record d { pipelines = d.pipelines ++ p ∷ [] }

-- ORDER BY created_at DESC.
unfoldable pub by_created_desc : Pipeline → List Pipeline → List Pipeline
by_created_desc p [] = p ∷ []
by_created_desc p (q ∷ qs) =
    if leb q.created_at p.created_at then p ∷ q ∷ qs else q ∷ by_created_desc p qs

unfoldable pub sorted : List Pipeline → List Pipeline
unfolding by_created_desc
sorted [] = []
sorted (p ∷ ps) = by_created_desc p (sorted ps)

abbrev pub fill_id : String → Pipeline → Pipeline
fill_id fresh p = if is_empty p.id then record p { id = fresh } else p

abbrev pub fill_times : ℕ → Pipeline → Pipeline
fill_times t p =
    if nat_eq p.created_at 0
    then record p { created_at = t; updated_at = t }
    else record p { updated_at = t }

abbrev pub insert_new : Pipeline → Option Pipeline → Tables → Result (Unit {0} × Tables)
insert_new p none d = ok (tt, insert p d)
insert_new p (some q) d = err constraint_failed

abbrev pub bump_completed : ℕ → Pipeline → Pipeline
bump_completed t p = record p { stories_completed = p.stories_completed + 1; updated_at = t }

abbrev returning_completed : String → ℕ → Option Pipeline → Tables → Result (ℕ × Tables)
returning_completed id t none d = err no_rows
returning_completed id t (some p) d = ok (p.stories_completed + 1, write id (bump_completed t) d)

-- A limit of 0 is no limit.
abbrev limited : ℕ → List Pipeline → List Pipeline
limited zero ps = ps
limited (suc n) ps = take (suc n) ps

module _ (env : Env) where
  -- p.ID is generated if it is empty; the filled-in pipeline is returned.
  unfoldable pub create : Pipeline → M Pipeline
  unfolding insert
  create p = do
    fresh ← new_uuid env.host
    t ← now env.host
    let q = fill_times t (fill_id fresh p)
    with_context "insert pipeline" (statement_db env.host (λ d. insert_new q (find q.id d) d))
    pure q

  unfoldable pub get : String → M (Option Pipeline)
  get id = query_db env.host (find id)

  -- UPDATE pipelines SET …, updated_at = ? WHERE id = ?
  unfoldable pub modify : String → String → (ℕ → Pipeline → Pipeline) → M (Unit {0})
  modify context id f = do
    t ← now env.host
    with_context context (exec_db env.host (write id (f t)))

  -- The transition is checked from `from`; the stage that the row has is not looked at.
  unfoldable pub update_stage : String → Stage → Stage → M (Unit {0})
  unfolding modify
  update_stage id from to = do
    lift (validate_transition from to)
    modify "update stage" id (λ t p. record p { stage = to; updated_at = t })

  unfoldable pub set_track : String → Track → M (Unit {0})
  unfolding modify
  set_track id track = modify "set track" id (λ t p. record p { track = track; updated_at = t })

  unfoldable pub set_classification_rationale : String → String → M (Unit {0})
  unfolding modify
  set_classification_rationale id rationale =
      modify "set classification rationale" id
        (λ t p. record p { classification_rationale = rationale; updated_at = t })

  unfoldable pub set_plan_output : String → String → M (Unit {0})
  unfolding modify
  set_plan_output id plan_output =
      modify "set plan output" id (λ t p. record p { plan_output = plan_output; updated_at = t })

  unfoldable pub set_story_count : String → ℕ → M (Unit {0})
  unfolding modify
  set_story_count id count =
      modify "set story count" id (λ t p. record p { story_count = count; updated_at = t })

  unfoldable pub incr_stories_completed : String → M ℕ
  incr_stories_completed id = do
    t ← now env.host
    with_context "incr stories completed"
        (statement_db env.host (λ d. returning_completed id t (find id d) d))

  unfoldable pub set_current_story_index : String → ℕ → M (Unit {0})
  unfolding modify
  set_current_story_index id index =
      modify "set current story index" id
        (λ t p. record p { current_story_index = index; updated_at = t })

  unfoldable pub set_pr_number : String → ℕ → M (Unit {0})
  unfolding modify
  set_pr_number id pr_number =
      modify "set pr number" id (λ t p. record p { pr_number = pr_number; updated_at = t })

  unfoldable pub add_cost : String → ℕ → M (Unit {0})
  unfolding modify
  add_cost id delta =
      modify "add cost" id (λ t p. record p { cost_usd = p.cost_usd + delta; updated_at = t })

  unfoldable pub get_by_issue_url : String → M (Option Pipeline)
  unfolding select_url
  get_by_issue_url url = query_db env.host (λ d. select_url url d.pipelines)

  unfoldable pub set_issue_content : String → String → String → M (Unit {0})
  unfolding modify
  set_issue_content id title body =
      modify "set issue content" id
        (λ t p. record p { issue_title = title; issue_body = body; updated_at = t })

  unfoldable pub list : ℕ → M (List Pipeline)
  unfolding sorted
  list limit =
      with_context "list pipelines" (query_db env.host (λ d. limited limit (sorted d.pipelines)))
