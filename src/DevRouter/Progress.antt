-- ===== src/DevRouter/Progress.antt =====
-- The invariant of a stored pipeline, and what one call of a job may do to it.
use ponko.Common.{
  ℕ, ◌≤◌, ◌<◌, String, ◌≡◌, List, Bool, true, false, ◌&&◌, some, ltb, nat_eq, all, length, arith,
}
use ponko.Effect.{Result, ok, err}
use ponko.Pipeline.{
  Stage, fanout, executing, validating, awaiting_approval, completed, Story, Pipeline,
}
use ponko.Pipeline.Graph.{◌⟶◌, ◌⟶*◌, here, next}
use ponko.PipelineStore.{find}
use ponko.Orchestrator.{Tables, Env}
use ponko.DevRouter.Planning.{is_complete}

-- A plan of `count` stories, at least one, each with all its fields.
abbrev pub is_plan : Result (List Story) → ℕ → Bool
is_plan (ok stories) count = nat_eq (length stories) count && ltb 0 count && all is_complete stories
is_plan (err e) count = false

-- The stages behind the execution.
abbrev pub is_past_execution : Stage → Bool
is_past_execution validating = true
is_past_execution awaiting_approval = true
is_past_execution completed = true
is_past_execution _ = false

-- The stages from the fan-out to the end.
abbrev pub has_plan : Stage → Bool
has_plan fanout = true
has_plan executing = true
has_plan s = is_past_execution s

module _ (env : Env) where
  pub record IsValid (p : Pipeline) : Type 0 where
    -- From the fan-out on, the stored plan parses to as many complete stories as the count says.
    pub planned :
        has_plan p.stage ≡ true → is_plan (env.parse_plan p.plan_output) p.story_count ≡ true
    -- The story that is next exists, and those before it are counted.
    pub next_exists : p.stage ≡ executing → p.current_story_index < p.story_count
    pub counted : p.stage ≡ executing → p.current_story_index ≤ p.stories_completed
    -- Behind the execution every story of the plan is counted.
    pub finished : is_past_execution p.stage ≡ true → p.story_count ≤ p.stories_completed

  -- A pipeline that has come from `p` along the diagram, and is valid.
  pub record ComesFrom (p q : Pipeline) : Type 0 where
    pub valid : IsValid q
    pub reached : p.stage ⟶* q.stage

  -- Every row of the table is valid.
  abbrev pub AllValid : Tables → Type 0
  AllValid d = (id : String) (p : Pipeline) → find id d ≡ some p → IsValid p

-- Steps along the diagram between two values of a pipeline.
pub stays : {s t u : Stage} → t ≡ s → u ≡ s → t ⟶* u
stays ht hu = rw (ht, hu) here

pub moves : {s s' t u : Stage} → t ≡ s → u ≡ s' → s ⟶ s' → t ⟶* u
moves ht hu edge = rw (ht, hu) (next edge here)

module _ (env : Env) where
  -- A stage before the fan-out, and a failure, ask for nothing.
  pub IsValid-of_no_plan : (p : Pipeline) → has_plan p.stage ≡ false → IsValid env p
  IsValid-of_no_plan p h = ground arith
