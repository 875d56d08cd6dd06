-- ===== src/Pipeline.antt =====
-- internal/devrouter/pipeline.go: the stages of a pipeline and the edges between them.
-- A Go `Stage` or `Track` is a string; `other s` stands for a string that is none of the constants.
-- Times are nanoseconds since Go's zero time, and costs are micro-dollars.
pub mod Graph
use ponko.Common.{
  ℕ, String, Bool, true, false, List, [], ◌∷◌, Option, none, some, ◌==◌, ◌⧺◌, is_empty, ◌||◌,
  if◌then◌else◌,
}
use ponko.Effect.{Err, errorf, Result, ok, err}

pub data Stage : Type 0 where
  pending classifying planning fanout executing validating awaiting_approval : Stage
  completed failed : Stage
  other : String → Stage

pub data Track : Type 0 where
  fix rpi ralph : Track
  other : String → Track

abbrev pub stage_string : Stage → String
stage_string pending = "pending"
stage_string classifying = "classifying"
stage_string planning = "planning"
stage_string fanout = "fanout"
stage_string executing = "executing"
stage_string validating = "validating"
stage_string awaiting_approval = "awaiting_approval"
stage_string completed = "completed"
stage_string failed = "failed"
stage_string (Stage.other s) = s

abbrev pub track_string : Track → String
track_string fix = "fix"
track_string rpi = "rpi"
track_string ralph = "ralph"
track_string (Track.other s) = s

-- Go's `s == t` on stages.
unfoldable pub stage_eq : Stage → Stage → Bool
stage_eq pending pending = true
stage_eq classifying classifying = true
stage_eq planning planning = true
stage_eq fanout fanout = true
stage_eq executing executing = true
stage_eq validating validating = true
stage_eq awaiting_approval awaiting_approval = true
stage_eq completed completed = true
stage_eq failed failed = true
stage_eq (Stage.other s) (Stage.other t) = s == t
stage_eq _ _ = false

-- `none`: the stage is no key of the map.
unfoldable pub valid_stage_transitions : Stage → Option (List Stage)
valid_stage_transitions pending = some (classifying ∷ [])
valid_stage_transitions classifying = some (planning ∷ [])
valid_stage_transitions planning = some (fanout ∷ [])
valid_stage_transitions fanout = some (executing ∷ [])
valid_stage_transitions executing = some (validating ∷ failed ∷ [])
valid_stage_transitions validating = some (awaiting_approval ∷ failed ∷ [])
valid_stage_transitions awaiting_approval = some (completed ∷ failed ∷ [])
valid_stage_transitions completed = some []
valid_stage_transitions failed = some []
valid_stage_transitions (Stage.other s) = none

unfoldable pub is_allowed : Stage → List Stage → Bool
unfolding stage_eq
is_allowed to [] = false
is_allowed to (s ∷ allowed) = stage_eq s to || is_allowed to allowed

check_allowed : Stage → Stage → Option (List Stage) → Result (Unit {0})
check_allowed from to none = err (errorf ("unknown stage: " ⧺ stage_string from))
check_allowed from to (some allowed) =
    if is_allowed to allowed
    then ok tt
    else err
        (errorf ("invalid pipeline transition: " ⧺ stage_string from ⧺ " → " ⧺ stage_string to))

unfoldable pub validate_transition : Stage → Stage → Result (Unit {0})
unfolding check_allowed valid_stage_transitions is_allowed
validate_transition from to = check_allowed from to (valid_stage_transitions from)

pub record Story : Type 0 where
  pub title : String
  pub description : String
  pub success_criteria : List String

pub record Pipeline : Type 0 where
  pub updated_at : ℕ
  pub created_at : ℕ
  pub classification_rationale : String
  pub task_id : String
  pub issue_url : String
  pub repo : String
  pub id : String
  pub issue_title : String
  pub issue_body : String
  pub track : Track
  pub stage : Stage
  pub plan_output : String
  pub issue_number : ℕ
  pub pr_number : ℕ
  pub current_story_index : ℕ
  pub cost_usd : ℕ
  pub stories_completed : ℕ
  pub story_count : ℕ
