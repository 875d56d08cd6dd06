-- ===== src/Examples/Config.antt =====
-- A configuration with one repository and one workflow, its load, and its workflow's phases.
use ponko.Common.{String, ◌≡◌, refl, [], ◌∷◌, some, true, false}
use ponko.Effect.{Result, ok}
use ponko.Config.{Config, Phase, Workflow, apply_defaults}
use ponko.Config.Load.{load, validate}
use ponko.Config.Load.Usable.{IsUsable, load-IsUsable}
use ponko.Worker.{current_phase, next_phase}
use ponko.Worker.Phases.{next_phase-get_elem?, HasDistinctNames}

abbrev pub build : Phase
build = record {
  name = "build";
  skill = "fix";
  gate = "review";
  model = "";
  provider = "";
  approval = false;
}

abbrev pub wrap_up : Phase
wrap_up = record {
  name = "wrap-up";
  skill = "";
  gate = "";
  model = "";
  provider = "";
  approval = true;
}

abbrev pub workflow : Workflow
workflow = record { runtime = "claude"; phases = build ∷ wrap_up ∷ [] }

abbrev pub raw : Config
raw = record {
  workflows = ("default", workflow) ∷ [];
  gates = ("review", "reviewed") ∷ [];
  dev_router = record {
    classification_model = "";
    planning_model = "";
    execution_model = "";
    intake_label = "";
    max_stories = 0;
    max_retries = 0;
  };
  state_labels = record { in_progress = ""; blocked = ""; done = "" };
  intake_label = "";
  project = "";
  repos = record { owner = "o"; name = "r"; path = "~/r" } ∷ [];
  rules = record { workflow = "default"; labels = [] } ∷ [];
  groom = record {
    default_model = "";
    synthesis_model = "";
    projects = record { name = "p"; repo = "o/r" } ∷ [];
    max_budget_usd = 0;
    step_timeout = 0;
    max_turns = 0;
    interval = 0;
  };
  budget = record { per_run_usd = 0; per_day_usd = 0; per_task_usd = 0 };
  max_active_tasks = 0;
  lock_ttl_seconds = 0;
}

abbrev read_file : String → Result String
read_file path = ok "text"

abbrev unmarshal : String → Result Config
unmarshal text = ok raw

loads : load read_file unmarshal "ponko.yaml" ≡ ok (apply_defaults raw)
unfolding load validate apply_defaults
loads = refl

load-IsUsable_example : IsUsable (apply_defaults raw)
load-IsUsable_example = load-IsUsable read_file unmarshal "ponko.yaml" (apply_defaults raw) loads

distinct : HasDistinctNames workflow.phases
distinct = (((λ e. cc), tt), (tt, tt))

next_phase-get_elem?_example :
    (current_phase workflow "build" ≡ some build) × (next_phase workflow "build" ≡ some wrap_up)
next_phase-get_elem?_example = next_phase-get_elem? workflow 0 build distinct refl refl
