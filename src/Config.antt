-- ===== src/Config.antt =====
-- internal/config/config.go: the configuration, its defaults, its validation. A Go map is the list
-- of its pairs; the order in which Validate walks through one, which Go leaves open, is the list's.
-- The decoding of YAML is a parameter.
pub mod Load
use text.Mathlib.Text.{starts_with}
use Prim.Native.String.{len, slice}
use ponko.Common.{
  ℕ, zero, suc, String, List, [], ◌∷◌, ◌++◌, Option, none, some, Bool, true, false, not, ◌&&◌, ◌||◌,
  ◌==◌, ◌⧺◌, is_empty, nat_eq, if◌then◌else◌,
}
use ponko.Effect.{Err, errorf, errorn, wrap, Result, ok, err}
use ponko.Orchestrator.{Repo, Budget, DevRouterConfig}

pub record Phase : Type 0 where
  pub name : String
  pub skill : String
  pub gate : String
  pub model : String
  pub provider : String
  pub approval : Bool

pub record Workflow : Type 0 where
  pub runtime : String
  pub phases : List Phase

-- `labels` is Match.Labels.
pub record Rule : Type 0 where
  pub workflow : String
  pub labels : List String

pub record GroomProject : Type 0 where
  pub name : String
  pub repo : String

-- Durations are nanoseconds.
pub record GroomConfig : Type 0 where
  pub default_model : String
  pub synthesis_model : String
  pub projects : List GroomProject
  pub max_budget_usd : ℕ
  pub step_timeout : ℕ
  pub max_turns : ℕ
  pub interval : ℕ

pub record StateLabels : Type 0 where
  pub in_progress : String
  pub blocked : String
  pub done : String

pub record Config : Type 0 where
  pub workflows : List (String × Workflow)
  pub gates : List (String × String)
  pub dev_router : DevRouterConfig
  pub state_labels : StateLabels
  pub intake_label : String
  pub project : String
  pub repos : List Repo
  pub rules : List Rule
  pub groom : GroomConfig
  pub budget : Budget
  pub max_active_tasks : ℕ
  pub lock_ttl_seconds : ℕ

-- `v, ok := m[k]`
unfoldable pub lookup : {A : Type 0} → String → List (String × A) → Option A
lookup k [] = none
lookup k ((name, a) ∷ rest) = if name == k then some a else lookup k rest

-- os.UserHomeDir and filepath.Join are parameters.
module _ (user_home : Result String) (join_path : String → String → String) where
  abbrev under_home : String → Result String → String
  under_home path (err e) = path
  under_home path (ok home) = if path == "~" then home else join_path home (slice path 2 (len path))

  unfoldable pub expand_home : String → String
  expand_home path =
      if not (path == "~") && not (starts_with path "~/") then path else under_home path user_home

  unfoldable pub path_in : String → List Repo → String
  unfolding expand_home
  path_in name_or_slug [] = ""
  path_in name_or_slug (r ∷ repos) =
      if r.name == name_or_slug || (r.owner ⧺ "/" ⧺ r.name) == name_or_slug
      then expand_home r.path
      else path_in name_or_slug repos

  abbrev pub repo_path : Config → String → String
  repo_path cfg name_or_slug = path_in name_or_slug cfg.repos

abbrev or_nat : ℕ → ℕ → ℕ
or_nat zero default = default
or_nat (suc n) default = suc n

abbrev or_text : String → String → String
or_text s default = if is_empty s then default else s

unfoldable pub default_budget : Budget
default_budget = record {
  per_run_usd = 5_000_000;
  per_day_usd = 20_000_000;
  per_task_usd = 3_000_000;
}

unfoldable pub apply_defaults : Config → Config
apply_defaults cfg = record cfg {
  budget = record {
    per_run_usd = or_nat cfg.budget.per_run_usd 5_000_000;
    per_day_usd = or_nat cfg.budget.per_day_usd 20_000_000;
    per_task_usd = or_nat cfg.budget.per_task_usd 3_000_000;
  };
  max_active_tasks = or_nat cfg.max_active_tasks 3;
  intake_label = or_text cfg.intake_label "ponko-runner:ready";
  lock_ttl_seconds = or_nat cfg.lock_ttl_seconds 300;
  groom = record cfg.groom {
    max_budget_usd = or_nat cfg.groom.max_budget_usd 1_000_000;
    default_model = or_text cfg.groom.default_model "haiku";
    synthesis_model = or_text cfg.groom.synthesis_model "sonnet";
    max_turns = or_nat cfg.groom.max_turns 10;
    step_timeout = or_nat cfg.groom.step_timeout 300_000_000_000;
    interval = or_nat cfg.groom.interval 900_000_000_000;
  };
  dev_router = record {
    classification_model = or_text cfg.dev_router.classification_model "sonnet";
    planning_model = or_text cfg.dev_router.planning_model "sonnet";
    execution_model = or_text cfg.dev_router.execution_model "sonnet";
    max_stories = or_nat cfg.dev_router.max_stories 10;
    max_retries = or_nat cfg.dev_router.max_retries 3;
    intake_label = or_text cfg.dev_router.intake_label "ponko-runner:dev-router";
  };
}
