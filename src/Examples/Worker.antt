-- ===== src/Examples/Worker.antt =====
-- The workers at a workflow with a gate.
use ponko.Common.{◌≡◌, refl, [], some, true, false}
use ponko.Effect.{World, ok}
use ponko.Orchestrator.{Env, Tables, Call, TaskPhaseArgs, ApprovalPollerArgs}
use ponko.Config.{lookup}
use ponko.Worker.{Deps, current_phase}
use ponko.Worker.Work.{work}
use ponko.Worker.Work.Gates.{IsHeld, work-IsHeld}
use ponko.Examples.World.{env, one_pipeline, new_pipeline, world}
use ponko.Examples.Config.{raw, workflow, build}

abbrev deps : Deps
deps = record {
  has_budget = true;
  has_bus = true;
  has_runtime = true;
  has_gate_checker = true;
  has_approval_checker = true;
  has_commenter = true;
  limits = record { per_run_usd = 5_000_000; per_day_usd = 20_000_000; per_task_usd = 3_000_000 };
}

-- With no money for one issue.
abbrev stingy : Deps
stingy = record deps {
  limits = record { per_run_usd = 5_000_000; per_day_usd = 20_000_000; per_task_usd = 0 };
}

abbrev args : TaskPhaseArgs
args = record {
  issue_url = "u/1";
  repo = "o/r";
  title = "Typo";
  body = "";
  workflow = "default";
  phase = "";
  labels = [];
  issue_number = 1;
  cost_usd = 0;
}

abbrev start : World Tables Call
start = world (one_pipeline new_pipeline)

-- A host whose issues have no label.
abbrev unlabelled : Env
unlabelled = record env { label = λ n url name. ok false }

workflow_found : lookup "default" raw.workflows ≡ some workflow
unfolding lookup
workflow_found = refl

phase_found : current_phase workflow "" ≡ some build
unfolding current_phase
phase_found = refl

work-IsHeld_example : IsHeld start (work unlabelled deps raw (λ s. s) "7" args start)
work-IsHeld_example =
    work-IsHeld unlabelled deps raw (λ s. s) "7" args workflow build refl workflow_found phase_found
      (λ e. cc) (λ label named n e. cc) start

abbrev poller_args : ApprovalPollerArgs
poller_args = record { issue_url = "u/1"; next_phase_args = args }
