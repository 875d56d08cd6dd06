-- ===== src/Examples/World.antt =====
-- A host whose database never fails, an agent that answers a plan of one story, and a table.
use ponko.Common.{subst, select-one, ◌+◌, [], ◌∷◌, some, none, true}
use ponko.Effect.{Host, ok, World}
use ponko.Pipeline.{Story, Pipeline}
use ponko.PipelineStore.{pipeline_id}
use ponko.Orchestrator.{Env, Tables, Call, approved, GhIssue}
use ponko.DevRouter.Planning.Sound.{PlanRoundTrip}
use ponko.DevRouter.Progress.{IsValid, AllValid}
use ponko.DevRouter.Intake.{pipeline_of}
use ponko.Examples.Codec.{read_plan, print_plan, read-print_plan}

abbrev pub host : Host
host = record { clock = λ n. 1000 + n; uuid = λ n. "new"; db_fault = λ n. none }

abbrev pub one_story : Story
one_story = record {
  title = "Fix";
  description = "Fix the typo";
  success_criteria = "Tests pass" ∷ [];
}

abbrev pub issue : GhIssue
issue = record { url = "u/1"; title = "Typo"; body = "In the docs"; labels = []; number = 1 }

abbrev pub env : Env
env = record {
  host = host;
  date_of = λ t. "2026-01-01";
  agent = λ n req. ok (some (record { output = print_plan (one_story ∷ []); cost_usd = 5 }));
  ci = λ n repo branch. ok "green";
  approval = λ n url. ok approved;
  label = λ n url name. ok true;
  insert_job = λ n job. ok tt;
  run_gh = λ n dir args. ok "out";
  parse_classification = λ s. ok ("fix", "small");
  parse_plan = read_plan;
  marshal_plan = print_plan;
  parse_issue = λ s. ok issue;
  parse_issues = λ s. ok (issue ∷ []);
  parse_discussion = λ s. ok ("looks good" ∷ "/reject" ∷ "/approve" ∷ "thanks" ∷ [], []);
}

pub codec : PlanRoundTrip env
codec = read-print_plan

abbrev pub new_pipeline : Pipeline
new_pipeline = record (pipeline_of "o/r" issue) { id = "p1" }

abbrev pub one_pipeline : Pipeline → Tables
one_pipeline p = record { pipelines = p ∷ []; usage = []; tasks = [] }

pub AllValid-one_pipeline : (p : Pipeline) → IsValid env p → AllValid env (one_pipeline p)
AllValid-one_pipeline p h id q e = subst (IsValid env) (select-one pipeline_id id p q e) h

abbrev pub world : Tables → World Tables Call
world d = record { tick = 0; trace = []; tables = d }
