-- ===== src/DevRouter/Intake.antt =====
-- internal/devrouter/intake.go: labelled issues become pipelines. Log lines are not modelled.
pub mod Grown
pub mod Poll
pub mod DryRun
use ponko.Common.{ℕ, ◌+◌, String, List, [], ◌∷◌, Option, none, some, Bool, ◌⧺◌, if◌then◌else◌}
use ponko.Effect.{Result, ok, err, lift, pure, with_context, attempt, ◌>>=◌, ◌>>◌}
use ponko.Pipeline.{Track, pending, Pipeline}
use ponko.PipelineStore.{create, get_by_issue_url}
use ponko.Orchestrator.{M, Env, GhIssue, Repo, run_command}

-- The struct literal, the other fields zero.
abbrev pub pipeline_of : String → GhIssue → Pipeline
pipeline_of repo_slug issue = record {
  updated_at = 0;
  created_at = 0;
  classification_rationale = "";
  task_id = "";
  issue_url = issue.url;
  repo = repo_slug;
  id = "";
  issue_title = issue.title;
  issue_body = issue.body;
  track = Track.other "";
  stage = pending;
  plan_output = "";
  issue_number = issue.number;
  pr_number = 0;
  current_story_index = 0;
  cost_usd = 0;
  stories_completed = 0;
  story_count = 0;
}

abbrev pub slug : Repo → String
slug repo = repo.owner ⧺ "/" ⧺ repo.name

-- fmt.Sprintf("%d", …) is the parameter `decimal`.
module _ (env : Env) (decimal : ℕ → String) (intake_label : String) (dry_run : Bool) where
  create_pipeline : Repo → GhIssue → M ℕ
  create_pipeline repo issue = do
    with_context ("create pipeline for " ⧺ slug repo ⧺ "#" ⧺ decimal issue.number)
        (create env (pipeline_of (slug repo) issue))
    attempt (
        run_command env repo.path (
          "issue"
          ∷ "edit"
          ∷ decimal issue.number
          ∷ "--repo"
          ∷ slug repo
          ∷ "--remove-label"
          ∷ intake_label
          ∷ []))
    pure 1

  if_new : Repo → GhIssue → Option Pipeline → M ℕ
  unfolding create_pipeline
  if_new repo issue (some existing) = pure 0
  if_new repo issue none = if dry_run then pure 0 else create_pipeline repo issue

  -- The body of the inner loop, with the number of pipelines that it creates.
  unfoldable pub poll_issue : Repo → GhIssue → M ℕ
  unfolding if_new
  poll_issue repo issue =
      with_context ("dedup check for " ⧺ issue.url) (get_by_issue_url env issue.url)
      >>= if_new repo issue

  -- The count so far goes back beside an error.
  after_issue : (ℕ → M (ℕ × Result (Unit {0}))) → ℕ → Result ℕ → M (ℕ × Result (Unit {0}))
  after_issue next created (ok n) = next (created + n)
  after_issue next created (err e) = pure (created, err e)

  unfoldable pub poll_issues : Repo → List GhIssue → ℕ → M (ℕ × Result (Unit {0}))
  unfolding after_issue
  poll_issues repo [] created = pure (created, ok tt)
  poll_issues repo (issue ∷ issues) created =
      attempt (poll_issue repo issue) >>= after_issue (poll_issues repo issues) created

  listed : Repo → M (List GhIssue)
  listed repo = do
    out ← with_context ("gh issue list " ⧺ slug repo) (
        run_command env repo.path (
          "issue"
          ∷ "list"
          ∷ "--repo"
          ∷ slug repo
          ∷ "--label"
          ∷ intake_label
          ∷ "--json"
          ∷ "url,number,title,body,labels"
          ∷ "--limit"
          ∷ "50"
          ∷ []))
    with_context ("parse gh output for " ⧺ slug repo) (lift (env.parse_issues out))

  with_issues : Repo → ℕ → Result (List GhIssue) → M (ℕ × Result (Unit {0}))
  with_issues repo created (ok issues) = poll_issues repo issues created
  with_issues repo created (err e) = pure (created, err e)

  unfoldable pub poll_repo : Repo → ℕ → M (ℕ × Result (Unit {0}))
  unfolding listed with_issues
  poll_repo repo created = attempt (listed repo) >>= with_issues repo created

  -- The loop over the repositories; `created` and the error of the one before.
  unfoldable pub poll_from : List Repo → ℕ × Result (Unit {0}) → M (ℕ × Result (Unit {0}))
  poll_from repos (created, err e) = pure (created, err e)
  poll_from [] (created, ok _) = pure (created, ok tt)
  poll_from (repo ∷ repos) (created, ok _) = poll_repo repo created >>= poll_from repos

  unfoldable pub poll_new_issues : List Repo → M (ℕ × Result (Unit {0}))
  unfolding poll_from
  poll_new_issues repos = poll_from repos (0, ok tt)
