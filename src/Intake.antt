-- ===== src/Intake.antt =====
-- internal/intake/github.go: issues, labels, comments and approvals through the gh command.
-- fmt.Sprintf("%d", …), strings.TrimSpace and the expansion of a repository's path are parameters.
pub mod Verdict
use ponko.Common.{
  ℕ, zero, suc, String, List, [], ◌∷◌, ◌++◌, Option, none, some, Bool, true, false, ◌||◌, ◌==◌, ◌⧺◌,
  is_empty, get_elem?, length, if◌then◌else◌,
}
use ponko.Effect.{Result, ok, err, pure, lift, with_context, ◌>>=◌, ◌>>◌}
use ponko.Orchestrator.{
  M, Env, Approval, waiting, approved, rejected, GhIssue, Label, Repo, Task, queued, run_command,
}
use ponko.Config.{Config, lookup}
use ponko.DevRouter.Ingress.{label_names}
use ponko.DevRouter.Intake.{slug}

unfoldable pub carries : String → List Label → Bool
carries name [] = false
carries name (l ∷ labels) = l.name == name || carries name labels

abbrev pub or_approved : Option String → String
or_approved none = "ponko-runner:approved"
or_approved (some label) = label

-- The label of the gate "approval", if there is such a gate.
abbrev pub approval_label : Config → String
approval_label cfg = or_approved (lookup "approval" cfg.gates)

abbrev pub task_of : String → GhIssue → Task
task_of repo_slug issue = record {
  updated_at = 0;
  created_at = 0;
  locked_at = none;
  status = queued;
  block_reason = "";
  issue_url = issue.url;
  body = issue.body;
  workflow = "";
  id = "";
  phase = "";
  title = issue.title;
  repo = repo_slug;
  last_error = "";
  locked_by = "";
  labels = label_names issue.labels;
  cost_usd = 0;
  issue_number = issue.number;
  attempts = 0;
}

abbrev tasks_of : String → List GhIssue → List Task
tasks_of repo_slug [] = []
tasks_of repo_slug (issue ∷ issues) = task_of repo_slug issue ∷ tasks_of repo_slug issues

-- `return` leaves the loop at the first command.
abbrev or_else : Approval → Option Approval → Approval
or_else rest none = rest
or_else rest (some a) = a

module _ (trim_space : String → String) where
  -- What one comment says, if it is a command.
  unfoldable pub command : String → Option Approval
  command body =
      if trim_space body == "/approve"
      then some approved
      else if trim_space body == "/reject"
      then some rejected
      else none

  abbrev command_at : Option String → Option Approval
  command_at none = none
  command_at (some body) = command body

  -- The loop from the last comment backwards, `idx + 1` comments to go.
  unfoldable pub scan_comments : ℕ → List String → Approval
  unfolding command
  scan_comments zero comments = waiting
  scan_comments (suc idx) comments =
      or_else (scan_comments idx comments) (command_at (get_elem? comments idx))

  unfoldable pub judge : Config → List String × List Label → Approval
  unfolding carries scan_comments
  judge cfg (comments, labels) =
      if carries (approval_label cfg) labels
      then approved
      else scan_comments (length comments) comments

module _ (env : Env) (trim_space : String → String) (cfg : Config) where
  unfoldable pub view_label : String → String → M Bool
  unfolding carries
  view_label issue_url label = do
    out ←
        with_context ("gh issue view " ⧺ issue_url)
          (run_command env "" ("issue" ∷ "view" ∷ issue_url ∷ "--json" ∷ "labels" ∷ []))
    issue ← with_context ("parse labels for " ⧺ issue_url) (lift (env.parse_issue out))
    pure (carries label issue.labels)

  unfoldable pub comment_on : String → String → M (Unit {0})
  comment_on issue_url body = do
    with_context ("gh issue comment " ⧺ issue_url)
        (run_command env "" ("issue" ∷ "comment" ∷ issue_url ∷ "--body" ∷ body ∷ []))
    pure tt

  unfoldable pub view_approval : String → M Approval
  unfolding judge
  view_approval issue_url = do
    out ←
        with_context ("gh issue view " ⧺ issue_url)
          (run_command env "" ("issue" ∷ "view" ∷ issue_url ∷ "--json" ∷ "comments,labels" ∷ []))
    discussion ← with_context ("parse comments for " ⧺ issue_url) (lift (env.parse_discussion out))
    pure (judge trim_space cfg discussion)

module _ (env : Env) (decimal : ℕ → String) (repo_path : String → String) (cfg : Config) where
  poll_one : Repo → M (List Task)
  poll_one repo = do
    out ← with_context ("gh issue list " ⧺ slug repo) (
        run_command env (repo_path (slug repo)) (
          "issue"
          ∷ "list"
          ∷ "--repo"
          ∷ slug repo
          ∷ "--label"
          ∷ cfg.intake_label
          ∷ "--json"
          ∷ "url,number,title,labels,body"
          ∷ "--limit"
          ∷ "50"
          ∷ []))
    issues ← with_context ("parse gh output for " ⧺ slug repo) (lift (env.parse_issues out))
    pure (tasks_of (slug repo) issues)

  unfoldable pub poll_repos : List Repo → M (List Task)
  unfolding poll_one
  poll_repos [] = pure []
  poll_repos (repo ∷ repos) = do here ← poll_one repo; rest ← poll_repos repos; pure (here ++ rest)

  unfoldable pub poll_raw : M (List Task)
  unfolding poll_repos
  poll_raw = poll_repos cfg.repos

  unfoldable pub mark_in_progress : Task → M (Unit {0})
  mark_in_progress t =
      if is_empty cfg.state_labels.in_progress
      then pure tt
      else with_context ("mark issue " ⧺ t.issue_url ⧺ " in progress") (
          run_command env (repo_path t.repo) (
            "issue"
            ∷ "edit"
            ∷ "--repo"
            ∷ t.repo
            ∷ decimal t.issue_number
            ∷ "--add-label"
            ∷ cfg.state_labels.in_progress
            ∷ "--remove-label"
            ∷ cfg.intake_label
            ∷ [])
          >> pure tt)
