-- ===== src/DevRouter/Intake/DryRun.antt =====
-- PollNewIssues in a dry run.
use ponko.Common.{ℕ, ◌+◌, String, ◌≡◌, refl, List, [], ◌∷◌, Option, none, some, true}
use ponko.Effect.{Result, ok, err, World}
use ponko.Effect.Keeps.{
  Keeps, Keeps-pure, Keeps-lift, Keeps-ask, Keeps-with_context, Keeps-attempt, Keeps-bind,
  Keeps-query_db,
}
use ponko.Pipeline.{Pipeline}
use ponko.PipelineStore.{get_by_issue_url}
use ponko.Orchestrator.{Tables, Call, M, Env, GhIssue, Repo, run_command}
use ponko.DevRouter.Intake.{
  if_new, poll_issue, after_issue, poll_issues, listed, with_issues, poll_repo, poll_from,
  poll_new_issues,
}

module _ (env : Env) (decimal : ℕ → String) (intake_label : String) {P : Tables → Type 0} where
  if_new-Keeps :
      (repo : Repo) (issue : GhIssue) (o : Option Pipeline)
      → Keeps P (if_new env decimal intake_label true repo issue o)
  unfolding if_new
  if_new-Keeps repo issue none = Keeps-pure 0
  if_new-Keeps repo issue (some p) = Keeps-pure 0

  after_issue-Keeps :
      (next : ℕ → M (ℕ × Result (Unit {0}))) (created : ℕ)
      → ((n : ℕ) → Keeps P (next n))
      → (r : Result ℕ) → Keeps P (after_issue env decimal intake_label true next created r)
  unfolding after_issue
  after_issue-Keeps next created k (ok n) = k (created + n)
  after_issue-Keeps next created k (err e) = Keeps-pure _

  poll_issues-Keeps :
      (repo : Repo) (issues : List GhIssue) (created : ℕ)
      → Keeps P (poll_issues env decimal intake_label true repo issues created)
  unfolding poll_issues poll_issue get_by_issue_url
  poll_issues-Keeps repo [] created = Keeps-pure _
  poll_issues-Keeps repo (issue ∷ issues) created =
      Keeps-bind
        (Keeps-attempt
          (Keeps-bind (Keeps-with_context _ (Keeps-query_db env.host _)) (if_new-Keeps repo issue)))
        (after_issue-Keeps _ created (poll_issues-Keeps repo issues))

  with_issues-Keeps :
      (repo : Repo) (created : ℕ) (r : Result (List GhIssue))
      → Keeps P (with_issues env decimal intake_label true repo created r)
  unfolding with_issues
  with_issues-Keeps repo created (ok issues) = poll_issues-Keeps repo issues created
  with_issues-Keeps repo created (err e) = Keeps-pure _

  poll_from-Keeps :
      (repos : List Repo) (sofar : ℕ × Result (Unit {0}))
      → Keeps P (poll_from env decimal intake_label true repos sofar)
  unfolding poll_from poll_repo listed run_command
  poll_from-Keeps repos (created, err e) = Keeps-pure _
  poll_from-Keeps [] (created, ok _) = Keeps-pure _
  poll_from-Keeps (repo ∷ repos) (created, ok _) =
      Keeps-bind
        (Keeps-bind
          (Keeps-attempt (
            Keeps-bind (Keeps-with_context _ (Keeps-ask _ _))
              λ out. Keeps-with_context _ (Keeps-lift _)))
          (with_issues-Keeps repo created))
        (poll_from-Keeps repos)

-- A dry run of PollNewIssues writes nothing.
pub poll_new_issues_dry_run :
    (env : Env) (decimal : ℕ → String) (intake_label : String) (repos : List Repo)
    (w : World Tables Call)
    → (poll_new_issues env decimal intake_label true repos w).1.tables ≡ w.tables
unfolding poll_new_issues
poll_new_issues_dry_run env decimal intake_label repos w =
    (poll_from-Keeps env decimal intake_label {P = λ d. d ≡ w.tables} repos (0, ok tt)).at w refl
