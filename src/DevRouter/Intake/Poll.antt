-- ===== src/DevRouter/Intake/Poll.antt =====
-- The count of PollNewIssues, and its return.
use ponko.Common.{ℕ, ◌+◌, String, ◌≡◌, refl, List, [], ◌∷◌, Option, none, some, Bool, sym, ap}
use mathlib.Core.List.{append-nil}
use ponko.Effect.{Result, ok, err, done, World}
use ponko.Effect.Triple.{
  Triple, Triple-weaken, Triple-on_fail, Triple-pure, Triple-lift, Triple-ask, Triple-with_context,
  Triple-bind, Triple-attempt_result, Triple-attempt, Settled,
}
use ponko.Pipeline.{Pipeline}
use ponko.PipelineStore.{create, get_by_issue_url}
use ponko.Orchestrator.{Tables, Call, M, Env, GhIssue, Repo, run_command}
use ponko.DevRouter.Intake.{
  create_pipeline, if_new, poll_issue, after_issue, poll_issues, listed, with_issues, poll_repo,
  poll_from, poll_new_issues,
}
use ponko.Effect.Total.{
  NoPanic, Completes, NoPanic-pure, NoPanic-lift, NoPanic-ask, NoPanic-if, NoPanic-with_context,
  NoPanic-bind, NoPanic-now, NoPanic-new_uuid, NoPanic-query_db, NoPanic-statement_db,
  Completes-pure, Completes-attempt, Completes-bind, NoPanic-of_Completes, After-done,
}
use ponko.DevRouter.Intake.Grown.{HasDistinctUrls, Grown, poll_issue-Grown}

module _ (env : Env) (decimal : ℕ → String) (intake_label : String) (dry_run : Bool)
    (start : Tables) where
  -- A count and the tables that go with it.
  abbrev Counts : ℕ × Result (Unit {0}) → Tables → Type 0
  Counts r = Grown start r.0

  abbrev Any : Tables → Type 0
  Any d = Unit

  after_issue-Counts :
      (next : ℕ → M (ℕ × Result (Unit {0}))) (created : ℕ)
      → ((n : ℕ) → Triple (Grown start n) (next n) Counts Any)
      → (r : Result ℕ)
      → Triple
          (Settled (λ n. Grown start (created + n)) (Grown start created) r)
          (after_issue env decimal intake_label dry_run next created r)
          Counts
          Any
  unfolding after_issue
  after_issue-Counts next created k (ok n) = k (created + n)
  after_issue-Counts next created k (err e) = Triple-pure _ (λ d g. g)

  poll_issues-Counts :
      (repo : Repo) (issues : List GhIssue) (created : ℕ)
      → Triple
          (Grown start created)
          (poll_issues env decimal intake_label dry_run repo issues created)
          Counts
          Any
  unfolding poll_issues
  poll_issues-Counts repo [] created = Triple-pure _ (λ d g. g)
  poll_issues-Counts repo (issue ∷ issues) created =
      Triple-bind
        (Triple-on_fail (λ d _. tt)
          (Triple-attempt_result
            (poll_issue-Grown env decimal intake_label dry_run start created repo issue)))
        (after_issue-Counts _ created (poll_issues-Counts repo issues))

  listed-Grown :
      (created : ℕ) (repo : Repo)
      → Triple
          (Grown start created)
          (listed env decimal intake_label dry_run repo)
          (λ _. Grown start created)
          (Grown start created)
  unfolding listed run_command
  listed-Grown created repo = Triple-bind (Triple-with_context _ (Triple-ask _ _)) λ out.
      Triple-with_context _ (Triple-weaken (λ d g. g) (λ _ d h. h.0) (λ d g. g) (Triple-lift _))

  with_issues-Counts :
      (repo : Repo) (created : ℕ) (r : Result (List GhIssue))
      → Triple
          (Grown start created)
          (with_issues env decimal intake_label dry_run repo created r)
          Counts
          Any
  unfolding with_issues
  with_issues-Counts repo created (ok issues) = poll_issues-Counts repo issues created
  with_issues-Counts repo created (err e) = Triple-pure _ (λ d g. g)

  poll_repo-Counts :
      (repo : Repo) (created : ℕ)
      → Triple
          (Grown start created)
          (poll_repo env decimal intake_label dry_run repo created)
          Counts
          Any
  unfolding poll_repo
  poll_repo-Counts repo created =
      Triple-bind (Triple-on_fail (λ d _. tt) (Triple-attempt (listed-Grown created repo)))
        (with_issues-Counts repo created)

  poll_from-Counts :
      (repos : List Repo) (sofar : ℕ × Result (Unit {0}))
      → Triple (Counts sofar) (poll_from env decimal intake_label dry_run repos sofar) Counts Any
  unfolding poll_from
  poll_from-Counts repos (created, err e) = Triple-pure _ (λ d g. g)
  poll_from-Counts [] (created, ok _) = Triple-pure _ (λ d g. g)
  poll_from-Counts (repo ∷ repos) (created, ok _) =
      Triple-bind (poll_repo-Counts repo created) (poll_from-Counts repos)

module _ (env : Env) (decimal : ℕ → String) (intake_label : String) (dry_run : Bool) where
  if_new-NoPanic :
      (repo : Repo) (issue : GhIssue) (o : Option Pipeline)
      → NoPanic (if_new env decimal intake_label dry_run repo issue o)
  unfolding if_new create_pipeline create run_command
  if_new-NoPanic repo issue (some p) = NoPanic-pure 0
  if_new-NoPanic repo issue none = NoPanic-if dry_run (NoPanic-pure 0) (
      NoPanic-bind
        (NoPanic-with_context _ (
          NoPanic-bind (NoPanic-new_uuid env.host) λ id. NoPanic-bind (NoPanic-now env.host) λ t.
            NoPanic-bind (NoPanic-with_context _ (NoPanic-statement_db env.host _))
              λ _. NoPanic-pure _))
        λ _.
          NoPanic-bind (NoPanic-of_Completes (Completes-attempt (NoPanic-ask _ _)))
            λ _. NoPanic-pure 1)

  poll_issue-NoPanic :
      (repo : Repo) (issue : GhIssue)
      → NoPanic (poll_issue env decimal intake_label dry_run repo issue)
  unfolding poll_issue get_by_issue_url
  poll_issue-NoPanic repo issue =
      NoPanic-bind (NoPanic-with_context _ (NoPanic-query_db env.host _))
        (if_new-NoPanic repo issue)

  after_issue-Completes :
      (next : ℕ → M (ℕ × Result (Unit {0}))) (created : ℕ)
      → ((n : ℕ) → Completes (next n))
      → (r : Result ℕ) → Completes (after_issue env decimal intake_label dry_run next created r)
  unfolding after_issue
  after_issue-Completes next created k (ok n) = k (created + n)
  after_issue-Completes next created k (err e) = Completes-pure _

  poll_issues-Completes :
      (repo : Repo) (issues : List GhIssue) (created : ℕ)
      → Completes (poll_issues env decimal intake_label dry_run repo issues created)
  unfolding poll_issues
  poll_issues-Completes repo [] created = Completes-pure _
  poll_issues-Completes repo (issue ∷ issues) created =
      Completes-bind (Completes-attempt (poll_issue-NoPanic repo issue))
        (after_issue-Completes _ created (poll_issues-Completes repo issues))

  with_issues-Completes :
      (repo : Repo) (created : ℕ) (r : Result (List GhIssue))
      → Completes (with_issues env decimal intake_label dry_run repo created r)
  unfolding with_issues
  with_issues-Completes repo created (ok issues) = poll_issues-Completes repo issues created
  with_issues-Completes repo created (err e) = Completes-pure _

  poll_from-Completes :
      (repos : List Repo) (sofar : ℕ × Result (Unit {0}))
      → Completes (poll_from env decimal intake_label dry_run repos sofar)
  unfolding poll_from poll_repo listed run_command
  poll_from-Completes repos (created, err e) = Completes-pure _
  poll_from-Completes [] (created, ok _) = Completes-pure _
  poll_from-Completes (repo ∷ repos) (created, ok _) =
      Completes-bind
        (Completes-bind
          (Completes-attempt (
            NoPanic-bind (NoPanic-with_context _ (NoPanic-ask _ _))
              λ out. NoPanic-with_context _ (NoPanic-lift _)))
          (with_issues-Completes repo created))
        (poll_from-Completes repos)

  -- From a table in which no two pipelines are for the same issue PollNewIssues always returns a
  -- count, whatever fails, and a table of the old rows as they were and as many new ones as it counts,
  -- each pending, in which again no two pipelines are for the same issue; nothing else is written.
  pub poll_new_issues-Grown :
      (repos : List Repo) (w : World Tables Call)
      → HasDistinctUrls w.tables.pipelines
      → (r : ℕ × Result (Unit {0})) × ((poll_new_issues env decimal intake_label dry_run repos w).0
          ≡ done r)
        × Grown w.tables r.0 (poll_new_issues env decimal intake_label dry_run repos w).1.tables
  unfolding poll_new_issues
  poll_new_issues-Grown repos w distinct =
      let (r, e) = (poll_from-Completes repos (0, ok tt)).at w in
      let none_yet : Grown w.tables 0 w.tables = record {
        added = [];
        grown = ap (λ ps. record w.tables { pipelines = ps }) (sym (append-nil w.tables.pipelines));
        counted = refl;
        fresh = tt;
        distinct = distinct;
      } in
      (
        r,
        e,
        After-done (Counts env decimal intake_label dry_run w.tables)
            (Any env decimal intake_label dry_run w.tables)
            (poll_from env decimal intake_label dry_run repos (0, ok tt) w) r
            ((poll_from-Counts env decimal intake_label dry_run w.tables repos (0, ok tt)).at w
              none_yet)
            e,
      )
