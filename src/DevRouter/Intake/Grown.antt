-- ===== src/DevRouter/Intake/Grown.antt =====
-- What PollNewIssues does to the table of pipelines.
use ponko.Common.{
  ℕ, ◌+◌, String, ◌≡◌, refl, ◌≢◌, List, [], ◌∷◌, ◌++◌, Option, none, some, Bool, arith, All, length,
  length-append, String-cases, eq_iff, sym, ◌∙◌, ap, subst, inl, inr,
}
use ponko.Effect.{ok}
use ponko.Effect.Triple.{
  Triple, Triple-on_fail, Triple-pure, Triple-with_context, Triple-bind, Triple-now,
  Triple-new_uuid, Triple-query_db, Triple-statement_db, Triple-if, Triple-attempt_ask,
}
use ponko.Pipeline.{Pipeline, pending}
use ponko.PipelineStore.{
  find, select_url, insert, fill_id, fill_times, insert_new, create, get_by_issue_url,
}
use ponko.Orchestrator.{Tables, Env, GhIssue, Repo, run_command}
use ponko.DevRouter.Intake.{pipeline_of, slug, create_pipeline, if_new, poll_issue}

-- No two pipelines are for the same issue.
abbrev pub HasDistinctUrls : List Pipeline → Type 0
HasDistinctUrls [] = Unit
HasDistinctUrls (p ∷ ps) = All (λ q. p.issue_url ≢ q.issue_url) ps × HasDistinctUrls ps

All-append :
    (P : Pipeline → Type 0) (ps : List Pipeline) (q : Pipeline)
    → All P ps
    → P q
    → All P (ps ++ q ∷ [])
All-append P [] q a h = (h, tt)
All-append P (p ∷ ps) q (x, a) h = (x, All-append P ps q a h)

HasDistinctUrls-append :
    (ps : List Pipeline) (q : Pipeline)
    → HasDistinctUrls ps
    → select_url q.issue_url ps ≡ none
    → HasDistinctUrls (ps ++ q ∷ [])
unfolding select_url
HasDistinctUrls-append [] q d new = (tt, tt)
HasDistinctUrls-append (p ∷ ps) q (fresh, d) new = elim (String-cases p.issue_url q.issue_url) [
  | inl same ↦ absurd (ground (arith, eq_iff p.issue_url q.issue_url))
  | inr other ↦
      let rest : select_url q.issue_url ps ≡ none =
        ground (arith, eq_iff p.issue_url q.issue_url) in
      (
        All-append (λ x. p.issue_url ≢ x.issue_url) ps q fresh other,
        HasDistinctUrls-append ps q d rest,
      )
]

-- After `created` pipelines are added to `start`: the old rows are as they were, the new ones are
-- pending, nothing else is written, and no issue has two pipelines.
pub record Grown (start : Tables) (created : ℕ) (d : Tables) : Type 0 where
  pub added : List Pipeline
  pub grown : d ≡ record start { pipelines = start.pipelines ++ added }
  pub counted : length added ≡ created
  pub fresh : All (λ p. p.stage ≡ pending) added
  pub distinct : HasDistinctUrls d.pipelines

append_one : (xs ys : List Pipeline) (q : Pipeline) → (xs ++ ys) ++ q ∷ [] ≡ xs ++ (ys ++ q ∷ [])
append_one [] ys q = refl
append_one (x ∷ xs) ys q = ap (λ r. x ∷ r) (append_one xs ys q)

insert-Grown :
    (start : Tables) (created : ℕ) (d : Tables) (q : Pipeline)
    → Grown start created d
    → select_url q.issue_url d.pipelines ≡ none
    → q.stage ≡ pending
    → Grown start (created + 1) (insert q d)
unfolding insert
insert-Grown start created d q g new is_new = record {
  added = g.added ++ q ∷ [];
  grown =
      rw g.grown
        (ap (λ ps. record start { pipelines = ps }) (append_one start.pipelines g.added q));
  counted = rw (length-append g.added (q ∷ []), g.counted) (omega arith);
  fresh = All-append (λ p. p.stage ≡ pending) g.added q g.fresh is_new;
  distinct = HasDistinctUrls-append d.pipelines q g.distinct new;
}

filled-url :
    (t : ℕ) (id : String) (p : Pipeline) → (fill_times t (fill_id id p)).issue_url ≡ p.issue_url
filled-url t id p = ground arith

filled-stage : (t : ℕ) (id : String) (p : Pipeline) → (fill_times t (fill_id id p)).stage ≡ p.stage
filled-stage t id p = ground arith

module _ (env : Env) (decimal : ℕ → String) (intake_label : String) (dry_run : Bool)
    (start : Tables) where
  abbrev New : ℕ → String → Tables → Type 0
  New created url d = Grown start created d × (select_url url d.pipelines ≡ none)

  insert_new-Grown :
      (created : ℕ) (q : Pipeline) (o : Option Pipeline) (d : Tables) (a : Unit {0}) (d' : Tables)
      → q.stage ≡ pending
      → New created q.issue_url d
      → insert_new q o d ≡ ok (a, d')
      → Grown start (created + 1) d'
  insert_new-Grown created q none d a d' is_new (g, new) e =
      let same : insert q d ≡ d' = ground arith in
      subst (Grown start (created + 1)) same (insert-Grown start created d q g new is_new)
  insert_new-Grown created q (some p) d a d' is_new h e = cc

  create-Grown :
      (created : ℕ) (p : Pipeline)
      → p.stage ≡ pending
      → Triple
          (New created p.issue_url)
          (create env p)
          (λ _. Grown start (created + 1))
          (Grown start created)
  unfolding create
  create-Grown created p is_new = Triple-bind (Triple-new_uuid env.host) λ id.
      Triple-bind (Triple-now env.host) λ t.
        let q = fill_times t (fill_id id p) in
        Triple-bind
          (Triple-on_fail (λ d h. h.0)
            (Triple-with_context _ (
              Triple-statement_db {Q = λ _. Grown start (created + 1)} env.host
                (λ d. insert_new q (find q.id d) d)
                (λ d a d' h e.
                  insert_new-Grown created q (find q.id d) d a d' (filled-stage t id p ∙ is_new)
                    (
                      h.0,
                      subst (λ u. select_url u d.pipelines ≡ none) (sym (filled-url t id p)) h.1,
                    )
                    e))))
          λ _. Triple-pure q (λ d h. h)

  create_pipeline-Grown :
      (created : ℕ) (repo : Repo) (issue : GhIssue)
      → Triple
          (New created issue.url)
          (create_pipeline env decimal intake_label dry_run repo issue)
          (λ n. Grown start (created + n))
          (Grown start created)
  unfolding create_pipeline run_command
  create_pipeline-Grown created repo issue =
      Triple-bind
        (Triple-with_context _ (create-Grown created (pipeline_of (slug repo) issue) refl))
        λ _. Triple-bind (Triple-attempt_ask _ _) λ _. Triple-pure 1 (λ d h. h)

  plus_none : (created : ℕ) (d : Tables) → Grown start created d → Grown start (created + 0) d
  plus_none created d g =
      let e : created ≡ created + 0 = omega arith in subst (λ n. Grown start n d) e g

  if_new-Grown :
      (created : ℕ) (repo : Repo) (issue : GhIssue) (o : Option Pipeline)
      → Triple
          (λ d. Grown start created d × (select_url issue.url d.pipelines ≡ o))
          (if_new env decimal intake_label dry_run repo issue o)
          (λ n. Grown start (created + n))
          (Grown start created)
  unfolding if_new
  if_new-Grown created repo issue (some p) = Triple-pure 0 (λ d h. plus_none created d h.0)
  if_new-Grown created repo issue none =
      Triple-if dry_run (λ _. Triple-pure 0 (λ d h. plus_none created d h.0))
        (λ _. create_pipeline-Grown created repo issue)

  pub poll_issue-Grown :
      (created : ℕ) (repo : Repo) (issue : GhIssue)
      → Triple
          (Grown start created)
          (poll_issue env decimal intake_label dry_run repo issue)
          (λ n. Grown start (created + n))
          (Grown start created)
  unfolding poll_issue get_by_issue_url
  poll_issue-Grown created repo issue =
      Triple-bind
        (Triple-with_context _ (Triple-query_db env.host (λ d. select_url issue.url d.pipelines)))
        (if_new-Grown created repo issue)
