-- ===== src/Config/Load/Usable.antt =====
-- What a configuration must have for the runner to work with it.
use ponko.Common.{
  ℕ, suc, ◌<◌, String, ◌≡◌, refl, List, [], ◌∷◌, Option, none, some, Bool, true, false, not, arith,
  All, subst,
}
use ponko.Effect.{Err, Result, ok, err}
use ponko.Orchestrator.{Repo}
use ponko.Config.{Workflow, Rule, GroomProject, Config, lookup, apply_defaults}
use ponko.Config.Load.{
  then_check, check, is_nil, is_full, check_repos, has_wrap_up, check_workflows, is_some,
  check_rules, is_repo_name, check_projects, validate, validated, parsed, loaded, load,
}

-- A configuration that the runner can work with.
pub record IsUsable (cfg : Config) : Type 0 where
  pub has_repos : ¬ (cfg.repos ≡ [])
  pub full_repos : All (λ r. is_full r ≡ true) cfg.repos
  pub wrapped_up : All (λ kv. has_wrap_up kv.1.phases ≡ true) cfg.workflows
  pub known_rules :
      All (λ rule. (wf : Workflow) × (lookup rule.workflow cfg.workflows ≡ some wf)) cfg.rules
  pub known_projects : All (λ gp. is_repo_name gp.repo cfg.repos ≡ true) cfg.groom.projects
  pub may_spend :
      (0 < cfg.budget.per_run_usd) × (0 < cfg.budget.per_day_usd) × (0 < cfg.budget.per_task_usd)
  pub tries : 0 < cfg.dev_router.max_retries

then_ok : (r s : Result (Unit {0})) → then_check r s ≡ ok tt → (r ≡ ok tt) × (s ≡ ok tt)
then_ok (ok _) s h = (refl, h)
then_ok (err e) s h = cc

check_ok : (b : Bool) (e : Err) → check b e ≡ ok tt → b ≡ true
check_ok true e h = refl
check_ok false e h = cc

check_repos-All :
    (i : ℕ) (repos : List Repo) → check_repos i repos ≡ ok tt → All (λ r. is_full r ≡ true) repos
unfolding check_repos
check_repos-All i [] h = tt
check_repos-All i (r ∷ repos) h =
    let (here, rest) = then_ok _ _ h in (check_ok _ _ here, check_repos-All (suc i) repos rest)

check_workflows-All :
    (ws : List (String × Workflow))
    → check_workflows ws ≡ ok tt
    → All (λ kv. has_wrap_up kv.1.phases ≡ true) ws
unfolding check_workflows
check_workflows-All [] h = tt
check_workflows-All ((name, wf) ∷ rest) h =
    let (here, there) = then_ok _ _ h in (check_ok _ _ here, check_workflows-All rest there)

is_some-witness : {A : Type 0} (o : Option A) → is_some o ≡ true → (a : A) × (o ≡ some a)
is_some-witness none h = cc
is_some-witness (some a) h = (a, refl)

check_rules-All :
    (ws : List (String × Workflow)) (i : ℕ) (rules : List Rule)
    → check_rules ws i rules ≡ ok tt
    → All (λ rule. (wf : Workflow) × (lookup rule.workflow ws ≡ some wf)) rules
unfolding check_rules
check_rules-All ws i [] h = tt
check_rules-All ws i (rule ∷ rules) h =
    let (here, rest) = then_ok _ _ h in
    (is_some-witness _ (check_ok _ _ here), check_rules-All ws (suc i) rules rest)

check_projects-All :
    (repos : List Repo) (i : ℕ) (gps : List GroomProject)
    → check_projects repos i gps ≡ ok tt
    → All (λ gp. is_repo_name gp.repo repos ≡ true) gps
unfolding check_projects
check_projects-All repos i [] h = tt
check_projects-All repos i (gp ∷ gps) h =
    let (named, rest) = then_ok _ _ h in
    let (known, more) = then_ok _ _ rest in
    (check_ok _ _ known, check_projects-All repos (suc i) gps more)

is_nil-not : {A : Type 0} (xs : List A) → not (is_nil xs) ≡ true → ¬ (xs ≡ [])
is_nil-not [] h e = cc
is_nil-not (x ∷ xs) h e = cc

apply_defaults-may_spend :
    (cfg : Config)
    → let b = (apply_defaults cfg).budget in
      (0 < b.per_run_usd) × (0 < b.per_day_usd) × (0 < b.per_task_usd)
unfolding apply_defaults
apply_defaults-may_spend cfg = ground arith

validate-IsUsable :
    (raw : Config) → validate (apply_defaults raw) ≡ ok tt → IsUsable (apply_defaults raw)
unfolding validate
validate-IsUsable raw h =
    let (nonempty, h1) = then_ok _ _ h in
    let (repos, h2) = then_ok _ _ h1 in
    let (workflows, h3) = then_ok _ _ h2 in
    let (rules, h4) = then_ok _ _ h3 in
    let (projects, h5) = then_ok _ _ h4 in
    let (stories, retries) = then_ok _ _ h5 in
    let some_tries = check_ok _ _ retries in
    record {
      has_repos = is_nil-not _ (check_ok _ _ nonempty);
      full_repos = check_repos-All 0 _ repos;
      wrapped_up = check_workflows-All _ workflows;
      known_rules = check_rules-All _ 0 _ rules;
      known_projects = check_projects-All _ 0 _ projects;
      may_spend = apply_defaults-may_spend raw;
      tries = ground arith;
    }

-- A configuration that Load returns has a repository, each with its fields; every workflow has a
-- wrap-up phase; every rule names a workflow and every project a repository of the configuration;
-- no budget is zero, and a story is tried at least once.
pub load-IsUsable :
    (read_file : String → Result String) (unmarshal : String → Result Config) (path : String)
    (cfg : Config)
    → load read_file unmarshal path ≡ ok cfg
    → IsUsable cfg
unfolding load
load-IsUsable read_file unmarshal path cfg h = of_file (read_file path) h
  where
    of_check :
        (raw : Config) (r : Result (Unit {0}))
        → validate (apply_defaults raw) ≡ r
        → validated (apply_defaults raw) r ≡ ok cfg
        → IsUsable cfg
    of_check raw (ok _) valid e =
        let same : apply_defaults raw ≡ cfg = cc in
        subst IsUsable same (validate-IsUsable raw valid)
    of_check raw (err x) valid e = cc

    of_parsed : (r : Result Config) → parsed r ≡ ok cfg → IsUsable cfg
    of_parsed (ok raw) e = of_check raw (validate (apply_defaults raw)) refl e
    of_parsed (err x) e = cc

    of_file : (r : Result String) → loaded unmarshal path r ≡ ok cfg → IsUsable cfg
    of_file (ok text) e = of_parsed (unmarshal text) e
    of_file (err x) e = cc
