-- ===== src/Config/Load.antt =====
-- Load and validate of internal/config/config.go.
pub mod Usable
use ponko.Common.{
  ℕ, suc, String, List, [], ◌∷◌, Option, none, some, Bool, true, false, not, ◌||◌, ◌==◌, ◌⧺◌,
  is_empty, nat_eq,
}
use ponko.Effect.{Err, errorf, errorn, wrap, Result, ok, err}
use ponko.Orchestrator.{Repo}
use ponko.Config.{Phase, Workflow, Rule, GroomProject, Config, lookup, apply_defaults}

abbrev then_check : Result (Unit {0}) → Result (Unit {0}) → Result (Unit {0})
then_check (ok _) next = next
then_check (err e) next = err e

abbrev check : Bool → Err → Result (Unit {0})
check true e = ok tt
check false e = err e

abbrev pub is_nil : {A : Type 0} → List A → Bool
is_nil [] = true
is_nil (x ∷ xs) = false

abbrev pub is_full : Repo → Bool
is_full r = not (is_empty r.owner || is_empty r.name || is_empty r.path)

unfoldable pub check_repos : ℕ → List Repo → Result (Unit {0})
check_repos i [] = ok tt
check_repos i (r ∷ repos) =
    then_check
      (check (is_full r) (errorn "config: repo[%d] must have owner, name, and path" (i ∷ [])))
      (check_repos (suc i) repos)

unfoldable pub has_wrap_up : List Phase → Bool
has_wrap_up [] = false
has_wrap_up (p ∷ phases) = p.name == "wrap-up" || has_wrap_up phases

unfoldable pub check_workflows : List (String × Workflow) → Result (Unit {0})
unfolding has_wrap_up
check_workflows [] = ok tt
check_workflows ((name, wf) ∷ rest) =
    then_check
      (check (has_wrap_up wf.phases)
        (errorf ("config: workflow " ⧺ name ⧺ " must have a final phase named 'wrap-up'")))
      (check_workflows rest)

abbrev is_some : {A : Type 0} → Option A → Bool
is_some none = false
is_some (some a) = true

unfoldable pub check_rules : List (String × Workflow) → ℕ → List Rule → Result (Unit {0})
unfolding lookup
check_rules workflows i [] = ok tt
check_rules workflows i (rule ∷ rules) =
    then_check
      (check (is_some (lookup rule.workflow workflows))
        (errorn ("config: rule[%d] references unknown workflow " ⧺ rule.workflow) (i ∷ [])))
      (check_rules workflows (suc i) rules)

-- repoNames[name]
unfoldable pub is_repo_name : String → List Repo → Bool
is_repo_name name [] = false
is_repo_name name (r ∷ repos) =
    r.name == name || (r.owner ⧺ "/" ⧺ r.name) == name || is_repo_name name repos

unfoldable pub check_projects : List Repo → ℕ → List GroomProject → Result (Unit {0})
unfolding is_repo_name
check_projects repos i [] = ok tt
check_projects repos i (gp ∷ projects) =
    then_check
      (check (not (is_empty gp.name))
        (errorn "config: groom.projects[%d] must have a name" (i ∷ [])))
      (then_check
        (check (is_repo_name gp.repo repos) (
          errorn
            ("config: groom.projects[%d] repo " ⧺ gp.repo
              ⧺ " does not match any repos[].name or repos[].owner/name")
            (i ∷ [])))
        (check_projects repos (suc i) projects))

unfoldable pub validate : Config → Result (Unit {0})
unfolding check_repos check_workflows check_rules check_projects
validate cfg =
    then_check (check (not (is_nil cfg.repos)) (errorf "config: repos must not be empty")) (
      then_check (check_repos 0 cfg.repos) (
        then_check (check_workflows cfg.workflows) (
          then_check (check_rules cfg.workflows 0 cfg.rules) (
            then_check (check_projects cfg.repos 0 cfg.groom.projects) (
              then_check
                (check (not (nat_eq cfg.dev_router.max_stories 0))
                  (errorf "config: dev_router.max_stories must be > 0"))
                (check (not (nat_eq cfg.dev_router.max_retries 0))
                  (errorf "config: dev_router.max_retries must be > 0")))))))

abbrev validated : Config → Result (Unit {0}) → Result Config
validated cfg (ok _) = ok cfg
validated cfg (err e) = err e

abbrev parsed : Result Config → Result Config
parsed (err e) = err (wrap "parse config" e)
parsed (ok raw) = let cfg = apply_defaults raw in validated cfg (validate cfg)

abbrev loaded : (String → Result Config) → String → Result String → Result Config
loaded unmarshal path (err e) = err (wrap ("read config " ⧺ path) e)
loaded unmarshal path (ok text) = parsed (unmarshal text)

-- os.ReadFile and yaml.Unmarshal are parameters.
unfoldable pub load : (String → Result String) → (String → Result Config) → String → Result Config
unfolding apply_defaults validate
load read_file unmarshal path = loaded unmarshal path (read_file path)
