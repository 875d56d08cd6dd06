-- ===== src/DevRouter/Runner/Completion.antt =====
-- When RunOnce completes a pipeline.
use ponko.Common.{
  suc, String, ◌≡◌, refl, ◌≢◌, ◌⊎◌, inl, inr, Option, none, some, sym, ◌∙◌, subst, String-cases,
  Option-cases, select-update-none, select-update_self, select-update_ne,
}
use ponko.Effect.{World, Result, ok, err}
use ponko.Pipeline.{Stage, Pipeline, completed, awaiting_approval}
use ponko.PipelineStore.{pipeline_id, find, write}
use ponko.PipelineStore.Stable.{DoesNotComplete}
use ponko.Orchestrator.{Tables, Call, Env, Approval, waiting, approved, rejected}
use ponko.DevRouter.Runner.{PipelineRunner, run_once}
use ponko.DevRouter.Runner.Stable.{MayComplete, read_once, run_once-keeps}

-- No row with the id is completed.
abbrev pub IsOpen : String → Tables → Type 0
IsOpen id d = (q : Pipeline) → find id d ≡ some q → q.stage ≢ completed

not_both : {q : Pipeline} {o : Option Pipeline} → o ≡ none → o ≡ some q → ⊥
not_both h k = cc

some_row : {q p : Pipeline} {o : Option Pipeline} → o ≡ some p → o ≡ some q → p ≡ q
some_row h k = cc

IsOpen-write :
    (id j : String) (f : Pipeline → Pipeline) (d : Tables)
    → DoesNotComplete f
    → IsOpen id d
    → IsOpen id (write j f d)
IsOpen-write id j f d goes_on is_open q found done = elim (String-cases id j) [
  | inr ne ↦
      is_open q
        (sym (select-update_ne pipeline_id j id f d.pipelines (λ p. (goes_on p).0) ne) ∙ found) done
  | inl same ↦
      let found_j : find j (write j f d) ≡ some q =
        subst (λ x. find x (write j f d) ≡ some q) same found in
      elim (Option-cases (find j d)) [
        | inl none_there ↦ absurd (
            not_both
              (select-update-none pipeline_id j f d.pipelines (λ p. (goes_on p).0) none_there)
              found_j)
        | inr (p, there) ↦
            let written : f p ≡ q =
              some_row (select-update_self pipeline_id j f d.pipelines (λ p. (goes_on p).0) p there)
                found_j in
            is_open p (subst (λ x. find x d ≡ some p) (sym same) there)
              ((goes_on p).1 (subst (λ x. x.stage ≡ completed) (sym written) done))
      ]
]

awaiting_cases : (s : Stage) → (s ≡ awaiting_approval) ⊎ (s ≢ awaiting_approval)
awaiting_cases awaiting_approval = inl refl
awaiting_cases _ = inr (λ e. cc)

approved_cases : (r : Result Approval) → (r ≡ ok approved) ⊎ (r ≢ ok approved)
approved_cases (ok approved) = inl refl
approved_cases (ok waiting) = inr (λ e. cc)
approved_cases (ok rejected) = inr (λ e. cc)
approved_cases (err e) = inr (λ e. cc)

-- A pipeline that RunOnce completes was waiting for the approval, and the answer to the question that
-- the call asked about its issue was that it is approved.
pub run_once_completes :
    (env : Env) (r : PipelineRunner) (id : String) (w : World Tables Call) (p q : Pipeline)
    → find id w.tables ≡ some p
    → p.stage ≢ completed
    → find id (run_once env r id w).1.tables ≡ some q
    → q.stage ≡ completed
    → (p.stage ≡ awaiting_approval) × (env.approval (suc w.tick) p.issue_url ≡ ok approved)
run_once_completes env r id w p q stored is_open stored_after done = elim (awaiting_cases p.stage) [
  | inr elsewhere ↦ absurd (
      stays_open (λ p' e waits _.
        absurd
          (elsewhere (subst (λ x. x.stage ≡ awaiting_approval) (sym (some_row stored e)) waits))))
  | inl waits ↦ elim (approved_cases (env.approval (suc w.tick) p.issue_url)) [
    | inl granted ↦ (waits, granted)
    | inr refused ↦ absurd (
        stays_open (λ p' e _ granted. absurd (
          refused (
            subst (λ x. env.approval (suc w.tick) x.issue_url ≡ ok approved)
              (sym (some_row stored e)) granted))))
  ]
]
  where
    stays_open :
        ((p' : Pipeline)
          → find id w.tables ≡ some p'
          → MayComplete env r {P = IsOpen id}
              (IsOpen-write id)
              (λ t date cost d h. h)
              p'
              (read_once w))
        → ⊥
    stays_open completion =
        run_once-keeps env r {P = IsOpen id} (IsOpen-write id) (λ t date cost d h. h) id w
          completion (λ x e. subst (λ y. y.stage ≢ completed) (some_row stored e) is_open) q
          stored_after done
