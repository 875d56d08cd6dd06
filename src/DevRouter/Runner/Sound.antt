-- ===== src/DevRouter/Runner/Sound.antt =====
-- One call of RunOnce, as a relation between the tables before and after it.
use ponko.Common.{
  String-cases, String, ◌≡◌, refl, ◌∙◌, sym, subst, Option, none, some, select-key, Option-cases,
  inl, inr,
}
use ponko.Effect.{World}
use ponko.Effect.Triple.{
  Triple, Triple-weaken, Triple-on_fail, Triple-raise, Triple-query_db, Triple-with_context,
  Triple-bind, After-same,
}
use ponko.Pipeline.{Pipeline}
use ponko.Pipeline.Graph.{here}
use ponko.PipelineStore.{pipeline_id, find, get}
use ponko.PipelineStore.Rows.{At, Others}
use ponko.Orchestrator.{Tables, Call, Env}
use ponko.DevRouter.Progress.{IsValid, ComesFrom, AllValid}
use ponko.DevRouter.Planning.Sound.{PlanRoundTrip}
use ponko.DevRouter.Runner.{PipelineRunner, found, run_once}
use ponko.DevRouter.Runner.Steps.{advance-At}

-- What a call for the pipeline `id` may do to the table: the others stay as they are, this one goes
-- along the diagram to a valid row, and none appears.
pub record Advanced (env : Env) (id : String) (start d : Tables) : Type 0 where
  pub others : Others id start d
  pub moved :
      (p : Pipeline)
      → find id start ≡ some p
      → (q : Pipeline) × (find id d ≡ some q) × ComesFrom env p q
  pub missing : find id start ≡ none → find id d ≡ none

module _ (env : Env) (codec : PlanRoundTrip env) (r : PipelineRunner) (start : Tables)
    (all_valid : AllValid env start) (id : String) where
  came :
      (p : Pipeline)
      → find id start ≡ some p
      → (d : Tables) → At id start (ComesFrom env p) d
      → Advanced env id start d
  came p e d a = record {
    others = a.others;
    moved = λ p' e'.
        let same : p ≡ p' = cc in
        (a.row, a.stored, subst (λ x. ComesFrom env x a.row) same a.holds);
    missing = λ x. cc;
  }

  unchanged : (d : Tables) → d ≡ start → Advanced env id start d
  unchanged d same = subst (Advanced env id start) (sym same) (record {
    others = λ j ne. refl;
    moved = λ p e. (p, e, record { valid = all_valid id p e; reached = here });
    missing = λ x. x;
  })

  found-Advanced :
      (o : Option Pipeline)
      → find id start ≡ o
      → Triple
          (λ d. d ≡ start)
          (found env r id o)
          (λ _. Advanced env id start)
          (Advanced env id start)
  unfolding found
  found-Advanced none e = Triple-raise _ unchanged
  found-Advanced (some p) e =
      let same_id : p.id ≡ id = select-key pipeline_id id start.pipelines p e in
      let stored : find p.id start ≡ some p = subst (λ x. find x start ≡ some p) (sym same_id) e in
      let back : (d : Tables) → At p.id start (ComesFrom env p) d → Advanced env id start d =
        λ d a. came p e d (subst (λ x. At x start (ComesFrom env p) d) same_id a) in
      Triple-weaken
        (λ d same.
          subst (At p.id start (λ q. q ≡ p)) (sym same)
            (record { row = p; stored = stored; holds = refl; others = λ j ne. refl }))
        (λ _. back) back (advance-At env codec r start p (all_valid id p e))

  run_once-Triple :
      Triple
        (λ d. d ≡ start)
        (run_once env r id)
        (λ _. Advanced env id start)
        (Advanced env id start)
  unfolding run_once get
  run_once-Triple =
      Triple-bind
        (Triple-with_context _ (Triple-on_fail unchanged (Triple-query_db env.host (find id))))
        λ o. record {
          at = λ w (same, e). (found-Advanced o (subst (λ x. find id x ≡ o) same e)).at w same;
        }

some_not_none : {A : Type 0} {o : Option A} {a : A} → o ≡ none → o ≡ some a → ⊥
some_not_none h k = cc

module _ (env : Env) where
  same_row : {q q' : Pipeline} {o : Option Pipeline} → o ≡ some q' → o ≡ some q → q' ≡ q
  same_row h k = cc

  Advanced-AllValid :
      (id : String) (start d : Tables)
      → Advanced env id start d
      → AllValid env start
      → AllValid env d
  Advanced-AllValid id start d after all_valid j q e = elim (String-cases j id) [
    | inr ne ↦ all_valid j q (sym (after.others j ne) ∙ e)
    | inl same ↦
        let here : find id d ≡ some q = subst (λ x. find x d ≡ some q) same e in
        elim (Option-cases (find id start)) [
          | inl none_there ↦ absurd (some_not_none (after.missing none_there) here)
          | inr (p, there) ↦
              let (q', stored, c) = after.moved p there in
              subst (IsValid env) (same_row stored here) c.valid
        ]
  ]

module _ (env : Env) (codec : PlanRoundTrip env) (r : PipelineRunner) where
  -- From a table of valid pipelines RunOnce, whatever fails on the way, leaves every other pipeline as
  -- it was, moves the pipeline that it is called for only along the edges of the diagram to a valid
  -- one, and makes no pipeline.
  pub run_once-Advanced :
      (id : String) (w : World Tables Call)
      → AllValid env w.tables
      → Advanced env id w.tables (run_once env r id w).1.tables
  run_once-Advanced id w all_valid =
      After-same (Advanced env id w.tables) (run_once env r id w)
        ((run_once-Triple env codec r w.tables all_valid id).at w refl)

  -- RunOnce keeps every pipeline of the table valid.
  pub run_once-AllValid :
      (id : String) (w : World Tables Call)
      → AllValid env w.tables
      → AllValid env (run_once env r id w).1.tables
  run_once-AllValid id w all_valid =
      Advanced-AllValid env id w.tables (run_once env r id w).1.tables
        (run_once-Advanced id w all_valid) all_valid
