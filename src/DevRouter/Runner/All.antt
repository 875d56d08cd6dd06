-- ===== src/DevRouter/Runner/All.antt =====
-- ProcessAll over the whole table.
use ponko.Common.{String, ◌≡◌, List, [], ◌∷◌, some, String-cases, ◌∙◌, inl, inr, subst, sym}
use ponko.Effect.{Err, ok, World}
use ponko.Effect.Triple.{
  Triple, Triple-weaken, Triple-pure, Triple-raise, Triple-query_db, Triple-attempt,
  Triple-with_context, Triple-bind, Triple-if, After-same, After-intro,
}
use ponko.Pipeline.{Pipeline}
use ponko.Pipeline.Graph.{◌⟶*◌, here, ⟶*_trans}
use ponko.PipelineStore.{find, list}
use ponko.Orchestrator.{Tables, Call, Env}
use ponko.DevRouter.Progress.{AllValid}
use ponko.DevRouter.Planning.Sound.{PlanRoundTrip}
use ponko.DevRouter.Runner.{
  PipelineRunner, run_once, terminal_stages, with_error, process_from, report, process_all,
}
use ponko.DevRouter.Runner.Sound.{run_once-Advanced, run_once-AllValid}

-- Every pipeline of `start` is still there and has come along the diagram, and every row is valid.
pub record AllAdvanced (env : Env) (start d : Tables) : Type 0 where
  pub all_valid : AllValid env d
  pub moved :
      (id : String) (p : Pipeline)
      → find id start ≡ some p
      → (q : Pipeline) × (find id d ≡ some q) × (p.stage ⟶* q.stage)

module _ (env : Env) (codec : PlanRoundTrip env) (r : PipelineRunner) (start : Tables) where
  then_once :
      (id : String) (w : World Tables Call)
      → AllAdvanced env start w.tables
      → AllAdvanced env start (run_once env r id w).1.tables
  then_once id w a = record {
    all_valid = run_once-AllValid env codec r id w a.all_valid;
    moved = λ j p e.
        let (q, stored, path) = a.moved j p e in
        let after = run_once-Advanced env codec r id w a.all_valid in
        elim (String-cases j id) [
          | inr ne ↦ (q, after.others j ne ∙ stored, path)
          | inl same ↦
              let (q', stored', c) =
                after.moved q (subst (λ x. find x w.tables ≡ some q) same stored) in
              (
                q',
                subst (λ x. find x (run_once env r id w).1.tables ≡ some q') (sym same) stored',
                ⟶*_trans path c.reached,
              )
        ];
  }

  one_more :
      (id : String)
      → Triple
          (AllAdvanced env start)
          (run_once env r id)
          (λ _. AllAdvanced env start)
          (AllAdvanced env start)
  one_more id = record {
    at = λ w a. After-intro (AllAdvanced env start) (run_once env r id w) (then_once id w a);
  }

  process_from-AllAdvanced :
      (errs : List Err) (ps : List Pipeline)
      → Triple
          (AllAdvanced env start)
          (process_from env r errs ps)
          (λ _. AllAdvanced env start)
          (AllAdvanced env start)
  unfolding process_from
  process_from-AllAdvanced errs [] = Triple-pure errs (λ d a. a)
  process_from-AllAdvanced errs (p ∷ ps) =
      Triple-bind
        (Triple-if (terminal_stages p.stage) (λ _. Triple-pure (ok tt) (λ d a. a))
          (λ _. Triple-attempt (one_more p.id)))
        λ outcome. process_from-AllAdvanced (with_error errs outcome) ps

  report-AllAdvanced :
      (errs : List Err)
      → Triple
          (AllAdvanced env start)
          (report errs)
          (λ _. AllAdvanced env start)
          (AllAdvanced env start)
  report-AllAdvanced [] = Triple-pure tt (λ d a. a)
  report-AllAdvanced (e ∷ errs) = Triple-raise _ (λ d a. a)

  process_all-Triple :
      Triple
        (AllAdvanced env start)
        (process_all env r)
        (λ _. AllAdvanced env start)
        (AllAdvanced env start)
  unfolding process_all list
  process_all-Triple =
      Triple-bind
        (Triple-with_context _ (
          Triple-with_context _
            (Triple-weaken (λ d a. a) (λ _ d a. a.0) (λ d a. a) (Triple-query_db env.host _))))
        λ pipelines. Triple-bind (process_from-AllAdvanced [] pipelines) report-AllAdvanced

-- From a table of valid pipelines ProcessAll, whatever fails on the way, keeps every pipeline in the
-- table and valid, and moves each only along the edges of the diagram.
pub process_all-AllAdvanced :
    (env : Env) (codec : PlanRoundTrip env) (r : PipelineRunner) (w : World Tables Call)
    → AllValid env w.tables
    → AllAdvanced env w.tables (process_all env r w).1.tables
process_all-AllAdvanced env codec r w all_valid =
    After-same (AllAdvanced env w.tables) (process_all env r w) (
      (process_all-Triple env codec r w.tables).at w
        (record { all_valid = all_valid; moved = λ id p e. (p, e, here) }))
