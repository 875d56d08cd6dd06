-- ===== src/PipelineStore/Rows.antt =====
-- What each statement of the store leaves in the table: the row of one pipeline satisfies a
-- predicate, and every other row is as it was at the start.
use ponko.Common.{
  ℕ, String, ◌≡◌, refl, subst, ◌≢◌, ◌∙◌, Option, none, some, select-update_self, select-update_ne,
}
use ponko.Effect.{ok, deref}
use ponko.Effect.Triple.{
  Triple, Triple-weaken, Triple-bind, Triple-lift, Triple-ask, Triple-deref, Triple-with_context,
  Triple-now, Triple-exec_db, Triple-statement_db,
}
use ponko.Pipeline.{Stage, Pipeline, validate_transition}
use ponko.Pipeline.Graph.{◌⟶◌, validate_transition_sound}
use ponko.PipelineStore.{
  pipeline_id, find, write, modify, update_stage, incr_stories_completed, returning_completed,
  bump_completed,
}
use ponko.Budget.{record_spend}
use ponko.Orchestrator.{Tables, Env, Call, ExecuteRequest, execute, run_agent}

-- The rows of the other pipelines are those of `start`.
abbrev pub Others : String → Tables → Tables → Type 0
Others id start d = (j : String) → j ≢ id → find j d ≡ find j start

module _ (id : String) (start : Tables) where
  pub record At (φ : Pipeline → Type 0) (d : Tables) : Type 0 where
    pub row : Pipeline
    pub stored : find id d ≡ some row
    pub holds : φ row
    pub others : Others id start d

module _ {id : String} {start : Tables} where
  pub At-weaken :
      {φ ψ : Pipeline → Type 0}
      → ((p : Pipeline) → φ p → ψ p)
      → (d : Tables) → At id start φ d
      → At id start ψ d
  At-weaken h d a = record {
    row = a.row;
    stored = a.stored;
    holds = h a.row a.holds;
    others = a.others;
  }

  -- An update of the row, that keeps its id.
  pub At-write :
      {φ ψ : Pipeline → Type 0} (f : Pipeline → Pipeline)
      → ((p : Pipeline) → pipeline_id (f p) ≡ pipeline_id p)
      → ((p : Pipeline) → φ p → ψ (f p))
      → (d : Tables) → At id start φ d
      → At id start ψ (write id f d)
  At-write f keeps h d a = record {
    row = f a.row;
    stored = select-update_self pipeline_id id f d.pipelines keeps a.row a.stored;
    holds = h a.row a.holds;
    others = λ j ne. select-update_ne pipeline_id id j f d.pipelines keeps ne ∙ a.others j ne;
  }

module _ (env : Env) {id : String} {start : Tables} {φ : Pipeline → Type 0} where
  pub modify-At :
      {ψ : Pipeline → Type 0} (context : String) (f : ℕ → Pipeline → Pipeline)
      → ((t : ℕ) (p : Pipeline) → pipeline_id (f t p) ≡ pipeline_id p)
      → ((t : ℕ) (p : Pipeline) → φ p → ψ (f t p))
      → Triple (At id start φ) (modify env context id f) (λ _. At id start ψ) (At id start φ)
  unfolding modify
  modify-At context f keeps h = Triple-bind (Triple-now env.host) λ t.
      Triple-with_context context
        (Triple-exec_db env.host (write id (f t)) (At-write (f t) (keeps t) (h t)))

  -- The edge from `from` to `to` is in the diagram, or nothing is written.
  pub update_stage-At :
      {ψ : Pipeline → Type 0} (from to : Stage)
      → (from ⟶ to → (t : ℕ) (p : Pipeline) → φ p → ψ (record p { stage = to; updated_at = t }))
      → Triple (At id start φ) (update_stage env id from to) (λ _. At id start ψ) (At id start φ)
  unfolding update_stage
  update_stage-At {ψ} from to h = Triple-bind (Triple-lift (validate_transition from to)) λ u.
      record {
        at = λ w (a, valid).
            (modify-At {ψ = ψ} _ _ (λ t p. refl) (h (validate_transition_sound from to valid))).at w
              a;
      }

  -- UPDATE … RETURNING: the counter of the row goes up, and its new value is returned.
  pub incr_stories_completed-At :
      {ψ : Pipeline → Type 0}
      → ((t : ℕ) (p : Pipeline) → φ p → ψ (bump_completed t p))
      → Triple (At id start φ) (incr_stories_completed env id) (λ _. At id start ψ) (At id start φ)
  unfolding incr_stories_completed
  incr_stories_completed-At {ψ} h = Triple-bind (Triple-now env.host) λ t.
      Triple-with_context "incr stories completed" (
        Triple-statement_db env.host (λ d. returning_completed id t (find id d) d)
          (λ d n d' a e. returned t d n d' a (find id d) e))
    where
      returned :
          (t : ℕ) (d : Tables) (n : ℕ) (d' : Tables)
          → At id start φ d
          → (o : Option Pipeline) → returning_completed id t o d ≡ ok (n, d')
          → At id start ψ d'
      returned t d n d' a none e = cc
      returned t d n d' a (some p) e =
          let same : write id (bump_completed t) d ≡ d' = cc in
          subst (λ x. At id start ψ x) same (At-write (bump_completed t) (λ p. refl) (h t) d a)

module _ (env : Env) {id : String} {start : Tables} {φ : Pipeline → Type 0} where
  -- The spending is in another table.
  pub record_spend-At :
      (task_id run_id : String) (cost : ℕ)
      → Triple
          (At id start φ)
          (record_spend env task_id run_id cost)
          (λ _. At id start φ)
          (At id start φ)
  unfolding record_spend
  record_spend-At task_id run_id cost = Triple-bind (Triple-now env.host) λ t.
      Triple-with_context "record budget" (
        Triple-exec_db env.host _
          (λ d a. record { row = a.row; stored = a.stored; holds = a.holds; others = a.others }))

  pub run_agent-At :
      (req : ExecuteRequest)
      → Triple (At id start φ) (run_agent env req) (λ _. At id start φ) (At id start φ)
  unfolding run_agent
  run_agent-At req = Triple-ask (execute req) (λ n. env.agent n req)

  pub deref-At :
      {A : Type 0} (o : Option A)
      → Triple {C = Call} (At id start φ) (deref o) (λ _. At id start φ) (At id start φ)
  deref-At o = Triple-weaken (λ d a. a) (λ _ d a. a.0) (λ d a. a) (Triple-deref o)
