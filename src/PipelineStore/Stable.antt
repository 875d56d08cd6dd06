-- ===== src/PipelineStore/Stable.antt =====
-- Predicates of the tables that the writes of a pipeline do not touch: all, or all but the one that
-- completes it.
use ponko.Common.{refl, ℕ, String, ◌≡◌, ◌≢◌, Option, none, some, subst}
use ponko.Effect.{ok}
use ponko.Effect.Keeps.{
  Keeps, Keeps-now, Keeps-with_context, Keeps-bind, Keeps-lift, Keeps-exec_db, Keeps-statement_db,
}
use ponko.Pipeline.{Stage, Track, Pipeline, completed}
use ponko.PipelineStore.{
  find, write, modify, update_stage, set_track, set_classification_rationale, set_plan_output,
  set_story_count, incr_stories_completed, set_current_story_index, add_cost, set_issue_content,
  returning_completed, bump_completed,
}
use ponko.Orchestrator.{Tables, Env}

-- A write of a pipeline that keeps the ids and completes none.
abbrev pub DoesNotComplete : (Pipeline → Pipeline) → Type 0
DoesNotComplete f =
    (p : Pipeline) → ((f p).id ≡ p.id) × ((f p).stage ≡ completed → p.stage ≡ completed)

abbrev pub IgnoresPipelines : (Tables → Type 0) → Type 0
IgnoresPipelines P =
    (id : String) (f : Pipeline → Pipeline) (d : Tables)
    → DoesNotComplete f
    → P d
    → P (write id f d)

abbrev pub IgnoresCompletion : (Tables → Type 0) → Type 0
IgnoresCompletion P =
    (id : String) (t : ℕ) (d : Tables)
    → P d
    → P (write id (λ p. record p { stage = completed; updated_at = t }) d)

module _ (env : Env) {P : Tables → Type 0} where
  pub update_stage-Keeps_completed :
      (id : String) (from : Stage)
      → IgnoresCompletion P
      → Keeps P (update_stage env id from completed)
  unfolding update_stage modify
  update_stage-Keeps_completed id from completion = Keeps-bind (Keeps-lift _) λ _.
      Keeps-bind (Keeps-now env.host)
        λ t. Keeps-with_context _ (Keeps-exec_db env.host _ (completion id t))

module _ (env : Env) {P : Tables → Type 0} (ignores : IgnoresPipelines P) where
  pub modify-Keeps :
      (context id : String) (f : ℕ → Pipeline → Pipeline)
      → ((t : ℕ) → DoesNotComplete (f t))
      → Keeps P (modify env context id f)
  unfolding modify
  modify-Keeps context id f goes_on = Keeps-bind (Keeps-now env.host) λ t.
      Keeps-with_context context (Keeps-exec_db env.host _ (λ d. ignores id (f t) d (goes_on t)))

  pub update_stage-Keeps :
      (id : String) (from to : Stage) → to ≢ completed → Keeps P (update_stage env id from to)
  unfolding update_stage
  update_stage-Keeps id from to ne =
      Keeps-bind (Keeps-lift _) λ _. modify-Keeps _ id _ (λ t p. (refl, λ e. absurd (ne e)))

  pub set_track-Keeps : (id : String) (track : Track) → Keeps P (set_track env id track)
  unfolding set_track
  set_track-Keeps id track = modify-Keeps _ id _ (λ t p. (refl, λ e. e))

  pub set_classification_rationale-Keeps :
      (id rationale : String) → Keeps P (set_classification_rationale env id rationale)
  unfolding set_classification_rationale
  set_classification_rationale-Keeps id rationale = modify-Keeps _ id _ (λ t p. (refl, λ e. e))

  pub set_plan_output-Keeps : (id plan : String) → Keeps P (set_plan_output env id plan)
  unfolding set_plan_output
  set_plan_output-Keeps id plan = modify-Keeps _ id _ (λ t p. (refl, λ e. e))

  pub set_story_count-Keeps : (id : String) (n : ℕ) → Keeps P (set_story_count env id n)
  unfolding set_story_count
  set_story_count-Keeps id n = modify-Keeps _ id _ (λ t p. (refl, λ e. e))

  pub set_current_story_index-Keeps :
      (id : String) (n : ℕ) → Keeps P (set_current_story_index env id n)
  unfolding set_current_story_index
  set_current_story_index-Keeps id n = modify-Keeps _ id _ (λ t p. (refl, λ e. e))

  pub add_cost-Keeps : (id : String) (n : ℕ) → Keeps P (add_cost env id n)
  unfolding add_cost
  add_cost-Keeps id n = modify-Keeps _ id _ (λ t p. (refl, λ e. e))

  pub set_issue_content-Keeps :
      (id title body : String) → Keeps P (set_issue_content env id title body)
  unfolding set_issue_content
  set_issue_content-Keeps id title body = modify-Keeps _ id _ (λ t p. (refl, λ e. e))

  pub incr_stories_completed-Keeps : (id : String) → Keeps P (incr_stories_completed env id)
  unfolding incr_stories_completed
  incr_stories_completed-Keeps id = Keeps-bind (Keeps-now env.host) λ t.
      Keeps-with_context _
        (Keeps-statement_db env.host _ (λ d n d' h e. go t d n d' h (find id d) e))
    where
      go :
          (t : ℕ) (d : Tables) (n : ℕ) (d' : Tables)
          → P d
          → (o : Option Pipeline) → returning_completed id t o d ≡ ok (n, d')
          → P d'
      go t d n d' h none e = cc
      go t d n d' h (some p) e =
          let same : write id (bump_completed t) d ≡ d' = cc in
          subst P same (ignores id (bump_completed t) d (λ p. (refl, λ e. e)) h)
