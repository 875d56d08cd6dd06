-- ===== src/DevRouter/Ingress.antt =====
-- internal/devrouter/ingress.go, and ClassificationPrompt of internal/devrouter/prompts.go: an issue
-- is classified into a track. Log lines are not modelled.
pub mod Sound
pub mod Stable
use ponko.Common.{
  String, List, [], ◌∷◌, Option, none, some, Bool, not, ◌||◌, map, is_empty, ◌⧺◌, ◌==◌,
  if◌then◌else◌,
}
use ponko.Effect.{Result, ok, err, pure, lift, deref, with_context, attempt, ◌>>=◌, ◌>>◌}
use ponko.Event.{Value, str, Event, job_completed}
use ponko.Pipeline.{
  Track, fix, rpi, ralph, track_string, classifying, Pipeline, planning as planning_stage,
}
use ponko.PipelineStore.{set_track, set_classification_rationale, set_issue_content, update_stage}
use ponko.Orchestrator.{
  M, Env, GhIssue, Label, Prompt, classification, no_request, ExecuteResult, DevRouterConfig,
  run_agent, run_command, emit_event,
}

-- strings.Join
unfoldable pub join : String → List String → String
join sep [] = ""
join sep (s ∷ []) = s
join sep (s ∷ t ∷ r) = s ⧺ sep ⧺ join sep (t ∷ r)

unfoldable pub label_names : List Label → List String
label_names labels = map (λ l. l.name) labels

abbrev or_none : String → String
or_none labels = if is_empty labels then "(none)" else labels

unfoldable pub classification_prompt : String → String → List String → Prompt
unfolding join
classification_prompt title body labels = classification title (or_none (join ", " labels)) body

-- Track(resp.Track), with the unknown ones replaced.
abbrev track_of : String → Track
track_of s =
    if s == "fix" then fix else if s == "rpi" then rpi else if s == "ralph" then ralph else rpi

abbrev read_classification : Result (String × String) → Track × String
read_classification (ok (track, rationale)) = (track_of track, rationale)
read_classification (err e) = (rpi, "")

abbrev or_nil : Result (List String) → List String
or_nil (ok labels) = labels
or_nil (err e) = []

abbrev then_ok : Result (Unit {0}) → List String → Result (List String)
then_ok (ok _) labels = ok labels
then_ok (err e) labels = err e

module _ (env : Env) where
  unfoldable pub parse_classification_response : String → Track × String
  parse_classification_response output = read_classification (env.parse_classification output)

  view : String → String → String → Pipeline → M GhIssue
  view fields failing parsing p = do
    out ←
        with_context failing
          (run_command env "" ("issue" ∷ "view" ∷ p.issue_url ∷ "--json" ∷ fields ∷ []))
    with_context parsing (lift (env.parse_issue out))

  -- The pipeline in memory has the new title also when it cannot be stored.
  store_content : Pipeline → Result GhIssue → M (Pipeline × Result (List String))
  store_content p (err e) = pure (p, err e)
  store_content p (ok issue) = do
    saved ←
        attempt
          (with_context "persist issue content" (set_issue_content env p.id issue.title issue.body))
    pure (
      record p { issue_title = issue.title; issue_body = issue.body },
      then_ok saved (label_names issue.labels),
    )

  fetch_labels : Pipeline → Result GhIssue → M (Pipeline × Result (List String))
  fetch_labels p (err e) = pure (p, err e)
  fetch_labels p (ok issue) = pure (p, ok (label_names issue.labels))

  -- The pipeline as it stands in memory afterwards, and the labels. `has_exec` is `ex != nil`.
  unfoldable pub fetch_issue_content : Bool → Pipeline → M (Pipeline × Result (List String))
  unfolding view store_content fetch_labels label_names
  fetch_issue_content has_exec p =
      if is_empty p.issue_url || not has_exec
      then pure (p, ok [])
      else if is_empty p.issue_title
      then attempt (view "title,body,labels" "gh issue view" "parse issue view" p)
        >>= store_content p
      else attempt (view "labels" "gh issue view labels" "parse labels" p) >>= fetch_labels p

  -- The classification of the pipeline that is in memory, and its three writes.
  classify_with : DevRouterConfig → Pipeline × Result (List String) → M (Unit {0})
  unfolding classification_prompt parse_classification_response
  classify_with cfg (p, labels) = do
    reply ← with_context "classify issue" (
        run_agent env (record no_request {
          prompt = classification_prompt p.issue_title p.issue_body (or_nil labels);
          model = cfg.classification_model;
        }))
    result ← deref reply
    let classified = parse_classification_response result.output
    with_context "set track" (set_track env p.id classified.0)
    with_context "set rationale" (set_classification_rationale env p.id classified.1)
    with_context "transition to planning" (update_stage env p.id classifying planning_stage)
    emit_event (record {
      type = job_completed;
      task_id = p.id;
      payload =
          ("job", str "ingress")
          ∷ ("track", str (track_string classified.0))
          ∷ ("rationale", str classified.1)
          ∷ [];
    })

  unfoldable pub ingress_run : DevRouterConfig → Bool → Pipeline → M (Unit {0})
  unfolding fetch_issue_content classify_with
  ingress_run cfg has_exec p = fetch_issue_content has_exec p >>= classify_with cfg
