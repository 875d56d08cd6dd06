-- ===== src/Agent/Reply.antt =====
-- What becomes of a workflow's reply.
use ponko.Common.{
  suc, String, ◌≡◌, refl, sym, ◌∙◌, ap, subst, [], ◌∷◌, ◌++◌, Option, none, some, true, false,
  arith, is_empty, select, All, update-All_key,
}
use ponko.Effect.{
  Result, ok, err, Outcome, World, done, fail, panic, ◌>>=◌, attempt, ask, with_context, now,
  new_uuid, statement_db,
}
use ponko.Effect.Keeps.{
  Keeps, Keeps-bind, Keeps-attempt, Keeps-now, Keeps-new_uuid, Keeps-statement_db,
  Keeps-with_context, Keeps-pure, Keeps-raise, Keeps-lift, Keeps-if, Keeps-ask,
}
use ponko.Effect.Triple.{
  Triple, After, Triple-bind, Triple-with_context, Triple-exec_db, Triple-now,
}
use ponko.Effect.Total.{After-done}
use ponko.Chat.{
  pending, OutboxEntry, WorkflowRow, ResponsePayload, ChatTables, ChatCall, ChatEnv, ChatM, insert,
  insert_job, slack_reply_job,
}
use ponko.Outbox.{enqueue, new_entry, insert_entry, entry_id}
use ponko.Conversations.{transition_status}
use ponko.WorkflowStore.{
  workflow_or_none, wf_id, write_workflow, write_row, update_workflow_status, get_conversation_id,
}
use ponko.Agent.Respond.{outbox_entry, reply_of, respond_in, respond}

-- Every row of the workflow is completed.
abbrev pub IsCompleted : String → ChatTables → Type 0
IsCompleted id d = All (λ r. wf_id r ≡ id → r.status ≡ "completed") d.workflows

module _ (env : ChatEnv) (id : String) where
  abbrev Anything : ChatTables → Type 0
  Anything d = Unit {0}

  whatever : {A : Type 0} (m : ChatM A) → Triple Anything m (λ _. Anything) Anything
  whatever m = record { at = λ w h. go (m w) }
    where
      go :
          {A : Type 0} (r : Outcome A × World ChatTables ChatCall)
          → After (λ _. Anything) Anything r
      go (done a, w) = tt
      go (fail e, w) = tt
      go (panic, w) = tt

  update_workflow_status-IsCompleted :
      Triple Anything (update_workflow_status env id "completed") (λ _. IsCompleted id) Anything
  unfolding update_workflow_status write_row write_workflow
  update_workflow_status-IsCompleted = Triple-bind (Triple-now env.host) λ moment.
      Triple-exec_db env.host _
        (λ d _. update-All_key wf_id (λ r. r.status ≡ "completed") id _ (λ r. refl) d.workflows)

  enqueue-Keeps : (entry : OutboxEntry) → Keeps (IsCompleted id) (enqueue env entry)
  unfolding enqueue
  enqueue-Keeps entry = Keeps-bind (Keeps-new_uuid env.host) λ fresh.
      Keeps-bind (Keeps-now env.host) λ moment. Keeps-with_context _ (
        Keeps-statement_db env.host _ (λ d a d' h e.
          go (new_entry fresh moment entry) (select entry_id fresh d.outbox) d a d' h e))
    where
      go :
          (row : OutboxEntry) (o : Option OutboxEntry) (d : ChatTables) (a : String)
          (d' : ChatTables)
          → IsCompleted id d
          → insert_entry row o d ≡ ok (a, d')
          → IsCompleted id d'
      go row none d a d' h e =
          let same : record d { outbox = d.outbox ++ row ∷ [] } ≡ d' = cc in
          subst (IsCompleted id) same h
      go row (some old) d a d' h e = cc

  transition_status-Keeps :
      (conversation from to : String)
      → Keeps (IsCompleted id) (transition_status env conversation from to)
  unfolding transition_status
  transition_status-Keeps conversation from to = Keeps-bind (Keeps-now env.host) λ moment.
      Keeps-bind
        (Keeps-with_context _ (
          Keeps-statement_db env.host _ (λ d a d' h e.
            let same : d.workflows ≡ d'.workflows = cc in
            subst (All (λ r. wf_id r ≡ id → r.status ≡ "completed")) same h)))
        (λ moved. Keeps-if moved (Keeps-pure tt) (Keeps-raise _))

  reply_of-Keeps :
      (conversation : String) (payload : ResponsePayload)
      → Keeps (IsCompleted id) (reply_of env id conversation payload)
  unfolding reply_of respond_in insert
  reply_of-Keeps conversation payload =
      Keeps-if (is_empty conversation) (Keeps-with_context _ (Keeps-ask _ env.queue)) (
        Keeps-bind (Keeps-with_context _ (Keeps-lift _)) λ content.
          Keeps-bind (Keeps-with_context _ (enqueue-Keeps _)) λ entry.
            Keeps-bind (Keeps-attempt (transition_status-Keeps _ _ _)) λ logged. Keeps-pure tt)

  get_conversation_id-Keeps : Keeps (IsCompleted id) (get_conversation_id env id)
  unfolding get_conversation_id
  get_conversation_id-Keeps =
      Keeps-bind
        (Keeps-statement_db env.host _ (λ d a d' h e. go (select wf_id id d.workflows) d a d' h e))
        (λ w. Keeps-pure _)
    where
      go :
          (o : Option WorkflowRow) (d : ChatTables) (a : WorkflowRow) (d' : ChatTables)
          → IsCompleted id d
          → workflow_or_none o d ≡ ok (a, d')
          → IsCompleted id d'
      go none d a d' h e = cc
      go (some w) d a d' h e = let same : d ≡ d' = cc in subst (IsCompleted id) same h

  kept :
      {A : Type 0} {m : ChatM A}
      → Keeps (IsCompleted id) m
      → Triple (IsCompleted id) m (λ _. IsCompleted id) Anything
  kept {A} {m} k = record { at = λ w h. go (m w) (k.at w h) }
    where
      go :
          (r : Outcome A × World ChatTables ChatCall)
          → IsCompleted id r.1.tables
          → After (λ _. IsCompleted id) Anything r
      go (done a, w) h = h
      go (fail e, w) h = tt
      go (panic, w) h = tt

  respond-Completes :
      (step : String) → Triple Anything (respond env id step) (λ _. IsCompleted id) Anything
  unfolding respond
  respond-Completes step = Triple-bind (whatever _) λ content. Triple-bind (whatever _) λ payload.
      Triple-bind (whatever _) λ step_id. Triple-bind (whatever _) λ _.
        Triple-bind (whatever _) λ _.
          Triple-bind (Triple-with_context _ update_workflow_status-IsCompleted) λ _.
            Triple-bind (kept (Keeps-with_context _ get_conversation_id-Keeps))
              λ conversation. kept (reply_of-Keeps conversation payload)

  -- When the respond job returns without an error, its workflow is completed.
  pub respond-IsCompleted :
      (step : String) (w : World ChatTables ChatCall)
      → (respond env id step w).0 ≡ done tt
      → IsCompleted id (respond env id step w).1.tables
  respond-IsCompleted step w h =
      After-done (λ _. IsCompleted id) Anything (respond env id step w) tt
        ((respond-Completes step).at w tt) h

  -- The row of the reply.
  abbrev reply_row : String → ResponsePayload → World ChatTables ChatCall → String → OutboxEntry
  reply_row conversation payload w content =
      new_entry (env.host.uuid w.tick) (env.host.clock (suc w.tick))
        (outbox_entry conversation id payload.channel payload.thread_ts "text" content)

  respond_in-row :
      (conversation : String) (payload : ResponsePayload) (w : World ChatTables ChatCall)
      (content : String)
      → env.codec.marshal_text payload.response ≡ ok content
      → (respond_in env id conversation payload w).0 ≡ done tt
      → let after = (respond_in env id conversation payload w).1 in
        (after.trace ≡ w.trace)
        × (after.tables.outbox ≡ w.tables.outbox ++ reply_row conversation payload w content ∷ [])
  unfolding respond_in enqueue transition_status ◌>>=◌ with_context attempt statement_db now
      new_uuid
  respond_in-row conversation payload w content marshaled h = ground arith

  -- One row is added, it waits, and it carries the reply.
  abbrev pub IsQueued :
      String → ResponsePayload → World ChatTables ChatCall → World ChatTables ChatCall → Type 0
  IsQueued conversation payload w after =
      (after.trace ≡ w.trace)
      × ((e : OutboxEntry) × (after.tables.outbox ≡ w.tables.outbox ++ e ∷ [])
          × (e.status ≡ pending)
          × (e.conversation_id ≡ conversation)
          × (e.workflow_id ≡ id)
          × (e.channel_id ≡ payload.channel)
          × (e.thread_ts ≡ payload.thread_ts)
          × (env.codec.marshal_text payload.response ≡ ok e.content))

  respond_in-IsQueued :
      (conversation : String) (payload : ResponsePayload) (w : World ChatTables ChatCall)
      (r : Result String)
      → env.codec.marshal_text payload.response ≡ r
      → (respond_in env id conversation payload w).0 ≡ done tt
      → IsQueued conversation payload w (respond_in env id conversation payload w).1
  unfolding respond_in ◌>>=◌ with_context
  respond_in-IsQueued conversation payload w (ok content) marshaled h =
      let (silent, grown) = respond_in-row conversation payload w content marshaled h in
      (
        silent,
        (reply_row conversation payload w content, grown, refl, refl, refl, refl, refl, marshaled),
      )
  respond_in-IsQueued conversation payload w (err e) marshaled h = absurd (ground arith)

  -- The reply of a workflow without a conversation is one slack_reply job and no row of the outbox; the
  -- reply of one with a conversation is one waiting row of the outbox with the reply's text for its
  -- channel and thread, and no job.
  pub reply_of-routes :
      (conversation : String) (payload : ResponsePayload) (w : World ChatTables ChatCall)
      → (reply_of env id conversation payload w).0 ≡ done tt
      → let after = (reply_of env id conversation payload w).1 in
        (is_empty conversation ≡ true
          → (after.trace ≡ insert_job (slack_reply_job id payload) ∷ w.trace)
            × (after.tables.outbox ≡ w.tables.outbox))
        × (is_empty conversation ≡ false → IsQueued conversation payload w after)
  unfolding reply_of insert with_context ask
  reply_of-routes conversation payload w h = (
    λ empty. ground arith,
    λ set.
        let only : reply_of env id conversation payload w
            ≡ respond_in env id conversation payload w =
          ground arith in
        subst (λ r. IsQueued conversation payload w r.1) (sym only)
          (respond_in-IsQueued conversation payload w (env.codec.marshal_text payload.response) refl
            (ap (λ r. r.0) (sym only) ∙ h)),
  )
