-- ===== src/Agent/Synthesize.antt =====
-- internal/jobs/synthesize.go.
use ponko.Common.{String, List, [], ◌∷◌, ◌++◌, ◌⧺◌, is_empty, if◌then◌else◌}
use ponko.Effect.{errorf, Result, ok, err, pure, raise, lift, with_context, ◌>>=◌, ◌>>◌}
use ponko.Chat.{
  Output, ReceivePayload, ResponsePayload, ExecOutput, LlmMessage, ChatM, ChatEnv, insert, run_llm,
  respond_job, send_conversation, haiku,
}
use ponko.Threads.{save_thread_messages}
use ponko.WorkflowStore.{create_step, update_step_status, save_output, get_outputs_by_prefix}
use ponko.Agent.Receive.{load_payload}

-- strings.Join
unfoldable pub join : String → List String → String
join sep [] = ""
join sep (s ∷ []) = s
join sep (s ∷ t ∷ ts) = s ⧺ sep ⧺ join sep (t ∷ ts)

-- The parts of one output: the successes and the failures. One that does not parse has neither.
abbrev pub success_part : Result ExecOutput → List String
success_part (err e) = []
success_part (ok o) =
    if is_empty o.error then ("Task: " ⧺ o.instruction ⧺ "\nResult: " ⧺ o.result) ∷ [] else []

abbrev pub failure_part : Result ExecOutput → List String
failure_part (err e) = []
failure_part (ok o) =
    if is_empty o.error then [] else ("Task: " ⧺ o.instruction ⧺ "\nFailed: " ⧺ o.error) ∷ []

unfoldable pub success_parts : ChatEnv → List Output → List String
success_parts env [] = []
success_parts env (o ∷ os) =
    success_part (env.codec.unmarshal_exec o.payload) ++ success_parts env os

unfoldable pub failure_parts : ChatEnv → List Output → List String
failure_parts env [] = []
failure_parts env (o ∷ os) =
    failure_part (env.codec.unmarshal_exec o.payload) ++ failure_parts env os

abbrev pub section : String → List String → List String
section title [] = []
section title (p ∷ ps) = (title ⧺ join "\n\n---\n\n" (p ∷ ps)) ∷ []

abbrev pub synthesis_prompt : String
synthesis_prompt =
    "You are composing a final response from multiple sub-task results. Combine them into a single cohesive, natural response for the user. Do not mention that the work was split into sub-tasks. Be concise and direct."

abbrev pub with_failures : List String → String
with_failures [] = synthesis_prompt
with_failures (p ∷ ps) =
    synthesis_prompt
    ⧺ " Some sub-tasks failed. Acknowledge what you couldn't complete and why, briefly and naturally, without apologizing excessively."

-- The prompt and the user's message.
unfoldable pub build_synthesis_inputs : ChatEnv → String → List Output → String × String
unfolding success_parts failure_parts join
build_synthesis_inputs env original outputs =
    let failures = failure_parts env outputs in
    (
      with_failures failures,
      join "\n\n" (
          ("Original question: " ⧺ original)
            ∷ section "Sub-task results:\n\n" (success_parts env outputs)
          ++ section "Failed sub-tasks:\n\n" failures),
    )

abbrev pub response_payload : String → ReceivePayload → ResponsePayload
response_payload response payload = record {
  response = response;
  channel = payload.channel;
  thread_ts = payload.thread_ts;
  event_ts = payload.event_ts;
  channel_type = payload.channel_type;
}

module _ (env : ChatEnv) where
  -- The exchange goes into the thread, if there is one.
  unfoldable pub save_exchange : ReceivePayload → String → ChatM (Unit {0})
  save_exchange payload response =
      if is_empty payload.thread_key
      then pure tt
      else with_context "saving thread messages" (
          save_thread_messages env payload.thread_key "user" payload.message "assistant" response
            payload.user_id)

  unfoldable pub compose : String → ReceivePayload → List Output → ChatM (Unit {0})
  unfolding build_synthesis_inputs save_exchange
  compose id payload [] = raise (errorf ("no execute outputs found for workflow " ⧺ id))
  compose id payload (o ∷ os) = do
    let inputs = build_synthesis_inputs env payload.message (o ∷ os)
    let messages : List LlmMessage = record { role = "user"; content = inputs.1 } ∷ []
    response ←
        with_context "synthesizing response"
          (run_llm env (send_conversation inputs.0 messages haiku))
    step ← with_context "creating synthesize step" (create_step env id "synthesize")
    with_context "updating synthesize step status" (update_step_status env step "complete")
    content ←
        with_context "marshaling synthesize output"
          (lift (env.codec.marshal_response (response_payload response payload)))
    with_context "saving synthesize output" (save_output env id "synthesize" content)
    save_exchange payload response
    with_context "enqueuing respond job" (insert env (respond_job id "synthesize"))

  unfoldable pub synthesize : String → ChatM (Unit {0})
  unfolding compose
  synthesize id = do
    payload ← load_payload env id
    outputs ← with_context "getting execute outputs" (get_outputs_by_prefix env id "execute-")
    compose id payload outputs
