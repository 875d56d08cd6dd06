-- ===== src/Agent/Execute.antt =====
-- internal/jobs/execute.go.
use ponko.Common.{
  ℕ, String, List, [], ◌∷◌, Option, none, some, ◌&&◌, ltb, leb, nat_eq, ◌⧺◌, is_empty, length,
  if◌then◌else◌,
}
use ponko.Effect.{
  Err, error, wrap, Result, ok, err, pure, raise, lift, with_context, attempt, ◌>>=◌, ◌>>◌, now,
}
use ponko.Chat.{
  ReceivePayload, ChannelConfig, LlmMessage, ChatM, ChatEnv, insert, run_llm, synthesize_job,
  send_conversation, send_with_tools, haiku, sonnet,
}
use ponko.Channels.{get_config}
use ponko.WorkflowStore.{
  create_step, update_step_status_by_name, save_output, increment_completed_tasks,
}
use ponko.Prompt.{build_system_prompt}
use ponko.Agent.{AgentConfig, resolve_user}
use ponko.Agent.Receive.{load_payload}

-- The River job: its arguments and what River knows of its attempts. `errors` are those of the
-- attempts before, the oldest first.
pub record ExecuteJob : Type 0 where
  pub workflow_id : String
  pub instruction : String
  pub task_index : ℕ
  pub attempt_number : ℕ
  pub max_attempts : ℕ
  pub errors : List String

-- err: the configuration is nil, a logged error.
abbrev pub or_default : Result (Option ChannelConfig) → Option ChannelConfig
or_default (ok cfg) = cfg
or_default (err e) = none

abbrev pub last_error : List String → Option String
last_error [] = none
last_error (e ∷ []) = some e
last_error (e ∷ f ∷ es) = last_error (f ∷ es)

unfoldable pub augment_instruction_with_error : String → String → String
augment_instruction_with_error instruction previous =
    if is_empty previous
    then instruction
    else instruction ⧺ "\n\nNote: A previous attempt at this task failed with error: " ⧺ previous
      ⧺ "\nPlease try a different approach if possible."

abbrev pub augmented : String → Option String → String
unfolding augment_instruction_with_error
augmented instruction none = instruction
augmented instruction (some e) = augment_instruction_with_error instruction e

-- The instruction of an attempt after the first.
abbrev pub instruction_of : ExecuteJob → String
instruction_of job =
    if ltb 1 job.attempt_number
    then augmented job.instruction (last_error job.errors)
    else job.instruction

module _ (env : ChatEnv) (config : AgentConfig) where
  unfoldable pub execute_task : String → ReceivePayload → ChatM String
  unfolding build_system_prompt
  execute_task instruction payload = do
    cfg ← attempt (get_config env payload.channel)
    user ← resolve_user env config payload.user_id
    moment ← now env.host
    let built = build_system_prompt env (record {
      has_mcp = config.has_mcp;
      channel_cfg = or_default cfg;
      moment = moment;
      zone = user.1;
      default_prompt = config.system_prompt;
      bot_name = config.bot_name;
      display_name = user.0;
      tools = config.tools;
    })
    let prompt =
        built.0
        ⧺ "\n\nYou are executing a specific sub-task. Focus only on this instruction and return a concise result."
    let messages : List LlmMessage = record { role = "user"; content = instruction } ∷ []
    (if built.1.1 && ltb 0 (length built.1.0)
        then run_llm env (send_with_tools prompt messages built.1.0 sonnet)
        else run_llm env (send_conversation prompt messages haiku))

module _ (env : ChatEnv) where
  abbrev pub step_of : ℕ → String
  step_of index = "execute-" ⧺ env.decimal index

  unfoldable pub maybe_trigger_synthesize : String → ℕ → ℕ → ChatM (Unit {0})
  maybe_trigger_synthesize id completed total =
      if nat_eq completed total
      then with_context "enqueuing synthesize job" (insert env (synthesize_job id))
      else pure tt

  unfoldable pub count_completed : String → ChatM (ℕ × ℕ)
  count_completed id =
      with_context "incrementing completed tasks" (increment_completed_tasks env id)

  unfoldable pub handle_execute_failure : ExecuteJob → Err → ChatM (ℕ × ℕ)
  unfolding count_completed
  handle_execute_failure job e = do
    let name = step_of job.task_index
    with_context ("updating " ⧺ name ⧺ " step status")
        (update_step_status_by_name env job.workflow_id name "failed")
    content ← with_context ("marshaling " ⧺ name ⧺ " failure output") (
        lift (
          env.codec.marshal_exec
            (record { instruction = job.instruction; result = ""; error = error e })))
    with_context ("saving " ⧺ name ⧺ " failure output")
        (save_output env job.workflow_id name content)
    count_completed job.workflow_id

  unfoldable pub handle_execute_success : ExecuteJob → String → ChatM (ℕ × ℕ)
  unfolding count_completed
  handle_execute_success job result = do
    let name = step_of job.task_index
    with_context ("updating " ⧺ name ⧺ " step status")
        (update_step_status_by_name env job.workflow_id name "complete")
    content ← with_context ("marshaling " ⧺ name ⧺ " output") (
        lift (
          env.codec.marshal_exec
            (record { instruction = job.instruction; result = result; error = "" })))
    with_context ("saving " ⧺ name ⧺ " output") (save_output env job.workflow_id name content)
    count_completed job.workflow_id

  -- After the model's answer.
  unfoldable pub conclude : ExecuteJob → Result String → ChatM (Unit {0})
  unfolding handle_execute_failure handle_execute_success maybe_trigger_synthesize
  conclude job (ok result) = do
    counts ← handle_execute_success job result
    maybe_trigger_synthesize job.workflow_id counts.0 counts.1
  conclude job (err e) =
      if leb job.max_attempts job.attempt_number
      then (handle_execute_failure job e >>= λ counts.
          maybe_trigger_synthesize job.workflow_id counts.0 counts.1)
      else raise (wrap ("executing task " ⧺ env.decimal job.task_index) e)

  -- The step is created on the first attempt only.
  unfoldable pub create_first_step : ExecuteJob → ChatM (Unit {0})
  create_first_step job =
      if nat_eq job.attempt_number 1
      then (with_context ("creating " ⧺ step_of job.task_index ⧺ " step")
            (create_step env job.workflow_id (step_of job.task_index))
          >>= λ step. pure tt)
      else pure tt

  unfoldable pub execute : AgentConfig → ExecuteJob → ChatM (Unit {0})
  unfolding create_first_step execute_task conclude
  execute config job = do
    payload ← load_payload env job.workflow_id
    create_first_step job
    answer ← attempt (execute_task env config (instruction_of job) payload)
    conclude job answer
