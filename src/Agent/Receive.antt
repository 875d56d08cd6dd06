-- ===== src/Agent/Receive.antt =====
-- internal/jobs/receive.go.
use ponko.Common.{String}
use ponko.Effect.{lift, with_context, ◌>>=◌, ◌>>◌}
use ponko.Chat.{ReceivePayload, ChatM, ChatEnv, insert, plan_job}
use ponko.WorkflowStore.{create_step, update_step_status, save_output, get_output}

module _ (env : ChatEnv) where
  unfoldable pub receive : String → ReceivePayload → ChatM (Unit {0})
  receive id payload = do
    step ← with_context "creating receive step" (create_step env id "receive")
    with_context "updating receive step status" (update_step_status env step "complete")
    content ← with_context "marshaling receive output" (lift (env.codec.marshal_receive payload))
    with_context "saving receive output" (save_output env id "receive" content)
    with_context "enqueuing plan job" (insert env (plan_job id))

  -- What the later jobs start with.
  unfoldable pub load_payload : String → ChatM ReceivePayload
  load_payload id = do
    content ← with_context "getting receive output" (get_output env id "receive")
    with_context "unmarshaling receive output" (lift (env.codec.unmarshal_receive content))
