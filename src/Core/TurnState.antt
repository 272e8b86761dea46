-- ===== src/Core/TurnState.antt =====
-- core/src/convert.rs, part 2: task states of A2A against stop reasons of ACP.
use acp_a2a_gateway.Prelude.{Result, ok, err, unfinished_task}
use acp_a2a_gateway.Protocol.A2a.{
  TaskState, unspecified, submitted, working, input_required, auth_required, completed, failed,
  canceled, rejected,
}
use acp_a2a_gateway.Protocol.Acp.{
  StopReason, end_turn, max_tokens, max_turn_requests, refusal, cancelled,
}

unfoldable pub task_state_to_stop_reason : TaskState → Result StopReason
task_state_to_stop_reason completed = ok end_turn
task_state_to_stop_reason canceled = ok cancelled
task_state_to_stop_reason failed = ok refusal
task_state_to_stop_reason rejected = ok refusal
task_state_to_stop_reason input_required = ok end_turn
task_state_to_stop_reason auth_required = ok end_turn
task_state_to_stop_reason submitted = err unfinished_task
task_state_to_stop_reason working = err unfinished_task
task_state_to_stop_reason unspecified = err unfinished_task

unfoldable pub stop_reason_to_task_state : StopReason → TaskState
stop_reason_to_task_state end_turn = completed
stop_reason_to_task_state max_tokens = completed
stop_reason_to_task_state max_turn_requests = completed
stop_reason_to_task_state refusal = failed
stop_reason_to_task_state cancelled = canceled
