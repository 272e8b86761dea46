-- ===== src/Core/Agent.antt =====
-- core/src/agent.rs: the agent behind a converter, by its answers to the calls of one operation.
-- What the agent does lies outside the gateway, so every operation takes these as an argument.
use acp_a2a_gateway.Prelude.{ℕ, String, Option, Result}
use acp_a2a_gateway.Protocol.Json.{Value}
use acp_a2a_gateway.Protocol.A2a.{Task, TaskId, A2aEvent, AgentCard}
use acp_a2a_gateway.Protocol.Acp.{SessionId, PromptRequest, PromptResponse, SessionUpdate}
use acp_a2a_gateway.Core.Reply.{Reply}
use acp_a2a_gateway.Core.TaskStore.{Fault}

pub record AcpAgent : Type 0 where
  pub ensure_ready : Result (Unit {0})
  -- read behind `ensure_ready`
  pub generation : ℕ
  pub new_session : Result SessionId
  pub prompt_streaming : PromptRequest → Result (Reply PromptResponse SessionUpdate)
  pub cancel : SessionId → Result (Unit {0})

pub record A2aAgent : Type 0 where
  pub card : Result AgentCard
  pub send_task : Task → Result (Reply Task A2aEvent)
  pub get_task : TaskId → Result Task
  pub cancel_task : TaskId → Result Task

-- What an operation reads of the machine: the clock, twice (as an instant and as a printed time),
-- whether the disk takes a write, how much of a stream its receiver takes, and how the libraries
-- print JSON and numbers.
pub record Env : Type 0 where
  pub now : ℕ
  pub timestamp : Option String
  pub fault : Fault
  pub room : ℕ
  pub to_string : Value → String
  pub print_decimal : ℕ → String
