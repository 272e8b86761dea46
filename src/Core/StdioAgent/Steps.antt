-- ===== src/Core/StdioAgent/Steps.antt =====
-- core/src/stdio_agent.rs: the steps in which the callers and the reader task of an agent
-- interleave, each under a lock of the agent.
use acp_a2a_gateway.Prelude.{ℕ, String, Bool, Option, List, [], ◌∷◌, Result}
use acp_a2a_gateway.Protocol.Json.{Value}
use acp_a2a_gateway.Protocol.Acp.{ContentBlock, SessionId}
use acp_a2a_gateway.Core.StdioAgent.{StdioAcpAgent, begin_call, forget, notify, handle_line, close}
use acp_a2a_gateway.Core.StdioAgent.Prompts.{close_channel, begin_prompt, begin_stream}

pub data Event : Type 0 where
  -- the reader task reads a line that is JSON; the flag says whether the pipe takes a reply
  line : Bool → Value → Event
  -- the agent's output ends
  eof : Event
  -- a call begins, and a wait ends with the timeout
  call : Result (Unit {0}) → Bool → String → Value → Event
  expire : ℕ → Event
  -- a notification
  tell : Result (Unit {0}) → Bool → String → Value → Event
  -- a prompt of either kind begins
  prompt : Result (Unit {0}) → Bool → SessionId → Value → Event
  stream : Bool → SessionId → Value → Event
  -- the turn of a session, or the task of its stream, comes to its end; the number is the channel
  -- which that turn has opened, and which the code does not look at
  end_turn : SessionId → ℕ → Event

module _ (read_block : Value → Option ContentBlock) where
  unfoldable pub step : Event → StdioAcpAgent → StdioAcpAgent
  unfolding handle_line close begin_call forget notify begin_prompt begin_stream close_channel
  step (line delivered parsed) s = handle_line read_block delivered parsed s
  step eof s = close s
  step (call alive delivered method params) s = (begin_call alive delivered method params s).1
  step (expire id) s = forget id s
  step (tell alive delivered method params) s = (notify alive delivered method params s).1
  step (prompt alive delivered session params) s = (begin_prompt alive delivered session params s).1
  step (stream delivered session params) s = (begin_stream delivered session params s).1
  step (end_turn session opened) s = close_channel session s

  unfoldable pub run : List Event → StdioAcpAgent → StdioAcpAgent
  unfolding step
  run [] s = s
  run (e ∷ es) s = run es (step e s)
