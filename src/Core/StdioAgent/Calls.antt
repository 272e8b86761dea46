-- ===== src/Core/StdioAgent/Calls.antt =====
-- core/src/stdio_agent.rs: what a call of the agent promises, told by the events alone.
pub mod Sound
pub mod Answered
use acp_a2a_gateway.Prelude.{
  ℕ, Bool, false, Option, none, some, List, [], ◌∷◌, ◌==◌, if◌then◌else◌, is_some, and_then,
}
use acp_a2a_gateway.Prelude.Ids
use acp_a2a_gateway.Prelude.Ids.{Ids}
use acp_a2a_gateway.Protocol.Json.{Value, get, as_u64}
use acp_a2a_gateway.Core.StdioAgent.{StdioAcpAgent, Outcome, failure, outcome_of}
use acp_a2a_gateway.Core.StdioAgent.Steps.{
  Event, line, eof, call, expire, tell, prompt, stream, end_turn,
}

-- What a call promises: it waits until it has its answer, or until it gives up.
pub data Call : Type 0 where
  gone waiting : Call
  answered : Outcome → Call

unfoldable pub view : ℕ → StdioAcpAgent → Call
view k s = elim (Ids.lookup k s.answers) [
  | some o ↦ answered o
  | none ↦ elim (Ids.lookup k s.pending) [ some _ ↦ waiting | none ↦ gone ]
]

-- the id that a line answers: requests and notifications of the agent have a method
unfoldable pub answered_id : Value → Option ℕ
answered_id v = if is_some (get v "method") then none else and_then (get v "id") as_u64

unfoldable pub is_id : Option ℕ → ℕ → Bool
is_id none k = false
is_id (some j) k = j == k

-- The same events, as the one call sees them.
unfoldable pub follow : ℕ → Event → Call → Call
unfolding answered_id is_id outcome_of
follow k e gone = gone
follow k e (answered o) = answered o
follow k (line delivered v) waiting =
    if is_id (answered_id v) k then answered (outcome_of v) else waiting
follow k eof waiting = answered (failure "agent stdout closed (process exited)")
follow k (expire id) waiting = if id == k then gone else waiting
follow k (call alive delivered method params) waiting = waiting
follow k (tell alive delivered method params) waiting = waiting
follow k (prompt alive delivered session params) waiting = waiting
follow k (stream delivered session params) waiting = waiting
follow k (end_turn session opened) waiting = waiting

unfoldable pub follow_all : ℕ → List Event → Call → Call
unfolding follow outcome_of
follow_all k [] c = c
follow_all k (e ∷ es) c = follow_all k es (follow k e c)
