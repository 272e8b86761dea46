-- ===== src/Core/StdioAgent/Channels.antt =====
-- core/src/stdio_agent.rs: the chunks of a turn on the channel of its stream.
pub mod Routes
pub mod Delivery
pub mod Stale
use acp_a2a_gateway.Prelude.{
  ℕ, ◌+◌, ◌≡◌, Bool, true, Option, none, some, List, [], ◌∷◌, ◌++◌, not, if◌then◌else◌, is_some,
  get_or, ◌=ˢ◌,
}
use acp_a2a_gateway.Prelude.Ids
use acp_a2a_gateway.Prelude.Ids.{Ids}
use acp_a2a_gateway.Protocol.Json.{Value, get}
use acp_a2a_gateway.Protocol.Acp.{ContentBlock, SessionUpdate, SessionId}
use acp_a2a_gateway.Core.StdioAgent.{StdioAcpAgent, session_chunk}
use acp_a2a_gateway.Core.StdioAgent.Steps.{
  Event, line, eof, call, expire, tell, prompt, stream, end_turn,
}

-- A step that neither opens nor closes the channel of the session.
unfoldable pub leaves : SessionId → Event → Bool
leaves session (line delivered v) = true
leaves session eof = true
leaves session (call alive delivered method params) = true
leaves session (expire id) = true
leaves session (tell alive delivered method params) = true
leaves session (prompt alive delivered other params) = not (other =ˢ session)
leaves session (stream delivered other params) = not (other =ˢ session)
leaves session (end_turn other opened) = not (other =ˢ session)

abbrev pub Leaves : SessionId → List Event → Type 0
Leaves session [] = Unit {0}
Leaves session (e ∷ es) = (leaves session e ≡ true) × Leaves session es

unfoldable pub wanted : SessionId → Option (SessionId × SessionUpdate) → List SessionUpdate
wanted session none = []
wanted session (some (k, u)) = if k =ˢ session then u ∷ [] else []

module _ (read_block : Value → Option ContentBlock) where
  -- the chunk that a line carries: a notification has a method and no id
  unfoldable pub chunk_of_line : Value → Option (SessionId × SessionUpdate)
  chunk_of_line v =
      if is_some (get v "method")
      then (if is_some (get v "id") then none else session_chunk read_block v)
      else none

  unfoldable pub chunk_for : SessionId → Event → List SessionUpdate
  unfolding wanted
  chunk_for session (line delivered v) = wanted session (chunk_of_line v)
  chunk_for session eof = []
  chunk_for session (call alive delivered method params) = []
  chunk_for session (expire id) = []
  chunk_for session (tell alive delivered method params) = []
  chunk_for session (prompt alive delivered other params) = []
  chunk_for session (stream delivered other params) = []
  chunk_for session (end_turn other opened) = []

  -- the chunks for the session among the lines of the agent, in their order
  unfoldable pub chunks_for : SessionId → List Event → List SessionUpdate
  unfolding chunk_for chunk_of_line
  chunks_for session [] = []
  chunks_for session (e ∷ es) = chunk_for session e ++ chunks_for session es

-- What has been sent on a channel.
abbrev pub sent : ℕ → StdioAcpAgent → List SessionUpdate
sent c s = get_or (Ids.lookup c s.channels) []
