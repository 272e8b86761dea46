-- ===== src/Core/StdioAgent/Prompts.antt =====
-- core/src/stdio_agent.rs: the two ways to prompt an agent, whose chunks arrive on a channel of the
-- session.
use acp_a2a_gateway.Prelude.Ids
use acp_a2a_gateway.Prelude.{
  ◌>>=◌, ℕ, String, ◌+◌, Bool, true, false, Option, none, some, List, [], ◌∷◌, ◌++◌, if◌then◌else◌,
  get_or, insert, remove, take, Result, ok, err, no_response, unreadable_result, agent_error,
}
use acp_a2a_gateway.Protocol.Json.{Value, str, obj, field, end}
use acp_a2a_gateway.Protocol.Acp.{
  SessionUpdate, SessionId, ContentBlock, PromptResponse, agent_message_chunk,
}
use acp_a2a_gateway.Protocol.Acp
use acp_a2a_gateway.Core.Reply.{Reply, complete, streaming}
use acp_a2a_gateway.Core.Updates.{join_lines}
use acp_a2a_gateway.Core.StdioAgent.{
  StdioAcpAgent, Outcome, answer, failure, send_request, begin_call, end_call, forget, notify,
}

-- A fresh channel for the chunks of the session, in place of the one it had.
unfoldable pub open_channel : SessionId → StdioAcpAgent → ℕ × StdioAcpAgent
open_channel session s = (
  s.next_channel,
  record s {
    updates = insert session s.next_channel (remove session s.updates);
    next_channel = s.next_channel + 1;
  },
)

unfoldable pub close_channel : SessionId → StdioAcpAgent → StdioAcpAgent
close_channel session s = record s { updates = remove session s.updates }

received : ℕ → StdioAcpAgent → List SessionUpdate
received c s = get_or (Ids.lookup c s.channels) []

blocks : List SessionUpdate → List ContentBlock
blocks [] = []
blocks (agent_message_chunk id content ∷ us) = content ∷ blocks us
blocks (SessionUpdate.tool_call id title kind status ∷ us) = blocks us
blocks (SessionUpdate.tool_call_update id status content ∷ us) = blocks us
blocks (SessionUpdate.plan entries ∷ us) = blocks us
blocks (SessionUpdate.usage_update used size cost ∷ us) = blocks us

is_empty {ℓ} : {A : Type ℓ} → List A → Bool
is_empty [] = true
is_empty (x ∷ xs) = false

-- `prompt` up to its wait: the channel, the id of its call.
unfoldable pub begin_prompt :
    (alive : Result (Unit {0})) (delivered : Bool)
    → SessionId
    → Value
    → StdioAcpAgent
    → Result (ℕ × ℕ) × StdioAcpAgent
unfolding open_channel begin_call
begin_prompt alive delivered session params s =
    let opened = open_channel session s in
    let called = begin_call alive delivered "session/prompt" params opened.1 in
    (called.0 >>= (λ id. ok (opened.0, id)), called.1)

-- `prompt` behind its wait. `read` is serde's reading of the response.
unfoldable pub end_prompt :
    (Value → Option PromptResponse)
    → SessionId
    → ℕ × ℕ
    → StdioAcpAgent
    → Result (Reply PromptResponse SessionUpdate) × StdioAcpAgent
unfolding end_call close_channel received blocks is_empty
end_prompt read session (c, id) s =
    let called = end_call read "session/prompt" id s in
    elim called.0 [
      | err e ↦ (err e, called.1)
      | ok response ↦
          let content =
            if is_empty response.content then blocks (received c called.1) else response.content in
          (ok (complete (record response { content = content })), close_channel session called.1)
    ]

-- `prompt_streaming` up to its wait: the channel, the id of its request.
unfoldable pub begin_stream :
    (delivered : Bool) → SessionId → Value → StdioAcpAgent → Result (ℕ × ℕ) × StdioAcpAgent
unfolding open_channel send_request
begin_stream delivered session params s =
    let opened = open_channel session s in
    let sent = send_request delivered "session/prompt" params opened.1 in
    (sent.0 >>= (λ id. ok (opened.0, id)), sent.1)

texts : List ContentBlock → List String
texts [] = []
texts (Acp.ContentBlock.text t ∷ bs) = t ∷ texts bs
texts (ContentBlock.image mime bytes uri ∷ bs) = texts bs
texts (ContentBlock.audio mime bytes ∷ bs) = texts bs
texts (ContentBlock.resource r ∷ bs) = texts bs
texts (ContentBlock.resource_link uri name mime size ∷ bs) = texts bs

prompt_to_content_block : PromptResponse → ContentBlock
unfolding join_lines texts
prompt_to_content_block response = Acp.ContentBlock.text (join_lines (texts response.content))

-- What the background task of a stream finds next, with priority for a chunk: a chunk, its channel
-- closed, the response with the chunks still queued behind it, or nothing for too long.
pub data Seen : Type 0 where
  chunk : SessionUpdate → Seen
  closed : Seen
  response : Outcome → List SessionUpdate → Seen
  idle_timeout : Seen

module _ (read : Value → Option PromptResponse) where
  unfoldable pub terminal : Outcome → List SessionUpdate
  unfolding prompt_to_content_block
  terminal (failure message) = []
  terminal (answer v) = elim (read v) [
    | none ↦ []
    | some r ↦ agent_message_chunk none (prompt_to_content_block r) ∷ []
  ]

  relayed : List Seen → List SessionUpdate
  unfolding terminal
  relayed [] = []
  relayed (chunk u ∷ seen) = u ∷ relayed seen
  relayed (closed ∷ seen) = []
  relayed (response o queued ∷ seen) = queued ++ terminal o
  relayed (idle_timeout ∷ seen) = []

  -- What the receiver of a stream gets: the chunk that started it, and what the background task
  -- passes on, if it takes `room` items before it disconnects.
  unfoldable pub stream_items : (room : ℕ) (first : SessionUpdate) → List Seen → List SessionUpdate
  unfolding relayed
  stream_items room first seen = take room (first ∷ relayed seen)

  -- `prompt_streaming` behind its first wait: a chunk has priority, then the response; with neither,
  -- `first_chunk_timeout` is over. `seen` is what the background task will find.
  unfoldable pub end_first_wait :
      (room : ℕ) (seen : List Seen)
      → SessionId
      → ℕ × ℕ
      → StdioAcpAgent
      → Result (Reply PromptResponse SessionUpdate) × StdioAcpAgent
  unfolding received stream_items close_channel forget
  end_first_wait room seen session (c, id) s = elim (received c s) [
    | u ∷ us ↦ (ok (streaming (stream_items room u seen)), s)
    | [] ↦ elim (Ids.lookup id s.answers) [
      | none ↦ (err no_response, close_channel session (forget id s))
      | some (failure message) ↦ (err (agent_error "session/prompt" message), s)
      | some (answer v) ↦ elim (read v) [
        | none ↦ (err (unreadable_result "session/prompt"), s)
        | some r ↦ (ok (complete r), close_channel session s)
      ]
    ]
  ]

unfoldable pub cancel :
    (alive : Result (Unit {0})) (delivered : Bool)
    → SessionId
    → StdioAcpAgent
    → Result (Unit {0}) × StdioAcpAgent
unfolding notify
cancel alive delivered session =
    notify alive delivered "session/cancel" (obj (field "sessionId" (str session) end))
