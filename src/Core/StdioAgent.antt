-- ===== src/Core/StdioAgent.antt =====
-- core/src/stdio_agent.rs: the connection to an agent behind a pipe. Its calls wait for the answers
-- that the reader task takes from the agent's output.
pub mod Prompts
pub mod Steps
pub mod Calls
pub mod Channels
use Prim.Native.String.{◌++◌}
use acp_a2a_gateway.Prelude
use acp_a2a_gateway.Prelude.Ids
use acp_a2a_gateway.Prelude.Ids.{Ids}
use acp_a2a_gateway.Prelude.{
  ℕ, String, ◌+◌, Bool, false, Option, none, some, List, [], ◌∷◌, ◌=ˢ◌, if◌then◌else◌, is_some,
  get_or, and_then, map_option, Dict, lookup, Result, ok, err, ok_or, write_failed, no_response,
  unreadable_result, agent_error,
}
use acp_a2a_gateway.Protocol.Json.{
  Value, num, neg, str, obj, field, end, get, as_str, as_u64, or_null,
}
use acp_a2a_gateway.Protocol.Acp.{SessionUpdate, ContentBlock, agent_message_chunk}

-- What a call is sent on its oneshot channel.
pub data Outcome : Type 0 where
  answer : Value → Outcome
  failure : String → Outcome

-- A oneshot channel is known by the id of its call, an unbounded channel by a number of its own.
pub record StdioAcpAgent : Type 0 where
  pub next_id : ℕ
  pub pending : Ids (Unit {0})
  pub updates : Dict ℕ
  -- what has been sent on the oneshot channels, and on the channels of the streams
  pub answers : Ids Outcome
  pub channels : Ids (List SessionUpdate)
  pub next_channel : ℕ
  -- the lines that the agent's input has taken
  pub written : List Value

unfoldable pub spawned : StdioAcpAgent
spawned = record {
  next_id = 1;
  pending = [];
  updates = [];
  answers = [];
  channels = [];
  next_channel = 0;
  written = [];
}

unfoldable pub write_line : Value → StdioAcpAgent → StdioAcpAgent
write_line v s = record s { written = Prelude.◌++◌ s.written (v ∷ []) }

rpc_request : ℕ → String → Value → Value
rpc_request id method params = obj (
    field "jsonrpc" (str "2.0")
      (field "id" (num id) (field "method" (str method) (field "params" params end))))

-- A request with the next id, which waits from here on; `delivered` is whether the pipe takes it.
unfoldable pub send_request :
    (delivered : Bool) → String → Value → StdioAcpAgent → Result ℕ × StdioAcpAgent
unfolding write_line rpc_request
send_request delivered method params s =
    let waiting = record s {
      next_id = s.next_id + 1;
      pending = Ids.insert s.next_id tt s.pending;
    } in
    if delivered
    then (ok s.next_id, write_line (rpc_request s.next_id method params) waiting)
    else (err write_failed, waiting)

-- `call` up to its wait; `alive` is what `ensure_alive` finds.
unfoldable pub begin_call :
    (alive : Result (Unit {0})) (delivered : Bool)
    → String
    → Value
    → StdioAcpAgent
    → Result ℕ × StdioAcpAgent
unfolding send_request
begin_call (err e) delivered method params s = (err e, s)
begin_call (ok _) delivered method params s = send_request delivered method params s

unfoldable pub forget : ℕ → StdioAcpAgent → StdioAcpAgent
forget id s = record s { pending = Ids.remove id s.pending }

-- `call` behind its wait, which ends with an answer or with the timeout. `read` is serde's.
unfoldable pub end_call {ℓ} :
    {R : Type ℓ} → (Value → Option R) → String → ℕ → StdioAcpAgent → Result R × StdioAcpAgent
unfolding forget
end_call read method id s = elim (Ids.lookup id s.answers) [
  | none ↦ (err no_response, forget id s)
  | some (answer v) ↦ (ok_or (read v) (unreadable_result method), s)
  | some (failure message) ↦ (err (agent_error method message), s)
]

unfoldable pub notify :
    (alive : Result (Unit {0})) (delivered : Bool)
    → String
    → Value
    → StdioAcpAgent
    → Result (Unit {0}) × StdioAcpAgent
unfolding write_line
notify (err e) delivered method params s = (err e, s)
notify (ok _) delivered method params s =
    let line =
      obj (field "jsonrpc" (str "2.0") (field "method" (str method) (field "params" params end))) in
    if delivered then (ok tt, write_line line s) else (err write_failed, s)

unfoldable pub reply_method_not_found :
    (delivered : Bool) (id request : Value) → StdioAcpAgent → StdioAcpAgent
unfolding write_line
reply_method_not_found delivered id request s =
    let method = get_or (and_then (get request "method") as_str) "<unknown>" in
    let message = "gateway не реализует клиентский метод " ++ method in
    let response = obj (
      field "jsonrpc" (str "2.0") (
        field "id" id (
          field "error" (obj (field "code" (neg 32601) (field "message" (str message) end)))
            end))) in
    if delivered then write_line response s else s

is_text : Option Value → String → Bool
is_text v wanted = elim (and_then v as_str) [ none ↦ false | some s ↦ s =ˢ wanted ]

unfoldable pub push {ℓ} : {A : Type ℓ} → ℕ → A → Ids (List A) → Ids (List A)
push c a m = Ids.insert c (Prelude.◌++◌ (get_or (Ids.lookup c m) []) (a ∷ [])) m

unfoldable pub deliver : Option (String × SessionUpdate) → StdioAcpAgent → StdioAcpAgent
unfolding push
deliver none s = s
deliver (some (session_id, chunk)) s = elim (lookup session_id s.updates) [
  | none ↦ s
  | some c ↦ record s { channels = push c chunk s.channels }
]

-- The waiters that `drain` gives up on.
unfoldable pub drain : Ids (Unit {0}) → Ids Outcome → Ids Outcome
drain [] answers = answers
drain ((id, _) ∷ waiting) answers =
    Ids.insert id (failure "agent stdout closed (process exited)") (drain waiting answers)

unfoldable pub outcome_of : Value → Outcome
outcome_of parsed = elim (get parsed "error") [
  | some e ↦ failure (get_or (and_then (get e "message") as_str) "unknown error")
  | none ↦ answer (or_null (get parsed "result"))
]

unfoldable pub resolve : ℕ → Value → StdioAcpAgent → StdioAcpAgent
unfolding outcome_of
resolve id parsed s = elim (Ids.lookup id s.pending) [
  | none ↦ s
  | some _ ↦ record s {
    pending = Ids.remove id s.pending;
    answers = Ids.insert id (outcome_of parsed) s.answers;
  }
]

-- `read_block` is serde's reading of a content block.
module _ (read_block : Value → Option ContentBlock) where
  -- the session and the chunk that a notification carries
  chunk_of : String → Value → Option (String × SessionUpdate)
  unfolding is_text
  chunk_of session_id update =
      if is_text (get update "sessionUpdate") "agent_message_chunk"
      then map_option
          (λ block.
            (session_id, agent_message_chunk (and_then (get update "messageId") as_str) block))
          (and_then (get update "content") read_block)
      else none

  unfoldable pub session_chunk : Value → Option (String × SessionUpdate)
  unfolding is_text chunk_of
  session_chunk parsed =
      if is_text (get parsed "method") "session/update"
      then and_then (get parsed "params") (λ params.
        and_then (and_then (get params "sessionId") as_str)
          (λ session_id. and_then (get params "update") (chunk_of session_id)))
      else none

  unfoldable pub collect_session_update : Value → StdioAcpAgent → StdioAcpAgent
  unfolding session_chunk deliver
  collect_session_update parsed s = deliver (session_chunk parsed) s

  -- One round of the reader task, on a line that is JSON; `delivered` is whether the pipe takes a
  -- reply. A line that is not JSON is skipped.
  unfoldable pub handle_line : (delivered : Bool) (parsed : Value) → StdioAcpAgent → StdioAcpAgent
  unfolding reply_method_not_found collect_session_update resolve
  handle_line delivered parsed s =
      if is_some (get parsed "method")
      then elim (get parsed "id") [
        | some request_id ↦ reply_method_not_found delivered request_id parsed s
        | none ↦ collect_session_update parsed s
      ]
      else elim (and_then (get parsed "id") as_u64) [ none ↦ s | some id ↦ resolve id parsed s ]

-- The reader task behind the end of the agent's output.
unfoldable pub close : StdioAcpAgent → StdioAcpAgent
unfolding drain
close s = record s { pending = []; answers = drain s.pending s.answers }
