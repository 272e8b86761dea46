-- ===== src/Core/HttpAgent.antt =====
-- core/src/http_agent.rs: an A2A agent that is reached by HTTP.
use Prim.Native.Char.{code}
use Prim.Native.String.{◌++◌}
use text.Mathlib.Text.{find?}
use acp_a2a_gateway.Prelude.{
  ◌>>=◌, ℕ, String, Bool, true, false, ◌&&◌, Option, none, some, leb, ◌==◌, if◌then◌else◌, is_some,
  get_or, or_else, and_then, map_option, Result, ok, err, ok_or, request_failed,
  unreadable_response, remote_error, no_status_message, card_unavailable, unreadable_card, List,
}
use acp_a2a_gateway.Protocol.Json.{Value, get, as_str, num, neg, null, str, bool, obj, field, end}
use acp_a2a_gateway.Protocol.A2a.{AgentCard, Task, TaskId, Message, A2aEvent}
use acp_a2a_gateway.Core.Reply.{Reply, complete, streaming}
use acp_a2a_gateway.Core.Agent.{A2aAgent}
use acp_a2a_gateway.Core.Utf8.{Text}
use acp_a2a_gateway.Core.Sse.{Chunk, sse_to_a2a_events}

pub record HttpA2aAgent : Type 0 where
  pub base_url : String
  pub push_token : Option String

-- What the HTTP client hands over of a response: its content type, if that is text; its body, if
-- that is JSON; and its body as it arrives.
pub record Response : Type 0 where
  pub content_type : Option String
  pub json : Option Value
  pub bytes_stream : List Chunk

-- The HTTP client, with the name that `uuid_stub` draws, how much of a stream its receiver takes,
-- and serde's reading and printing.
pub record Client : Type 0 where
  pub fetch : (url : String) → Option Response
  pub post : (url : String) (bearer : Option String) (body : Value) → Option Response
  pub request_id : String
  pub room : ℕ
  pub read_card : Value → Option AgentCard
  pub read_task : Value → Option Task
  pub event_from_str : Text → Option A2aEvent
  pub write_message : Message → Value
  pub to_string : Value → String

rpc_endpoint : HttpA2aAgent → String
rpc_endpoint a = a.base_url

only_slashes : String → Bool
only_slashes String.[] = true
only_slashes (String.◌∷◌ c s) = code c == b'/' && only_slashes s

-- `s.trim_end_matches('/')`
unfoldable pub trim_slashes : String → String
unfolding only_slashes
trim_slashes String.[] = ""
trim_slashes (String.◌∷◌ c s) =
    let rest = trim_slashes s in if code c == b'/' && only_slashes s then "" else String.◌∷◌ c rest

unfoldable pub agent_card_url : HttpA2aAgent → String
unfolding trim_slashes
agent_card_url a = trim_slashes a.base_url ++ "/.well-known/agent.json"

pub data JsonRpcResponse {ℓ} (R : Type ℓ) : Type ℓ where
  ok_response : R → JsonRpcResponse R
  -- code, message
  err_response : Value → String → JsonRpcResponse R

-- a number that an `i64` holds
unfoldable pub as_i64 : Value → Option Value
as_i64 (num n) = if leb n 9_223_372_036_854_775_807 then some (num n) else none
as_i64 (neg n) = if leb n 9_223_372_036_854_775_808 then some (neg n) else none
as_i64 _ = none

read_error_object : Value → Option (Value × String)
unfolding as_i64
read_error_object v =
    and_then (and_then (get v "code") as_i64)
      λ c. map_option (λ message. (c, message)) (and_then (get v "message") as_str)

-- serde's untagged reading: the first shape that fits.
unfoldable pub read_response {ℓ} :
    {R : Type ℓ} → (Value → Option R) → Value → Option (JsonRpcResponse R)
unfolding read_error_object
read_response read v = and_then (and_then (get v "jsonrpc") as_str) λ version.
    or_else (map_option (λ r. ok_response r) (and_then (get v "result") read))
      (map_option (λ e. err_response e.0 e.1) (and_then (get v "error") read_error_object))

unfoldable pub open_envelope {ℓ} :
    {R : Type ℓ} → (Value → String) → String → JsonRpcResponse R → Result R
open_envelope to_string method (ok_response result) = ok result
open_envelope to_string method (err_response c message) =
    err (remote_error method (to_string c) message)

module _ (c : Client) (a : HttpA2aAgent) where
  request_body : String → Value → Value
  request_body method params = obj (
      field "jsonrpc" (str "2.0")
        (field "id" (str c.request_id) (field "method" (str method) (field "params" params end))))

  unfoldable pub call {ℓ} : {R : Type ℓ} → (Value → Option R) → String → Value → Result R
  unfolding request_body rpc_endpoint read_response open_envelope
  call read method params = do
    response ←
        ok_or (c.post (rpc_endpoint a) a.push_token (request_body method params))
          (request_failed method)
    envelope ← ok_or (and_then response.json (read_response read)) (unreadable_response method)
    open_envelope c.to_string method envelope

  card : Result AgentCard
  unfolding agent_card_url
  card = do
    response ← ok_or (c.fetch (agent_card_url a)) card_unavailable
    ok_or (and_then response.json c.read_card) unreadable_card

  get_task_params : TaskId → Value
  get_task_params id = obj (field "id" (str id) end)

  send_params : Message → Value
  send_params m = obj (
      field "message" (c.write_message m) (
        field "configuration"
          (obj (field "blocking" (bool false) (field "history_length" null end))) end))

  is_event_stream : Response → Bool
  is_event_stream r = is_some (find? (get_or r.content_type "") "text/event-stream")

  -- What becomes of the response to a message.
  unfoldable pub receive : Response → Result (Reply Task A2aEvent)
  unfolding is_event_stream read_response open_envelope sse_to_a2a_events
  receive r =
      if is_event_stream r
      then ok (streaming (sse_to_a2a_events c.event_from_str c.room r.bytes_stream))
      else do
        envelope ←
            ok_or (and_then r.json (read_response c.read_task)) (unreadable_response "message/send")
        task ← open_envelope c.to_string "message/send" envelope
        ok (complete task)

  unfoldable pub send_task : Task → Result (Reply Task A2aEvent)
  unfolding send_params request_body rpc_endpoint receive
  send_task t = do
    message ← ok_or t.status.message no_status_message
    response ←
        ok_or
          (c.post (rpc_endpoint a) a.push_token (request_body "message/send" (send_params message)))
          (request_failed "message/send")
    receive response

  unfoldable pub get_task : TaskId → Result Task
  unfolding get_task_params call
  get_task id = call c.read_task "tasks/get" (get_task_params id)

  unfoldable pub cancel_task : TaskId → Result Task
  unfolding get_task_params call
  cancel_task id = call c.read_task "tasks/cancel" (get_task_params id)

  -- The trait's methods, for the converter of a connection.
  unfoldable pub as_agent : A2aAgent
  unfolding card send_task get_task cancel_task
  as_agent = record {
    card = card;
    send_task = send_task;
    get_task = get_task;
    cancel_task = cancel_task;
  }
