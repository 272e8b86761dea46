-- ===== src/Gatewayd/Tcp/Serving.antt =====
-- gatewayd/src/transport_tcp.rs: the requests of an ACP client on a connection to an agent of A2A.
use Prim.Native.String.{◌++◌ as ◌+++◌}
use acp_a2a_gateway.Prelude.{
  ℕ, String, Bool, Option, none, some, List, [], ◌∷◌, ◌++◌, ◌=ˢ◌, if◌then◌else◌, map, and_then,
  map_option, get_or, Error, Result, ok, err, bad_params, method_not_found, no_session_id,
}
use acp_a2a_gateway.Protocol.Json.{
  Value, null, neg, str, arr, obj, field, end, get, as_str, to_list,
}
use acp_a2a_gateway.Protocol.Acp.{PromptRequest, PromptResponse, SessionUpdate}
use acp_a2a_gateway.Protocol.Handshake.{InitializeResponse}
use acp_a2a_gateway.Core.Reply.{Reply}
use acp_a2a_gateway.Core.Agent.{A2aAgent, Env}
use acp_a2a_gateway.Core.Utf8.{Text, trim}
use acp_a2a_gateway.Core.A2aAsAcp.{A2aAsAcp, new_session, prompt, cancel}
use acp_a2a_gateway.Core.A2aAsAcp.Initialize.{initialize}
use acp_a2a_gateway.Gatewayd.Registry.{Registry, try_acquire_stream, drop_permit}

pub record JsonRpcRequest : Type 0 where
  pub id : Option Value
  pub method : String
  pub params : Value

-- serde reads an id of `null` as no id.
unfoldable pub present : Option Value → Option Value
present (some null) = none
present v = v

-- The derived reading: a request without an id is a notification.
request_of_object : Value → Option JsonRpcRequest
unfolding present
request_of_object v =
    map_option
      (λ method. record {
        id = present (get v "id");
        method = method;
        params = get_or (get v "params") null;
      })
      (and_then (get v "method") as_str)

-- An array gives the fields by their position; only `params` may be left out behind `method`.
request_of_array : List Value → Option JsonRpcRequest
unfolding present
request_of_array (id ∷ str method ∷ []) =
    some (record { id = present (some id); method = method; params = null })
request_of_array (id ∷ str method ∷ params ∷ []) =
    some (record { id = present (some id); method = method; params = params })
request_of_array _ = none

unfoldable pub read_request : Value → Option JsonRpcRequest
unfolding request_of_object request_of_array
read_request (arr items) = request_of_array (to_list items)
read_request v = request_of_object v

-- What serde reads and prints on a connection.
pub record Serde : Type 0 where
  pub from_str : Text → Option Value
  pub parse_error : Text → String
  pub is_initialize : Value → Bool
  pub is_new_session : Value → Bool
  pub read_prompt : Value → Option PromptRequest
  pub write_initialize : InitializeResponse → Value
  pub write_prompt : PromptResponse → Value
  pub write_update : SessionUpdate → Value
  pub describe : Error → String

-- What a request meets: the machine and the agent at that time, and the name that is drawn.
pub record Moment : Type 0 where
  pub env : Env
  pub agent : A2aAgent
  pub suffix : String

pub data AcpDispatchResult : Type 0 where
  json : Value → AcpDispatchResult
  streaming : List SessionUpdate → AcpDispatchResult

module _ (serde : Serde) (moment : Moment) where
  dispatched_prompt : Reply PromptResponse SessionUpdate → AcpDispatchResult
  dispatched_prompt (Reply.complete response) = json (serde.write_prompt response)
  dispatched_prompt (Reply.streaming updates) = streaming updates

  unfoldable pub dispatch_initialize : Value → A2aAsAcp → Result AcpDispatchResult × A2aAsAcp
  unfolding initialize
  dispatch_initialize params s =
      if serde.is_initialize params
      then (
        elim (initialize moment.agent) [
          | err e ↦ err e
          | ok response ↦ ok (json (serde.write_initialize response))
        ],
        s,
      )
      else (err (bad_params "initialize"), s)

  unfoldable pub dispatch_new : Value → A2aAsAcp → Result AcpDispatchResult × A2aAsAcp
  dispatch_new params s =
      if serde.is_new_session params
      then (let (r, s') = new_session moment.env.now moment.suffix s in
          (elim r [ err e ↦ err e | ok id ↦ ok (json (obj (field "sessionId" (str id) end))) ], s'))
      else (err (bad_params "session/new"), s)

  unfoldable pub dispatch_prompt : Value → A2aAsAcp → Result AcpDispatchResult × A2aAsAcp
  unfolding dispatched_prompt
  dispatch_prompt params s = elim (serde.read_prompt params) [
    | none ↦ (err (bad_params "session/prompt"), s)
    | some req ↦
        let (r, s') = prompt moment.env moment.agent moment.suffix req s in
        (elim r [ err e ↦ err e | ok reply ↦ ok (dispatched_prompt reply) ], s')
  ]

  unfoldable pub dispatch_cancel : Value → A2aAsAcp → Result AcpDispatchResult × A2aAsAcp
  dispatch_cancel params s = elim (and_then (get params "sessionId") as_str) [
    | none ↦ (err no_session_id, s)
    | some session ↦
        let (r, s') = cancel moment.agent session s in
        (elim r [ err e ↦ err e | ok _ ↦ ok (json (obj end)) ], s')
  ]

  unfoldable pub dispatch_acp_method :
      JsonRpcRequest → A2aAsAcp → Result AcpDispatchResult × A2aAsAcp
  unfolding dispatch_initialize dispatch_new dispatch_prompt dispatch_cancel
  dispatch_acp_method request s =
      if request.method =ˢ "initialize"
      then dispatch_initialize request.params s
      else if request.method =ˢ "session/new"
      then dispatch_new request.params s
      else if request.method =ˢ "session/prompt"
      then dispatch_prompt request.params s
      else if request.method =ˢ "session/cancel"
      then dispatch_cancel request.params s
      else (err (method_not_found request.method), s)

unfoldable pub write_ok : Value → Value → Value
write_ok id result = obj (field "jsonrpc" (str "2.0") (field "id" id (field "result" result end)))

-- The codes of errors are negative.
unfoldable pub write_error : Value → ℕ → String → Value
write_error id code message = obj (
    field "jsonrpc" (str "2.0") (
      field "id" id
        (field "error" (obj (field "code" (neg code) (field "message" (str message) end))) end)))

unfoldable pub update_line : Value → Value
update_line update = obj (
    field "jsonrpc" (str "2.0") (
      field "method" (str "session/update")
        (field "params" (obj (field "sessionId" (str "unknown") (field "update" update end))) end)))

-- The state of a connection; the registry is the gateway's.
pub record Connection : Type 0 where
  pub adapter : A2aAsAcp
  pub registry : Registry

module _ (serde : Serde) (agent_id : String) where
  -- A stream holds its permit until it has been written.
  unfoldable pub write_stream :
      Value → List SessionUpdate → Result String → Registry → List Value × Registry
  unfolding write_error update_line
  write_stream id updates (err e) r = (write_error id 32000 (serde.describe e) ∷ [], r)
  write_stream id updates (ok permit) r =
      (map (λ u. update_line (serde.write_update u)) updates, drop_permit permit r)

  -- What is written for a request with an id.
  unfoldable pub respond : Value → Result AcpDispatchResult → Registry → List Value × Registry
  unfolding write_stream write_ok write_error
  respond id (err e) r = (write_error id 32000 (serde.describe e) ∷ [], r)
  respond id (ok (json result)) r = (write_ok id result ∷ [], r)
  respond id (ok (streaming updates)) r =
      let (slot, r') = try_acquire_stream agent_id r in write_stream id updates slot r'

  -- A notification is not answered.
  unfoldable pub reply :
      Option Value → Result AcpDispatchResult × A2aAsAcp → Registry → List Value × Connection
  unfolding respond
  reply none (r, adapter) registry = ([], record { adapter = adapter; registry = registry })
  reply (some id) (r, adapter) registry =
      let (lines, registry') = respond id r registry in
      (lines, record { adapter = adapter; registry = registry' })

  unfoldable pub answer_request : Moment → JsonRpcRequest → Connection → List Value × Connection
  unfolding reply
  answer_request moment request c =
      reply request.id (dispatch_acp_method serde moment request c.adapter) c.registry

  unfoldable pub serve_read :
      Moment → Text → Option JsonRpcRequest → Connection → List Value × Connection
  unfolding answer_request write_error
  serve_read moment line none c =
      (write_error null 32700 ("parse error: " +++ serde.parse_error line) ∷ [], c)
  serve_read moment line (some request) c = answer_request moment request c

  -- One round of `handle_http_target`: the lines that are written for a line that was read.
  unfoldable pub serve_line : Moment → Text → Connection → List Value × Connection
  unfolding serve_read
  serve_line moment line c =
      serve_read moment line (and_then (serde.from_str (trim line)) read_request) c

  -- The loop, up to the end of the input or a failure of the socket.
  unfoldable pub serve_lines : List (Moment × Text) → Connection → List Value × Connection
  unfolding serve_line
  serve_lines [] c = ([], c)
  serve_lines ((moment, line) ∷ more) c =
      let (written, c') = serve_line moment line c in
      ((written ++ (serve_lines more c').0), (serve_lines more c').1)
