-- ===== src/Gatewayd/Handlers.antt =====
-- gatewayd/src/transport_http.rs, part 8: from a request with its headers to the answer. What a
-- stream does behind its answer (the relay, the end of its permit) and the detached turns are
-- steps of their own; an answer that streams carries the events that the relay is started on.
pub mod Entry
use acp_a2a_gateway.Prelude.{
  String, Option, none, some, List, ◌∷◌, ◌=ˢ◌, if◌then◌else◌, Result, ok, err,
}
use acp_a2a_gateway.Protocol.Json.{Value, neg}
use acp_a2a_gateway.Protocol.A2a.{Task, A2aEvent}
use acp_a2a_gateway.Protocol.SdkCompat.{render_task_sdk}
use acp_a2a_gateway.Core.Owner.{Owner, from_token}
use acp_a2a_gateway.Core.Reply.{Reply, complete, streaming}
use acp_a2a_gateway.Core.Conversations.{AcpAsA2a}
use acp_a2a_gateway.Core.AcpAsA2a.{send_task_as, record_task_as}
use acp_a2a_gateway.Gatewayd.Registry.{check_token, try_acquire_stream, drop_permit}
use acp_a2a_gateway.Gatewayd.Requests.{
  JsonRpcRequest, extract_bearer, is_non_blocking_send, build_task_from_send_params,
  build_task_from_send_params_sdk,
}
use acp_a2a_gateway.Gatewayd.Dispatch.{
  DispatchResult, json, streaming_events, resubscribed, dispatch_a2a_method,
}
use acp_a2a_gateway.Gatewayd.Responses.{
  status, rpc_code, context_lost_code, Response, reply, frames, relayed, rpc_error, rpc_result,
  rest_sdk_error, is_context_lost,
}
use acp_a2a_gateway.Gatewayd.Detached.{working_task}
use acp_a2a_gateway.Gatewayd.Adapters.{
  Host, HttpState, refused, ready, get_or_spawn_adapter, put_adapter,
}

module _ (host : Host) (agent_id : String) where
  -- An answer that streams takes a permit of the agent.
  stream_response : (String → Response) → List A2aEvent → HttpState → Response × HttpState
  stream_response refuse events s =
      let (p, registry) = try_acquire_stream agent_id s.registry in
      elim p [
        | err e ↦ (refuse (host.describe e), s)
        | ok permit ↦ (relayed permit events, record s { registry = registry })
      ]

  respond : Value → Result DispatchResult → HttpState → Response × HttpState
  unfolding stream_response is_context_lost rpc_result rpc_error
  respond id (ok (json v)) s = (rpc_result id v, s)
  respond id (ok (resubscribed fs)) s = (frames fs, s)
  respond id (ok (streaming_events events)) s =
      stream_response (rpc_error id 503 (neg 32000)) events s
  respond id (err e) s = (
    (if is_context_lost e
        then rpc_error id 409 context_lost_code (host.describe e)
        else rpc_error id 200 (neg 32000) (host.describe e)),
    s,
  )

  built : JsonRpcRequest → Result Task
  built r =
      if r.method =ˢ "SendMessage"
      then build_task_from_send_params_sdk host.wire.task_uuid host.wire.context_uuid
          host.wire.part_from_value r.params
      else build_task_from_send_params host.wire.task_uuid host.wire.context_uuid
          host.wire.message_from_value r.params

  rendered : JsonRpcRequest → Task → Result Value
  rendered r t =
      if r.method =ˢ "SendMessage" then ok (render_task_sdk t) else host.wire.task_to_value t

  -- `start_detached_send`, behind the permit: the task is on file as working, and its turn is
  -- handed on, before the answer is printed.
  hand_over : Owner → JsonRpcRequest → Task → String → AcpAsA2a → HttpState → Response × HttpState
  unfolding put_adapter rendered rpc_result rpc_error
  hand_over owner r task permit a s =
      let (stored, a') = record_task_as host.env owner (working_task task) a in
      elim stored [
        | err e ↦ (
          rpc_error r.id 200 (neg 32000) (host.describe e),
          record (put_adapter agent_id a' s) { registry = drop_permit permit s.registry },
        )
        | ok _ ↦ (
          elim (rendered r (working_task task)) [
            | err e ↦ rpc_error r.id 200 (neg 32000) (host.describe e)
            | ok v ↦ rpc_result r.id v
          ],
          record (put_adapter agent_id a' s) {
            background = record { permit = permit; owner = owner; task = task } ∷ s.background;
          },
        )
      ]

  unfoldable pub start_detached_send :
      Owner → JsonRpcRequest → AcpAsA2a → HttpState → Response × HttpState
  unfolding built hand_over rpc_error
  start_detached_send owner r a s = elim (built r) [
    | err e ↦ (rpc_error r.id 200 (neg 32602) (host.describe e), s)
    | ok task ↦
        let (p, registry) = try_acquire_stream agent_id s.registry in
        elim p [
          | err e ↦ (rpc_error r.id 503 (neg 32000) (host.describe e), s)
          | ok permit ↦ hand_over owner r task permit a (record s { registry = registry })
        ]
  ]

  -- `rpc_handler`, behind the token.
  serve_rpc : String → JsonRpcRequest → HttpState → Response × HttpState
  unfolding respond put_adapter
  serve_rpc token r s =
      let (adapter, s') = get_or_spawn_adapter host agent_id s in
      elim adapter [
        | refused e ↦ (rpc_error r.id (status e) (rpc_code e) (host.describe_adapter e), s')
        | ready a ↦
            let owner = from_token host.hmac token in
            if is_non_blocking_send r
            then start_detached_send owner r a s'
            else let (answer, a') =
                dispatch_a2a_method host.wire s'.event_log host.live host.env host.agent owner r
                  a in
              respond r.id answer (put_adapter agent_id a' s')
      ]

  unfoldable pub rpc_handler :
      (authorization : Option String) → JsonRpcRequest → HttpState → Response × HttpState
  unfolding serve_rpc
  rpc_handler authorization r s = elim (extract_bearer authorization) [
    | none ↦ (rpc_error r.id 401 (neg 32000) "missing token", s)
    | some token ↦
        if check_token token s.registry
        then serve_rpc token r s
        else (rpc_error r.id 401 (neg 32000) "invalid token", s)
  ]

  rest_respond : Result (Reply Task A2aEvent) → HttpState → Response × HttpState
  unfolding stream_response
  rest_respond (ok (complete t)) s = (reply 200 (render_task_sdk t), s)
  rest_respond (ok (streaming events)) s = stream_response (rest_sdk_error 503 (neg 32000)) events s
  rest_respond (err e) s = (
    (if is_context_lost e
        then rest_sdk_error 409 context_lost_code (host.describe e)
        else rest_sdk_error 500 (neg 32000) (host.describe e)),
    s,
  )

  -- `rest_send_message_core`, behind the token and the body.
  serve_rest : String → Task → HttpState → Response × HttpState
  unfolding rest_respond put_adapter
  serve_rest token task s =
      let (adapter, s') = get_or_spawn_adapter host agent_id s in
      elim adapter [
        | refused e ↦ (rest_sdk_error (status e) (rpc_code e) (host.describe_adapter e), s')
        | ready a ↦
            let (answer, a') =
              send_task_as host.env host.agent (from_token host.hmac token) task a in
            rest_respond answer (put_adapter agent_id a' s')
      ]

  unfoldable pub rest_send_message_core :
      (authorization : Option String) → (body : Value) → HttpState → Response × HttpState
  unfolding serve_rest
  rest_send_message_core authorization body s = elim (extract_bearer authorization) [
    | none ↦ (rest_sdk_error 401 (neg 32000) "missing token", s)
    | some token ↦
        if check_token token s.registry
        then elim (build_task_from_send_params_sdk host.wire.task_uuid host.wire.context_uuid
            host.wire.part_from_value body) [
              | err e ↦ (rest_sdk_error 400 (neg 32602) (host.describe e), s)
              | ok task ↦ serve_rest token task s
            ]
        else (rest_sdk_error 401 (neg 32000) "invalid token", s)
  ]
