-- ===== src/Gatewayd/Dispatch.antt =====
-- gatewayd/src/transport_http.rs, part 4: the methods of a JSON-RPC request.
pub mod Access
use acp_a2a_gateway.Prelude.{
  String, Option, List, ◌=ˢ◌, if◌then◌else◌, get_or, and_then, Result, ok, err, ok_or, bad_params,
  method_not_found, event_log_disabled, ◌>>=◌,
}
use acp_a2a_gateway.Protocol.Json.{Value, obj, field, end, str, num, get, as_str, as_u64}
use acp_a2a_gateway.Protocol.A2a.{Task, TaskId, Message, Part, A2aEvent}
use acp_a2a_gateway.Protocol.SdkCompat.{render_task_sdk}
use acp_a2a_gateway.Core.Owner.{Owner}
use acp_a2a_gateway.Core.Reply.{Reply, complete, streaming}
use acp_a2a_gateway.Core.Agent.{AcpAgent, Env}
use acp_a2a_gateway.Core.Conversations.{AcpAsA2a}
use acp_a2a_gateway.Core.AcpAsA2a.{send_task_as, get_task_as, cancel_task_as}
use acp_a2a_gateway.Gatewayd.EventLog.{Writer, do_last_seq}
use acp_a2a_gateway.Gatewayd.Resubscribe.{Frame, Live, resubscribe_stream}
use acp_a2a_gateway.Gatewayd.Requests.{
  JsonRpcRequest, extract_sdk_task_id, build_task_from_send_params, build_task_from_send_params_sdk,
}

-- What lies outside: serde's reading and printing, and the names that `uuid_stub` draws.
pub record Wire : Type 0 where
  pub message_from_value : Value → Result Message
  pub part_from_value : Value → Option Part
  pub task_to_value : Task → Result Value
  pub event_from_json : String → Option A2aEvent
  pub task_uuid : String
  pub context_uuid : String

pub data DispatchResult : Type 0 where
  json : Value → DispatchResult
  streaming_events : List A2aEvent → DispatchResult
  resubscribed : List Frame → DispatchResult

-- The identifier under the key `id`.
id_param : String → Value → Result TaskId
id_param method params = ok_or (and_then (get params "id") as_str) (bad_params method)

module _ (wire : Wire) where
  -- The two shapes of an answer: serde's, and the SDK's.
  plain : Task → Result DispatchResult
  plain t = do v ← wire.task_to_value t; ok (json v)

  sdk : Task → Result DispatchResult
  sdk t = ok (json (render_task_sdk t))

  answer_send :
      (Task → Result DispatchResult) → Result (Reply Task A2aEvent) → Result DispatchResult
  answer_send shape (err e) = err e
  answer_send shape (ok (complete t)) = shape t
  answer_send shape (ok (streaming events)) = ok (streaming_events events)

  module _ (env : Env) (a : AcpAgent) (owner : Owner) where
    send :
        (Task → Result DispatchResult) → Result Task → AcpAsA2a → Result DispatchResult × AcpAsA2a
    unfolding answer_send
    send shape (err e) s = (err e, s)
    send shape (ok task) s =
        let (r, s') = send_task_as env a owner task s in (answer_send shape r, s')

    find :
        (Task → Result DispatchResult) → Result TaskId → AcpAsA2a → Result DispatchResult × AcpAsA2a
    find shape id s = (id >>= (λ i. get_task_as owner i s >>= shape), s)

    cancel :
        (Task → Result DispatchResult) → Result TaskId → AcpAsA2a → Result DispatchResult × AcpAsA2a
    cancel shape (err e) s = (err e, s)
    cancel shape (ok id) s = let (r, s') = cancel_task_as env a owner id s in (r >>= shape, s')

  module _ (event_log : Option Writer) (live : Live) where
    resubscribe : Value → Result DispatchResult
    unfolding id_param
    resubscribe params = do
      log ← ok_or event_log event_log_disabled
      id ← id_param "tasks/resubscribe" params
      ok (
          resubscribed (
            resubscribe_stream wire.event_from_json id
              (get_or (and_then (get params "after_seq") as_u64) 0) log live))

    get_last_seq : Value → Result DispatchResult
    unfolding id_param
    get_last_seq params = do
      log ← ok_or event_log event_log_disabled
      id ← id_param "tasks/get-last-seq" params
      ok (json (obj (field "task_id" (str id) (field "seq" (num (do_last_seq id log)) end))))

    unfoldable pub dispatch_a2a_method :
        Env → AcpAgent → Owner → JsonRpcRequest → AcpAsA2a → Result DispatchResult × AcpAsA2a
    unfolding plain sdk send find cancel resubscribe get_last_seq id_param
    dispatch_a2a_method env a owner r s =
        if r.method =ˢ "message/send"
        then send env a owner plain
            (build_task_from_send_params wire.task_uuid wire.context_uuid wire.message_from_value
              r.params)
            s
        else if r.method =ˢ "SendMessage"
        then send env a owner sdk
            (build_task_from_send_params_sdk wire.task_uuid wire.context_uuid wire.part_from_value
              r.params)
            s
        else if r.method =ˢ "tasks/get"
        then find env a owner plain (id_param "tasks/get" r.params) s
        else if r.method =ˢ "GetTask"
        then find env a owner sdk (ok_or (extract_sdk_task_id r.params) (bad_params "GetTask")) s
        else if r.method =ˢ "tasks/cancel"
        then cancel env a owner plain (id_param "tasks/cancel" r.params) s
        else if r.method =ˢ "tasks/resubscribe"
        then (resubscribe r.params, s)
        else if r.method =ˢ "tasks/get-last-seq"
        then (get_last_seq r.params, s)
        else if r.method =ˢ "CancelTask"
        then cancel env a owner sdk (ok_or (extract_sdk_task_id r.params) (bad_params "CancelTask"))
            s
        else (err (method_not_found r.method), s)
