-- ===== src/Gatewayd/Responses.antt =====
-- gatewayd/src/transport_http.rs, part 6: the shapes of answers and errors.
use acp_a2a_gateway.Prelude.{ℕ, String, Bool, List, ◌==◌, if◌then◌else◌, Error, context_lost}
use acp_a2a_gateway.Protocol.Json.{Value, obj, arr, field, end, str, neg, nil}
use acp_a2a_gateway.Protocol.A2a.{A2aEvent}
use acp_a2a_gateway.Gatewayd.Resubscribe.{Frame}

pub data AdapterError : Type 0 where
  unknown_agent not_acp_agent : String → AdapterError
  unavailable : String → Error → AdapterError

unfoldable pub status : AdapterError → ℕ
status (unknown_agent id) = 404
status (not_acp_agent id) = 400
status (unavailable id source) = 503

-- a negative code
unfoldable pub rpc_code : AdapterError → Value
rpc_code (unknown_agent id) = neg 32601
rpc_code (not_acp_agent id) = neg 32602
rpc_code (unavailable id source) = neg 32020

abbrev pub context_lost_code : Value
context_lost_code = neg 32010

pub data Response : Type 0 where
  reply : ℕ → Value → Response
  -- server-sent events: of a resubscription, or of the relay that is started on these events
  -- while a permit of the agent is held
  frames : List Frame → Response
  relayed : (permit : String) → List A2aEvent → Response

unfoldable pub status_of : Response → ℕ
status_of (reply code body) = code
status_of (frames fs) = 200
status_of (relayed permit events) = 200

unfoldable pub rpc_error : Value → ℕ → Value → String → Response
rpc_error id code rpc message = reply code (
    obj (
      field "jsonrpc" (str "2.0") (
        field "id" id
          (field "error" (obj (field "code" rpc (field "message" (str message) end))) end))))

unfoldable pub rpc_result : Value → Value → Response
rpc_result id v =
    reply 200 (obj (field "jsonrpc" (str "2.0") (field "id" id (field "result" v end))))

unfoldable pub http_status_to_sdk_name : ℕ → String
http_status_to_sdk_name code =
    if code == 400
    then "INVALID_ARGUMENT"
    else if code == 401
    then "UNAUTHENTICATED"
    else if code == 404
    then "NOT_FOUND"
    else if code == 409
    then "ABORTED"
    else if code == 503
    then "UNAVAILABLE"
    else if code == 501
    then "UNIMPLEMENTED"
    else if code == 200
    then "OK"
    else "UNKNOWN"

unfoldable pub rest_sdk_error : ℕ → Value → String → Response
unfolding http_status_to_sdk_name
rest_sdk_error code rpc message = reply code (
    obj (
      field "error"
        (obj (
          field "code" rpc (
            field "status" (str (http_status_to_sdk_name code))
              (field "message" (str message) (field "details" (arr nil) end)))))
        end))

unfoldable pub is_context_lost : Error → Bool
is_context_lost (context_lost previous current) = Bool.true
is_context_lost e = Bool.false
