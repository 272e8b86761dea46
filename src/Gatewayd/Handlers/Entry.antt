-- ===== src/Gatewayd/Handlers/Entry.antt =====
-- gatewayd/src/transport_http.rs: who gets in.
use acp_a2a_gateway.Prelude.{
  String, ◌≡◌, Bool, false, Option, none, some, arith, Option-cases, inl, inr,
}
use acp_a2a_gateway.Protocol.Json.{Value}
use acp_a2a_gateway.Gatewayd.Registry.{Registry, check_token}
use acp_a2a_gateway.Gatewayd.Requests.{JsonRpcRequest, extract_bearer}
use acp_a2a_gateway.Gatewayd.Responses.{status_of, rpc_error, rest_sdk_error}
use acp_a2a_gateway.Gatewayd.Adapters.{Host, HttpState}
use acp_a2a_gateway.Gatewayd.Handlers.{rpc_handler, rest_send_message_core}

-- The header carries a token, and the registry has it.
abbrev pub is_known : Option String → Registry → Bool
is_known authorization r = elim (extract_bearer authorization) [
  | none ↦ false
  | some token ↦ check_token token r
]

-- A request without a token that the registry knows is answered 401 by both entrances, with the
-- state as it was.
pub unauthorized :
    (host : Host) (agent_id : String) (authorization : Option String) (r : JsonRpcRequest)
    (body : Value) (s : HttpState)
    → is_known authorization s.registry ≡ false
    → (status_of (rpc_handler host agent_id authorization r s).0 ≡ 401)
      × ((rpc_handler host agent_id authorization r s).1 ≡ s)
      × (status_of (rest_send_message_core host agent_id authorization body s).0 ≡ 401)
      × ((rest_send_message_core host agent_id authorization body s).1 ≡ s)
unfolding rpc_handler rest_send_message_core status_of rpc_error rest_sdk_error
unauthorized host agent_id authorization r body s unknown =
    elim (Option-cases (extract_bearer authorization)) [
      | inl e ↦ ground arith
      | inr (token, e) ↦ ground arith
    ]
