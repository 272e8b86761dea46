-- ===== src/Core/A2aAsAcp/Initialize.antt =====
-- core/src/convert.rs: how `A2aAsAcp` answers the handshake, from the agent's card.
use acp_a2a_gateway.Prelude.{true, false, some, [], get_or, Result, ok, err}
use acp_a2a_gateway.Protocol.A2a.{AgentCard}
use acp_a2a_gateway.Protocol.Handshake.{
  InitializeResponse, default_protocol_version, no_mcp, no_session_capabilities, major_version,
}
use acp_a2a_gateway.Core.Agent.{A2aAgent}
use acp_a2a_gateway.Core.Utf8.{trim}

response_of_card : AgentCard → InitializeResponse
unfolding major_version
response_of_card card = record {
  protocol_version = get_or (major_version trim card.version) default_protocol_version;
  agent_capabilities = record {
    load_session = false;
    prompt_capabilities = record { image = true; audio = false; embedded_context = false };
    mcp_capabilities = no_mcp;
    session_capabilities = no_session_capabilities;
  };
  agent_info = some (record { name = card.name; version = "" });
  auth_methods = [];
}

unfoldable pub initialize : A2aAgent → Result InitializeResponse
unfolding response_of_card
initialize a = elim a.card [ err e ↦ err e | ok card ↦ ok (response_of_card card) ]
