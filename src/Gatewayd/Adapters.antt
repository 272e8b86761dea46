-- ===== src/Gatewayd/Adapters.antt =====
-- gatewayd/src/transport_http.rs, part 7: the state that the handlers share, and the adapters of the
-- agents, each made at the first request for it.
use acp_a2a_gateway.Prelude.{
  ℕ, ◌*◌, String, Option, none, some, List, Dict, lookup, insert, Result, ok, err, Error,
}
use acp_a2a_gateway.Protocol.A2a.{Task}
use acp_a2a_gateway.Core.Owner.{Owner}
use acp_a2a_gateway.Core.TaskStore.{TaskStore}
use acp_a2a_gateway.Core.Agent.{AcpAgent, Env}
use acp_a2a_gateway.Core.Conversations.{with_session_ttl, AcpAsA2a}
use acp_a2a_gateway.Gatewayd.EventLog.{Writer}
use acp_a2a_gateway.Gatewayd.Registry.{Registry, Transport, lookup_agent, stdio, http}
use acp_a2a_gateway.Gatewayd.Relay.{StreamHub}
use acp_a2a_gateway.Gatewayd.Resubscribe.{Live}
use acp_a2a_gateway.Gatewayd.Dispatch.{Wire}
use acp_a2a_gateway.Gatewayd.Responses.{AdapterError, unknown_agent, not_acp_agent, unavailable}

-- 24 hours; times count seconds here
abbrev pub default_session_ttl : ℕ
default_session_ttl = 24 * 60 * 60

-- A turn that has been handed to the background, with its permit.
pub record Pending : Type 0 where
  pub permit : String
  pub owner : Owner
  pub task : Task

pub record HttpState : Type 0 where
  pub registry : Registry
  pub adapters : Dict AcpAsA2a
  pub event_log : Option Writer
  pub stream_hub : StreamHub
  pub background : List Pending

-- What lies outside, for one request: whether the agent's process starts and what is on disk for
-- it, its answers, the HMAC, the hub's events and the printing of errors.
pub record Host : Type 0 where
  pub wire : Wire
  pub env : Env
  pub agent : AcpAgent
  pub spawned : Result (Unit {0})
  pub on_disk : TaskStore
  pub hmac : String → ℕ
  pub live : Live
  pub describe : Error → String
  pub describe_adapter : AdapterError → String

pub data Adapter : Type 0 where
  refused : AdapterError → Adapter
  ready : AcpAsA2a → Adapter

module _ (host : Host) (agent_id : String) where
  spawn_adapter : Transport → HttpState → Adapter × HttpState
  spawn_adapter (http url push_token) s = (refused (not_acp_agent agent_id), s)
  spawn_adapter (stdio command cwd variables) s = elim host.spawned [
    | err e ↦ (refused (unavailable agent_id e), s)
    | ok _ ↦
        let adapter = record (with_session_ttl default_session_ttl) { tasks = host.on_disk } in
        (ready adapter, record s { adapters = insert agent_id adapter s.adapters })
  ]

  unfoldable pub get_or_spawn_adapter : HttpState → Adapter × HttpState
  unfolding spawn_adapter
  get_or_spawn_adapter s = elim (lookup agent_id s.adapters) [
    | some a ↦ (ready a, s)
    | none ↦ elim (lookup_agent agent_id s.registry) [
      | none ↦ (refused (unknown_agent agent_id), s)
      | some e ↦ spawn_adapter e.transport s
    ]
  ]

-- The adapter is shared by reference: what an operation does to it is seen in the map.
unfoldable pub put_adapter : (agent_id : String) → AcpAsA2a → HttpState → HttpState
put_adapter agent_id a s = record s { adapters = insert agent_id a s.adapters }
