-- ===== src/Gatewayd/Background/Release.antt =====
-- A turn in the background ends well and gives its permit back.
use acp_a2a_gateway.Prelude.{
  ℕ, ◌+◌, String, ◌≡◌, Option, some, List, arith, eq_refl, lookup, lookup-insert, Result, ok, Error,
}
use acp_a2a_gateway.Protocol.A2a.{Task, A2aEvent}
use acp_a2a_gateway.Core.TaskStore.{no_fault, load_owned}
use acp_a2a_gateway.Core.Conversations.{AcpAsA2a}
use acp_a2a_gateway.Gatewayd.EventLog.{EventRecord}
use acp_a2a_gateway.Gatewayd.Registry.{AgentEntry, drop_permit}
use acp_a2a_gateway.Gatewayd.Detached.{detached}
use acp_a2a_gateway.Gatewayd.Detached.Ending.{IsEnded, detached_ends}
use acp_a2a_gateway.Gatewayd.Adapters.{Host, HttpState, Pending}
use acp_a2a_gateway.Gatewayd.Background.{shared, run_pending}

module _ (host : Host) (to_json : A2aEvent → Result String) (db_size : List EventRecord → Option ℕ)
    (fault : A2aEvent → Option Error) where
  -- A turn that was handed to the background leaves, on a disk that takes the write, the task that
  -- was asked for on file with the agent's adapter, in its conversation, under the client and in a
  -- terminal state, and the agent has one permit more; whatever the agent and the log do.
  pub run_pending_ends :
      (p : Pending) (a : AcpAsA2a) (e : AgentEntry) (s : HttpState)
      → lookup p.permit s.adapters ≡ some a
      → lookup p.permit s.registry.agents ≡ some e
      → host.env.fault ≡ no_fault
      → (t : Task) × (a' : AcpAsA2a) × (lookup p.permit
            (run_pending host to_json db_size fault p s).adapters
          ≡ some a')
        × (load_owned p.task.id a'.tasks ≡ ok (record { task = t; owner = some p.owner }))
        × IsEnded p.task t
        × (lookup p.permit (run_pending host to_json db_size fault p s).registry.agents
            ≡ some (record e { stream_permits = e.stream_permits + 1 }))
  unfolding run_pending drop_permit
  run_pending_ends p a e s found there works =
      let turn =
        detached host.describe to_json db_size fault host.env host.agent p.owner p.task a
          (shared s) in
      let (t, filed, ended) =
        detached_ends host.describe to_json db_size fault host.env p.task (shared s) host.agent
          p.owner a works in
      (
        t,
        turn.1,
        ground (arith, eq_refl p.permit, lookup-insert p.permit p.permit turn.1 s.adapters),
        filed,
        ended,
        ground (
          arith,
          eq_refl p.permit,
          lookup-insert p.permit p.permit (record e { stream_permits = e.stream_permits + 1 })
              s.registry.agents,
        ),
      )
