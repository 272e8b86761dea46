-- ===== src/Gatewayd/Background.antt =====
-- gatewayd/src/transport_http.rs, part 9: what goes on behind an answer, on the state that the
-- handlers share: the relay of a stream, and a turn that was handed to the background.
pub mod Release
use acp_a2a_gateway.Prelude.{
  ℕ, String, Option, none, some, List, map, lookup, insert, Result, Error,
}
use acp_a2a_gateway.Protocol.A2a.{A2aEvent}
use acp_a2a_gateway.Gatewayd.EventLog.{EventRecord}
use acp_a2a_gateway.Gatewayd.Registry.{drop_permit}
use acp_a2a_gateway.Gatewayd.Relay.{StreamItem, Relay, relay}
use acp_a2a_gateway.Gatewayd.Detached.{detached}
use acp_a2a_gateway.Gatewayd.Adapters.{Host, HttpState, Pending}

-- A relay starts with the log and the hub, and knows no task yet.
shared : HttpState → Relay
shared s = record { event_log = s.event_log; hub = s.stream_hub; known_task = none }

module _ (host : Host) (to_json : A2aEvent → Result String) (db_size : List EventRecord → Option ℕ)
    (fault : A2aEvent → Option Error) where
  -- The whole of a stream, with the items for a client that stays; then its permit is free again.
  unfoldable pub run_stream :
      (permit : String) → List A2aEvent → HttpState → List StreamItem × HttpState
  unfolding shared
  run_stream permit events s =
      let (items, done) = relay to_json db_size (map (λ e. (fault e, e)) events) (shared s) in
      (
        items,
        record s {
          event_log = done.event_log;
          stream_hub = done.hub;
          registry = drop_permit permit s.registry;
        },
      )

  -- The adapter that the turn was given is the one in the map, which never loses an entry.
  unfoldable pub run_pending : Pending → HttpState → HttpState
  unfolding shared
  run_pending p s = elim (lookup p.permit s.adapters) [
    | none ↦ s
    | some a ↦
        let (r, a', done) =
          detached host.describe to_json db_size fault host.env host.agent p.owner p.task a
            (shared s) in
        record s {
          adapters = insert p.permit a' s.adapters;
          event_log = done.event_log;
          stream_hub = done.hub;
          registry = drop_permit p.permit s.registry;
        }
  ]
