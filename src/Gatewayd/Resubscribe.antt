-- ===== src/Gatewayd/Resubscribe.antt =====
-- gatewayd/src/transport_http.rs, part 2: `resubscribe_stream`, which serves a client that comes
-- back, from the log first and then from the hub.
pub mod Once
use acp_a2a_gateway.Prelude.{
  ℕ, String, Option, none, some, List, [], ◌∷◌, ◌++◌, map, if◌then◌else◌, ltb,
}
use acp_a2a_gateway.Protocol.A2a.{A2aEvent}
use acp_a2a_gateway.Gatewayd.EventLog.{EventRecord, Writer, do_events_after}

-- A server-sent event with its id; a record that serde cannot read is marked as corrupt.
pub data Frame : Type 0 where
  event_frame : ℕ → A2aEvent → Frame
  corrupt_frame : ℕ → Frame

unfoldable pub frame_id : Frame → ℕ
frame_id (event_frame seq event) = seq
frame_id (corrupt_frame seq) = seq

-- What the hub gives to the subscriber, from the moment that the queue is empty.
pub data Live : Type 0 where
  -- there is no channel for the task
  no_stream : Live
  received : ℕ → A2aEvent → Live → Live
  -- the receiver has fallen behind: what the log holds at that moment, if it can be read, and what
  -- the next subscription gives
  lagged : Option Writer → Live → Live
  closed : Live

-- `last_seq` behind the queue
pub last_served : ℕ → List EventRecord → ℕ
last_served last [] = last
last_served last (r ∷ rs) = last_served r.seq rs

-- `from_json` is serde's reading of an event.
module _ (from_json : String → Option A2aEvent) where
  unfoldable pub event_from_record : EventRecord → Frame
  event_from_record r = elim (from_json r.event_json) [
    | some event ↦ event_frame r.seq event
    | none ↦ corrupt_frame r.seq
  ]

  module _ (t : String) where
    -- The live phase, behind the event with the number `last`.
    unfoldable pub serve_live : ℕ → Live → List Frame
    unfolding last_served event_from_record
    serve_live last no_stream = []
    serve_live last (received seq event live) =
        let passed = serve_live seq live in
        let skipped = serve_live last live in
        if ltb last seq then event_frame seq event ∷ passed else skipped
    serve_live last (lagged none live) = []
    serve_live last (lagged (some w) live) =
        let caught = do_events_after t last 10000 w in
        map event_from_record caught ++ serve_live (last_served last caught) live
    serve_live last closed = []

    -- `w` is the log when the client comes back.
    unfoldable pub resubscribe_stream : ℕ → Writer → Live → List Frame
    unfolding last_served event_from_record
    resubscribe_stream after_seq w live =
        let history = do_events_after t after_seq 10000 w in
        map event_from_record history ++ serve_live (last_served after_seq history) live
