-- ===== src/Gatewayd/Relay.antt =====
-- gatewayd/src/transport_http.rs, part 1: the hub of live streams, and the task that passes a
-- stream on to the log, to the hub and to the client. A channel of the hub is what has been
-- published on it since it was made, the oldest first.
pub mod Delivery
use acp_a2a_gateway.Prelude.{
  ℕ, String, Bool, Option, none, some, List, [], ◌∷◌, ◌++◌, Dict, lookup, insert, remove, is_some,
  Result, ok, err, Error,
}
use acp_a2a_gateway.Protocol.A2a.{A2aEvent, task_status_update, task_artifact_update, message_event}
use acp_a2a_gateway.Gatewayd.EventLog.{EventRecord, Writer, do_append}

abbrev pub StreamHub : Type 0
StreamHub = Dict (List (ℕ × A2aEvent))

-- Whether there is a channel to subscribe to.
unfoldable pub subscribe : String → StreamHub → Bool
subscribe t hub = is_some (lookup t hub)

unfoldable pub publish : String → ℕ → A2aEvent → StreamHub → StreamHub
publish t seq event hub = elim (lookup t hub) [
  | some sent ↦ insert t (sent ++ (seq, event) ∷ []) hub
  | none ↦ insert t ((seq, event) ∷ []) hub
]

unfoldable pub close : String → StreamHub → StreamHub
close t hub = remove t hub

pub record StreamItem : Type 0 where
  pub seq : Option ℕ
  pub event : A2aEvent

unfoldable pub event_task_id : A2aEvent → Option String
event_task_id (task_status_update t status final) = some t
event_task_id (task_artifact_update t artifact append) = some t
event_task_id (message_event m) = none

-- The relay's own variable, and what it shares.
pub record Relay : Type 0 where
  pub event_log : Option Writer
  pub hub : StreamHub
  pub known_task : Option String

remember : A2aEvent → Relay → Relay
unfolding event_task_id
remember event s = elim (event_task_id event) [
  | none ↦ s
  | some t ↦ record s { known_task = some t }
]

-- The channel of the last task that the stream named is closed behind the stream.
finish : Relay → Relay
finish s = elim s.known_task [ none ↦ s | some t ↦ record s { hub = close t s.hub } ]

-- `to_json` is serde's printing of an event, `db_size` SQLite's size of its file.
module _ (to_json : A2aEvent → Result String) (db_size : List EventRecord → Option ℕ) where
  append_event : Option Error → String → A2aEvent → Writer → Relay → Option ℕ × Relay
  append_event fault t event w s = elim (to_json event) [
    | err e ↦ (none, s)
    | ok json ↦
        let (r, w') = do_append db_size fault t json w in
        elim r [
          | err e ↦ (none, record s { event_log = some w' })
          | ok seq ↦ (some seq, record s { event_log = some w'; hub = publish t seq event s.hub })
        ]
  ]

  persist : Option Error → A2aEvent → Relay → Option ℕ × Relay
  unfolding append_event event_task_id
  persist fault event s = elim s.event_log [
    | none ↦ (none, s)
    | some w ↦ elim (event_task_id event) [
      | none ↦ (none, s)
      | some t ↦ append_event fault t event w s
    ]
  ]

  -- The items for the client. Each event comes with SQLite's refusal of its row, if it refuses.
  unfoldable pub relay : List (Option Error × A2aEvent) → Relay → List StreamItem × Relay
  unfolding persist remember finish
  relay [] s = ([], finish s)
  relay ((fault, event) ∷ events) s =
      let (seq, s') = persist fault event (remember event s) in
      let (items, s'') = relay events s' in (record { seq = seq; event = event } ∷ items, s'')
