-- ===== src/Gatewayd/Relay/Delivery.antt =====
-- What the relay owes the client, and those that come back.
use acp_a2a_gateway.Prelude.{
  ℕ, ◌+◌, ◌<◌, ◌^◌, min, take, String, ◌≡◌, refl, ap, ◌∙◌, Option, none, some, List, [], ◌∷◌, map,
  All, arith, Result, ok, Error,
}
use acp_a2a_gateway.Protocol.A2a.{A2aEvent}
use acp_a2a_gateway.Gatewayd.EventLog.{EventRecord, Writer, do_append, do_events_after, do_last_seq}
use acp_a2a_gateway.Gatewayd.EventLog.Replay.{
  numbered, append_all, append_unlimited, replay_after_last,
}
use acp_a2a_gateway.Gatewayd.Relay.{
  Relay, event_task_id, remember, append_event, persist, finish, relay,
}

module _ (to_json : A2aEvent → Result String) (db_size : List EventRecord → Option ℕ) where
  -- Every event of the agent's stream reaches the client, in order, whatever becomes of the log.
  pub relay_complete :
      (events : List (Option Error × A2aEvent)) (s : Relay)
      → map (λ i. i.event) (relay to_json db_size events s).0 ≡ map (λ p. p.1) events
  unfolding relay
  relay_complete [] s = refl
  relay_complete ((fault, event) ∷ events) s =
      ap (λ es. event ∷ es)
        (relay_complete events (persist to_json db_size fault event (remember event s)).1)

  module _ (t : String) where
    persisted :
        (e : A2aEvent) (json : String) (w : Writer) (s : Relay)
        → event_task_id e ≡ some t
        → to_json e ≡ ok json
        → s.event_log ≡ some w
        → w.max_size_mb ≡ 0
        → ((persist to_json db_size none e (remember e s)).0 ≡ some (do_last_seq t w + 1))
          × ((persist to_json db_size none e (remember e s)).1.event_log
              ≡ some (do_append db_size none t json w).1)
    unfolding persist append_event remember
    persisted e json w s te je le z = ground (arith, append_unlimited db_size t json w)

    relay_logs :
        (es : List (A2aEvent × String)) (w : Writer) (s : Relay)
        → All (λ p. (event_task_id p.0 ≡ some t) × (to_json p.0 ≡ ok p.1)) es
        → s.event_log ≡ some w
        → w.max_size_mb ≡ 0
        → (map (λ i. i.seq) (relay to_json db_size (map (λ p. (none, p.0)) es) s).0
            ≡ map (λ r. some r.seq) (numbered t (do_last_seq t w + 1) (map (λ p. p.1) es)))
          × ((relay to_json db_size (map (λ p. (none, p.0)) es) s).1.event_log
              ≡ some (append_all db_size t (map (λ p. p.1) es) w))
    unfolding relay append_all finish
    relay_logs [] w s h l z = (refl, ground arith)
    relay_logs ((e, json) ∷ es) w s h l z =
        let (seq, log) = persisted e json w s h.0.0 h.0.1 l z in
        let (answer, z', last) = append_unlimited db_size t json w z in
        let (seqs, rest) =
          relay_logs es (do_append db_size none t json w).1
            (persist to_json db_size none e (remember e s)).1 h.1 log z' in
        let renumbered =
          ap (λ n. map (λ r. some r.seq) (numbered t (n + 1) (map (λ p. p.1) es))) last in
        (λ i. seq i ∷ (seqs ∙ renumbered) i, rest)

    -- Where the log takes every event of a stream (one task's, printed by serde, in a log without
    -- a size limit, whose numbers of the task an i64 holds), the items come with the numbers under which the log keeps their events; and
    -- whoever then asks for what lies behind the last number before the stream is given the
    -- stream's events with these numbers, up to the limit it asked for and 10,000.
    pub relay_replayed :
        (limit : ℕ) (es : List (A2aEvent × String)) (w w' : Writer) (s : Relay)
        → All (λ p. (event_task_id p.0 ≡ some t) × (to_json p.0 ≡ ok p.1)) es
        → s.event_log ≡ some w
        → w.max_size_mb ≡ 0
        → do_last_seq t w < 2 ^ 63
        → (relay to_json db_size (map (λ p. (none, p.0)) es) s).1.event_log ≡ some w'
        → (map (λ i. i.seq) (relay to_json db_size (map (λ p. (none, p.0)) es) s).0
            ≡ map (λ r. some r.seq) (numbered t (do_last_seq t w + 1) (map (λ p. p.1) es)))
          × (do_events_after t (do_last_seq t w) limit w'
              ≡ take (min limit 10000) (numbered t (do_last_seq t w + 1) (map (λ p. p.1) es)))
    relay_replayed limit es w w' s h l z i e =
        let (seqs, log) = relay_logs es w s h l z in
        let replayed = replay_after_last db_size t limit (map (λ p. p.1) es) w z i in (seqs, cc)
