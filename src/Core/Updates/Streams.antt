-- ===== src/Core/Updates/Streams.antt =====
-- The translated streams as a whole.
use acp_a2a_gateway.Prelude.{
  ℕ, zero, suc, ◌<◌, String, ◌≡◌, refl, true, Option, none, List, [], ◌∷◌, map, arith, length,
  every, take_all, length-map,
}
use acp_a2a_gateway.Protocol.Json.{Value}
use acp_a2a_gateway.Protocol.A2a.{TaskId}
use acp_a2a_gateway.Protocol.Acp.{ContentBlock, agent_message_chunk}
use acp_a2a_gateway.Core.Content.Mapping.{is_typed, forget_uri, block_round_trip}
use acp_a2a_gateway.Core.Updates.{
  session_update_to_a2a_event, relay_to_a2a, terminal_event, relay_to_acp, translated, is_final,
  a2a_event_to_session_update,
}

module _ (print_decimal : ℕ → String) (to_string : Value → String) (now : Option String)
    (task_id : TaskId) where
  chunk_events :
      (id : Option String) (blocks : List ContentBlock) (room : ℕ)
      → length blocks < room
      → every is_typed blocks ≡ true
      → translated to_string
          (relay_to_a2a print_decimal now task_id room (map (agent_message_chunk id) blocks))
        ≡ map (λ b. agent_message_chunk none (forget_uri b)) blocks
  unfolding translated relay_to_a2a session_update_to_a2a_event a2a_event_to_session_update is_final
      terminal_event
  chunk_events id blocks zero h t = absurd (omega arith)
  chunk_events id [] (suc room) h t = refl
  chunk_events id (b ∷ bs) (suc room) h t =
      ground (arith, block_round_trip to_string b, chunk_events id bs room)

  -- The text and media that an ACP agent streams reach an ACP client behind the A2A stream in the
  -- same order, but for message ids and the addresses of embedded content, if every block is a
  -- text or has a media type of its kind and both receivers stay; the final event adds nothing.
  pub relay_to_acp-relay_to_a2a :
      (id : Option String) (blocks : List ContentBlock) (room : ℕ)
      → length blocks < room
      → every is_typed blocks ≡ true
      → relay_to_acp to_string room
          (relay_to_a2a print_decimal now task_id room (map (agent_message_chunk id) blocks))
        ≡ map (λ b. agent_message_chunk none (forget_uri b)) blocks
  unfolding relay_to_acp
  relay_to_acp-relay_to_a2a id blocks room h t = rw (chunk_events id blocks room h t) (
      take_all room (map (λ b. agent_message_chunk none (forget_uri b)) blocks)
        (omega (arith, length-map (λ b. agent_message_chunk none (forget_uri b)) blocks)))
