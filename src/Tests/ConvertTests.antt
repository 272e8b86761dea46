-- ===== src/Tests/ConvertTests.antt =====
-- The mappings of convert.rs and the agent's supervision.
use acp_a2a_gateway.Prelude.{ℕ, ◌≡◌, refl, none, some, List, [], ◌∷◌, arith, map, Result, ok}
use acp_a2a_gateway.Protocol.Acp.{SessionUpdate, text, agent_message_chunk, usage_update}
use acp_a2a_gateway.Core.Updates.{relay_to_a2a, relay_to_acp}
use acp_a2a_gateway.Core.Updates.Streams.{relay_to_acp-relay_to_a2a}
use acp_a2a_gateway.Core.Supervisor.{Supervised}
use acp_a2a_gateway.Tests.Fixtures.{print_json, print_number}

abbrev updates : List SessionUpdate
updates = agent_message_chunk none (text "a") ∷ usage_update 1 2 none ∷ []

relay_to_acp-relay_to_a2a_example :
    relay_to_acp print_json 5 (
      relay_to_a2a print_number none "t" 5
        (map (agent_message_chunk (some "m")) (text "a" ∷ text "b" ∷ [])))
    ≡ agent_message_chunk none (text "a") ∷ agent_message_chunk none (text "b") ∷ []
relay_to_acp-relay_to_a2a_example =
    relay_to_acp-relay_to_a2a print_number print_json none "t" (some "m") (text "a" ∷ text "b" ∷ [])
      5 (omega arith) refl

-- Process 7, started at 10, with a backoff of 5.
abbrev supervised : Supervised ℕ ℕ
supervised = record {
  agent = 7;
  init = 0;
  generation = 1;
  spawned_at = 10;
  published = 1;
  backoff = 5;
}

abbrev fresh : Result (ℕ × ℕ)
fresh = ok (8, 1)
