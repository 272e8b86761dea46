-- ===== src/Tests/Fixtures.antt =====
-- Values that the tests share.
use acp_a2a_gateway.Prelude.{ℕ, String, false, none, some, [], ◌∷◌, ok}
use acp_a2a_gateway.Protocol.Json.{Value}
use acp_a2a_gateway.Protocol.A2a.{Task, Message, user, submitted}
use acp_a2a_gateway.Protocol.A2a
use acp_a2a_gateway.Protocol.Acp.{end_turn, agent_message_chunk}
use acp_a2a_gateway.Protocol.Acp
use acp_a2a_gateway.Core.Reply.{complete, streaming}
use acp_a2a_gateway.Core.Owner.{Owner, token}
use acp_a2a_gateway.Core.Agent.{AcpAgent, Env}
use acp_a2a_gateway.Core.TaskStore.{no_fault}
use acp_a2a_gateway.Core.Conversations.{SessionEntry, AcpAsA2a}
use acp_a2a_gateway.Gatewayd.Registry.{Registry, AgentEntry, stdio}

abbrev pub print_json : Value → String
print_json v = "{}"

abbrev pub print_number : ℕ → String
print_number n = "1"

abbrev pub env : Env
env = record {
  now = 100;
  timestamp = some "t";
  fault = no_fault;
  room = 10;
  to_string = print_json;
  print_decimal = print_number;
}

abbrev pub alice : Owner
alice = token 1

abbrev pub bob : Owner
bob = token 2

abbrev pub hello : Message
hello = record { role = user; parts = A2a.Part.text "hi" ∷ []; message_id = none }

abbrev pub task : Task
task = record {
  id = "task-1";
  context_id = "ctx";
  status = record { state = submitted; message = some hello; timestamp = none };
  history = none;
  artifacts = none;
  metadata = none;
}

abbrev pub answering : AcpAgent
answering = record {
  ensure_ready = ok tt;
  generation = 1;
  new_session = ok "s-1";
  prompt_streaming = λ req.
      ok (complete (record { stop_reason = end_turn; content = Acp.ContentBlock.text "yes" ∷ [] }));
  cancel = λ s. ok tt;
}

abbrev pub streamer : AcpAgent
streamer = record answering {
  prompt_streaming =
      λ req. ok (streaming (agent_message_chunk none (Acp.ContentBlock.text "yes") ∷ []));
}

-- The conversation `ctx` of Alice, last used at 90, in process 1.
abbrev pub alices : SessionEntry
alices = record { session_id = "s-1"; owner = alice; last_used = 90; generation = 1 }

abbrev pub talking : AcpAsA2a
talking = record {
  sessions = ("ctx", alices) ∷ [];
  lease = record { locks = []; held = λ m. false; next = 0 };
  tasks = record { tasks = []; partial = [] };
  session_ttl = 50;
}

-- An agent with one permit for streams.
abbrev pub entry : AgentEntry
entry = record {
  transport = stdio ("agent" ∷ []) none [];
  stream_permits = 1;
  stream_limit = 1;
  first_chunk_timeout = 60;
  idle_chunk_timeout = 60;
}

abbrev pub registry : Registry
registry = record { tokens = "secret" ∷ []; agents = ("a", entry) ∷ [] }
