-- ===== src/Gatewayd/Registry.antt =====
-- gatewayd/src/registry.rs: who may enter, which agents there are, and the slots for streams. The
-- semaphore of an agent is its number of free permits; a permit is the name of its agent.
pub mod Slots
pub mod Permits
use acp_a2a_gateway.Prelude.{
  ℕ, ◌+◌, ◌-◌, String, Bool, Option, none, some, List, [], ◌∷◌, ◌==◌, if◌then◌else◌, Dict, lookup,
  insert, contains, sort_keys, Result, ok, err, stream_capacity_exhausted,
}

pub data Transport : Type 0 where
  stdio : List String → Option String → Dict String → Transport
  http : String → Option String → Transport

pub record AgentEntry : Type 0 where
  pub transport : Transport
  pub stream_permits : ℕ
  pub stream_limit : ℕ
  pub first_chunk_timeout : ℕ
  pub idle_chunk_timeout : ℕ

-- AgentEntry::new
unfoldable pub new_entry : Transport → ℕ → ℕ → ℕ → AgentEntry
new_entry transport limit first idle = record {
  transport = transport;
  stream_permits = limit;
  stream_limit = limit;
  first_chunk_timeout = first;
  idle_chunk_timeout = idle;
}

pub record Registry : Type 0 where
  pub tokens : List String
  pub agents : Dict AgentEntry

unfoldable pub check_token : String → Registry → Bool
check_token t r = contains t r.tokens

unfoldable pub lookup_agent : String → Registry → Option AgentEntry
lookup_agent id r = lookup id r.agents

pub record StreamUsage : Type 0 where
  pub agent_id : String
  pub active : ℕ
  pub limit : ℕ

usages : Dict AgentEntry → List StreamUsage
usages [] = []
usages ((id, e) ∷ es) =
    record { agent_id = id; active = e.stream_limit - e.stream_permits; limit = e.stream_limit }
    ∷ usages es

unfoldable pub stream_usage : Registry → List StreamUsage
unfolding usages
stream_usage r = usages (sort_keys r.agents)

take_permit : String → AgentEntry → Registry → Result String × Registry
take_permit id e r =
    if e.stream_permits == 0
    then (err (stream_capacity_exhausted id (e.stream_limit - e.stream_permits) e.stream_limit), r)
    else (
      ok id,
      record r { agents = insert id (record e { stream_permits = e.stream_permits - 1 }) r.agents },
    )

unfoldable pub try_acquire_stream : String → Registry → Result String × Registry
unfolding take_permit
try_acquire_stream id r = elim (lookup id r.agents) [
  | none ↦ (err (stream_capacity_exhausted id 0 0), r)
  | some e ↦ take_permit id e r
]

-- the permit's `Drop`
unfoldable pub drop_permit : String → Registry → Registry
drop_permit id r = elim (lookup id r.agents) [
  | none ↦ r
  | some e ↦ record r {
    agents = insert id (record e { stream_permits = e.stream_permits + 1 }) r.agents;
  }
]
