-- ===== src/Gatewayd/Registry/Permits.antt =====
-- gatewayd/src/registry.rs: a stream that ends gives back what it took.
use acp_a2a_gateway.Prelude.{
  ℕ, ◌+◌, ◌-◌, ◌<◌, ◌==◌, String, ◌≡◌, ◌⊎◌, inl, inr, none, some, Bool-cases, Option-cases, eq_iff,
  arith, lookup, lookup-insert, Error, stream_capacity_exhausted, ok, err,
}
use acp_a2a_gateway.Gatewayd.Registry.{Registry, try_acquire_stream, take_permit, drop_permit}

-- Every agent's entry, with its free permits, is as before.
abbrev pub SameSlots : Registry → Registry → Type 0
SameSlots r r' = (id : String) → lookup id r'.agents ≡ lookup id r.agents

pub permit_returned :
    (agent_id permit : String) (r : Registry)
    → (try_acquire_stream agent_id r).0 ≡ ok permit
    → SameSlots r (drop_permit permit (try_acquire_stream agent_id r).1)
unfolding try_acquire_stream take_permit drop_permit
permit_returned agent_id permit r h id = elim (Option-cases (lookup agent_id r.agents)) [
  | inl e ↦ ground arith
  | inr (entry, e) ↦ ground (
    arith,
    lookup-insert agent_id id (record entry { stream_permits = entry.stream_permits - 1 }) r.agents,
    lookup-insert agent_id agent_id (record entry { stream_permits = entry.stream_permits - 1 })
        r.agents,
    lookup-insert agent_id id (record entry { stream_permits = entry.stream_permits - 1 + 1 })
        (try_acquire_stream agent_id r).1.agents,
    eq_iff agent_id agent_id,
    eq_iff agent_id id,
  )
]

pub permit_refused :
    (agent_id : String) (r : Registry) (e : Error)
    → (try_acquire_stream agent_id r).0 ≡ err e
    → SameSlots r (try_acquire_stream agent_id r).1
unfolding try_acquire_stream take_permit
permit_refused agent_id r e h id = ground arith

-- The permits for a stream of the agent that nobody holds.
abbrev pub free_permits : String → Registry → ℕ
free_permits agent_id r = elim (lookup agent_id r.agents) [
  | none ↦ 0
  | some entry ↦ entry.stream_permits
]

-- A stream is taken exactly while there is a free permit.
pub try_acquire_stream-free :
    (agent_id : String) (r : Registry)
    → ((free_permits agent_id r ≡ 0) × (e : Error) × ((try_acquire_stream agent_id r).0 ≡ err e))
      ⊎ ((0 < free_permits agent_id r)
          × (permit : String) × ((try_acquire_stream agent_id r).0 ≡ ok permit))
unfolding try_acquire_stream take_permit
try_acquire_stream-free agent_id r = elim (Option-cases (lookup agent_id r.agents)) [
  | inl l ↦ inl (ground arith, stream_capacity_exhausted agent_id 0 0, ground arith)
  | inr (entry, l) ↦ elim (Bool-cases (entry.stream_permits == 0)) [
    | inl z ↦ inl (
      ground arith,
      stream_capacity_exhausted agent_id (entry.stream_limit - entry.stream_permits)
          entry.stream_limit,
      ground arith,
    )
    | inr p ↦ inr (ground arith, agent_id, ground arith)
  ]
]
