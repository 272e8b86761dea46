-- ===== src/Gatewayd/Registry/Slots.antt =====
-- The number of streams that an agent runs at a time.
use acp_a2a_gateway.Prelude.{
  ℕ, suc, ◌+◌, ◌-◌, ◌≤◌, String, ◌≡◌, List, [], ◌∷◌, inl, inr, some, Option-cases, if◌then◌else◌,
  ◌==◌, ◌=ˢ◌, eq_iff, arith, lookup, lookup-insert, ok, err, stream_capacity_exhausted,
}
use acp_a2a_gateway.Gatewayd.Registry.{
  Registry, AgentEntry, try_acquire_stream, take_permit, drop_permit,
}

-- A gateway at work: the registry, and the permits that its streams hold.
pub record Streams : Type 0 where
  pub registry : Registry
  pub held : List String

abbrev pub count : String → List String → ℕ
count id [] = 0
count id (p ∷ ps) = let rest = count id ps in if p =ˢ id then suc rest else rest

abbrev pub remove_one : String → List String → List String
remove_one id [] = []
remove_one id (p ∷ ps) = let rest = remove_one id ps in if p =ˢ id then ps else p ∷ rest

pub data Event : Type 0 where
  -- a request that streams, and the end of one of an agent's streams
  requested finished : String → Event

unfoldable pub start : String → Streams → Streams
start id s = elim (try_acquire_stream id s.registry).0 [
  | err e ↦ record s { registry = (try_acquire_stream id s.registry).1 }
  | ok p ↦ record { registry = (try_acquire_stream id s.registry).1; held = p ∷ s.held }
]

unfoldable pub finish : String → Streams → Streams
finish id s =
    if count id s.held == 0
    then s
    else record { registry = drop_permit id s.registry; held = remove_one id s.held }

unfoldable pub serve : List Event → Streams → Streams
serve [] s = s
serve (requested id ∷ es) s = serve es (start id s)
serve (finished id ∷ es) s = serve es (finish id s)

-- Every permit of the agent is free or held by one of its streams.
abbrev Balanced : String → AgentEntry → Streams → Type 0
Balanced id e s =
    (count id s.held ≤ e.stream_limit)
    × (lookup id s.registry.agents
        ≡ some (record e { stream_permits = e.stream_limit - count id s.held }))

count-remove_one :
    (id other : String) (ps : List String)
    → count other (remove_one id ps) ≡ (if id =ˢ other then count other ps - 1 else count other ps)
count-remove_one id other [] = ground arith
count-remove_one id other (p ∷ ps) =
    ground (arith, eq_iff p id, eq_iff id other, eq_iff p other, count-remove_one id other ps)

start-Balanced :
    (id other : String) (e : AgentEntry) (s : Streams)
    → Balanced id e s
    → Balanced id e (start other s)
unfolding start try_acquire_stream take_permit
start-Balanced id other e s (le, here) = elim (Option-cases (lookup other s.registry.agents)) [
  | inl n ↦ ground arith
  | inr (f, found) ↦ ground (
    arith,
    eq_iff other id,
    lookup-insert other id (record f { stream_permits = f.stream_permits - 1 }) s.registry.agents,
  )
]

finish-Balanced :
    (id other : String) (e : AgentEntry) (s : Streams)
    → Balanced id e s
    → Balanced id e (finish other s)
unfolding finish drop_permit
finish-Balanced id other e s (le, here) = elim (Option-cases (lookup other s.registry.agents)) [
  | inl n ↦ ground (arith, eq_iff other id, count-remove_one other id s.held)
  | inr (f, found) ↦ ground (
    arith,
    eq_iff other id,
    count-remove_one other id s.held,
    lookup-insert other id (record f { stream_permits = f.stream_permits + 1 }) s.registry.agents,
  )
]

serve-Balanced :
    (id : String) (e : AgentEntry) (es : List Event) (s : Streams)
    → Balanced id e s
    → Balanced id e (serve es s)
unfolding serve
serve-Balanced id e [] s b = b
serve-Balanced id e (requested other ∷ es) s b =
    serve-Balanced id e es (start other s) (start-Balanced id other e s b)
serve-Balanced id e (finished other ∷ es) s b =
    serve-Balanced id e es (finish other s) (finish-Balanced id other e s b)

-- The next request for the agent is refused exactly if as many streams hold a permit as it allows.
next_request :
    (id : String) (e : AgentEntry) (s : Streams)
    → Balanced id e s
    → (try_acquire_stream id s.registry).0 ≡ (
        if count id s.held == e.stream_limit
        then err (stream_capacity_exhausted id e.stream_limit e.stream_limit)
        else ok id)
unfolding try_acquire_stream take_permit
next_request id e s (le, here) = ground arith

-- From a registry in which an agent has all its permits, whatever streams are requested and end:
-- no more streams of the agent than its limit hold a permit; and one more is refused, with the
-- limit as the number of active streams, exactly if there are as many as that.
pub slots_bounded :
    (r : Registry) (id : String) (e : AgentEntry) (es : List Event)
    → lookup id r.agents ≡ some e
    → e.stream_permits ≡ e.stream_limit
    → (count id (serve es (record { registry = r; held = [] })).held ≤ e.stream_limit)
      × ((try_acquire_stream id (serve es (record { registry = r; held = [] })).registry).0 ≡ (
          if count id (serve es (record { registry = r; held = [] })).held == e.stream_limit
          then err (stream_capacity_exhausted id e.stream_limit e.stream_limit)
          else ok id))
slots_bounded r id e es there full =
    let b = serve-Balanced id e es (record { registry = r; held = [] }) (ground arith) in
    (b.0, next_request id e (serve es (record { registry = r; held = [] })) b)
