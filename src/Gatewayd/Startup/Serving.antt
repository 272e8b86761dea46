-- ===== src/Gatewayd/Startup/Serving.antt =====
-- Which agents are in the registry.
use acp_a2a_gateway.Prelude.{
  ◌≤◌, String, ◌≡◌, refl, ap, ◌∙◌, sym, inl, inr, Bool, true, false, not, ◌&&◌, Bool-cases, Option,
  none, some, List, [], ◌∷◌, ◌==◌, ◌=ˢ◌, eq_iff, subst, if◌then◌else◌, is_some, map_option, Dict,
  lookup, insert, contains, lookup-insert, Result, ok, ok_injective, err, arith,
}
use acp_a2a_gateway.Gatewayd.Registry.{Transport, AgentEntry, Registry, lookup_agent}
use acp_a2a_gateway.Gatewayd.Config.Raw.{RawAgentEntry, StreamingConfig, RawConfig}
use acp_a2a_gateway.Gatewayd.Startup.{
  agent_entry, entry_of, agent_streaming, agent_transport, add_agent, build_agents, registry_of,
  build_registry,
}

abbrev pub Built : Type 0
Built = Dict AgentEntry × List String

module _ (var : String → Option String) (allowed : List String) where
  -- The entry that the configuration gives the name `id`, if it is let in.
  abbrev pub configured : String → Dict RawAgentEntry → Option (Result AgentEntry)
  configured id raw =
      if contains id allowed then map_option (agent_entry var id) (lookup id raw) else none

  abbrev Exact : Dict RawAgentEntry → Dict AgentEntry × List String → Type 0
  Exact raw built =
      (id : String)
      → (map_option (λ e. ok e) (lookup id built.0) ≡ configured id raw)
        × (contains id built.1 ≡ (not (contains id allowed) && is_some (lookup id raw)))

  add_allowed :
      (i : String) (entry : RawAgentEntry) (more : Dict RawAgentEntry) (e : AgentEntry)
      (rest : Dict AgentEntry × List String)
      → contains i allowed ≡ true
      → agent_entry var i entry ≡ ok e
      → Exact more rest
      → Exact ((i, entry) ∷ more) (insert i e rest.0, rest.1)
  unfolding lookup
  add_allowed i entry more e rest k h exact id = elim (Bool-cases (i =ˢ id)) [
    | inl y ↦
        let same : i ≡ id = (eq_iff i id).0 y in
        ground (
          arith,
          y,
          lookup-insert i id e rest.0,
          exact id,
          subst (λ j. agent_entry var j entry ≡ ok e) same h,
          subst (λ j. contains j allowed ≡ true) same k,
        )
    | inr n ↦ ground (arith, n, lookup-insert i id e rest.0, exact id)
  ]

  add_excluded :
      (i : String) (entry : RawAgentEntry) (more : Dict RawAgentEntry)
      (rest : Dict AgentEntry × List String)
      → contains i allowed ≡ false
      → Exact more rest
      → Exact ((i, entry) ∷ more) (rest.0, i ∷ rest.1)
  unfolding lookup
  add_excluded i entry more rest k exact id = ground (arith, exact id, eq_iff i id)

  add_agent-Exact :
      (i : String) (entry : RawAgentEntry) (more : Dict RawAgentEntry) (is_allowed : Bool)
      (built : Result AgentEntry) (others : Result Built) (result : Built)
      → contains i allowed ≡ is_allowed
      → agent_entry var i entry ≡ built
      → ((rest : Built) → others ≡ ok rest → Exact more rest)
      → add_agent var i is_allowed built others ≡ ok result
      → Exact ((i, entry) ∷ more) result
  unfolding add_agent
  add_agent-Exact i entry more true (err failed) others result k h exact r = ground arith
  add_agent-Exact i entry more true (ok e) (err failed) result k h exact r = ground arith
  add_agent-Exact i entry more true (ok e) (ok rest) result k h exact r =
      subst (Exact ((i, entry) ∷ more)) (ok_injective r)
        (add_allowed i entry more e rest k h (exact rest refl))
  add_agent-Exact i entry more false built (err failed) result k h exact r = ground arith
  add_agent-Exact i entry more false built (ok rest) result k h exact r =
      subst (Exact ((i, entry) ∷ more)) (ok_injective r)
        (add_excluded i entry more rest k (exact rest refl))

  build_agents-Exact :
      (raw : Dict RawAgentEntry) (result : Built)
      → build_agents var allowed raw ≡ ok result
      → Exact raw result
  unfolding build_agents lookup
  build_agents-Exact [] result h = subst (Exact []) (ok_injective h) (λ id. ground arith)
  build_agents-Exact ((i, entry) ∷ more) result h =
      add_agent-Exact i entry more (contains i allowed) (agent_entry var i entry)
        (build_agents var allowed more) result refl refl (build_agents-Exact more) h

entry_of_positive :
    (var : String → Option String) (id : String) (streaming : StreamingConfig) (is_zero : Bool)
    (transport : Result Transport) (e : AgentEntry)
    → (streaming.max_concurrent_streams == 0) ≡ is_zero
    → entry_of var id streaming is_zero transport ≡ ok e
    → (1 ≤ e.stream_limit) × (e.stream_permits ≡ e.stream_limit)
unfolding entry_of
entry_of_positive var id streaming true transport e z h = ground arith
entry_of_positive var id streaming false (err failed) e z h = ground arith
entry_of_positive var id streaming false (ok t) e z h =
    subst (λ e'. (1 ≤ e'.stream_limit) × (e'.stream_permits ≡ e'.stream_limit)) (ok_injective h)
      (ground arith, refl)

configured_positive :
    (var : String → Option String) (allowed : List String) (id : String) (raw : Dict RawAgentEntry)
    (e : AgentEntry) (found : Option RawAgentEntry)
    → lookup id raw ≡ found
    → configured var allowed id raw ≡ some (ok e)
    → (1 ≤ e.stream_limit) × (e.stream_permits ≡ e.stream_limit)
unfolding agent_entry
configured_positive var allowed id raw e none l h = ground arith
configured_positive var allowed id raw e (some entry) l h =
    entry_of_positive var id (agent_streaming entry)
      ((agent_streaming entry).max_concurrent_streams == 0) (agent_transport var id entry) e refl
      (ground arith)

pub registry_of_parts :
    (var : String → Option String) (is_refused : Bool) (tokens : Result (List String))
    (agents : Result Built) (built : Registry × List String)
    → registry_of var is_refused tokens agents ≡ ok built
    → (tokens ≡ ok built.0.tokens) × (agents ≡ ok (built.0.agents, built.1))
unfolding registry_of
registry_of_parts var true tokens agents built h = ground arith
registry_of_parts var false (err failed) agents built h = ground arith
registry_of_parts var false (ok tokens) (err failed) built h = ground arith
registry_of_parts var false (ok tokens) (ok agents) built h =
    (ap (λ b. ok b.0.tokens) (ok_injective h), ap (λ b. ok (b.0.agents, b.1)) (ok_injective h))

-- If the registry can be built, each name stands in it with the entry that the configuration gives
-- it, placeholders replaced, exactly if it is among those that are let in; the names left out are
-- the configured ones that are not; and every entry has a slot for a stream, all of them free.
pub build_registry_exact :
    (var : String → Option String) (raw : RawConfig) (allowed : List String)
    (built : Registry × List String)
    → build_registry var raw allowed ≡ ok built
    → (id : String)
    → (map_option (λ e. ok e) (lookup_agent id built.0) ≡ configured var allowed id raw.agents)
      × (contains id built.1 ≡ (not (contains id allowed) && is_some (lookup id raw.agents)))
      × ((e : AgentEntry)
          → lookup_agent id built.0 ≡ some e
          → (1 ≤ e.stream_limit) × (e.stream_permits ≡ e.stream_limit))
unfolding build_registry lookup_agent
build_registry_exact var raw allowed built h id =
    let parts = registry_of_parts var _ _ _ built h in
    let exact = build_agents-Exact var allowed raw.agents (built.0.agents, built.1) parts.1 id in
    (
      exact.0,
      exact.1,
      λ e found.
          configured_positive var allowed id raw.agents e (lookup id raw.agents) refl
            (sym exact.0 ∙ ap (map_option (λ e'. ok e')) found),
    )
