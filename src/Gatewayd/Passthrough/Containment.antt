-- ===== src/Gatewayd/Passthrough/Containment.antt =====
-- What a client can make the proxy send.
use acp_a2a_gateway.Prelude.{
  ℕ, ◌≤◌, String, ◌≡◌, refl, ◌⊎◌, inl, inr, Bool-cases, true, Option, none, some, List, [], map,
  length, All, All-append, Result, Result-cases, ok, err, arith,
}
use acp_a2a_gateway.Gatewayd.Registry.{
  Transport, stdio, http, AgentEntry, check_token, lookup_agent,
}
use acp_a2a_gateway.Gatewayd.DialectProbe.{
  DialectCache, get_dialect, Probe, A2aDialect, probe_dialect, second_probe,
}
use acp_a2a_gateway.Gatewayd.Passthrough.{
  Client, Request, Sent, probed, forwarded, PassthroughState, bearer_of, build_target_url,
  max_body_bytes, to_bytes, ensure_probed, forward, serve_bearer, probe_unknown, upstream_request,
  proxy_agent, admitted, proxy_handler,
}

-- A request to the agent at `url`: a probe of it, or the client's request to an address below it
-- with a body that is not too long. It carries the agent's token and no other.
abbrev pub IsOwn : (path : String) → Request → (url : String) → Option String → Sent → Type 0
IsOwn path request url push_token (probed p) = (p.url ≡ url) × (p.bearer ≡ push_token)
IsOwn path request url push_token (forwarded u) =
    (u.url ≡ build_target_url url path request.query)
    × (u.bearer ≡ push_token)
    × (length u.body ≤ max_body_bytes)

module _ (c : Client) (path : String) (request : Request) (url : String)
    (push_token : Option String) where
  abbrev Own : List Sent → Type 0
  Own sent = All (IsOwn path request url push_token) sent

  second_probe-Own :
      (sent next : Probe) (r : Result (Option A2aDialect))
      → IsOwn path request url push_token (probed sent)
      → IsOwn path request url push_token (probed next)
      → Own (map (λ p. probed p) (second_probe c.to_lowercase c.post sent next r).1)
  unfolding second_probe
  second_probe-Own sent next (err e) h k = (h, tt)
  second_probe-Own sent next (ok (some dialect)) h k = (h, tt)
  second_probe-Own sent next (ok none) h k = (h, (k, tt))

  ensure_probed-Own :
      (agent_id : String) (cache : DialectCache) (known : Option A2aDialect)
      → Own (probe_unknown c agent_id url push_token cache known).1
  unfolding probe_unknown probe_dialect
  ensure_probed-Own agent_id cache (some dialect) = tt
  ensure_probed-Own agent_id cache none = second_probe-Own _ _ _ (refl, refl) (refl, refl)

  to_bytes_bounded :
      (body : Result (List ℕ)) (bytes : List ℕ)
      → to_bytes body ≡ ok bytes
      → length bytes ≤ max_body_bytes
  unfolding to_bytes
  to_bytes_bounded (err e) bytes h = ground arith
  to_bytes_bounded (ok b) bytes h = ground arith

  forward-Own :
      (agent_id : String) (body : Result (List ℕ)) (probing : DialectCache × List Sent)
      → Own probing.1
      → Own (forward c agent_id url path push_token request (to_bytes body) probing).1.1
  unfolding forward upstream_request
  forward-Own agent_id body probing h = elim (Result-cases (to_bytes body)) [
    | inl (bytes, e) ↦
        rw e (All-append _ probing.1 _ h ((refl, refl, to_bytes_bounded body bytes e), tt))
    | inr (failed, e) ↦ rw e h
  ]

abbrev pub Contained :
    Client
    → (agent_id path : String) → Request
    → PassthroughState
    → (token : Option String) → (after : PassthroughState × List Sent) → Type 0
Contained c agent_id path request s bearer after =
    ((after.1 ≡ []) × (after.0 ≡ s))
    ⊎ ((token : String) × (e : AgentEntry) × (url : String) × (push_token : Option String) × (bearer
          ≡ some token)
        × (check_token token s.registry ≡ true)
        × (lookup_agent agent_id s.registry ≡ some e)
        × (e.transport ≡ http url push_token)
        × All (IsOwn path request url push_token) after.1)

proxy_agent-Contained :
    (c : Client) (agent_id path : String) (request : Request) (s : PassthroughState)
    (token : String)
    → check_token token s.registry ≡ true
    → (e : AgentEntry) → lookup_agent agent_id s.registry ≡ some e
    → (transport : Transport) → e.transport ≡ transport
    → Contained c agent_id path request s (some token) (
      record s {
        dialect_cache = (proxy_agent c agent_id path request transport s.dialect_cache).1.0;
      },
      (proxy_agent c agent_id path request transport s.dialect_cache).1.1,
    )
unfolding proxy_agent ensure_probed
proxy_agent-Contained c agent_id path request s token k e h (stdio command cwd env) t =
    inl (refl, refl)
proxy_agent-Contained c agent_id path request s token k e h (http url push_token) t = inr (
  token,
  e,
  url,
  push_token,
  refl,
  k,
  h,
  t,
  forward-Own c path request url push_token agent_id request.body _ (
      ensure_probed-Own c path request url push_token agent_id s.dialect_cache
        (get_dialect agent_id s.dialect_cache)),
)

admitted-Contained :
    (c : Client) (agent_id path : String) (request : Request) (s : PassthroughState)
    (token : String)
    → check_token token s.registry ≡ true
    → (found : Option AgentEntry) → lookup_agent agent_id s.registry ≡ found
    → Contained c agent_id path request s (some token) (
      record s { dialect_cache = (admitted c agent_id path request found s.dialect_cache).1.0 },
      (admitted c agent_id path request found s.dialect_cache).1.1,
    )
unfolding admitted
admitted-Contained c agent_id path request s token k none h = inl (refl, refl)
admitted-Contained c agent_id path request s token k (some e) h =
    proxy_agent-Contained c agent_id path request s token k e h e.transport refl

serve_bearer-Contained :
    (c : Client) (agent_id path : String) (request : Request) (s : PassthroughState)
    (token : Option String)
    → Contained c agent_id path request s token (serve_bearer c agent_id path request s token).1
unfolding serve_bearer
serve_bearer-Contained c agent_id path request s none = inl (refl, refl)
serve_bearer-Contained c agent_id path request s (some token) =
    elim (Bool-cases (check_token token s.registry)) [
      | inr k ↦ rw k (inl (refl, refl))
      | inl k ↦ rw k (
          admitted-Contained c agent_id path request s token k (lookup_agent agent_id s.registry)
            refl)
    ]

-- Either nothing is sent and the state stays, or the request has a valid token of the gateway,
-- the agent is one that is reached by HTTP, and all that is sent is for that agent: probes, and
-- the request to an address below the agent's with a body of 32 MiB at most. All of it carries
-- the agent's own token, or none if it has none, and never the client's.
pub proxy_handler-Contained :
    (c : Client) (agent_id path : String) (request : Request) (s : PassthroughState)
    → Contained c agent_id path request s
        (bearer_of c request)
        (proxy_handler c agent_id path request s).1
unfolding proxy_handler
proxy_handler-Contained c agent_id path request s =
    serve_bearer-Contained c agent_id path request s (bearer_of c request)
