-- ===== src/Gatewayd/Passthrough/Probing.antt =====
-- When an agent is asked for its dialect.
use acp_a2a_gateway.Prelude.{
  ℕ, String, ◌≡◌, refl, ap, ◌∙◌, Bool, true, false, not, Option, none, some, List, [], ◌∷◌, ◌++◌,
  map, is_some, lookup-remove, eq_refl, Result, ok, err, arith,
}
use acp_a2a_gateway.Protocol.Json.{Value}
use acp_a2a_gateway.Gatewayd.Registry.{http}
use acp_a2a_gateway.Gatewayd.DialectProbe.{
  A2aDialect, DialectCache, get_dialect, remove_dialect, Probe, probe_dialect, second_probe,
  response_indicates_method_not_found,
}
use acp_a2a_gateway.Gatewayd.Passthrough.{
  Client, Request, UpstreamResponse, BodyRead, read, Sent, probed, is_json, to_bytes, invalidate,
  read_json, relay_response, upstream_request, probe_unknown, ensure_probed, forward, proxy_agent,
}

abbrev pub starts_with_probe : List Sent → Bool
starts_with_probe (probed p ∷ sent) = true
starts_with_probe _ = false

second_probe_first :
    (c : Client) (sent next : Probe) (r : Result (Option A2aDialect)) (more : List Sent)
    → starts_with_probe
        (map (λ p. probed p) (second_probe c.to_lowercase c.post sent next r).1 ++ more)
      ≡ true
unfolding second_probe
second_probe_first c sent next (err e) more = refl
second_probe_first c sent next (ok none) more = refl
second_probe_first c sent next (ok (some dialect)) more = refl

probe_unknown_first :
    (c : Client) (agent_id url : String) (bearer : Option String) (cache : DialectCache)
    (known : Option A2aDialect) (u : Sent)
    → starts_with_probe (u ∷ []) ≡ false
    → starts_with_probe ((probe_unknown c agent_id url bearer cache known).1 ++ (u ∷ []))
      ≡ not (is_some known)
unfolding probe_unknown probe_dialect
probe_unknown_first c agent_id url bearer cache (some dialect) u h = h
probe_unknown_first c agent_id url bearer cache none u h = second_probe_first c _ _ _ (u ∷ [])

proxy_agent_first :
    (c : Client) (agent_id path url : String) (push_token : Option String) (request : Request)
    (bytes : List ℕ) (cache : DialectCache)
    → to_bytes request.body ≡ ok bytes
    → starts_with_probe (proxy_agent c agent_id path request (http url push_token) cache).1.1
      ≡ not (is_some (get_dialect agent_id cache))
unfolding proxy_agent forward ensure_probed
proxy_agent_first c agent_id path url push_token request bytes cache h =
    rw h (probe_unknown_first c agent_id url push_token cache (get_dialect agent_id cache) _ refl)

-- Behind an answer that is JSON and says that the method was not found, nothing is cached.
invalidate_forgets :
    (c : Client) (agent_id : String) (body : Value) (cache : DialectCache)
    → response_indicates_method_not_found c.to_lowercase body ≡ true
    → get_dialect agent_id (invalidate c agent_id (some body) cache) ≡ none
unfolding invalidate get_dialect remove_dialect
invalidate_forgets c agent_id body cache m =
    rw m (ground (arith, lookup-remove agent_id agent_id cache, eq_refl agent_id))

read_json_forgets :
    (c : Client) (agent_id : String) (r : UpstreamResponse) (read_of : BodyRead) (bytes : List ℕ)
    (body : Value) (cache : DialectCache)
    → read_of ≡ read bytes
    → c.from_slice bytes ≡ some body
    → response_indicates_method_not_found c.to_lowercase body ≡ true
    → get_dialect agent_id (read_json c agent_id r read_of cache).1 ≡ none
unfolding read_json
read_json_forgets c agent_id r read_of bytes body cache b v m =
    rw (b, v) (invalidate_forgets c agent_id body cache m)

relay_forgets :
    (c : Client) (agent_id : String) (r : UpstreamResponse) (bytes : List ℕ) (body : Value)
    (cache : DialectCache)
    → is_json c r.content_type ≡ true
    → r.bytes ≡ read bytes
    → c.from_slice bytes ≡ some body
    → response_indicates_method_not_found c.to_lowercase body ≡ true
    → get_dialect agent_id (relay_response c agent_id (ok r) cache).1 ≡ none
unfolding relay_response
relay_forgets c agent_id r bytes body cache j b v m =
    rw j (read_json_forgets c agent_id r r.bytes bytes body cache b v m)

forgotten :
    (c : Client) (agent_id path url : String) (push_token : Option String) (request : Request)
    (bytes told : List ℕ) (r : UpstreamResponse) (body : Value) (cache : DialectCache)
    → to_bytes request.body ≡ ok bytes
    → c.send (upstream_request c url path push_token request bytes) ≡ ok r
    → is_json c r.content_type ≡ true
    → r.bytes ≡ read told
    → c.from_slice told ≡ some body
    → response_indicates_method_not_found c.to_lowercase body ≡ true
    → get_dialect agent_id (proxy_agent c agent_id path request (http url push_token) cache).1.0
      ≡ none
unfolding proxy_agent forward
forgotten c agent_id path url push_token request bytes told r body cache h w j b v m =
    rw (h, w) (relay_forgets c agent_id r told body _ j b v m)

-- A request whose body is not too long begins with a probe exactly if the agent has no dialect in
-- the cache. If the agent answers the first request of two with JSON that says that the method was
-- not found, the second begins with a probe again.
pub method_not_found_reprobes :
    (c : Client) (agent_id path path' url : String) (push_token : Option String)
    (request request' : Request) (bytes bytes' told : List ℕ) (r : UpstreamResponse) (body : Value)
    (cache : DialectCache)
    → to_bytes request.body ≡ ok bytes
    → c.send (upstream_request c url path push_token request bytes) ≡ ok r
    → is_json c r.content_type ≡ true
    → r.bytes ≡ read told
    → c.from_slice told ≡ some body
    → response_indicates_method_not_found c.to_lowercase body ≡ true
    → to_bytes request'.body ≡ ok bytes'
    → let first = proxy_agent c agent_id path request (http url push_token) cache in
      let second = proxy_agent c agent_id path' request' (http url push_token) first.1.0 in
      (starts_with_probe first.1.1 ≡ not (is_some (get_dialect agent_id cache)))
      × (starts_with_probe second.1.1 ≡ true)
method_not_found_reprobes c agent_id path path' url push_token request request' bytes bytes' told r
      body cache h w j b v m h' =
    (
      proxy_agent_first c agent_id path url push_token request bytes cache h,
      proxy_agent_first c agent_id path' url push_token request' bytes' _ h'
          ∙ ap (λ known. not (is_some known))
              (forgotten c agent_id path url push_token request bytes told r body cache h w j b v
                m),
    )
