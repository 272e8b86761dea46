-- ===== src/Gatewayd/Passthrough.antt =====
-- gatewayd/src/transport_a2a_passthrough.rs: a reverse proxy in front of the agents that speak A2A.
pub mod Paths
pub mod Containment
pub mod Probing
use Prim.Native.Char.{code}
use Prim.Native.String
use text.Mathlib.Text.{find?}
use acp_a2a_gateway.Prelude.{
  ℕ, ◌*◌, String, Bool, false, ◌&&◌, not, Option, none, some, List, [], ◌∷◌, ◌++◌, map, length, ltb,
  ◌==◌, ◌=ˢ◌, if◌then◌else◌, is_some, keep, and_then, Result, ok, err, Error, external,
}
use acp_a2a_gateway.Protocol.Json.{Value}
use acp_a2a_gateway.Core.HttpAgent.{trim_slashes}
use acp_a2a_gateway.Core.Sse.{Chunk}
use acp_a2a_gateway.Gatewayd.Requests.{extract_bearer}
use acp_a2a_gateway.Gatewayd.Registry.{
  Transport, stdio, http, AgentEntry, Registry, check_token, lookup_agent,
}
use acp_a2a_gateway.Gatewayd.DialectProbe.{
  A2aDialect, DialectCache, get_dialect, set_dialect, remove_dialect, Probe, probe_dialect,
  response_indicates_method_not_found,
}

unfoldable pub max_body_bytes : ℕ
max_body_bytes = 32 * 1024 * 1024

-- A character in front of the first piece.
add_front : Prim.Native.Char.Char → List String → List String
add_front c [] = String.◌∷◌ c "" ∷ []
add_front c (piece ∷ pieces) = String.◌∷◌ c piece ∷ pieces

-- path.split('/')
unfoldable pub split_path : String → List String
unfolding add_front
split_path String.[] = "" ∷ []
split_path (String.◌∷◌ c path) =
    let pieces = split_path path in if code c == b'/' then "" ∷ pieces else add_front c pieces

unfoldable pub is_kept : String → Bool
is_kept seg = not (seg =ˢ "") && not (seg =ˢ ".") && not (seg =ˢ "..")

-- pieces.join("/")
unfoldable pub join_path : List String → String
join_path [] = ""
join_path (piece ∷ []) = piece
join_path (piece ∷ next ∷ pieces) = String.◌++◌ piece (String.◌++◌ "/" (join_path (next ∷ pieces)))

unfoldable pub safe_path : String → String
unfolding split_path is_kept join_path
safe_path path = join_path (keep is_kept (split_path path))

unfoldable pub query_suffix : Option String → String
query_suffix none = ""
query_suffix (some q) = String.◌++◌ "?" q

unfoldable pub build_target_url : (base path : String) (query : Option String) → String
unfolding safe_path query_suffix trim_slashes
build_target_url base path query =
    String.◌++◌ (trim_slashes base)
      (String.◌++◌ "/" (String.◌++◌ (safe_path path) (query_suffix query)))

-- The bytes of a header's value.
abbrev pub HeaderValue : Type 0
HeaderValue = List ℕ

pub record Request : Type 0 where
  pub method : String
  pub query : Option String
  pub authorization : Option HeaderValue
  pub content_type : Option HeaderValue
  pub accept : Option HeaderValue
  -- the bytes that arrive, or the error that ends them
  pub body : Result (List ℕ)

-- A request that goes on to an agent.
pub record UpstreamRequest : Type 0 where
  pub method : String
  pub url : String
  pub content_type : Option HeaderValue
  pub accept : Option HeaderValue
  pub bearer : Option String
  pub body : List ℕ

-- What reading a whole body comes to, within thirty seconds.
pub data BodyRead : Type 0 where
  read : List ℕ → BodyRead
  read_failed : Error → BodyRead
  read_timeout : BodyRead

pub record UpstreamResponse : Type 0 where
  pub status : ℕ
  pub content_type : Option HeaderValue
  pub bytes : BodyRead
  pub bytes_stream : List Chunk

pub data Body : Type 0 where
  plain : String → Body
  whole : List ℕ → Body
  from_stream : List Chunk → Body

pub record Response : Type 0 where
  pub status : ℕ
  pub content_type : Option HeaderValue
  pub body : Body

-- What leaves the gateway.
pub data Sent : Type 0 where
  probed : Probe → Sent
  forwarded : UpstreamRequest → Sent

-- The HTTP client with the agents behind it, the UUID that is drawn, and the libraries' readers
-- and printers.
pub record Client : Type 0 where
  pub post : Probe → Result Value
  pub send : UpstreamRequest → Result UpstreamResponse
  pub probe_task_id : String
  pub to_str : HeaderValue → Option String
  pub to_lowercase : String → String
  pub from_slice : List ℕ → Option Value
  pub print : Error → String

pub record PassthroughState : Type 0 where
  pub registry : Registry
  pub dialect_cache : DialectCache

-- A response of the proxy's own.
unfoldable pub answer : ℕ → String → Response
answer status message = record { status = status; content_type = none; body = plain message }

-- axum's `to_bytes`, with its limit
unfoldable pub to_bytes : Result (List ℕ) → Result (List ℕ)
unfolding max_body_bytes
to_bytes (err e) = err e
to_bytes (ok bytes) =
    if ltb max_body_bytes (length bytes) then err (external "length limit exceeded") else ok bytes

module _ (c : Client) where
  unfoldable pub bearer_of : Request → Option String
  unfolding extract_bearer
  bearer_of request = extract_bearer (and_then request.authorization c.to_str)

  unfoldable pub is_json : Option HeaderValue → Bool
  is_json content_type = elim (and_then content_type c.to_str) [
    | none ↦ false
    | some ct ↦ is_some (find? ct "application/json")
  ]

  remember_dialect : String → Result A2aDialect → DialectCache → DialectCache
  unfolding set_dialect
  remember_dialect agent_id (ok dialect) cache = set_dialect agent_id dialect cache
  remember_dialect agent_id (err e) cache = cache

  -- The probe before the first request to an agent, whose dialect is `known` or not.
  unfoldable pub probe_unknown :
      (agent_id url : String) (bearer : Option String)
      → DialectCache
      → (known : Option A2aDialect) → DialectCache × List Sent
  unfolding probe_dialect remember_dialect
  probe_unknown agent_id url bearer cache (some dialect) = (cache, [])
  probe_unknown agent_id url bearer cache none =
      let done = probe_dialect c.to_lowercase c.post c.probe_task_id url bearer in
      (remember_dialect agent_id done.0 cache, map (λ p. probed p) done.1)

  unfoldable pub ensure_probed :
      (agent_id url : String) (bearer : Option String) → DialectCache → DialectCache × List Sent
  unfolding get_dialect probe_unknown
  ensure_probed agent_id url bearer cache =
      probe_unknown agent_id url bearer cache (get_dialect agent_id cache)

  -- What a body means for the cache, if it is JSON.
  unfoldable pub invalidate : String → Option Value → DialectCache → DialectCache
  unfolding response_indicates_method_not_found remove_dialect
  invalidate agent_id none cache = cache
  invalidate agent_id (some body) cache =
      if response_indicates_method_not_found c.to_lowercase body
      then remove_dialect agent_id cache
      else cache

  unfoldable pub read_json :
      String → UpstreamResponse → BodyRead → DialectCache → Response × DialectCache
  unfolding answer invalidate
  read_json agent_id r (read_failed e) cache =
      (answer 502 (String.◌++◌ "upstream body read error: " (c.print e)), cache)
  read_json agent_id r read_timeout cache = (answer 502 "upstream body read timeout", cache)
  read_json agent_id r (read bytes) cache = (
    record { status = r.status; content_type = r.content_type; body = whole bytes },
    invalidate agent_id (c.from_slice bytes) cache,
  )

  -- The status and the content type come from a response, so the response can be built.
  unfoldable pub relay_response :
      String → Result UpstreamResponse → DialectCache → Response × DialectCache
  unfolding answer is_json read_json
  relay_response agent_id (err e) cache =
      (answer 502 (String.◌++◌ "upstream error: " (c.print e)), cache)
  relay_response agent_id (ok r) cache =
      if is_json r.content_type then read_json agent_id r r.bytes cache else (
        record {
          status = r.status;
          content_type = r.content_type;
          body = from_stream r.bytes_stream;
        },
        cache,
      )

  unfoldable pub upstream_request :
      (url path : String) (push_token : Option String) → Request → List ℕ → UpstreamRequest
  unfolding build_target_url
  upstream_request url path push_token request bytes = record {
    method = request.method;
    url = build_target_url url path request.query;
    content_type = request.content_type;
    accept = request.accept;
    bearer = push_token;
    body = bytes;
  }

  unfoldable pub forward :
      (agent_id url path : String) (push_token : Option String)
      → Request
      → Result (List ℕ)
      → DialectCache × List Sent
      → Response × (DialectCache × List Sent)
  unfolding answer upstream_request relay_response
  forward agent_id url path push_token request (err e) (cache, sent) =
      (answer 413 (String.◌++◌ "body read error: " (c.print e)), (cache, sent))
  forward agent_id url path push_token request (ok bytes) (cache, sent) =
      let upstream = upstream_request url path push_token request bytes in
      let relayed = relay_response agent_id (c.send upstream) cache in
      (relayed.0, (relayed.1, sent ++ (forwarded upstream ∷ [])))

  unfoldable pub proxy_agent :
      (agent_id path : String)
      → Request
      → Transport
      → DialectCache
      → Response × (DialectCache × List Sent)
  unfolding answer ensure_probed to_bytes forward
  proxy_agent agent_id path request (stdio command cwd env) cache = (
    answer 400 "agent_id is not an A2A/http agent (use TCP transport for ACP targets)",
    (cache, []),
  )
  proxy_agent agent_id path request (http url push_token) cache =
      forward agent_id url path push_token request (to_bytes request.body)
        (ensure_probed agent_id url push_token cache)

  unfoldable pub admitted :
      (agent_id path : String)
      → Request
      → Option AgentEntry
      → DialectCache
      → Response × (DialectCache × List Sent)
  unfolding answer proxy_agent
  admitted agent_id path request none cache = (answer 404 "unknown agent_id", (cache, []))
  admitted agent_id path request (some e) cache =
      proxy_agent agent_id path request e.transport cache

  -- The request of the bearer of a token, if it has one.
  unfoldable pub serve_bearer :
      (agent_id path : String)
      → Request
      → PassthroughState
      → (token : Option String) → Response × (PassthroughState × List Sent)
  unfolding answer admitted check_token lookup_agent
  serve_bearer agent_id path request s none = (answer 401 "missing token", (s, []))
  serve_bearer agent_id path request s (some token) =
      let served =
        admitted agent_id path request (lookup_agent agent_id s.registry) s.dialect_cache in
      if check_token token s.registry
      then (served.0, (record s { dialect_cache = served.1.0 }, served.1.1))
      else (answer 401 "invalid token", (s, []))

  -- The response, the state behind it, and what was sent on the way.
  unfoldable pub proxy_handler :
      (agent_id path : String)
      → Request
      → PassthroughState
      → Response × (PassthroughState × List Sent)
  unfolding bearer_of serve_bearer
  proxy_handler agent_id path request s = serve_bearer agent_id path request s (bearer_of request)
