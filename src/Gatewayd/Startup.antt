-- ===== src/Gatewayd/Startup.antt =====
-- gatewayd/src/main.rs: from the configuration to the registry of the agents that are served. A
-- HashMap is gone through in the order of the model's entries.
pub mod Serving
pub mod Approved
pub mod Admitted
pub mod Tokens
use Prim.Native.Char.{code}
use Prim.Native.String
use acp_a2a_gateway.Prelude.{
  ◌>>=◌, String, Bool, true, false, ◌&&◌, ◌||◌, Option, none, some, List, [], ◌∷◌, ◌==◌, leb,
  length, ◌=ˢ◌, if◌then◌else◌, get_or, and_then, map_option, Dict, insert, contains, Result, ok,
  err, ok_or, empty_token, unset_variable, no_streams, no_command,
}
use acp_a2a_gateway.Core.Utf8.{is_whitespace}
use acp_a2a_gateway.Gatewayd.Requests.{strip_prefix}
use acp_a2a_gateway.Gatewayd.Registry.{Transport, AgentEntry, Registry, new_entry}
use acp_a2a_gateway.Gatewayd.Registry
use acp_a2a_gateway.Gatewayd.Approvals.{Status, approved, rejected, pending, Row, register}
use acp_a2a_gateway.Gatewayd.Config.Raw.{RawAgentEntry, stdio, http, StreamingConfig, RawConfig}

-- s.trim().is_empty()
unfoldable pub is_blank : String → Bool
unfolding is_whitespace
is_blank String.[] = true
is_blank (String.◌∷◌ c s) = is_whitespace (code c) && is_blank s

-- s.strip_suffix('}')
unfoldable pub strip_brace : String → Option String
strip_brace String.[] = none
strip_brace (String.◌∷◌ c s) =
    if s =ˢ ""
    then (if code c == b'}' then some "" else none)
    else map_option (λ t. String.◌∷◌ c t) (strip_brace s)

-- The name of the variable in a placeholder.
unfoldable pub placeholder : String → Option String
unfolding strip_prefix strip_brace
placeholder value = and_then (strip_prefix "{env:" value) strip_brace

unfoldable pub agent_streaming : RawAgentEntry → StreamingConfig
agent_streaming (stdio command cwd env streaming) = streaming
agent_streaming (http url push_token streaming) = streaming

unfoldable pub join_words : List String → String
join_words [] = ""
join_words (w ∷ []) = w
join_words (w ∷ v ∷ ws) = String.◌++◌ w (String.◌++◌ " " (join_words (v ∷ ws)))

unfoldable pub agent_fingerprint : RawAgentEntry → String
unfolding join_words
agent_fingerprint (stdio command cwd env streaming) =
    String.◌++◌ "stdio:" (String.◌++◌ (join_words command) (String.◌++◌ ":" (get_or cwd "")))
agent_fingerprint (http url push_token streaming) = String.◌++◌ "http:" url

-- `var` reads a variable of the environment.
module _ (var : String → Option String) where
  unfoldable pub resolved : String → Option String → Result String
  resolved value none = ok value
  resolved value (some name) = ok_or (var name) (unset_variable name)

  unfoldable pub resolve_env_placeholders : String → Result String
  unfolding placeholder resolved
  resolve_env_placeholders value = resolved value (placeholder value)

  unfoldable pub add_token : Result String → Result (List String) → Result (List String)
  add_token token others = do t ← token; ts ← others; ok (t ∷ ts)

  unfoldable pub resolve_all : List String → Result (List String)
  unfolding resolve_env_placeholders add_token
  resolve_all [] = ok []
  resolve_all (t ∷ ts) = add_token (resolve_env_placeholders t) (resolve_all ts)

  resolve_env : Dict String → Result (Dict String)
  unfolding resolve_env_placeholders
  resolve_env [] = ok []
  resolve_env ((k, v) ∷ env) = do
    value ← resolve_env_placeholders v
    rest ← resolve_env env
    ok (insert k value rest)

  resolve_push_token : Option String → Result (Option String)
  unfolding resolve_env_placeholders
  resolve_push_token none = ok none
  resolve_push_token (some t) = do token ← resolve_env_placeholders t; ok (some token)

  unfoldable pub agent_transport : (id : String) → RawAgentEntry → Result Transport
  unfolding resolve_env resolve_push_token
  agent_transport id (stdio [] cwd env streaming) = err (no_command id)
  agent_transport id (stdio (word ∷ command) cwd env streaming) = do
    given ← resolve_env env
    ok (Registry.stdio (word ∷ command) cwd given)
  agent_transport id (http url push_token streaming) = do
    token ← resolve_push_token push_token
    ok (Registry.http url token)

  -- A timeout is in seconds.
  unfoldable pub entry_of :
      (id : String) → StreamingConfig → (is_zero : Bool) → Result Transport → Result AgentEntry
  unfolding new_entry
  entry_of id streaming true transport = err (no_streams id)
  entry_of id streaming false transport = do
    t ← transport
    ok (
        new_entry t streaming.max_concurrent_streams streaming.first_chunk_timeout_secs
          streaming.idle_chunk_timeout_secs)

  unfoldable pub agent_entry : (id : String) → RawAgentEntry → Result AgentEntry
  unfolding agent_streaming agent_transport entry_of
  agent_entry id entry =
      entry_of id (agent_streaming entry) ((agent_streaming entry).max_concurrent_streams == 0)
        (agent_transport id entry)

  -- One agent, let in or not, in front of the others.
  unfoldable pub add_agent :
      (id : String)
      → (is_allowed : Bool) → Result AgentEntry
      → Result (Dict AgentEntry × List String)
      → Result (Dict AgentEntry × List String)
  add_agent id true entry others = do e ← entry; rest ← others; ok (insert id e rest.0, rest.1)
  add_agent id false entry others = do rest ← others; ok (rest.0, id ∷ rest.1)

  -- The agents that are let in, and the names of the others.
  unfoldable pub build_agents :
      (allowed : List String) → Dict RawAgentEntry → Result (Dict AgentEntry × List String)
  unfolding agent_entry add_agent
  build_agents allowed [] = ok ([], [])
  build_agents allowed ((id, entry) ∷ more) =
      add_agent id (contains id allowed) (agent_entry id entry) (build_agents allowed more)

  unfoldable pub has_blank : List String → Bool
  unfolding is_blank
  has_blank [] = false
  has_blank (t ∷ ts) = is_blank t || has_blank ts

  unfoldable pub registry_of :
      (is_refused : Bool)
      → Result (List String)
      → Result (Dict AgentEntry × List String)
      → Result (Registry × List String)
  registry_of true tokens agents = err empty_token
  registry_of false tokens agents = do
    accepted ← tokens
    built ← agents
    ok (record { tokens = accepted; agents = built.0 }, built.1)

  unfoldable pub build_registry :
      RawConfig → (allowed : List String) → Result (Registry × List String)
  unfolding has_blank resolve_all build_agents registry_of
  build_registry raw allowed =
      registry_of (leb (length raw.tokens) 0 || has_blank raw.tokens) (resolve_all raw.tokens)
        (build_agents allowed raw.agents)

-- What the gate of approvals makes of the configured agents.
pub record Admission : Type 0 where
  pub allowed : List String
  pub pending : List String
  pub table : Dict Row

unfoldable pub note_status : (id : String) → Status → Admission → Admission
note_status id approved a = record a { allowed = id ∷ a.allowed }
note_status id pending a = record a { pending = id ∷ a.pending }
note_status id rejected a = a

unfoldable pub register_agent : (now id : String) → RawAgentEntry → Admission → Admission
unfolding agent_fingerprint register note_status
register_agent now id entry a =
    let done = register now id (agent_fingerprint entry) a.table in
    note_status id done.0 (record a { table = done.1 })

unfoldable pub admit_agents : (now : String) → Dict RawAgentEntry → Admission → Admission
unfolding register_agent
admit_agents now [] a = a
admit_agents now ((id, entry) ∷ more) a = admit_agents now more (register_agent now id entry a)

unfoldable pub keys : Dict RawAgentEntry → List String
keys [] = []
keys ((id, entry) ∷ more) = id ∷ keys more

-- The agents that may be served: those that an operator approved, or all.
unfoldable pub admission : (now : String) → RawConfig → Dict Row → Admission
unfolding admit_agents keys
admission now raw table =
    if raw.approvals.enabled
    then admit_agents now raw.agents (record { allowed = []; pending = []; table = table })
    else record { allowed = keys raw.agents; pending = []; table = table }

-- What `main` serves, the agents that it leaves out, and the table of approvals behind it.
unfoldable pub start :
    (var : String → Option String) (now : String)
    → RawConfig
    → Dict Row
    → Result (Registry × List String) × Dict Row
unfolding admission build_registry
start var now raw table =
    let a = admission now raw table in (build_registry var raw a.allowed, a.table)
