-- ===== src/Gatewayd/Config/Raw.antt =====
-- gatewayd/src/main.rs: the whole of config.yaml, its agents and its logging.
use acp_a2a_gateway.Prelude.{
  ◌>>=◌, ℕ, String, Bool, true, Option, none, some, List, [], ◌∷◌, ◌=ˢ◌, if◌then◌else◌, Dict,
  insert, Result, ok, err, ok_or, unreadable_config,
}
use acp_a2a_gateway.Protocol.Json.{
  Value, Fields, obj, end, field, as_str, as_bool, as_u64, as_array,
}
use acp_a2a_gateway.Gatewayd.Config.{
  EventLogConfig, TaskStoreConfig, JournalConfig, HealthConfig, ApprovalsConfig, default_event_log,
  default_task_store, default_journal, default_health, default_approvals, required, with_default,
  optional, section, de_event_log, de_task_store, de_journal, de_health, de_approvals,
}

pub record LogFileConfig : Type 0 where
  pub path : String
  pub max_file_size_mb : ℕ
  pub max_files : ℕ
  pub max_total_size_mb : ℕ
  pub compress_rotated : Bool

pub record LoggingConfig : Type 0 where
  pub level : String
  pub output : String
  pub debug_ttl_minutes : ℕ
  pub file : LogFileConfig

pub record StreamingConfig : Type 0 where
  pub max_concurrent_streams : ℕ
  pub first_chunk_timeout_secs : ℕ
  pub idle_chunk_timeout_secs : ℕ

pub data RawAgentEntry : Type 0 where
  stdio :
      (command : List String) (cwd : Option String) (env : Dict String)
      (streaming : StreamingConfig)
      → RawAgentEntry
  http : (url : String) (push_token : Option String) (streaming : StreamingConfig) → RawAgentEntry

pub record RawConfig : Type 0 where
  pub listen : String
  pub http_listen : String
  pub tokens : List String
  pub agents : Dict RawAgentEntry
  pub task_store_dir : String
  pub turn_lease_timeout_secs : ℕ
  pub agent_call_timeout_secs : ℕ
  pub public_url : String
  pub task_retention_days : ℕ
  pub logging : LoggingConfig
  pub event_log : EventLogConfig
  pub task_store : TaskStoreConfig
  pub journal : JournalConfig
  pub health : HealthConfig
  pub approvals : ApprovalsConfig

abbrev default_log_level : String
default_log_level = "info"

abbrev default_log_output : String
default_log_output = "stdout"

abbrev default_debug_ttl_minutes : ℕ
default_debug_ttl_minutes = 60

abbrev default_compress_rotated : Bool
default_compress_rotated = true

abbrev default_log_path : String
default_log_path = "/var/log/acp-a2a-gateway/gateway.log"

abbrev default_max_file_size_mb : ℕ
default_max_file_size_mb = 100

abbrev default_max_files : ℕ
default_max_files = 10

abbrev default_max_total_size_mb : ℕ
default_max_total_size_mb = 1000

abbrev default_agent_call_timeout_secs : ℕ
default_agent_call_timeout_secs = 120

abbrev default_public_url : String
default_public_url = "http://localhost:8348"

abbrev default_task_retention_days : ℕ
default_task_retention_days = 7

abbrev default_http_listen : String
default_http_listen = "0.0.0.0:8348"

abbrev default_max_concurrent_streams : ℕ
default_max_concurrent_streams = 1

abbrev default_first_chunk_timeout_secs : ℕ
default_first_chunk_timeout_secs = 15

abbrev default_idle_chunk_timeout_secs : ℕ
default_idle_chunk_timeout_secs = 120

abbrev pub default_log_file : LogFileConfig
default_log_file = record {
  path = default_log_path;
  max_file_size_mb = default_max_file_size_mb;
  max_files = default_max_files;
  max_total_size_mb = default_max_total_size_mb;
  compress_rotated = default_compress_rotated;
}

abbrev pub default_logging : LoggingConfig
default_logging = record {
  level = default_log_level;
  output = default_log_output;
  debug_ttl_minutes = default_debug_ttl_minutes;
  file = default_log_file;
}

abbrev pub default_streaming : StreamingConfig
default_streaming = record {
  max_concurrent_streams = default_max_concurrent_streams;
  first_chunk_timeout_secs = default_first_chunk_timeout_secs;
  idle_chunk_timeout_secs = default_idle_chunk_timeout_secs;
}

unfoldable pub de_log_file : Fields → Result LogFileConfig
de_log_file fs = do
  path ← with_default as_str default_log_path "path" fs
  max_size ← with_default as_u64 default_max_file_size_mb "max_file_size_mb" fs
  max_files ← with_default as_u64 default_max_files "max_files" fs
  max_total ← with_default as_u64 default_max_total_size_mb "max_total_size_mb" fs
  compress ← with_default as_bool default_compress_rotated "compress_rotated" fs
  ok (record {
    path = path;
    max_file_size_mb = max_size;
    max_files = max_files;
    max_total_size_mb = max_total;
    compress_rotated = compress;
  })

unfoldable pub de_logging : Fields → Result LoggingConfig
unfolding de_log_file
de_logging fs = do
  level ← with_default as_str default_log_level "level" fs
  output ← with_default as_str default_log_output "output" fs
  ttl ← with_default as_u64 default_debug_ttl_minutes "debug_ttl_minutes" fs
  file ← section de_log_file default_log_file "file" fs
  ok (record { level = level; output = output; debug_ttl_minutes = ttl; file = file })

unfoldable pub de_streaming : Fields → Result StreamingConfig
de_streaming fs = do
  streams ← with_default as_u64 default_max_concurrent_streams "max_concurrent_streams" fs
  first ← with_default as_u64 default_first_chunk_timeout_secs "first_chunk_timeout_secs" fs
  idle ← with_default as_u64 default_idle_chunk_timeout_secs "idle_chunk_timeout_secs" fs
  ok (record {
    max_concurrent_streams = streams;
    first_chunk_timeout_secs = first;
    idle_chunk_timeout_secs = idle;
  })

-- All of the texts of a sequence, if it has nothing else.
strings : List Value → Option (List String)
strings [] = some []
strings (v ∷ vs) = elim (as_str v) [
  | none ↦ none
  | some s ↦ elim (strings vs) [ none ↦ none | some ss ↦ some (s ∷ ss) ]
]

unfoldable pub as_strings : Value → Option (List String)
unfolding strings
as_strings v = elim (as_array v) [ none ↦ none | some vs ↦ strings vs ]

-- A mapping of texts; of two entries with one key the later one stays.
read_env : Dict String → Fields → Result (Dict String)
read_env env end = ok env
read_env env (field k v fs) = do
  s ← ok_or (as_str v) unreadable_config
  read_env (insert k s env) fs

unfoldable pub de_env : Fields → Result (Dict String)
unfolding read_env
de_env fs = read_env [] fs

de_stdio : Fields → Result RawAgentEntry
unfolding as_strings de_env de_streaming
de_stdio fs = do
  command ← required as_strings "command" fs
  cwd ← optional as_str "cwd" fs
  env ← section de_env [] "env" fs
  streaming ← section de_streaming default_streaming "streaming" fs
  ok (stdio command cwd env streaming)

de_http : Fields → Result RawAgentEntry
unfolding de_streaming
de_http fs = do
  url ← required as_str "url" fs
  push_token ← optional as_str "push_token" fs
  streaming ← section de_streaming default_streaming "streaming" fs
  ok (http url push_token streaming)

unfoldable pub de_agent : Fields → Result RawAgentEntry
unfolding de_stdio de_http
de_agent fs = do
  transport ← required as_str "transport" fs
  if transport =ˢ "stdio"
      then de_stdio fs
      else (if transport =ˢ "http" then de_http fs else err unreadable_config)

read_agents : Dict RawAgentEntry → Fields → Result (Dict RawAgentEntry)
unfolding de_agent
read_agents agents end = ok agents
read_agents agents (field id (obj fs) more) = do
  entry ← de_agent fs
  read_agents (insert id entry agents) more
read_agents agents (field id _ more) = err unreadable_config

unfoldable pub de_agents : Fields → Result (Dict RawAgentEntry)
unfolding read_agents
de_agents fs = read_agents [] fs

as_mapping : Value → Option Fields
as_mapping (obj fs) = some fs
as_mapping _ = none

unfoldable pub de_raw_config : Fields → Result RawConfig
unfolding as_strings de_agents as_mapping de_logging de_event_log de_task_store de_journal de_health
    de_approvals
de_raw_config fs = do
  listen ← required as_str "listen" fs
  http_listen ← with_default as_str default_http_listen "http_listen" fs
  tokens ← required as_strings "tokens" fs
  mapping ← required as_mapping "agents" fs
  agents ← de_agents mapping
  dir ← required as_str "task_store_dir" fs
  lease ← required as_u64 "turn_lease_timeout_secs" fs
  call ← with_default as_u64 default_agent_call_timeout_secs "agent_call_timeout_secs" fs
  public_url ← with_default as_str default_public_url "public_url" fs
  retention ← with_default as_u64 default_task_retention_days "task_retention_days" fs
  logging ← section de_logging default_logging "logging" fs
  event_log ← section de_event_log default_event_log "event_log" fs
  task_store ← section de_task_store default_task_store "task_store" fs
  journal ← section de_journal default_journal "journal" fs
  health ← section de_health default_health "health" fs
  approvals ← section de_approvals default_approvals "approvals" fs
  ok (record {
    listen = listen;
    http_listen = http_listen;
    tokens = tokens;
    agents = agents;
    task_store_dir = dir;
    turn_lease_timeout_secs = lease;
    agent_call_timeout_secs = call;
    public_url = public_url;
    task_retention_days = retention;
    logging = logging;
    event_log = event_log;
    task_store = task_store;
    journal = journal;
    health = health;
    approvals = approvals;
  })
