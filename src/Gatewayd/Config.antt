-- ===== src/Gatewayd/Config.antt =====
-- gatewayd/src/config.rs and the types of gatewayd/src/main.rs that hold config.yaml, with what
-- serde reads where a field or a section is left out. A mapping is its fields.
pub mod Raw
use acp_a2a_gateway.Prelude.{
  ◌>>=◌, ℕ, String, Bool, false, Option, none, some, map_option, Result, ok, err, ok_or,
  unreadable_config,
}
use acp_a2a_gateway.Protocol.Json.{Value, Fields, null, obj, field?, as_str, as_bool, as_u64}

pub record EventLogConfig : Type 0 where
  pub enabled : Bool
  pub storage_backend : String
  pub storage_path : String
  pub max_size_mb : ℕ

pub record TaskStoreConfig : Type 0 where
  pub enabled : Bool
  pub storage_backend : String
  pub storage_path : String
  pub max_size_mb : ℕ

pub record JournalConfig : Type 0 where
  pub enabled : Bool
  pub storage_backend : String
  pub storage_path : String
  pub max_size_mb : ℕ
  pub retention_days : ℕ

pub record HealthConfig : Type 0 where
  pub enabled : Bool
  pub check_interval_secs : ℕ
  pub db_size_warn_pct : ℕ

pub record ApprovalsConfig : Type 0 where
  pub enabled : Bool
  pub storage_path : String

abbrev default_sqlite : String
default_sqlite = "sqlite"

abbrev default_event_log_path : String
default_event_log_path = "/tmp/gateway/event_log.db"

abbrev default_task_store_path : String
default_task_store_path = "/tmp/gateway/task_store.db"

abbrev default_journal_path : String
default_journal_path = "/tmp/gateway/journal.db"

abbrev default_approvals_path : String
default_approvals_path = "/tmp/gateway/approvals.db"

abbrev default_journal_retention_days : ℕ
default_journal_retention_days = 30

abbrev default_health_interval_secs : ℕ
default_health_interval_secs = 300

abbrev default_health_db_warn_pct : ℕ
default_health_db_warn_pct = 80

abbrev default_max_size_mb : ℕ
default_max_size_mb = 100

abbrev pub default_event_log : EventLogConfig
default_event_log = record {
  enabled = false;
  storage_backend = default_sqlite;
  storage_path = default_event_log_path;
  max_size_mb = default_max_size_mb;
}

abbrev pub default_task_store : TaskStoreConfig
default_task_store = record {
  enabled = false;
  storage_backend = default_sqlite;
  storage_path = default_task_store_path;
  max_size_mb = default_max_size_mb;
}

abbrev pub default_journal : JournalConfig
default_journal = record {
  enabled = false;
  storage_backend = default_sqlite;
  storage_path = default_journal_path;
  max_size_mb = default_max_size_mb;
  retention_days = default_journal_retention_days;
}

abbrev pub default_health : HealthConfig
default_health = record {
  enabled = false;
  check_interval_secs = default_health_interval_secs;
  db_size_warn_pct = default_health_db_warn_pct;
}

abbrev pub default_approvals : ApprovalsConfig
default_approvals = record { enabled = false; storage_path = default_approvals_path }

-- A field that must be there, one with a default, and one that may be left out or be null.
abbrev pub required {ℓ} : {A : Type ℓ} → (Value → Option A) → String → Fields → Result A
required read name fs = elim (field? name fs) [
  | none ↦ err unreadable_config
  | some v ↦ ok_or (read v) unreadable_config
]

abbrev pub with_default {ℓ} : {A : Type ℓ} → (Value → Option A) → A → String → Fields → Result A
with_default read default name fs = elim (field? name fs) [
  | none ↦ ok default
  | some v ↦ ok_or (read v) unreadable_config
]

abbrev pub optional {ℓ} : {A : Type ℓ} → (Value → Option A) → String → Fields → Result (Option A)
optional read name fs = elim (field? name fs) [
  | none ↦ ok none
  | some null ↦ ok none
  | some v ↦ ok_or (map_option (λ a. some a) (read v)) unreadable_config
]

-- A section of its own, with what stands for it if it is left out.
abbrev pub section {ℓ} : {A : Type ℓ} → (Fields → Result A) → A → String → Fields → Result A
section read default name fs = elim (field? name fs) [
  | none ↦ ok default
  | some (obj inner) ↦ read inner
  | some _ ↦ err unreadable_config
]

unfoldable pub de_event_log : Fields → Result EventLogConfig
de_event_log fs = do
  enabled ← with_default as_bool false "enabled" fs
  backend ← with_default as_str default_sqlite "storage_backend" fs
  path ← with_default as_str default_event_log_path "storage_path" fs
  max ← with_default as_u64 default_max_size_mb "max_size_mb" fs
  ok (record {
    enabled = enabled;
    storage_backend = backend;
    storage_path = path;
    max_size_mb = max;
  })

unfoldable pub de_task_store : Fields → Result TaskStoreConfig
de_task_store fs = do
  enabled ← with_default as_bool false "enabled" fs
  backend ← with_default as_str default_sqlite "storage_backend" fs
  path ← with_default as_str default_task_store_path "storage_path" fs
  max ← with_default as_u64 default_max_size_mb "max_size_mb" fs
  ok (record {
    enabled = enabled;
    storage_backend = backend;
    storage_path = path;
    max_size_mb = max;
  })

unfoldable pub de_journal : Fields → Result JournalConfig
de_journal fs = do
  enabled ← with_default as_bool false "enabled" fs
  backend ← with_default as_str default_sqlite "storage_backend" fs
  path ← with_default as_str default_journal_path "storage_path" fs
  max ← with_default as_u64 default_max_size_mb "max_size_mb" fs
  days ← with_default as_u64 default_journal_retention_days "retention_days" fs
  ok (record {
    enabled = enabled;
    storage_backend = backend;
    storage_path = path;
    max_size_mb = max;
    retention_days = days;
  })

unfoldable pub de_health : Fields → Result HealthConfig
de_health fs = do
  enabled ← with_default as_bool false "enabled" fs
  interval ← with_default as_u64 default_health_interval_secs "check_interval_secs" fs
  warn ← with_default as_u64 default_health_db_warn_pct "db_size_warn_pct" fs
  ok (record { enabled = enabled; check_interval_secs = interval; db_size_warn_pct = warn })

unfoldable pub de_approvals : Fields → Result ApprovalsConfig
de_approvals fs = do
  enabled ← with_default as_bool false "enabled" fs
  path ← with_default as_str default_approvals_path "storage_path" fs
  ok (record { enabled = enabled; storage_path = path })
