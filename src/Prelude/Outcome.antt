-- ===== src/Prelude/Outcome.antt =====
-- `anyhow::Result`: a value or one of the errors that the gateway's own code raises or passes on.
use Prim.Native.Nat.{ℕ}
use Prim.Native.String.{String}
use mathlib.Core.Path.{◌≡◌, refl, ap}
use mathlib.Core.Option.{Option, none, some}
use mathlib.Core.Logic.{◌⊎◌, inl, inr}

pub data Error : Type 0 where
  -- core/src/convert.rs and core/src/supervisor.rs
  foreign_context foreign_task session_cap missing_message unfinished_task : Error
  no_session unknown_session : String → Error
  context_lost : ℕ → ℕ → Error
  respawn_backoff : ℕ → Error
  -- core/src/lease.rs
  lease_timeout : String → Error
  -- core/src/task_store.rs
  task_not_found task_corrupted : String → Error
  -- gatewayd/src: parameters of a request, the dispatcher and the event log
  bad_params : String → Error
  method_not_found : String → Error
  event_log_disabled : Error
  stream_capacity_exhausted : String → ℕ → ℕ → Error
  -- core/src/http_agent.rs: the method of a request that failed or whose answer is not JSON-RPC, and
  -- an agent's own error with its method, its printed code and its message
  request_failed unreadable_response : String → Error
  remote_error : String → String → String → Error
  no_status_message card_unavailable unreadable_card : Error
  -- core/src/stdio_agent.rs: the same for an agent behind a pipe
  write_failed no_response dead_process empty_stream : Error
  unreadable_result : String → Error
  agent_error : String → String → Error
  -- gatewayd/src/transport_tcp.rs; a limit, an agent's id or a method
  line_too_long : ℕ → Error
  invalid_utf8 invalid_handshake handshake_timeout no_session_id : Error
  token_rejected unknown_agent : String → Error
  -- gatewayd/src/dialect_probe.rs
  unrecognized_dialect : Error
  -- gatewayd/src/main.rs and cli.rs: a variable, an agent's id, a flag or a period
  unset_variable no_streams no_command : String → Error
  empty_token unreadable_config : Error
  bad_value unknown_argument bad_period missing_database : String → Error
  -- raised by code outside the gateway: the agent, the file system, SQLite, serde
  external : String → Error
  -- protocol/src/a2a_sdk_compat.rs: `SdkCompatError`
  unknown_role unknown_part : Error

pub data Result {ℓ} (T : Type ℓ) : Type ℓ where
  err : Error → Result T
  ok : T → Result T

-- Rust's `o.ok_or_else(|| e)`.
abbrev pub ok_or {ℓ} : {T : Type ℓ} → Option T → Error → Result T
ok_or (some t) e = ok t
ok_or none e = err e

-- Rust's `?`, and with it the do blocks.
infixl 5 ◌>>=◌
abbrev pub ◌>>=◌ {ℓ κ} : {T : Type ℓ} {U : Type κ} → Result T → (T → Result U) → Result U
(err e) >>= next = err e
(ok t) >>= next = next t

pub Result-cases {ℓ} :
    {T : Type ℓ} (result : Result T)
    → ((value : T) × (result ≡ ok value)) ⊎ ((failed : Error) × (result ≡ err failed))
Result-cases (err failed) = inr (failed, refl)
Result-cases (ok value) = inl (value, refl)

-- The value of a result, or another one.
abbrev ok_value {ℓ} : {T : Type ℓ} → T → Result T → T
ok_value other (ok value) = value
ok_value other (err failed) = other

pub ok_injective {ℓ} : {T : Type ℓ} {a b : T} → Result.ok a ≡ ok b → a ≡ b
ok_injective {a} h = ap (ok_value a) h
