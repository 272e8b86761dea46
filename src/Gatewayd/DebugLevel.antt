-- ===== src/Gatewayd/DebugLevel.antt =====
-- gatewayd/src/main.rs, `/debug/level`: the level of the log, changed while the gateway runs.
pub mod Rollback
use acp_a2a_gateway.Prelude.{
  ℕ, ◌+◌, ◌*◌, String, Bool, ◌||◌, Option, List, [], ◌∷◌, ◌++◌, ◌==◌, ◌=ˢ◌, leb, ltb, if◌then◌else◌,
  get_or, and_then, map_option, contains, keep,
}
use acp_a2a_gateway.Protocol.Json.{Value, get, as_str}
use acp_a2a_gateway.Gatewayd.Requests.{extract_bearer}

-- The router's state, the filter that the handle changes, and the times at which the tasks that
-- were spawned wake up, in seconds.
pub record DebugLevelState : Type 0 where
  pub tokens : List String
  pub ttl_minutes : ℕ
  pub current : String
  pub filter : String
  pub rollbacks : List ℕ

-- `level` is the one of the configuration.
unfoldable pub debug_router :
    (tokens : List String) → (ttl_minutes : ℕ) → (level : String) → DebugLevelState
debug_router tokens ttl_minutes level = record {
  tokens = tokens;
  ttl_minutes = ttl_minutes;
  current = "info";
  filter = level;
  rollbacks = [];
}

unfoldable pub get_debug_level : DebugLevelState → String
get_debug_level s = s.current

pub data LevelResponse : Type 0 where
  unauthorized reload_failed : LevelResponse
  invalid_level : (level : String) → LevelResponse
  changed : (level previous : String) → LevelResponse

unfoldable pub status : LevelResponse → ℕ
status unauthorized = 401
status (invalid_level level) = 400
status reload_failed = 500
status (changed level previous) = 200

abbrev pub valid_levels : List String
valid_levels = "error" ∷ "warn" ∷ "info" ∷ "debug" ∷ "trace" ∷ []

-- A level that is taken back after a time.
unfoldable pub is_raised : String → Bool
is_raised level = level =ˢ "debug" || level =ˢ "trace"

unfoldable pub schedule : (now : ℕ) → (level : String) → DebugLevelState → DebugLevelState
unfolding is_raised
schedule now level s =
    if is_raised level
    then (if s.ttl_minutes == 0
        then s
        else record s { rollbacks = s.rollbacks ++ ((now + s.ttl_minutes * 60) ∷ []) })
    else s

-- Whether the handle can change the filter.
module _ (modifies : Bool) where
  unfoldable pub apply_level :
      (now : ℕ) → (level : String) → DebugLevelState → LevelResponse × DebugLevelState
  unfolding schedule
  apply_level now level s =
      if modifies
      then (
        changed level s.current,
        schedule now level (record s { current = level; filter = level }),
      )
      else (reload_failed, s)

  unfoldable pub change_level :
      (now : ℕ) → (level : String) → DebugLevelState → LevelResponse × DebugLevelState
  unfolding apply_level
  change_level now level s =
      if contains level valid_levels then apply_level now level s else (invalid_level level, s)

  -- A rollback that is due.
  unfoldable pub roll_back : DebugLevelState → DebugLevelState
  roll_back s = if modifies then record s { current = "info"; filter = "info" } else s

  unfoldable pub roll_back_all : List ℕ → DebugLevelState → DebugLevelState
  unfolding roll_back
  roll_back_all [] s = s
  roll_back_all (due ∷ more) s = roll_back_all more (roll_back s)

  -- The tasks that wake up until `now`.
  unfoldable pub wake : (now : ℕ) → DebugLevelState → DebugLevelState
  unfolding roll_back_all
  wake now s =
      roll_back_all (keep (λ due. leb due now) s.rollbacks)
        (record s { rollbacks = keep (λ due. ltb now due) s.rollbacks })

  -- serde's reading and the standard library's lower case
  module _ (from_str : String → Option Value) (to_lowercase : String → String) where
    unfoldable pub level_of : (body : String) → String
    level_of body =
        get_or
          (map_option to_lowercase (and_then (and_then (from_str body) λ v. get v "level") as_str))
          ""

    unfoldable pub set_debug_level :
        (now : ℕ) (authorization : Option String) (body : String)
        → DebugLevelState
        → LevelResponse × DebugLevelState
    unfolding extract_bearer level_of change_level
    set_debug_level now authorization body s =
        if contains (get_or (extract_bearer authorization) "") s.tokens
        then change_level now (level_of body) s
        else (unauthorized, s)
