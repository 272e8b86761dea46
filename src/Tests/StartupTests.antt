-- ===== src/Tests/StartupTests.antt =====
-- The start of the gateway, its commands, its log and the proxy.
use acp_a2a_gateway.Prelude.{
  ◌+◌, ◌*◌, ◌/◌, ◌<◌, String, ◌≡◌, refl, ◌⊎◌, true, Option, none, some, List, [], ◌∷◌, arith, keep,
  All, map_option, ok, err, external, lookup, insert,
}
use Prim.Native.String.{◌++◌}
use acp_a2a_gateway.Protocol.Json.{null}
use acp_a2a_gateway.Core.HttpAgent.{trim_slashes}
use acp_a2a_gateway.Gatewayd.Registry.{Registry, http, new_entry, lookup_agent, check_token}
use acp_a2a_gateway.Gatewayd.Approvals.{Row}
use acp_a2a_gateway.Gatewayd.Config.{
  default_event_log, default_task_store, default_journal, default_health,
}
use acp_a2a_gateway.Gatewayd.Config.Raw.{
  RawConfig, RawAgentEntry, default_logging, default_streaming,
}
use acp_a2a_gateway.Gatewayd.Config.Raw
use acp_a2a_gateway.Gatewayd.Startup.{agent_entry, start, build_registry}
use acp_a2a_gateway.Gatewayd.Startup.Approved.{IsApprovedIn, served_approved}
use acp_a2a_gateway.Gatewayd.Startup.Tokens.{empty_variable_opens}
use acp_a2a_gateway.Gatewayd.DebugLevel.{
  is_raised, DebugLevelState, debug_router, set_debug_level, change_level, level_of,
}
use acp_a2a_gateway.Gatewayd.DebugLevel.Rollback.{
  Step, set_to, woken, step, run, IsInfo, raised_level_ends,
}
use acp_a2a_gateway.Gatewayd.Cli.{
  unix_to_utc, civil_from_days, date_in_era, year_of_era, day_of_year, date_of, date_of_month,
  run_approvals, open_table,
}
use acp_a2a_gateway.Gatewayd.Cli.Dates.{days_after, unix_to_utc_calendar}
use acp_a2a_gateway.Gatewayd.Cli.Deciding.{approve-start}
use acp_a2a_gateway.Gatewayd.Logs.{LogFile, LogDir, Disk}
use acp_a2a_gateway.Gatewayd.Passthrough.{
  Client, Request, PassthroughState, split_path, is_kept, join_path, query_suffix, build_target_url,
  bearer_of, proxy_handler,
}
use acp_a2a_gateway.Gatewayd.Passthrough.Paths.{Clean, build_target_url_confined}
use acp_a2a_gateway.Gatewayd.Passthrough.Containment.{Contained, proxy_handler-Contained}

unix_to_utc_calendar_example :
    ((unix_to_utc 90_061).date
      ≡ days_after (90_061 / 86400) (record { year = 1970; month = 1; day = 1 }))
    × ((unix_to_utc 90_061).hour < 24)
    × ((unix_to_utc 90_061).minute < 60)
    × ((unix_to_utc 90_061).second < 60)
    × (90_061 / 86400 * 86400
          + (unix_to_utc 90_061).hour * 3600
          + (unix_to_utc 90_061).minute * 60
          + (unix_to_utc 90_061).second
        ≡ 90_061)
unix_to_utc_calendar_example = unix_to_utc_calendar 90_061

leap_day : civil_from_days 19_782 ≡ record { year = 2024; month = 2; day = 29 }
unfolding civil_from_days date_in_era year_of_era day_of_year date_of date_of_month
leap_day = refl

build_target_url_confined_example :
    (segments : List String) × (segments ≡ keep is_kept (split_path "x/../y"))
    × All Clean segments
    × (build_target_url "https://ops/a2a/" "x/../y" none
        ≡ trim_slashes "https://ops/a2a/" ++ ("/" ++ (join_path segments ++ query_suffix none)))
    × ((segments ≡ []) ⊎ (split_path (join_path segments) ≡ segments))
build_target_url_confined_example = build_target_url_confined "https://ops/a2a/" "x/../y" none

abbrev proxy : Client
proxy = record {
  post = λ p. ok null;
  send = λ u. err (external "refused");
  probe_task_id = "1";
  to_str = λ v. some "Bearer t";
  to_lowercase = λ s. s;
  from_slice = λ bytes. none;
  print = λ e. "refused";
}

abbrev asked : Request
asked = record {
  method = "POST";
  query = none;
  authorization = some (1 ∷ []);
  content_type = none;
  accept = none;
  body = ok [];
}

abbrev served_by : PassthroughState
served_by = record {
  registry = record {
    tokens = "t" ∷ [];
    agents = ("a", new_entry (http "https://ops" (some "k")) 1 1 1) ∷ [];
  };
  dialect_cache = [];
}

proxy_handler-Contained_example :
    Contained proxy "a" "rpc" asked served_by
      (bearer_of proxy asked)
      (proxy_handler proxy "a" "rpc" asked served_by).1
proxy_handler-Contained_example = proxy_handler-Contained proxy "a" "rpc" asked served_by

abbrev tool : RawAgentEntry
tool = Raw.http "https://ops" none default_streaming

abbrev raw : RawConfig
raw = record {
  listen = "";
  http_listen = "";
  tokens = "{env:T}" ∷ [];
  agents = ("a", tool) ∷ [];
  task_store_dir = "";
  turn_lease_timeout_secs = 30;
  agent_call_timeout_secs = 120;
  public_url = "";
  task_retention_days = 7;
  logging = default_logging;
  event_log = default_event_log;
  task_store = default_task_store;
  journal = default_journal;
  health = default_health;
  approvals = record { enabled = true; storage_path = "db" };
}

-- The variable is set, but empty.
abbrev var : String → Option String
var name = some ""

abbrev row : Row
row = record {
  fingerprint = "http:https://ops";
  status = "approved";
  decided_at = none;
  last_seen_at = "1";
}

abbrev built : Registry × List String
built = (
  record { tokens = "" ∷ []; agents = ("a", new_entry (http "https://ops" none) 1 15 120) ∷ [] },
  [],
)

served_approved_example : IsApprovedIn "a" raw.agents (("a", row) ∷ [])
unfolding lookup start insert lookup_agent
served_approved_example =
    served_approved var "2" raw (("a", row) ∷ []) built "a"
      (new_entry (http "https://ops" none) 1 15 120) refl (refl, tt) refl refl

abbrev seen_before : Row
seen_before = record {
  fingerprint = "http:https://ops";
  status = "pending";
  decided_at = none;
  last_seen_at = "1";
}

approve-start_example :
    map_option (λ e. ok e) (lookup_agent "a" built.0) ≡ some (agent_entry var "a" tool)
unfolding lookup start insert lookup_agent open_table run_approvals
approve-start_example =
    approve-start var "2" "3" "a" raw tool (("db", ("a", seen_before) ∷ []) ∷ []) built refl refl
      refl refl refl

abbrev level_state : DebugLevelState
level_state = debug_router ("" ∷ []) 60 "info"

empty_variable_opens_example :
    (check_token "" built.0 ≡ true)
    × (set_debug_level true (λ s. none) (λ s. s) 1 none "" level_state
        ≡ change_level true 1 (level_of true (λ s. none) (λ s. s) "") level_state)
unfolding insert build_registry debug_router
empty_variable_opens_example =
    empty_variable_opens var raw ("a" ∷ []) built "{env:T}" "T" true (λ s. none) (λ s. s) 1 ""
      level_state refl refl refl refl refl

abbrev disk : Disk
disk = record { compressed = λ name. some 700_000; removes = λ name. true }

abbrev logs : LogDir
logs =
    record { name = "gateway.2024-05-02"; mtime = 2; size = 900_000 }
    ∷ record { name = "gateway.2024-05-01"; mtime = 1; size = 900_000 }
    ∷ []

abbrev newest : LogFile
newest = record { name = "gateway.2024-05-02"; mtime = 2; size = 900_000 }

-- `debug` at 0, for an hour; `trace` at 600, `warn` at 2000, and a look at the tasks at 3000.
abbrev changes : List Step
changes = set_to 600 "trace" ∷ set_to 2000 "warn" ∷ woken 3000 ∷ []

raised_level_ends_example :
    IsInfo (step (woken 3600) (run changes (step (set_to 0 "debug") level_state)))
unfolding debug_router is_raised
raised_level_ends_example =
    raised_level_ends 0 "debug" changes level_state refl refl (omega arith) (omega arith, tt)
