-- ===== src/Tests/GatewayTests.antt =====
-- The HTTP transport.
use acp_a2a_gateway.Prelude.{
  arith, ℕ, String, ◌≡◌, refl, false, none, some, List, Option, [], ◌∷◌, ◌++◌, ok, err, lookup, map,
  Result, Error, external, foreign_task,
}
use acp_a2a_gateway.Protocol.Json.{obj, field, end, str, null}
use acp_a2a_gateway.Protocol.A2a.{Task, A2aEvent, task_status_update, working}
use acp_a2a_gateway.Core.TaskStore.{envelope, load_owned, path_for, sanitize_task_id}
use acp_a2a_gateway.Core.Conversations.{AcpAsA2a}
use acp_a2a_gateway.Gatewayd.EventLog.{
  EventRecord, Writer, sort_rows, do_append, do_events_after, do_last_seq,
}
use acp_a2a_gateway.Gatewayd.EventLog.Replay.{numbered}
use acp_a2a_gateway.Gatewayd.Registry.{AgentEntry}
use acp_a2a_gateway.Gatewayd.Relay.{Relay, relay}
use acp_a2a_gateway.Gatewayd.Relay.Delivery.{relay_replayed}
use acp_a2a_gateway.Gatewayd.Resubscribe.{
  Live, received, lagged, closed, resubscribe_stream, serve_live, event_frame, Frame,
  event_from_record,
}
use acp_a2a_gateway.Gatewayd.Resubscribe.Once.{IsRising, resubscribe_stream-IsRising}
use acp_a2a_gateway.Gatewayd.Requests.{JsonRpcRequest}
use acp_a2a_gateway.Gatewayd.Dispatch.{Wire, dispatch_a2a_method}
use acp_a2a_gateway.Gatewayd.Dispatch.Access.{dispatch_foreign, tasks_get}
use acp_a2a_gateway.Gatewayd.Detached.Ending.{IsEnded}
use acp_a2a_gateway.Gatewayd.Adapters.{Host, HttpState, Pending}
use acp_a2a_gateway.Gatewayd.Background.{run_pending}
use acp_a2a_gateway.Gatewayd.Background.Release.{run_pending_ends}
use acp_a2a_gateway.Tests.Fixtures.{entry, registry, env, alice, bob, task, answering, talking}

abbrev event : A2aEvent
event = task_status_update "t" (record { state = working; message = none; timestamp = none }) false

abbrev to_json : A2aEvent → Result String
to_json e = ok "{}"

abbrev from_json : String → Option A2aEvent
from_json s = some event

abbrev no_size : List EventRecord → Option ℕ
no_size rows = none

abbrev log : Writer
log = record {
  rows = record { task_id = "t"; seq = 4; event_json = "{}" } ∷ [];
  max_size_mb = 0;
  appends_since_check = 0;
}

abbrev shared : Relay
shared = record { event_log = some log; hub = []; known_task = none }

abbrev longer_log : Writer
longer_log = record {
  rows = numbered "t" 6 ("{}" ∷ []) ++ numbered "t" 5 ("{}" ∷ []) ++ log.rows;
  max_size_mb = 0;
  appends_since_check = 2;
}

relay_replayed_example :
    (map (λ i. i.seq) (relay to_json no_size ((none, event) ∷ (none, event) ∷ []) shared).0
      ≡ some 5 ∷ some 6 ∷ [])
    × (do_events_after "t" 4 10 longer_log ≡ numbered "t" 5 ("{}" ∷ "{}" ∷ []))
unfolding relay do_append do_last_seq
relay_replayed_example =
    relay_replayed to_json no_size "t" 10 ((event, "{}") ∷ (event, "{}") ∷ []) log longer_log shared
      ((refl, refl), ((refl, refl), tt)) refl refl (omega arith) refl

abbrev tail : Live
tail = received 4 event (received 6 event (lagged (some log) closed))

resubscribe_stream-IsRising_example :
    IsRising 3 (resubscribe_stream from_json "t" 3 log tail)
    × ((rest : List Frame) × (event_frame 4 event ∷ rest
          ≡ resubscribe_stream from_json "t" 3 log tail))
unfolding sort_rows event_from_record
resubscribe_stream-IsRising_example =
    resubscribe_stream-IsRising from_json "t" 3 log tail (omega arith) (tt, tt) (omega arith, tt)
      (omega arith, (omega arith, ((tt, tt), (omega arith, tt), tt)))

-- The client that asks from 3 on is served 4 from the log, and 6 from the hub: 5 is lost to it.
served :
    resubscribe_stream from_json "t" 3 log tail ≡ event_frame 4 event ∷ event_frame 6 event ∷ []
unfolding resubscribe_stream do_events_after serve_live
served = refl

abbrev wire : Wire
wire = record {
  message_from_value = λ v. err (external "serde");
  part_from_value = λ v. none;
  task_to_value = λ t. ok null;
  event_from_json = from_json;
  task_uuid = "1";
  context_uuid = "2";
}

abbrev asking : String → JsonRpcRequest
asking method = record { id = null; method = method; params = obj (field "id" (str "t") end) }

abbrev filed : AcpAsA2a
filed = record talking {
  tasks = record {
    tasks =
        (
          "t",
          record { content = envelope (some alice) (record task { id = "t" }); modified = none },
        )
        ∷ [];
    partial = [];
  };
}

dispatch_foreign_example :
    dispatch_a2a_method wire none closed env answering bob (asking "tasks/get") filed
    ≡ (err foreign_task, filed)
unfolding load_owned lookup path_for sanitize_task_id
dispatch_foreign_example =
    dispatch_foreign wire none closed env answering bob alice (record task { id = "t" }) "t"
      tasks_get (asking "tasks/get") filed refl refl refl (λ e. cc)

abbrev describe : Error → String
describe e = "error"

abbrev no_refusal : A2aEvent → Option Error
no_refusal e = none

abbrev host : Host
host = record {
  wire = wire;
  env = env;
  agent = answering;
  spawned = ok tt;
  on_disk = record { tasks = []; partial = [] };
  hmac = λ s. 7;
  live = closed;
  describe = describe;
  describe_adapter = λ e. "error";
}

abbrev state : HttpState
state = record {
  registry = registry;
  adapters = ("a", talking) ∷ [];
  event_log = some log;
  stream_hub = [];
  background = [];
}

-- The agent's only permit is out.
abbrev busy_entry : AgentEntry
busy_entry = record entry { stream_permits = 0 }

abbrev busy_state : HttpState
busy_state = record state { registry = record registry { agents = ("a", busy_entry) ∷ [] } }

abbrev handed_over : Pending
handed_over = record { permit = "a"; owner = alice; task = task }

run_pending_ends_example :
    (t : Task) × (a : AcpAsA2a) × (lookup "a"
        (run_pending host to_json no_size no_refusal handed_over busy_state).adapters
      ≡ some a)
    × (load_owned "task-1" a.tasks ≡ ok (record { task = t; owner = some alice }))
    × IsEnded task t
    × (lookup "a"
          (run_pending host to_json no_size no_refusal handed_over busy_state).registry.agents
        ≡ some entry)
unfolding lookup
run_pending_ends_example =
    run_pending_ends host to_json no_size no_refusal handed_over talking busy_entry busy_state refl
      refl refl
