-- ===== src/Gatewayd/Dispatch/Access.antt =====
-- gatewayd/src/transport_http.rs: which methods ask who the client is.
use acp_a2a_gateway.Prelude.{
  ℕ, String, ◌≡◌, refl, Option, some, get_or, ok, err, and_then, foreign_task, ◌≢◌,
}
use acp_a2a_gateway.Protocol.Json.{Value, get, as_str, as_u64}
use acp_a2a_gateway.Protocol.A2a.{Task, TaskId}
use acp_a2a_gateway.Core.Owner.{Owner}
use acp_a2a_gateway.Core.Agent.{AcpAgent, Env}
use acp_a2a_gateway.Core.Conversations.{AcpAsA2a}
use acp_a2a_gateway.Core.AcpAsA2a.Tasks.{foreign_task_refused}
use acp_a2a_gateway.Core.TaskStore.{load_owned}
use acp_a2a_gateway.Gatewayd.EventLog.{Writer}
use acp_a2a_gateway.Gatewayd.Resubscribe.{Live}
use acp_a2a_gateway.Gatewayd.Requests.{JsonRpcRequest, extract_sdk_task_id}
use acp_a2a_gateway.Gatewayd.Dispatch.{Wire, dispatch_a2a_method, find, cancel, id_param}

-- The methods that read or cancel one task, and the task that a request of each names.
pub data TaskMethod : Type 0 where
  tasks_get sdk_get tasks_cancel sdk_cancel : TaskMethod

abbrev pub method_name : TaskMethod → String
method_name tasks_get = "tasks/get"
method_name sdk_get = "GetTask"
method_name tasks_cancel = "tasks/cancel"
method_name sdk_cancel = "CancelTask"

abbrev pub task_named : TaskMethod → Value → Option TaskId
task_named tasks_get params = and_then (get params "id") as_str
task_named sdk_get params = extract_sdk_task_id params
task_named tasks_cancel params = and_then (get params "id") as_str
task_named sdk_cancel params = extract_sdk_task_id params

module _ (wire : Wire) (event_log : Option Writer) (live : Live) (env : Env) (a : AcpAgent)
    (caller recorded : Owner) (task : Task) (id : TaskId) where
  -- Each of the methods that read or cancel a task refuses a client that is not the owner on file,
  -- and changes nothing.
  pub dispatch_foreign :
      (m : TaskMethod) (r : JsonRpcRequest) (s : AcpAsA2a)
      → r.method ≡ method_name m
      → task_named m r.params ≡ some id
      → load_owned id s.tasks ≡ ok (record { task = task; owner = some recorded })
      → recorded ≢ caller
      → dispatch_a2a_method wire event_log live env a caller r s ≡ (err foreign_task, s)
  unfolding dispatch_a2a_method find cancel id_param
  dispatch_foreign tasks_get r s name named there n =
      rw (name, named, (foreign_task_refused env a caller recorded id task s there n).0) refl
  dispatch_foreign sdk_get r s name named there n =
      rw (name, named, (foreign_task_refused env a caller recorded id task s there n).0) refl
  dispatch_foreign tasks_cancel r s name named there n =
      rw (name, named, (foreign_task_refused env a caller recorded id task s there n).1) refl
  dispatch_foreign sdk_cancel r s name named there n =
      rw (name, named, (foreign_task_refused env a caller recorded id task s there n).1) refl

-- The number that a client names, 0 if it names none.
abbrev pub after_named : Value → ℕ
after_named params = get_or (and_then (get params "after_seq") as_u64) 0
