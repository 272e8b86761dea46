-- ===== src/Core/AcpAsA2a.antt =====
-- core/src/convert.rs, part 4: `AcpAsA2a`, by which a client of A2A sees an agent of ACP.
-- Each operation returns its result and the new state.
pub mod Sessions
pub mod Bounds
pub mod Tasks
pub mod Replies
pub mod Leases
pub mod Streaming
use Prim.Native.String.{◌++◌ as ◌+++◌}
use acp_a2a_gateway.Prelude.{
  ◌-◌, Option, none, some, List, [], ◌∷◌, map, Result, ok, err, missing_message,
}
use acp_a2a_gateway.Protocol.A2a.{Task, TaskId, Part, A2aEvent, agent, canceled}
use acp_a2a_gateway.Protocol.Acp.{SessionId, PromptResponse, SessionUpdate}
use acp_a2a_gateway.Core.Reply.{Reply, complete, streaming}
use acp_a2a_gateway.Core.Owner.{Owner}
use acp_a2a_gateway.Core.Content.{content_block_to_part, message_to_prompt}
use acp_a2a_gateway.Core.TurnState.{stop_reason_to_task_state}
use acp_a2a_gateway.Core.Updates.{relay_to_a2a}
use acp_a2a_gateway.Core.Lease.{acquire, release}
use acp_a2a_gateway.Core.TaskStore.{save, load_owned}
use acp_a2a_gateway.Core.Agent.{AcpAgent, Env}
use acp_a2a_gateway.Core.Conversations.{
  AcpAsA2a, assert_owner_matches, assert_owns, ensure_session, lookup_session,
}

-- The common start of `get_task_as` and `cancel_task_as`.
owned_task : Owner → TaskId → AcpAsA2a → Result Task
unfolding assert_owner_matches assert_owns
owned_task owner id s = elim (load_owned id s.tasks) [
  | err e ↦ err e
  | ok stored ↦ elim (assert_owner_matches stored owner) [
    | err e ↦ err e
    | ok _ ↦ elim (assert_owns stored.task.context_id owner s) [
      | err e ↦ err e
      | ok _ ↦ ok stored.task
    ]
  ]
]

unfoldable pub get_task_as : Owner → TaskId → AcpAsA2a → Result Task
unfolding owned_task
get_task_as owner id s = owned_task owner id s

save_task : Env → Owner → Task → AcpAsA2a → Result (Unit {0}) × AcpAsA2a
save_task env owner task s =
    let (r, tasks) = save env.fault env.now task owner s.tasks in (r, record s { tasks = tasks })

unfoldable pub record_task_as : Env → Owner → Task → AcpAsA2a → Result (Unit {0}) × AcpAsA2a
unfolding save_task
record_task_as = save_task

-- ...and what is returned is the task, if the write went through.
store_and_return : Env → Owner → Task → AcpAsA2a → Result Task × AcpAsA2a
unfolding save_task
store_and_return env owner task s =
    let (r, s') = save_task env owner task s in (elim r [ err e ↦ err e | ok _ ↦ ok task ], s')

canceled_task : Env → Task → Task
canceled_task env t = record t {
  status = record (t.status) { state = canceled; timestamp = env.timestamp };
}

unfoldable pub cancel_task_as : Env → AcpAgent → Owner → TaskId → AcpAsA2a → Result Task × AcpAsA2a
unfolding owned_task lookup_session store_and_return canceled_task
cancel_task_as env a owner id s = elim (owned_task owner id s) [
  | err e ↦ (err e, s)
  | ok task ↦ elim (lookup_session task.context_id owner s) [
    | err e ↦ (err e, s)
    | ok session ↦ elim (a.cancel session) [
      | err e ↦ (err e, s)
      | ok _ ↦ store_and_return env owner (canceled_task env task) s
    ]
  ]
]

-- (!parts.is_empty()).then(..)
abbrev when_some {ℓ} : {A : Type ℓ} → List Part → A → Option A
when_some [] a = none
when_some (p ∷ ps) a = some a

-- The task that answers a turn which did not stream.
finished_task : Env → Task → PromptResponse → Task
finished_task env task resp =
    let parts = map content_block_to_part resp.content in
    record {
      id = task.id;
      context_id = task.context_id;
      status = record {
        state = stop_reason_to_task_state resp.stop_reason;
        message = when_some parts (record { role = agent; parts = parts; message_id = none });
        timestamp = env.timestamp;
      };
      history = none;
      artifacts = when_some parts (
          record {
            artifact_id = task.id +++ "-response";
            name = some "response";
            description = none;
            parts = parts;
            metadata = none;
          }
          ∷ []);
      metadata = none;
    }

-- What `send_task_as` makes of the agent's reply.
answer :
    Env
    → Owner
    → Task
    → Reply PromptResponse SessionUpdate
    → AcpAsA2a
    → Result (Reply Task A2aEvent) × AcpAsA2a
unfolding store_and_return finished_task
answer env owner task (complete resp) s =
    let (r, s') = store_and_return env owner (finished_task env task resp) s in
    (elim r [ err e ↦ err e | ok t ↦ ok (complete t) ], s')
answer env owner task (streaming updates) s =
    (ok (streaming (relay_to_a2a env.print_decimal env.timestamp task.id env.room updates)), s)

-- The part of `send_task_as` that runs under the lease.
turn :
    Env → AcpAgent → Owner → Task → SessionId → AcpAsA2a → Result (Reply Task A2aEvent) × AcpAsA2a
unfolding answer
turn env a owner task session s = elim task.status.message [
  | none ↦ (err missing_message, s)
  | some m ↦ elim (a.prompt_streaming (message_to_prompt env.to_string session m)) [
    | err e ↦ (err e, s)
    | ok reply ↦ answer env owner task reply s
  ]
]

-- The guard is dropped when the function returns, whatever it returns.
under_lease :
    Env → AcpAgent → Owner → Task → SessionId → AcpAsA2a → Result (Reply Task A2aEvent) × AcpAsA2a
unfolding turn
under_lease env a owner task session s =
    let (g, lease) = acquire session s.lease in
    let s' = record s { lease = lease } in
    elim g [
      | err e ↦ (err e, s')
      | ok guard ↦
          let (r, s'') = turn env a owner task session s' in
          (r, record s'' { lease = release guard s''.lease })
    ]

unfoldable pub send_task_as :
    Env → AcpAgent → Owner → Task → AcpAsA2a → Result (Reply Task A2aEvent) × AcpAsA2a
unfolding under_lease
send_task_as env a owner task s =
    let (r, s') = ensure_session a env.now task.context_id owner s in
    elim r [ err e ↦ (err e, s') | ok session ↦ under_lease env a owner task session s' ]
