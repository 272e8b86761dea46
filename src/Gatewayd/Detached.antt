-- ===== src/Gatewayd/Detached.antt =====
-- gatewayd/src/transport_http.rs, part 5: a turn that runs on when its request has been answered.
pub mod Ending
use Prim.Native.String.{◌++◌}
use acp_a2a_gateway.Prelude.{
  ℕ, String, Bool, Option, none, some, List, [], ◌∷◌, Result, ok, err, Error, map,
}
use acp_a2a_gateway.Protocol.A2a.{
  Task, TaskState, Message, Part, A2aEvent, agent, text, file, data_part, working, failed,
  task_status_update, task_artifact_update, message_event,
}
use acp_a2a_gateway.Core.Owner.{Owner}
use acp_a2a_gateway.Core.Reply.{Reply, complete, streaming}
use acp_a2a_gateway.Core.Agent.{AcpAgent, Env}
use acp_a2a_gateway.Core.Conversations.{AcpAsA2a}
use acp_a2a_gateway.Core.AcpAsA2a.{send_task_as, record_task_as}
use acp_a2a_gateway.Gatewayd.EventLog.{EventRecord}
use acp_a2a_gateway.Gatewayd.Relay.{Relay, relay}

-- What `tasks/get` serves while the turn runs.
unfoldable pub working_task : Task → Task
working_task t = record t {
  status = record { state = working; message = none; timestamp = t.status.timestamp };
}

text_task : Task → TaskState → String → Task
text_task base state s = record {
  id = base.id;
  context_id = base.context_id;
  status = record {
    state = state;
    message = some (record { role = agent; parts = text s ∷ []; message_id = none });
    timestamp = none;
  };
  history = none;
  artifacts = none;
  metadata = none;
}

-- A turn that did not run, or whose stream was cut off.
unfoldable pub failed_task : Task → String → Task
unfolding text_task
failed_task base s = text_task base failed s

-- The answer that the stream has told, in the message and as an artifact.
unfoldable pub told_task : Task → TaskState → String → Task
unfolding text_task
told_task base state s = record (text_task base state s) {
  artifacts = some (
      record {
        artifact_id = base.id ++ "-response";
        name = some "response";
        description = none;
        parts = text s ∷ [];
        metadata = none;
      }
      ∷ []);
}

text_of_parts : List Part → String
text_of_parts [] = ""
text_of_parts (text s ∷ ps) = s ++ text_of_parts ps
text_of_parts (file f ∷ ps) = text_of_parts ps
text_of_parts (data_part v ∷ ps) = text_of_parts ps

text_of_message : Option Message → String
unfolding text_of_parts
text_of_message none = ""
text_of_message (some m) = text_of_parts m.parts

-- What the loop over the stream gathers: the text, and the state of the last final event.
gather : Option TaskState → String → List A2aEvent → Option TaskState × String
unfolding text_of_message
gather state told [] = (state, told)
gather state told (task_status_update t status Bool.true ∷ es) =
    gather (some status.state) (told ++ text_of_message status.message) es
gather state told (task_status_update t status Bool.false ∷ es) =
    gather state (told ++ text_of_message status.message) es
gather state told (task_artifact_update t artifact append ∷ es) = gather state told es
gather state told (message_event m ∷ es) = gather state told es

gathered_task : Task → Option TaskState × String → Task
unfolding failed_task told_task
gathered_task base (none, told) = failed_task base "stream closed before the final event"
gathered_task base (some state, told) = told_task base state told

-- `describe` is the printing of an error and `to_json` serde's of an event, `db_size` is SQLite's
-- size of its file, and `fault` its refusal of an event's row.
module _ (describe : Error → String) (to_json : A2aEvent → Result String)
    (db_size : List EventRecord → Option ℕ) (fault : A2aEvent → Option Error) where
  task_of_reply : Task → Result (Reply Task A2aEvent) → Relay → Task × Relay
  unfolding failed_task gather gathered_task
  task_of_reply base (err e) shared = (failed_task base (describe e), shared)
  task_of_reply base (ok (complete done)) shared = (done, shared)
  task_of_reply base (ok (streaming events)) shared =
      let (items, shared') = relay to_json db_size (map (λ e. (fault e, e)) events) shared in
      (gathered_task base (gather none "" (map (λ i. i.event) items)), shared')

  -- The task to store. `shared` is the log and the hub.
  unfoldable pub run_detached_turn :
      Env → AcpAgent → Owner → Task → AcpAsA2a → Relay → Task × AcpAsA2a × Relay
  unfolding task_of_reply
  run_detached_turn env a owner task s shared =
      let (r, s') = send_task_as env a owner task s in
      let (final, shared') = task_of_reply task r shared in (final, s', shared')

  -- The background task: the turn, and its task on file.
  unfoldable pub detached :
      Env → AcpAgent → Owner → Task → AcpAsA2a → Relay → Result (Unit {0}) × AcpAsA2a × Relay
  detached env a owner task s shared =
      let (final, s', shared') = run_detached_turn env a owner task s shared in
      let (r, s'') = record_task_as env owner final s' in (r, s'', shared')
