-- ===== src/Tests/SessionTests.antt =====
-- `AcpAsA2a`: sessions, tasks, leases.
use acp_a2a_gateway.Prelude.{
  ◌≡◌, refl, String, true, false, none, some, [], ◌∷◌, arith, ok, err, foreign_context,
  foreign_task, context_lost, lookup, insert, remove, retain, dropped,
}
use acp_a2a_gateway.Protocol.A2a.{
  Task, Message, A2aEvent, completed, working, agent, text, task_status_update,
}
use acp_a2a_gateway.Core.Content.{content_block_to_part, message_to_prompt}
use acp_a2a_gateway.Core.TurnState.{stop_reason_to_task_state}
use acp_a2a_gateway.Core.Updates.{relay_to_a2a, session_update_to_a2a_event, terminal_event}
use acp_a2a_gateway.Core.Lease.{is_free, acquire, entry}
use acp_a2a_gateway.Core.Lease.Exclusion.{IsValid}
use acp_a2a_gateway.Core.TaskStore.{save, load_owned, sanitize_task_id, path_for, envelope}
use acp_a2a_gateway.Core.Conversations.{with_session_ttl, ensure_session, evict_expired, AcpAsA2a}
use acp_a2a_gateway.Core.AcpAsA2a.{get_task_as, send_task_as}
use acp_a2a_gateway.Core.AcpAsA2a.Sessions.{
  fresh_entry, ensure_session-entry, ensure_session-foreign, ensure_session-lost,
}
use acp_a2a_gateway.Core.AcpAsA2a.Bounds.{IsBounded, send, cancel, serve_all, serve_all-IsBounded}
use acp_a2a_gateway.Core.AcpAsA2a.Tasks.{foreign_task_refused, get_task_as-send_task_as}
use acp_a2a_gateway.Core.AcpAsA2a.Leases.{is_free-send_task_as}
use acp_a2a_gateway.Core.AcpAsA2a.Streaming.{streaming_turn_unguarded}
use acp_a2a_gateway.Tests.Fixtures.{env, alice, bob, task, answering, streamer, alices, talking}

ensure_session-foreign_example :
    (ensure_session answering 100 "ctx" bob talking).0 ≡ err foreign_context
unfolding lookup
ensure_session-foreign_example =
    (ensure_session-foreign answering 100 "ctx" bob talking alices refl refl (omega arith)
      (λ e. cc)).0

ensure_session-lost_example :
    (ensure_session (record answering { generation = 2 }) 100 "ctx" alice talking).0
    ≡ err (context_lost 1 2)
unfolding lookup
ensure_session-lost_example =
    (ensure_session-lost (record answering { generation = 2 }) 100 "ctx" alice talking alices refl
      refl (omega arith) refl (omega arith)).0

ensure_session-entry_example :
    lookup "ctx" (ensure_session answering 100 "ctx" alice talking).1.sessions
    ≡ some (fresh_entry answering 100 alice "s-1")
unfolding lookup ensure_session evict_expired retain
ensure_session-entry_example = ensure_session-entry answering 100 "ctx" alice talking "s-1" refl

serve_all-IsBounded_example : IsBounded (
    serve_all
      (send env answering alice task ∷ cancel env answering bob "task-1" ∷ [])
      (with_session_ttl 50))
serve_all-IsBounded_example =
    serve_all-IsBounded 50 (send env answering alice task ∷ cancel env answering bob "task-1" ∷ [])

-- Alice's task is on file.
abbrev filed : AcpAsA2a
filed = record talking {
  tasks = record {
    tasks = ("task-1", record { content = envelope (some alice) task; modified = some 95 }) ∷ [];
    partial = [];
  };
}

foreign_task_refused_example : get_task_as bob "task-1" filed ≡ err foreign_task
unfolding load_owned path_for sanitize_task_id lookup
foreign_task_refused_example =
    (foreign_task_refused env answering bob alice "task-1" task filed refl (λ e. cc)).0

-- What Alice's turn comes to.
abbrev answered : Task
answered = record {
  id = "task-1";
  context_id = "ctx";
  status = record { state = completed; message = some yes; timestamp = some "t" };
  history = none;
  artifacts = some (
      record {
        artifact_id = "task-1-response";
        name = some "response";
        description = none;
        parts = text "yes" ∷ [];
        metadata = none;
      }
      ∷ []);
  metadata = none;
}
  where
    yes : Message
    yes = record { role = agent; parts = text "yes" ∷ []; message_id = none }

get_task_as-send_task_as_example :
    (get_task_as alice "task-1" (send_task_as env answering alice task talking).1 ≡ ok answered)
    × ("ctx" ≡ task.context_id)
unfolding send_task_as ensure_session evict_expired retain dropped lookup insert remove acquire save
    path_for sanitize_task_id content_block_to_part message_to_prompt stop_reason_to_task_state
get_task_as-send_task_as_example =
    get_task_as-send_task_as env answering alice task answered talking refl

nothing_leased : IsValid talking.lease
unfolding lookup
nothing_leased = record { made = λ k m h. cc; distinct = λ j k m h g. cc; fresh = λ m h. refl }

is_free-send_task_as_example :
    is_free "s-1" (send_task_as env answering alice task talking).1.lease
    ≡ is_free "s-1" (ensure_session answering 100 "ctx" alice talking).1.lease
is_free-send_task_as_example =
    is_free-send_task_as env answering alice task "s-1" talking nothing_leased

abbrev chunk : A2aEvent
chunk =
    task_status_update "task-1"
      (record {
        state = working;
        message = some (record { role = agent; parts = text "yes" ∷ []; message_id = none });
        timestamp = some "t";
      })
      false

abbrev last : A2aEvent
last =
    task_status_update "task-1" (record { state = completed; message = none; timestamp = some "t" })
      true

streaming_turn_unguarded_example :
    (session : String) × ((ensure_session streamer 100 "ctx" alice talking).0 ≡ ok session)
    × ((acquire session (send_task_as env streamer alice task talking).1.lease).0
        ≡ ok (entry session (send_task_as env streamer alice task talking).1.lease).0)
unfolding send_task_as ensure_session evict_expired retain dropped lookup insert remove acquire
    content_block_to_part message_to_prompt relay_to_a2a session_update_to_a2a_event terminal_event
streaming_turn_unguarded_example =
    streaming_turn_unguarded env streamer alice task (chunk ∷ last ∷ []) talking nothing_leased refl
