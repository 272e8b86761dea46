-- ===== src/Core/Updates.antt =====
-- core/src/convert.rs: stream items of ACP against stream events of A2A, and the two background
-- tasks that translate a stream.
pub mod Streams
pub mod Closing
use Prim.Native.String.{◌++◌}
use acp_a2a_gateway.Prelude.{
  ℕ, zero, suc, String, ◌+◌, Bool, true, false, Option, none, some, List, [], ◌∷◌, if◌then◌else◌,
  take,
}
use acp_a2a_gateway.Prelude
use acp_a2a_gateway.Protocol.Json.{Value}
use acp_a2a_gateway.Protocol.A2a.{
  TaskId, Message, Part, A2aEvent, agent, working, completed, task_status_update,
  task_artifact_update, message_event,
}
use acp_a2a_gateway.Protocol.A2a
use acp_a2a_gateway.Protocol.Acp.{
  SessionUpdate, ToolCallStatus, PlanEntry, agent_message_chunk, tool_call, tool_call_update, plan,
  usage_update,
}
use acp_a2a_gateway.Core.Content.{content_block_to_part, part_to_content_block}

-- the derived `Debug`
debug_status : ToolCallStatus → String
debug_status ToolCallStatus.pending = "Pending"
debug_status ToolCallStatus.in_progress = "InProgress"
debug_status ToolCallStatus.completed = "Completed"
debug_status ToolCallStatus.failed = "Failed"
debug_status ToolCallStatus.cancelled = "Cancelled"

unfoldable pub text_status_message : String → Message
text_status_message s = record { role = agent; parts = A2a.Part.text s ∷ []; message_id = none }

-- Rust's `join("\n")`.
unfoldable pub join_lines : List String → String
join_lines [] = ""
join_lines (s ∷ []) = s
join_lines (s ∷ t ∷ ss) = s ++ ("\n" ++ join_lines (t ∷ ss))

-- What `send_task_as` sends behind the last update.
unfoldable pub terminal_event : Option String → TaskId → A2aEvent
terminal_event now task_id =
    task_status_update task_id (record { state = completed; message = none; timestamp = now }) true

-- `print_decimal` is the standard library's printing of a number.
module _ (print_decimal : ℕ → String) where
  plan_lines : ℕ → List PlanEntry → List String
  plan_lines i [] = []
  plan_lines i (e ∷ es) =
      (print_decimal (i + 1)
        ++ (". [" ++ (e.status ++ ("] " ++ (e.content ++ (" (" ++ (e.priority ++ ")")))))))
      ∷ plan_lines (i + 1) es

  -- `now` is the time that `now_iso8601` reads.
  module _ (now : Option String) (task_id : TaskId) where
    working_event : Message → A2aEvent
    working_event m =
        task_status_update task_id (record { state = working; message = some m; timestamp = now })
          false

    unfoldable pub session_update_to_a2a_event : SessionUpdate → Option A2aEvent
    unfolding working_event text_status_message debug_status plan_lines join_lines
    session_update_to_a2a_event (agent_message_chunk id content) = some (
        working_event
          (record { role = agent; parts = content_block_to_part content ∷ []; message_id = none }))
    session_update_to_a2a_event (tool_call id title kind status) = some (
        working_event
          (text_status_message ("[инструмент: " ++ (title ++ ("] " ++ debug_status status)))))
    session_update_to_a2a_event (tool_call_update id status content) =
        some (working_event (text_status_message ("[инструмент] " ++ debug_status status)))
    session_update_to_a2a_event (plan entries) =
        some (working_event (text_status_message (join_lines (plan_lines 0 entries))))
    session_update_to_a2a_event (usage_update used size cost) = none

    -- The background task of `send_task_as`: what its receiver gets from a stream of ACP, if it
    -- takes `room` events and then disconnects.
    unfoldable pub relay_to_a2a : ℕ → List SessionUpdate → List A2aEvent
    unfolding terminal_event
    relay_to_a2a zero [] = []
    relay_to_a2a (suc room) [] = terminal_event now task_id ∷ []
    relay_to_a2a room (update ∷ rest) = elim (session_update_to_a2a_event update) [
      | none ↦ relay_to_a2a room rest
      | some event ↦ elim room [ zero ↦ [] | suc left ↦ event ∷ relay_to_a2a left rest ]
    ]

unfoldable pub is_final : A2aEvent → Bool
is_final (task_status_update id status final) = final
is_final (task_artifact_update id artifact append) = false
is_final (message_event m) = false

-- `to_string` prints a JSON value.
module _ (to_string : Value → String) where
  chunks : Option String → List Part → List SessionUpdate
  chunks id [] = []
  chunks id (p ∷ ps) = agent_message_chunk id (part_to_content_block to_string p) ∷ chunks id ps

  chunks_of_message : Option Message → List SessionUpdate
  chunks_of_message none = []
  chunks_of_message (some m) = chunks m.message_id m.parts

  unfoldable pub a2a_event_to_session_update : A2aEvent → List SessionUpdate
  unfolding chunks chunks_of_message
  a2a_event_to_session_update (task_status_update id status final) =
      if final then [] else chunks_of_message status.message
  a2a_event_to_session_update (task_artifact_update id artifact append) = chunks none artifact.parts
  a2a_event_to_session_update (message_event m) = chunks m.message_id m.parts

  translated : List A2aEvent → List SessionUpdate
  translated [] = []
  translated (event ∷ rest) =
      let more = translated rest in
      Prelude.◌++◌ (a2a_event_to_session_update event) (if is_final event then [] else more)

  -- The background task of `A2aAsAcp::prompt`: it stops behind the final event, and at the first
  -- item that a receiver which has taken `room` items no longer takes.
  unfoldable pub relay_to_acp : ℕ → List A2aEvent → List SessionUpdate
  unfolding translated
  relay_to_acp room events = take room (translated events)
