-- ===== src/Core/Updates/Closing.antt =====
-- The state in which a translated stream closes.
use acp_a2a_gateway.Prelude.{ℕ, zero, suc, String, ◌≡◌, refl, Bool, Option, List, [], ◌∷◌, every}
use acp_a2a_gateway.Protocol.A2a.{
  TaskId, A2aEvent, task_status_update, task_artifact_update, message_event, is_terminal,
}
use acp_a2a_gateway.Protocol.Acp.{
  SessionUpdate, agent_message_chunk, tool_call, tool_call_update, plan, usage_update,
}
use acp_a2a_gateway.Core.Updates.{
  relay_to_a2a, terminal_event, session_update_to_a2a_event, working_event,
}

-- A final event has a terminal state.
abbrev pub closes_well : A2aEvent → Bool
closes_well (task_status_update id status Bool.true) = is_terminal status.state
closes_well (task_status_update id status Bool.false) = Bool.true
closes_well (task_artifact_update id artifact append) = Bool.true
closes_well (message_event m) = Bool.true

module _ (print_decimal : ℕ → String) (now : Option String) (task_id : TaskId) where
  pub every-relay_to_a2a :
      (room : ℕ) (updates : List SessionUpdate)
      → every closes_well (relay_to_a2a print_decimal now task_id room updates) ≡ Bool.true
  unfolding relay_to_a2a session_update_to_a2a_event terminal_event is_terminal working_event
  every-relay_to_a2a zero [] = refl
  every-relay_to_a2a (suc room) [] = refl
  every-relay_to_a2a room (usage_update used size cost ∷ us) = every-relay_to_a2a room us
  every-relay_to_a2a zero (agent_message_chunk id content ∷ us) = refl
  every-relay_to_a2a zero (tool_call id title kind status ∷ us) = refl
  every-relay_to_a2a zero (tool_call_update id status content ∷ us) = refl
  every-relay_to_a2a zero (plan entries ∷ us) = refl
  every-relay_to_a2a (suc room) (agent_message_chunk id content ∷ us) = every-relay_to_a2a room us
  every-relay_to_a2a (suc room) (tool_call id title kind status ∷ us) = every-relay_to_a2a room us
  every-relay_to_a2a (suc room) (tool_call_update id status content ∷ us) =
      every-relay_to_a2a room us
  every-relay_to_a2a (suc room) (plan entries ∷ us) = every-relay_to_a2a room us
