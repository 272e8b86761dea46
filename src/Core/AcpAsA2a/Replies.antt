-- ===== src/Core/AcpAsA2a/Replies.antt =====
-- What `send_task_as` can answer.
use acp_a2a_gateway.Prelude.{
  ◌≡◌, refl, sym, subst, List, arith, true, ok, Result-cases, Option-cases, inl, inr,
}
use acp_a2a_gateway.Protocol.A2a.{Task, A2aEvent, is_terminal}
use acp_a2a_gateway.Protocol.Acp.{SessionId, PromptResponse, SessionUpdate}
use acp_a2a_gateway.Core.Reply.{Reply, complete, streaming}
use acp_a2a_gateway.Core.Owner.{Owner}
use acp_a2a_gateway.Core.Agent.{AcpAgent, Env}
use acp_a2a_gateway.Core.Content.{message_to_prompt}
use acp_a2a_gateway.Core.TurnState.{stop_reason_to_task_state}
use acp_a2a_gateway.Core.Updates.{relay_to_a2a}
use acp_a2a_gateway.Core.Lease.{acquire}
use acp_a2a_gateway.Core.Conversations.{ensure_session, AcpAsA2a}
use acp_a2a_gateway.Core.AcpAsA2a.{
  store_and_return, finished_task, answer, turn, under_lease, send_task_as,
}

module _ (env : Env) (task : Task) where
  -- The request's task at its end, or the stream of some updates of the agent.
  abbrev pub Answers : Reply Task A2aEvent → Type 0
  Answers (complete t) =
      (t.id ≡ task.id) × (t.context_id ≡ task.context_id) × (is_terminal t.status.state ≡ true)
  Answers (streaming events) =
      (updates : List SessionUpdate) × (events
        ≡ relay_to_a2a env.print_decimal env.timestamp task.id env.room updates)

  finished-Answers : (resp : PromptResponse) → Answers (complete (finished_task env task resp))
  unfolding finished_task is_terminal stop_reason_to_task_state
  finished-Answers resp = (refl, refl, ground arith)

  stored :
      (owner : Owner) (t u : Task) (s : AcpAsA2a)
      → (store_and_return env owner t s).0 ≡ ok u
      → u ≡ t
  unfolding store_and_return
  stored owner t u s h = ground arith

  module _ (a : AcpAgent) (owner : Owner) (reply : Reply Task A2aEvent) where
    answer-Answers :
        (said : Reply PromptResponse SessionUpdate) (s : AcpAsA2a)
        → (answer env owner task said s).0 ≡ ok reply
        → Answers reply
    unfolding answer
    answer-Answers (complete resp) s h =
        elim (Result-cases (store_and_return env owner (finished_task env task resp) s).0) [
          | inl (u, e) ↦
              let same = stored owner (finished_task env task resp) u s e in
              let is_reply : reply ≡ complete (finished_task env task resp) = cc in
              subst Answers (sym is_reply) (finished-Answers resp)
          | inr (x, e) ↦ absurd (ground arith)
        ]
    answer-Answers (streaming updates) s h =
        let is_reply : reply
            ≡ streaming (relay_to_a2a env.print_decimal env.timestamp task.id env.room updates) =
          cc in
        subst Answers (sym is_reply) (updates, refl)

    turn-Answers :
        (session : SessionId) (s : AcpAsA2a)
        → (turn env a owner task session s).0 ≡ ok reply
        → Answers reply
    unfolding turn
    turn-Answers session s h = elim (Option-cases task.status.message) [
      | inl e ↦ absurd (ground arith)
      | inr (m, e) ↦
          elim (Result-cases (a.prompt_streaming (message_to_prompt env.to_string session m))) [
            | inl (said, e') ↦ answer-Answers said s (ground arith)
            | inr (x, e') ↦ absurd (ground arith)
          ]
    ]

    -- An answer to a request.
    pub send_task_as-Answers :
        (s : AcpAsA2a) → (send_task_as env a owner task s).0 ≡ ok reply → Answers reply
    unfolding send_task_as under_lease
    send_task_as-Answers s h =
        let found = ensure_session a env.now task.context_id owner s in
        elim (Result-cases found.0) [
          | inl (id, e) ↦ elim (Result-cases (acquire id found.1.lease).0) [
            | inl (g, e') ↦
                turn-Answers id (record (found.1) { lease = (acquire id found.1.lease).1 })
                  (ground arith)
            | inr (x, e') ↦ absurd (ground arith)
          ]
          | inr (x, e) ↦ absurd (ground arith)
        ]
