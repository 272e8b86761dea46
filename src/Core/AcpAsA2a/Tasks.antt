-- ===== src/Core/AcpAsA2a/Tasks.antt =====
-- Whose task a request reads, cancels and stores.
use acp_a2a_gateway.Prelude.{
  ◌≡◌, ◌≢◌, some, arith, eq_iff, ok, err, foreign_task, Result-cases, Option-cases, inl, inr,
}
use acp_a2a_gateway.Protocol.A2a.{Task, TaskId}
use acp_a2a_gateway.Protocol.Acp.{SessionId, PromptResponse, SessionUpdate}
use acp_a2a_gateway.Core.Reply.{Reply, complete, streaming}
use acp_a2a_gateway.Core.Owner.{Owner, owner_eq_iff}
use acp_a2a_gateway.Core.Agent.{AcpAgent, Env}
use acp_a2a_gateway.Core.Content.{message_to_prompt}
use acp_a2a_gateway.Core.Lease.{acquire}
use acp_a2a_gateway.Core.TaskStore.{path_for, save, load_owned}
use acp_a2a_gateway.Core.TaskStore.Files.{load_owned-save}
use acp_a2a_gateway.Core.Conversations.{ensure_session, AcpAsA2a}
use acp_a2a_gateway.Core.AcpAsA2a.{
  owned_task, store_and_return, finished_task, answer, turn, under_lease, send_task_as, get_task_as,
  cancel_task_as,
}
use acp_a2a_gateway.Core.AcpAsA2a.Sessions.{ensure_session-entry}
use acp_a2a_gateway.Core.AcpAsA2a.Bounds.{sessions-send_task_as}

-- A task that is on file under one owner is refused to every other, by reading and by cancelling,
-- and a refused cancel changes nothing.
pub foreign_task_refused :
    (env : Env) (a : AcpAgent) (caller recorded : Owner) (id : TaskId) (task : Task) (s : AcpAsA2a)
    → load_owned id s.tasks ≡ ok (record { task = task; owner = some recorded })
    → recorded ≢ caller
    → (get_task_as caller id s ≡ err foreign_task)
      × (cancel_task_as env a caller id s ≡ (err foreign_task, s))
unfolding get_task_as cancel_task_as owned_task
foreign_task_refused env a caller recorded id task s h n =
    ground (arith, owner_eq_iff recorded caller)

module _ (env : Env) (a : AcpAgent) (owner : Owner) (task t : Task) where
  abbrev Filed : AcpAsA2a → Type 0
  Filed s =
      (load_owned t.id s.tasks ≡ ok (record { task = t; owner = some owner }))
      × (t.context_id ≡ task.context_id)

  store_and_return-Filed :
      (u : Task) (s : AcpAsA2a)
      → (store_and_return env owner u s).0 ≡ ok t
      → load_owned t.id (store_and_return env owner u s).1.tasks
        ≡ ok (record { task = t; owner = some owner })
  unfolding store_and_return save
  store_and_return-Filed u s h = ground (
    arith,
    load_owned-save env.fault env.now u owner t.id s.tasks,
    eq_iff (path_for t.id) (path_for t.id),
  )

  store_and_return_id :
      (u : Task) (s : AcpAsA2a) (v : Task) → (store_and_return env owner u s).0 ≡ ok v → v ≡ u
  unfolding store_and_return
  store_and_return_id u s v h = ground arith

  answer-Filed :
      (reply : Reply PromptResponse SessionUpdate) (s : AcpAsA2a)
      → (answer env owner task reply s).0 ≡ ok (complete t)
      → Filed (answer env owner task reply s).1
  unfolding answer finished_task
  answer-Filed (complete resp) s h =
      elim (Result-cases (store_and_return env owner (finished_task env task resp) s).0) [
        | inl (u, e) ↦ (
          ground (arith, store_and_return-Filed (finished_task env task resp) s),
          ground (arith, store_and_return_id (finished_task env task resp) s u),
        )
        | inr (x, e) ↦ absurd (ground arith)
      ]
  answer-Filed (streaming updates) s h = absurd (cc)

  turn-Filed :
      (session : SessionId) (s : AcpAsA2a)
      → (turn env a owner task session s).0 ≡ ok (complete t)
      → Filed (turn env a owner task session s).1
  unfolding turn
  turn-Filed session s h = elim (Option-cases task.status.message) [
    | inl e ↦ absurd (ground arith)
    | inr (m, e) ↦
        elim (Result-cases (a.prompt_streaming (message_to_prompt env.to_string session m))) [
          | inl (reply, e') ↦ ground (arith, answer-Filed reply s)
          | inr (x, e') ↦ absurd (ground arith)
        ]
  ]

  under_lease-Filed :
      (session : SessionId) (s : AcpAsA2a)
      → (under_lease env a owner task session s).0 ≡ ok (complete t)
      → Filed (under_lease env a owner task session s).1
  unfolding under_lease
  under_lease-Filed session s h = elim (Result-cases (acquire session s.lease).0) [
    | inl (g, e) ↦
        ground (arith, turn-Filed session (record s { lease = (acquire session s.lease).1 }))
    | inr (x, e) ↦ absurd (ground arith)
  ]

  -- A turn that ends with a finished task has put it on file: its owner reads it back under its
  -- id, and it stands in the conversation that the request named.
  pub get_task_as-send_task_as :
      (s : AcpAsA2a)
      → (send_task_as env a owner task s).0 ≡ ok (complete t)
      → (get_task_as owner t.id (send_task_as env a owner task s).1 ≡ ok t)
        × (t.context_id ≡ task.context_id)
  unfolding send_task_as get_task_as owned_task
  get_task_as-send_task_as s h =
      elim (Result-cases (ensure_session a env.now task.context_id owner s).0) [
        | inl (id, e) ↦ ground (
          arith,
          under_lease-Filed id (ensure_session a env.now task.context_id owner s).1,
          sessions-send_task_as env a owner task s,
          ensure_session-entry a env.now task.context_id owner s id,
          owner_eq_iff owner owner,
        )
        | inr (x, e) ↦ absurd (ground arith)
      ]
