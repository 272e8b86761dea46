-- ===== src/Gatewayd/Detached/Ending.antt =====
-- How a detached turn ends.
use Prim.Native.String.{◌++◌}
use acp_a2a_gateway.Prelude.{
  ℕ, String, ◌≡◌, refl, sym, ap, ◌∙◌, Bool, true, Option, none, some, List, [], ◌∷◌, map, arith,
  every, eq_refl, Result, ok, err, Error,
}
use acp_a2a_gateway.Protocol.A2a.{
  Task, TaskId, TaskState, A2aEvent, is_terminal, task_status_update, task_artifact_update,
  message_event,
}
use acp_a2a_gateway.Core.Reply.{Reply, complete, streaming}
use acp_a2a_gateway.Core.Owner.{Owner}
use acp_a2a_gateway.Core.TaskStore.{TaskStore, Fault, no_fault, path_for, save, load_owned}
use acp_a2a_gateway.Core.TaskStore.Files.{load_owned-save}
use acp_a2a_gateway.Core.Updates.Closing.{closes_well, every-relay_to_a2a}
use acp_a2a_gateway.Core.Agent.{AcpAgent, Env}
use acp_a2a_gateway.Core.Conversations.{AcpAsA2a}
use acp_a2a_gateway.Core.AcpAsA2a.{send_task_as, record_task_as}
use acp_a2a_gateway.Core.AcpAsA2a.Replies.{Answers, send_task_as-Answers}
use acp_a2a_gateway.Gatewayd.EventLog.{EventRecord}
use acp_a2a_gateway.Gatewayd.Relay.{Relay, relay}
use acp_a2a_gateway.Gatewayd.Relay.Delivery.{relay_complete}
use acp_a2a_gateway.Gatewayd.Detached.{
  failed_task, told_task, text_of_message, gather, gathered_task, task_of_reply, run_detached_turn,
  detached,
}

-- No final event yet, or one with a terminal state.
abbrev is_settled : Option TaskState → Bool
is_settled none = Bool.true
is_settled (some s) = is_terminal s

gather-settled :
    (state : Option TaskState) (told : String) (es : List A2aEvent)
    → is_settled state ≡ true
    → every closes_well es ≡ true
    → is_settled (gather state told es).0 ≡ true
unfolding gather
gather-settled state told [] h c = h
gather-settled state told (task_status_update t status Bool.true ∷ es) h c =
    gather-settled (some status.state) (told ++ text_of_message status.message) es (ground arith)
      (ground arith)
gather-settled state told (task_status_update t status Bool.false ∷ es) h c =
    gather-settled state (told ++ text_of_message status.message) es h c
gather-settled state told (task_artifact_update t artifact append ∷ es) h c =
    gather-settled state told es h c
gather-settled state told (message_event m ∷ es) h c = gather-settled state told es h c

-- The task that was asked for, at its end.
abbrev pub IsEnded : Task → Task → Type 0
IsEnded task t =
    (t.id ≡ task.id) × (t.context_id ≡ task.context_id) × (is_terminal t.status.state ≡ true)

gathered-IsEnded :
    (task : Task) (state : Option TaskState) (told : String)
    → is_settled state ≡ true
    → IsEnded task (gathered_task task (state, told))
unfolding gathered_task failed_task told_task is_terminal
gathered-IsEnded task none told h = (refl, refl, refl)
gathered-IsEnded task (some s) told h = (refl, refl, h)

filed :
    (fault : Fault) (now : ℕ) (t : Task) (owner : Owner) (id : TaskId) (tasks : TaskStore)
    → fault ≡ no_fault
    → t.id ≡ id
    → load_owned id (save fault now t owner tasks).1 ≡ ok (record { task = t; owner = some owner })
filed fault now t owner id tasks works same =
    rw (works, sym same)
      (load_owned-save no_fault now t owner t.id tasks ∙ (rw (eq_refl (path_for t.id)) refl))

module _ (describe : Error → String) (to_json : A2aEvent → Result String)
    (db_size : List EventRecord → Option ℕ) (fault : A2aEvent → Option Error) where
  forget_faults :
      (es : List A2aEvent)
      → map {A = Option Error × A2aEvent} (λ p. p.1) (map (λ e. (fault e, e)) es) ≡ es
  forget_faults [] = refl
  forget_faults (e ∷ es) = ap (λ rest. e ∷ rest) (forget_faults es)

  relayed_all :
      (es : List A2aEvent) (shared : Relay)
      → map (λ i. i.event) (relay to_json db_size (map (λ e. (fault e, e)) es) shared).0 ≡ es
  relayed_all es shared =
      relay_complete to_json db_size (map (λ e. (fault e, e)) es) shared ∙ forget_faults es

  module _ (env : Env) (task : Task) (shared : Relay) where
    task_of_reply-IsEnded :
        (r : Result (Reply Task A2aEvent))
        → ((reply : Reply Task A2aEvent) → r ≡ ok reply → Answers env task reply)
        → IsEnded task (task_of_reply describe to_json db_size fault task r shared).0
    unfolding task_of_reply failed_task is_terminal
    task_of_reply-IsEnded (err e) h = (refl, refl, refl)
    task_of_reply-IsEnded (ok (complete done)) h = h (complete done) refl
    task_of_reply-IsEnded (ok (streaming es)) h =
        let (updates, same) = h (streaming es) refl in
        let settled : every closes_well es ≡ true =
          rw same (every-relay_to_a2a env.print_decimal env.timestamp task.id env.room updates) in
        rw (relayed_all es shared) (
          gathered-IsEnded task (gather none "" es).0 (gather none "" es).1
            (gather-settled none "" es refl settled))

    module _ (a : AcpAgent) (owner : Owner) (s : AcpAsA2a) where
      run_detached_turn-IsEnded :
          IsEnded task
            (run_detached_turn describe to_json db_size fault env a owner task s shared).0
      unfolding run_detached_turn
      run_detached_turn-IsEnded =
          task_of_reply-IsEnded (send_task_as env a owner task s).0
            (λ reply e. send_task_as-Answers env task a owner reply s e)

      -- A turn that runs in the background leaves, on a disk that takes the write, the task that
      -- was asked for on file, in its conversation, under the client and in a terminal state,
      -- whatever the agent and the log do.
      pub detached_ends :
          env.fault ≡ no_fault
          → (t : Task) × (load_owned task.id
                (detached describe to_json db_size fault env a owner task s shared).1.tasks
              ≡ ok (record { task = t; owner = some owner }))
            × IsEnded task t
      unfolding detached record_task_as
      detached_ends works =
          let (t, s', shared') =
            run_detached_turn describe to_json db_size fault env a owner task s shared in
          let ended = run_detached_turn-IsEnded in
          (
            (run_detached_turn describe to_json db_size fault env a owner task s shared).0,
            filed env.fault env.now t owner task.id s'.tasks works ended.0,
            ended,
          )
