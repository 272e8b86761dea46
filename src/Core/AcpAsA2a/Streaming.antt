-- ===== src/Core/AcpAsA2a/Streaming.antt =====
-- Leases over a history of requests, and what a streaming turn leaves of its lease.
use acp_a2a_gateway.Prelude.{
  ◌≡◌, sym, subst, true, List, [], ◌∷◌, arith, ok, Result-cases, Bool-cases, inl, inr,
}
use acp_a2a_gateway.Protocol.A2a.{Task, TaskId, A2aEvent}
use acp_a2a_gateway.Protocol.Acp.{SessionId}
use acp_a2a_gateway.Core.Reply.{streaming}
use acp_a2a_gateway.Core.Owner.{Owner}
use acp_a2a_gateway.Core.Agent.{AcpAgent, Env}
use acp_a2a_gateway.Core.Lease.{acquire, is_free, entry}
use acp_a2a_gateway.Core.Lease.Exclusion.{IsValid, acquire_iff_free}
use acp_a2a_gateway.Core.Conversations.{ensure_session, AcpAsA2a}
use acp_a2a_gateway.Core.AcpAsA2a.{
  store_and_return, under_lease, send_task_as, cancel_task_as, record_task_as,
}
use acp_a2a_gateway.Core.AcpAsA2a.Bounds.{Request, send, cancel, store, serve_one, serve_all}
use acp_a2a_gateway.Core.AcpAsA2a.Leases.{
  ensure_session-IsValid, send_task_as-IsValid, is_free-send_task_as,
}

lease-cancel_task_as :
    (env : Env) (a : AcpAgent) (owner : Owner) (id : TaskId) (s : AcpAsA2a)
    → (cancel_task_as env a owner id s).1.lease ≡ s.lease
unfolding cancel_task_as store_and_return
lease-cancel_task_as env a owner id s = ground arith

serve_one-IsValid : (r : Request) (s : AcpAsA2a) → IsValid s.lease → IsValid (serve_one r s).lease
unfolding serve_one record_task_as
serve_one-IsValid (send env a owner task) s v = send_task_as-IsValid env a owner task s v
serve_one-IsValid (cancel env a owner id) s v =
    subst IsValid (sym (lease-cancel_task_as env a owner id s)) v
serve_one-IsValid (store env owner task) s v = v

pub serve_all-IsValid :
    (rs : List Request) (s : AcpAsA2a) → IsValid s.lease → IsValid (serve_all rs s).lease
unfolding serve_all
serve_all-IsValid [] s v = v
serve_all-IsValid (r ∷ rs) s v = serve_all-IsValid rs (serve_one r s) (serve_one-IsValid r s v)

module _ (env : Env) (a : AcpAgent) (owner : Owner) (task : Task) (events : List A2aEvent) where
  under_lease-granted :
      (session : SessionId) (s : AcpAsA2a)
      → (under_lease env a owner task session s).0 ≡ ok (streaming events)
      → IsValid s.lease
      → is_free session s.lease ≡ true
  unfolding under_lease
  under_lease-granted session s h v = elim (Bool-cases (is_free session s.lease)) [
    | inl free ↦ free
    | inr busy ↦ absurd (ground (arith, (acquire_iff_free session s.lease 0 v).0))
  ]

  -- While a stream is on its way, the lease of its session is free: when `send_task_as` returns a
  -- stream, the session that it got can be leased again at once.
  pub streaming_turn_unguarded :
      (s : AcpAsA2a)
      → IsValid s.lease
      → (send_task_as env a owner task s).0 ≡ ok (streaming events)
      → (session : SessionId) × ((ensure_session a env.now task.context_id owner s).0 ≡ ok session)
        × ((acquire session (send_task_as env a owner task s).1.lease).0
            ≡ ok (entry session (send_task_as env a owner task s).1.lease).0)
  unfolding send_task_as
  streaming_turn_unguarded s v h =
      let s' = (ensure_session a env.now task.context_id owner s).1 in
      let v' = ensure_session-IsValid a env.now task.context_id owner s v in
      let v'' = send_task_as-IsValid env a owner task s v in
      let l = (send_task_as env a owner task s).1.lease in
      elim (Result-cases (ensure_session a env.now task.context_id owner s).0) [
        | inl (session, e) ↦ (
          session,
          e,
          ground (
            arith,
            under_lease-granted session s',
            is_free-send_task_as env a owner task session s v,
            (acquire_iff_free session l 0 v'').0,
          ),
        )
        | inr (x, e) ↦ absurd (ground arith)
      ]
