-- ===== src/Core/AcpAsA2a/Leases.antt =====
-- What the operations do to the leases.
use acp_a2a_gateway.Prelude.{
  ℕ, ◌≡◌, sym, subst, ◌∙◌, ◌⊎◌, List, [], ◌∷◌, arith, eq_iff, lookup, dropped, ok, err,
  Result-cases, Option-cases, inl, inr,
}
use acp_a2a_gateway.Protocol.A2a.{Task, ContextId}
use acp_a2a_gateway.Protocol.Acp.{SessionId}
use acp_a2a_gateway.Core.Owner.{Owner}
use acp_a2a_gateway.Core.Agent.{AcpAgent, Env}
use acp_a2a_gateway.Core.Lease.{TurnLease, acquire, release, forget, is_free}
use acp_a2a_gateway.Core.Lease.Exclusion.{
  IsValid, acquire-IsValid, release-IsValid, forget-IsValid, acquire_iff_free, is_free-acquire,
  is_free-release,
}
use acp_a2a_gateway.Core.Conversations.{
  SessionEntry, is_live, forget_all, evict_expired, resume, open_session, resume_or_open,
  ensure_session, AcpAsA2a,
}
use acp_a2a_gateway.Core.AcpAsA2a.{store_and_return, answer, turn, under_lease, send_task_as}

forget_all-IsValid :
    (es : List SessionEntry) (l : TurnLease) → IsValid l → IsValid (forget_all es l)
unfolding forget_all
forget_all-IsValid [] l v = v
forget_all-IsValid (e ∷ es) l v =
    forget_all-IsValid es (forget e.session_id l) (forget-IsValid e.session_id l v)

module _ (a : AcpAgent) (now : ℕ) (context : ContextId) (owner : Owner) where
  evict_expired-IsValid : (s : AcpAsA2a) → IsValid s.lease → IsValid (evict_expired now s).lease
  unfolding evict_expired
  evict_expired-IsValid s v =
      forget_all-IsValid (dropped (is_live s.session_ttl now) s.sessions) s.lease v

  open_session-IsValid :
      (s : AcpAsA2a) → IsValid s.lease → IsValid (open_session a now context owner s).1.lease
  unfolding open_session
  open_session-IsValid s v = subst IsValid (sym (lease-open_session s)) v
    where
      lease-open_session : (s : AcpAsA2a) → (open_session a now context owner s).1.lease ≡ s.lease
      lease-open_session s = ground arith

  resume-IsValid :
      (old : SessionEntry) (s : AcpAsA2a)
      → IsValid s.lease
      → IsValid (resume a now context owner old s).1.lease
  resume-IsValid old s v = elim (lease-resume old s) [
    | inl same ↦ subst IsValid (sym same) v
    | inr gone ↦ subst IsValid (sym gone) (forget-IsValid old.session_id s.lease v)
  ]
    where
      lease-resume :
          (old : SessionEntry) (s : AcpAsA2a)
          → ((resume a now context owner old s).1.lease ≡ s.lease)
            ⊎ ((resume a now context owner old s).1.lease ≡ forget old.session_id s.lease)
      lease-resume old s = unfold resume in ground arith

  resume_or_open-IsValid :
      (s : AcpAsA2a) → IsValid s.lease → IsValid (resume_or_open a now context owner s).1.lease
  unfolding resume_or_open
  resume_or_open-IsValid s v = elim (Option-cases (lookup context s.sessions)) [
    | inl e ↦ rw (e, resume_or_open) (open_session-IsValid s v)
    | inr (old, e) ↦ rw (e, resume_or_open) (resume-IsValid old s v)
  ]

  pub ensure_session-IsValid :
      (s : AcpAsA2a) → IsValid s.lease → IsValid (ensure_session a now context owner s).1.lease
  unfolding ensure_session
  ensure_session-IsValid s v = elim (Result-cases a.ensure_ready) [
    | inl (u, e) ↦
        rw (e, ensure_session)
          (resume_or_open-IsValid (evict_expired now s) (evict_expired-IsValid s v))
    | inr (x, e) ↦ rw (e, ensure_session) (evict_expired-IsValid s v)
  ]

module _ (env : Env) (a : AcpAgent) (owner : Owner) (task : Task) where
  lease-turn :
      (session : SessionId) (s : AcpAsA2a) → (turn env a owner task session s).1.lease ≡ s.lease
  unfolding turn answer store_and_return
  lease-turn session s = ground arith

  under_lease-leases :
      (session : SessionId) (s : AcpAsA2a)
      → (under_lease env a owner task session s).1.lease ≡ elim (acquire session s.lease).0 [
        | ok guard ↦ release guard (acquire session s.lease).1
        | err e ↦ (acquire session s.lease).1
      ]
  unfolding under_lease
  under_lease-leases session s =
      ground (arith, lease-turn session (record s { lease = (acquire session s.lease).1 }))

  under_lease-IsValid :
      (session : SessionId) (s : AcpAsA2a)
      → IsValid s.lease
      → IsValid (under_lease env a owner task session s).1.lease
  under_lease-IsValid session s v = elim (Result-cases (acquire session s.lease).0) [
    | inl (g, e) ↦
        subst IsValid (sym (under_lease-leases session s ∙ (rw e)))
          (release-IsValid g (acquire session s.lease).1 (acquire-IsValid session s.lease v))
    | inr (x, e) ↦
        subst IsValid (sym (under_lease-leases session s ∙ (rw e)))
          (acquire-IsValid session s.lease v)
  ]

  is_free-under_lease :
      (session j : SessionId) (s : AcpAsA2a)
      → IsValid s.lease
      → is_free j (under_lease env a owner task session s).1.lease ≡ is_free j s.lease
  is_free-under_lease session j s v = elim (Result-cases (acquire session s.lease).0) [
    | inl (g, e) ↦
        ground (arith, under_lease-leases session s, is_free-release session j s.lease v g)
    | inr (x, e) ↦ ground (
      arith,
      under_lease-leases session s,
      is_free-acquire session j s.lease v,
      (acquire_iff_free session s.lease 0 v).0,
      eq_iff session j,
    )
  ]

  pub send_task_as-IsValid :
      (s : AcpAsA2a) → IsValid s.lease → IsValid (send_task_as env a owner task s).1.lease
  unfolding send_task_as
  send_task_as-IsValid s v =
      let v' = ensure_session-IsValid a env.now task.context_id owner s v in
      elim (Result-cases (ensure_session a env.now task.context_id owner s).0) [
        | inl (id, e) ↦
            rw (e, send_task_as)
              (under_lease-IsValid id (ensure_session a env.now task.context_id owner s).1 v')
        | inr (x, e) ↦ rw (e, send_task_as) v'
      ]

  -- A request that has been answered, with a task, a stream or an error, holds no lease: every
  -- session is as free as it was when the request had its own session and began to wait.
  pub is_free-send_task_as :
      (j : SessionId) (s : AcpAsA2a)
      → IsValid s.lease
      → is_free j (send_task_as env a owner task s).1.lease
        ≡ is_free j (ensure_session a env.now task.context_id owner s).1.lease
  unfolding send_task_as
  is_free-send_task_as j s v =
      let v' = ensure_session-IsValid a env.now task.context_id owner s v in
      elim (Result-cases (ensure_session a env.now task.context_id owner s).0) [
        | inl (id, e) ↦ ground (
          arith,
          is_free-under_lease id j (ensure_session a env.now task.context_id owner s).1 v',
        )
        | inr (x, e) ↦ ground arith
      ]
