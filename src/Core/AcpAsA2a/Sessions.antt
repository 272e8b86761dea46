-- ===== src/Core/AcpAsA2a/Sessions.antt =====
-- Which conversation a request gets.
use acp_a2a_gateway.Prelude.{
  ℕ, ◌-◌, ◌≤◌, ◌≡◌, ◌≢◌, none, some, arith, eq_iff, lookup, retain, passing, lookup-insert,
  lookup-remove, lookup-retain, ok, err, foreign_context, context_lost, Option-cases, Result-cases,
  inl, inr,
}
use acp_a2a_gateway.Protocol.A2a.{ContextId}
use acp_a2a_gateway.Protocol.Acp.{SessionId}
use acp_a2a_gateway.Core.Owner.{Owner, owner_eq_iff}
use acp_a2a_gateway.Core.Agent.{AcpAgent}
use acp_a2a_gateway.Core.Conversations.{
  SessionEntry, is_live, evict_expired, resume, open_session, resume_or_open, ensure_session,
  AcpAsA2a,
}

abbrev pub fresh_entry : AcpAgent → ℕ → Owner → SessionId → SessionEntry
fresh_entry a now owner id = record {
  session_id = id;
  owner = owner;
  last_used = now;
  generation = a.generation;
}

module _ (a : AcpAgent) (now : ℕ) (context : ContextId) (owner : Owner) where
  open_session-entry :
      (s : AcpAsA2a) (id : SessionId)
      → (open_session a now context owner s).0 ≡ ok id
      → lookup context (open_session a now context owner s).1.sessions
        ≡ some (fresh_entry a now owner id)
  unfolding open_session
  open_session-entry s id h = elim (Result-cases a.new_session) [
    | inl (new, e) ↦ ground (
      arith,
      lookup-insert context context (fresh_entry a now owner new) s.sessions,
      eq_iff context context,
    )
    | inr (e', e) ↦ ground arith
  ]

  resume-entry :
      (s : AcpAsA2a) (old : SessionEntry) (id : SessionId)
      → (resume a now context owner old s).0 ≡ ok id
      → lookup context (resume a now context owner old s).1.sessions
        ≡ some (fresh_entry a now owner id)
  unfolding resume
  resume-entry s old id h = ground (
    arith,
    owner_eq_iff old.owner owner,
    lookup-insert context context (record old { last_used = now }) s.sessions,
    eq_iff context context,
  )

  resume_or_open-entry :
      (s : AcpAsA2a) (id : SessionId)
      → (resume_or_open a now context owner s).0 ≡ ok id
      → lookup context (resume_or_open a now context owner s).1.sessions
        ≡ some (fresh_entry a now owner id)
  unfolding resume_or_open
  resume_or_open-entry s id h = elim (Option-cases (lookup context s.sessions)) [
    | inl e ↦ ground (arith, open_session-entry s id)
    | inr (old, e) ↦ ground (arith, resume-entry s old id)
  ]

  -- A request that gets a session finds, from then on, its conversation under its own name: with
  -- that session, owned by the caller, in use now, and made in the agent process that is running.
  pub ensure_session-entry :
      (s : AcpAsA2a) (id : SessionId)
      → (ensure_session a now context owner s).0 ≡ ok id
      → lookup context (ensure_session a now context owner s).1.sessions
        ≡ some (fresh_entry a now owner id)
  unfolding ensure_session
  ensure_session-entry s id h = elim (Result-cases a.ensure_ready) [
    | inl (u, e) ↦ ground (arith, resume_or_open-entry (evict_expired now s) id)
    | inr (e', e) ↦ ground arith
  ]

  resume_or_open-other :
      (s : AcpAsA2a) (other : ContextId)
      → context ≢ other
      → lookup other (resume_or_open a now context owner s).1.sessions ≡ lookup other s.sessions
  unfolding resume_or_open resume open_session
  resume_or_open-other s other n = elim (Option-cases (lookup context s.sessions)) [
    | inl e ↦ elim (Result-cases a.new_session) [
      | inl (new, e') ↦ ground (
        arith,
        lookup-insert context other (fresh_entry a now owner new) s.sessions,
        eq_iff context other,
      )
      | inr (x, e') ↦ ground arith
    ]
    | inr (old, e) ↦ ground (
      arith,
      lookup-insert context other (record old { last_used = now }) s.sessions,
      lookup-remove context other s.sessions,
      eq_iff context other,
    )
  ]

  -- Whatever becomes of a request, every other conversation is as it was, unless it had been idle
  -- for longer than the time to live and is gone.
  pub ensure_session-other :
      (s : AcpAsA2a) (other : ContextId)
      → context ≢ other
      → lookup other (ensure_session a now context owner s).1.sessions
        ≡ passing (is_live s.session_ttl now other) (lookup other s.sessions)
  unfolding ensure_session evict_expired
  ensure_session-other s other n = elim (Result-cases a.ensure_ready) [
    | inl (u, e) ↦ ground (
      arith,
      resume_or_open-other (evict_expired now s) other n,
      lookup-retain (is_live s.session_ttl now) other s.sessions,
    )
    | inr (e', e) ↦ ground (arith, lookup-retain (is_live s.session_ttl now) other s.sessions)
  ]

  module _ (s : AcpAsA2a) (entry : SessionEntry) where
    -- A live conversation of another client is refused, and stays as it is.
    pub ensure_session-foreign :
        a.ensure_ready ≡ ok tt
        → lookup context s.sessions ≡ some entry
        → now - entry.last_used ≤ s.session_ttl
        → entry.owner ≢ owner
        → ((ensure_session a now context owner s).0 ≡ err foreign_context)
          × (lookup context (ensure_session a now context owner s).1.sessions ≡ some entry)
    unfolding ensure_session resume_or_open resume evict_expired
    ensure_session-foreign ready found live n = ground (
      arith,
      lookup-retain (is_live s.session_ttl now) context s.sessions,
      owner_eq_iff entry.owner owner,
    )

    -- A live conversation of the caller whose agent process is gone is reported lost, with both
    -- generations, and forgotten, so that the next request under its name opens it anew.
    pub ensure_session-lost :
        a.ensure_ready ≡ ok tt
        → lookup context s.sessions ≡ some entry
        → now - entry.last_used ≤ s.session_ttl
        → entry.owner ≡ owner
        → entry.generation ≢ a.generation
        → ((ensure_session a now context owner s).0
            ≡ err (context_lost entry.generation a.generation))
          × (lookup context (ensure_session a now context owner s).1.sessions ≡ none)
    unfolding ensure_session resume_or_open resume evict_expired
    ensure_session-lost ready found live same n = ground (
      arith,
      lookup-retain (is_live s.session_ttl now) context s.sessions,
      owner_eq_iff entry.owner owner,
      lookup-remove context context (retain (is_live s.session_ttl now) s.sessions),
      eq_iff context context,
    )
