-- ===== src/Core/AcpAsA2a/Bounds.antt =====
-- The number of conversations of an agent.
use acp_a2a_gateway.Prelude.{
  ℕ, ◌≤◌, ◌≡◌, List, [], ◌∷◌, arith, lookup, length, length-insert-le, length-insert-some,
  length-remove-le, length-retain-le, Result-cases, Option-cases, inl, inr,
}
use acp_a2a_gateway.Protocol.A2a.{Task, TaskId, ContextId}
use acp_a2a_gateway.Protocol.Acp.{SessionId}
use acp_a2a_gateway.Core.Owner.{Owner}
use acp_a2a_gateway.Core.Agent.{AcpAgent, Env}
use acp_a2a_gateway.Core.Lease.{acquire}
use acp_a2a_gateway.Core.Conversations.{
  with_session_ttl, is_live, evict_expired, resume, open_session, resume_or_open, ensure_session,
  max_sessions_per_agent, AcpAsA2a,
}
use acp_a2a_gateway.Core.AcpAsA2a.{
  store_and_return, answer, turn, under_lease, send_task_as, cancel_task_as, record_task_as,
}
use acp_a2a_gateway.Core.AcpAsA2a.Sessions.{fresh_entry}

abbrev pub IsBounded : AcpAsA2a → Type 0
IsBounded s = length s.sessions ≤ max_sessions_per_agent

module _ (a : AcpAgent) (now : ℕ) (context : ContextId) (owner : Owner) where
  resume_or_open-IsBounded :
      (s : AcpAsA2a) → IsBounded s → IsBounded (resume_or_open a now context owner s).1
  unfolding resume_or_open resume open_session
  resume_or_open-IsBounded s h = elim (Option-cases (lookup context s.sessions)) [
    | inl e ↦ elim (Result-cases a.new_session) [
      | inl (new, e') ↦
          ground (arith, length-insert-le context (fresh_entry a now owner new) s.sessions)
      | inr (x, e') ↦ ground arith
    ]
    | inr (old, e) ↦ ground (
      arith,
      length-insert-some context (record old { last_used = now }) old s.sessions,
      length-remove-le context s.sessions,
    )
  ]

  ensure_session-IsBounded :
      (s : AcpAsA2a) → IsBounded s → IsBounded (ensure_session a now context owner s).1
  unfolding ensure_session evict_expired
  ensure_session-IsBounded s h = ground (
    arith,
    length-retain-le (is_live s.session_ttl now) s.sessions,
    resume_or_open-IsBounded (evict_expired now s),
  )

module _ (env : Env) (a : AcpAgent) (owner : Owner) where
  -- Behind `ensure_session` nothing touches the session map.
  sessions-turn :
      (task : Task) (session : SessionId) (s : AcpAsA2a)
      → (turn env a owner task session s).1.sessions ≡ s.sessions
  unfolding turn answer store_and_return
  sessions-turn task session s = ground arith

  sessions-under_lease :
      (task : Task) (session : SessionId) (s : AcpAsA2a)
      → (under_lease env a owner task session s).1.sessions ≡ s.sessions
  unfolding under_lease
  sessions-under_lease task session s = elim (Result-cases (acquire session s.lease).0) [
    | inl (g, e) ↦
        ground
          (arith, sessions-turn task session (record s { lease = (acquire session s.lease).1 }))
    | inr (x, e) ↦ ground arith
  ]

  pub sessions-send_task_as :
      (task : Task) (s : AcpAsA2a)
      → (send_task_as env a owner task s).1.sessions
        ≡ (ensure_session a env.now task.context_id owner s).1.sessions
  unfolding send_task_as
  sessions-send_task_as task s =
      elim (Result-cases (ensure_session a env.now task.context_id owner s).0) [
        | inl (id, e) ↦ ground (
          arith,
          sessions-under_lease task id (ensure_session a env.now task.context_id owner s).1,
        )
        | inr (x, e) ↦ ground arith
      ]

  sessions-cancel_task_as :
      (id : TaskId) (s : AcpAsA2a) → (cancel_task_as env a owner id s).1.sessions ≡ s.sessions
  unfolding cancel_task_as store_and_return
  sessions-cancel_task_as id s = ground arith

-- The calls that a transport makes.
pub data Request : Type 0 where
  send : Env → AcpAgent → Owner → Task → Request
  cancel : Env → AcpAgent → Owner → TaskId → Request
  store : Env → Owner → Task → Request

unfoldable pub serve_one : Request → AcpAsA2a → AcpAsA2a
serve_one (send env a owner task) s = (send_task_as env a owner task s).1
serve_one (cancel env a owner id) s = (cancel_task_as env a owner id s).1
serve_one (store env owner task) s = (record_task_as env owner task s).1

unfoldable pub serve_all : List Request → AcpAsA2a → AcpAsA2a
serve_all [] s = s
serve_all (r ∷ rs) s = serve_all rs (serve_one r s)

serve_one-IsBounded : (r : Request) (s : AcpAsA2a) → IsBounded s → IsBounded (serve_one r s)
unfolding serve_one record_task_as
serve_one-IsBounded (send env a owner task) s h = ground (
  arith,
  sessions-send_task_as env a owner task s,
  ensure_session-IsBounded a env.now task.context_id owner s,
)
serve_one-IsBounded (cancel env a owner id) s h =
    ground (arith, sessions-cancel_task_as env a owner id s)
serve_one-IsBounded (store env owner task) s h = h

serve_all-IsBounded_lem :
    (rs : List Request) (s : AcpAsA2a) → IsBounded s → IsBounded (serve_all rs s)
unfolding serve_all
serve_all-IsBounded_lem [] s h = h
serve_all-IsBounded_lem (r ∷ rs) s h =
    serve_all-IsBounded_lem rs (serve_one r s) (serve_one-IsBounded r s h)

-- Whatever clients and agents do, a converter that starts empty never has more conversations
-- than `MAX_SESSIONS_PER_AGENT`.
pub serve_all-IsBounded :
    (ttl : ℕ) (rs : List Request) → IsBounded (serve_all rs (with_session_ttl ttl))
serve_all-IsBounded ttl rs =
    serve_all-IsBounded_lem rs (with_session_ttl ttl) (unfold with_session_ttl in omega arith)
