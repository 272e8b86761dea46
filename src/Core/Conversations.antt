-- ===== src/Core/Conversations.antt =====
-- core/src/convert.rs, part 3: the state of `AcpAsA2a`, and its conversations. `ensure_session`
-- holds the session map's mutex throughout, so it is one step.
use acp_a2a_gateway.Prelude.{
  ℕ, ◌-◌, String, Bool, not, none, some, List, [], ◌∷◌, ◌==◌, ltb, leb, if◌then◌else◌, Dict, lookup,
  insert, remove, retain, dropped, length, Result, ok, err, foreign_context, foreign_task,
  session_cap, no_session, context_lost,
}
use acp_a2a_gateway.Protocol.A2a.{ContextId}
use acp_a2a_gateway.Protocol.Acp.{SessionId}
use acp_a2a_gateway.Core.Owner.{Owner, ◌=ᵒ◌}
use acp_a2a_gateway.Core.Lease
use acp_a2a_gateway.Core.Lease.{TurnLease, forget}
use acp_a2a_gateway.Core.TaskStore
use acp_a2a_gateway.Core.TaskStore.{TaskStore, OwnedTask}
use acp_a2a_gateway.Core.Agent.{AcpAgent}

pub record SessionEntry : Type 0 where
  pub session_id : SessionId
  pub owner : Owner
  pub last_used : ℕ
  -- the agent process in which the session was made
  pub generation : ℕ

abbrev pub max_sessions_per_agent : ℕ
max_sessions_per_agent = 256

pub record AcpAsA2a : Type 0 where
  pub sessions : Dict SessionEntry
  pub lease : TurnLease
  pub tasks : TaskStore
  pub session_ttl : ℕ

unfoldable pub with_session_ttl : ℕ → AcpAsA2a
with_session_ttl ttl = record {
  sessions = [];
  lease = Lease.empty;
  tasks = TaskStore.empty;
  session_ttl = ttl;
}

-- not idle for longer than the time to live
abbrev pub is_live : (ttl now : ℕ) → String → SessionEntry → Bool
is_live ttl now context e = not (ltb ttl (now - e.last_used))

unfoldable pub forget_all : List SessionEntry → TurnLease → TurnLease
forget_all [] l = l
forget_all (e ∷ es) l = forget_all es (forget e.session_id l)

-- The first part of `ensure_session`: idle conversations go, and their leases with them.
unfoldable pub evict_expired : ℕ → AcpAsA2a → AcpAsA2a
unfolding forget_all
evict_expired now s = record s {
  sessions = retain (is_live s.session_ttl now) s.sessions;
  lease = forget_all (dropped (is_live s.session_ttl now) s.sessions) s.lease;
}

-- A conversation that is there: of another client, of a dead process, or to go on with.
unfoldable pub resume :
    AcpAgent → ℕ → ContextId → Owner → SessionEntry → AcpAsA2a → Result SessionId × AcpAsA2a
resume a now context owner e s =
    if not (e.owner =ᵒ owner)
    then (err foreign_context, s)
    else if not (e.generation == a.generation)
    then (
      err (context_lost e.generation a.generation),
      record s { sessions = remove context s.sessions; lease = forget e.session_id s.lease },
    )
    else (
      ok e.session_id,
      record s { sessions = insert context (record e { last_used = now }) s.sessions },
    )

unfoldable pub open_session :
    AcpAgent → ℕ → ContextId → Owner → AcpAsA2a → Result SessionId × AcpAsA2a
open_session a now context owner s =
    if leb max_sessions_per_agent (length s.sessions)
    then (err session_cap, s)
    else elim a.new_session [
      | err e ↦ (err e, s)
      | ok id ↦ (
        ok id,
        record s {
          sessions =
              insert context
                (record {
                  session_id = id;
                  owner = owner;
                  last_used = now;
                  generation = a.generation;
                })
                s.sessions;
        },
      )
    ]

unfoldable pub resume_or_open :
    AcpAgent → ℕ → ContextId → Owner → AcpAsA2a → Result SessionId × AcpAsA2a
unfolding resume open_session
resume_or_open a now context owner s = elim (lookup context s.sessions) [
  | some e ↦ resume a now context owner e s
  | none ↦ open_session a now context owner s
]

unfoldable pub ensure_session :
    AcpAgent → ℕ → ContextId → Owner → AcpAsA2a → Result SessionId × AcpAsA2a
unfolding resume_or_open
ensure_session a now context owner s = elim a.ensure_ready [
  | err e ↦ (err e, evict_expired now s)
  | ok _ ↦ resume_or_open a now context owner (evict_expired now s)
]

unfoldable pub lookup_session : ContextId → Owner → AcpAsA2a → Result SessionId
lookup_session context owner s = elim (lookup context s.sessions) [
  | none ↦ err (no_session context)
  | some e ↦ if not (e.owner =ᵒ owner) then err foreign_context else ok e.session_id
]

unfoldable pub active_sessions : AcpAsA2a → ℕ
active_sessions s = length s.sessions

-- The owner on file, where there is one, is the caller.
unfoldable pub assert_owner_matches : OwnedTask → Owner → Result (Unit {0})
assert_owner_matches stored owner = elim stored.owner [
  | none ↦ ok tt
  | some recorded ↦ if not (recorded =ᵒ owner) then err foreign_task else ok tt
]

-- The conversation, while it is alive, is the caller's.
unfoldable pub assert_owns : ContextId → Owner → AcpAsA2a → Result (Unit {0})
assert_owns context owner s = elim (lookup context s.sessions) [
  | none ↦ ok tt
  | some e ↦ if not (e.owner =ᵒ owner) then err foreign_task else ok tt
]
