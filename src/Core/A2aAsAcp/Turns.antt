-- ===== src/Core/A2aAsAcp/Turns.antt =====
-- Histories of a connection, an interleaving that leaks, and the task that a cancel names.
use acp_a2a_gateway.Prelude.{
  ℕ, String, ◌≡◌, List, [], ◌∷◌, none, arith, lookup, lookup-remove, eq_iff, ok,
}
use acp_a2a_gateway.Protocol.Acp.{SessionId, PromptRequest}
use acp_a2a_gateway.Core.Agent.{A2aAgent, Env}
use acp_a2a_gateway.Core.Lease.{acquire, forget}
use acp_a2a_gateway.Core.Lease.Exclusion.{lookup-entry}
use acp_a2a_gateway.Core.A2aAsAcp.{
  A2aAsAcp, with_session_ttl, touch_session, drop_session, new_session, prompt, cancel,
}
use acp_a2a_gateway.Core.A2aAsAcp.Leaks.{
  IsTidy, with_session_ttl-IsTidy, register_session-IsTidy, drop_session-IsTidy, prompt-IsTidy,
  locks-acquire,
}

-- The requests of a client of ACP.
pub data Call : Type 0 where
  opens : ℕ → String → Call
  prompts : Env → A2aAgent → String → PromptRequest → Call
  cancels : A2aAgent → SessionId → Call

unfoldable pub step : Call → A2aAsAcp → A2aAsAcp
step (opens now suffix) s = (new_session now suffix s).1
step (prompts env a suffix req) s = (prompt env a suffix req s).1
step (cancels a session) s = (cancel a session s).1

unfoldable pub run : List Call → A2aAsAcp → A2aAsAcp
run [] s = s
run (c ∷ cs) s = run cs (step c s)

step-IsTidy : (c : Call) (s : A2aAsAcp) → IsTidy s → IsTidy (step c s)
unfolding step new_session cancel
step-IsTidy (opens now suffix) s v = register_session-IsTidy now _ s v
step-IsTidy (prompts env a suffix req) s v = prompt-IsTidy env a suffix req s v
step-IsTidy (cancels a session) s v = drop_session-IsTidy session s v

run-IsTidy_lem : (cs : List Call) (s : A2aAsAcp) → IsTidy s → IsTidy (run cs s)
unfolding run
run-IsTidy_lem [] s v = v
run-IsTidy_lem (c ∷ cs) s v = run-IsTidy_lem cs (step c s) (step-IsTidy c s v)

-- Requests that do not overlap never leak: after any of them, every lease entry belongs to a
-- session that is open, and there are at most `MAX_SESSIONS_PER_CONNECTION` sessions.
pub run-IsTidy : (ttl : ℕ) (cs : List Call) → IsTidy (run cs (with_session_ttl ttl))
run-IsTidy ttl cs = run-IsTidy_lem cs (with_session_ttl ttl) (with_session_ttl-IsTidy ttl)

-- `prompt` looks the session up and then takes the lease, in two steps. If a cancel of the same
-- session comes between them, the lease entry outlives the session.
pub cancel_between_leaks :
    (now : ℕ) (session : SessionId) (s : A2aAsAcp)
    → let s' = drop_session session (touch_session now session s).1 in
      (touch_session now session s).0 ≡ ok tt
      → (lookup session s'.sessions ≡ none)
        × ¬ IsTidy (record s' { lease = (acquire session s'.lease).1 })
unfolding drop_session
cancel_between_leaks now session s h =
    let t = (touch_session now session s).1 in
    let gone = lookup-remove session session t.sessions in
    let l = forget session t.lease in
    (
      ground (arith, gone, eq_iff session session),
      λ v. ground (
        arith,
        v.no_leak session,
        gone,
        eq_iff session session,
        locks-acquire session l,
        lookup-entry session l,
      ),
    )
