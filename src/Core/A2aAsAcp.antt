-- ===== src/Core/A2aAsAcp.antt =====
-- core/src/convert.rs, part 5: `A2aAsAcp`, by which a client of ACP sees an agent of A2A.
pub mod Initialize
pub mod Leaks
pub mod Turns
use Prim.Native.String.{◌++◌ as ◌+++◌}
use acp_a2a_gateway.Prelude.{
  ℕ, ◌-◌, String, Bool, not, Option, none, some, List, [], ◌∷◌, ◌++◌, map, ltb, leb, if◌then◌else◌,
  Dict, lookup, insert, remove, retain, dropped_keys, length, Result, ok, err, session_cap,
  unknown_session,
}
use acp_a2a_gateway.Protocol.A2a.{Task, TaskId, Message, Artifact, A2aEvent, submitted}
use acp_a2a_gateway.Protocol.Acp.{
  SessionId, PromptRequest, PromptResponse, ContentBlock, SessionUpdate,
}
use acp_a2a_gateway.Core.Reply.{Reply, complete, streaming}
use acp_a2a_gateway.Core.Content.{part_to_content_block, prompt_to_message}
use acp_a2a_gateway.Core.TurnState.{task_state_to_stop_reason}
use acp_a2a_gateway.Core.Updates.{relay_to_acp}
use acp_a2a_gateway.Core.Lease
use acp_a2a_gateway.Core.Lease.{TurnLease, acquire, release, forget, tracked_sessions}
use acp_a2a_gateway.Core.Agent.{A2aAgent, Env}

abbrev pub max_sessions_per_connection : ℕ
max_sessions_per_connection = 256

pub record A2aAsAcp : Type 0 where
  -- when each session was last used
  pub sessions : Dict ℕ
  pub lease : TurnLease
  pub session_ttl : ℕ

unfoldable pub with_session_ttl : ℕ → A2aAsAcp
with_session_ttl ttl = record { sessions = []; lease = Lease.empty; session_ttl = ttl }

abbrev pub is_live : (ttl now : ℕ) → SessionId → ℕ → Bool
is_live ttl now session last_used = not (ltb ttl (now - last_used))

forget_all : List SessionId → TurnLease → TurnLease
forget_all [] l = l
forget_all (k ∷ ks) l = forget_all ks (forget k l)

unfoldable pub evict_expired : ℕ → A2aAsAcp → A2aAsAcp
unfolding forget_all
evict_expired now s = record s {
  sessions = retain (is_live s.session_ttl now) s.sessions;
  lease = forget_all (dropped_keys (is_live s.session_ttl now) s.sessions) s.lease;
}

add_session : ℕ → SessionId → A2aAsAcp → Result (Unit {0}) × A2aAsAcp
add_session now session s =
    if leb max_sessions_per_connection (length s.sessions)
    then (err session_cap, s)
    else (ok tt, record s { sessions = insert session now s.sessions })

unfoldable pub register_session : ℕ → SessionId → A2aAsAcp → Result (Unit {0}) × A2aAsAcp
unfolding add_session
register_session now session s = add_session now session (evict_expired now s)

extend_session : ℕ → SessionId → A2aAsAcp → Result (Unit {0}) × A2aAsAcp
extend_session now session s = elim (lookup session s.sessions) [
  | none ↦ (err (unknown_session session), s)
  | some last_used ↦ (ok tt, record s { sessions = insert session now s.sessions })
]

unfoldable pub touch_session : ℕ → SessionId → A2aAsAcp → Result (Unit {0}) × A2aAsAcp
unfolding extend_session
touch_session now session s = extend_session now session (evict_expired now s)

unfoldable pub drop_session : SessionId → A2aAsAcp → A2aAsAcp
drop_session session s = record s {
  sessions = remove session s.sessions;
  lease = forget session s.lease;
}

unfoldable pub active_sessions : A2aAsAcp → ℕ
active_sessions s = length s.sessions

unfoldable pub leased_sessions : A2aAsAcp → ℕ
leased_sessions s = tracked_sessions s.lease

-- `suffix` is what `unique_suffix` draws from the clock and from /dev/urandom.
unfoldable pub new_session : ℕ → (suffix : String) → A2aAsAcp → Result SessionId × A2aAsAcp
new_session now suffix s =
    let id = "sess-" +++ suffix in
    let (r, s') = register_session now id s in (elim r [ err e ↦ err e | ok _ ↦ ok id ], s')

unfoldable pub task_of_prompt : Env → (suffix : String) → PromptRequest → Task
task_of_prompt env suffix req = record {
  id = req.session_id +++ ("-" +++ suffix);
  context_id = req.session_id;
  status = record {
    state = submitted;
    message = some (prompt_to_message req);
    timestamp = env.timestamp;
  };
  history = none;
  artifacts = none;
  metadata = none;
}

module _ (env : Env) where
  message_blocks : Option Message → List ContentBlock
  message_blocks none = []
  message_blocks (some m) = map (part_to_content_block env.to_string) m.parts

  artifact_blocks : List Artifact → List ContentBlock
  artifact_blocks [] = []
  artifact_blocks (x ∷ xs) = map (part_to_content_block env.to_string) x.parts ++ artifact_blocks xs

  optional_blocks : Option (List Artifact) → List ContentBlock
  unfolding artifact_blocks
  optional_blocks none = []
  optional_blocks (some xs) = artifact_blocks xs

  -- What `prompt` makes of the agent's reply.
  unfoldable pub answer : Reply Task A2aEvent → Result (Reply PromptResponse SessionUpdate)
  unfolding message_blocks optional_blocks
  answer (complete t) = elim (task_state_to_stop_reason t.status.state) [
    | err e ↦ err e
    | ok reason ↦ ok (
        complete (record {
          stop_reason = reason;
          content = message_blocks t.status.message ++ optional_blocks t.artifacts;
        }))
  ]
  answer (streaming events) = ok (streaming (relay_to_acp env.to_string env.room events))

  forward :
      A2aAgent → (suffix : String) → PromptRequest → Result (Reply PromptResponse SessionUpdate)
  unfolding answer
  forward a suffix req = elim (a.send_task (task_of_prompt env suffix req)) [
    | err e ↦ err e
    | ok reply ↦ answer reply
  ]

  -- The guard is dropped when the function returns, whatever it returns.
  under_lease :
      A2aAgent
      → (suffix : String) → PromptRequest
      → A2aAsAcp
      → Result (Reply PromptResponse SessionUpdate) × A2aAsAcp
  unfolding forward
  under_lease a suffix req s =
      let (g, lease) = acquire req.session_id s.lease in
      elim g [
        | err e ↦ (err e, record s { lease = lease })
        | ok guard ↦ (forward a suffix req, record s { lease = release guard lease })
      ]

  unfoldable pub prompt :
      A2aAgent
      → (suffix : String) → PromptRequest
      → A2aAsAcp
      → Result (Reply PromptResponse SessionUpdate) × A2aAsAcp
  unfolding under_lease
  prompt a suffix req s =
      let (r, s') = touch_session env.now req.session_id s in
      elim r [ err e ↦ (err e, s') | ok _ ↦ under_lease a suffix req s' ]

-- The session goes whatever the agent answers. The task that is cancelled has the session's name.
unfoldable pub cancel_target : SessionId → TaskId
cancel_target session = session

unfoldable pub cancel : A2aAgent → SessionId → A2aAsAcp → Result (Unit {0}) × A2aAsAcp
unfolding cancel_target
cancel a session s = (
  elim (a.cancel_task (cancel_target session)) [ err e ↦ err e | ok t ↦ ok tt ],
  drop_session session s,
)
