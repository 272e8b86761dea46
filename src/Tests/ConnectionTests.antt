-- ===== src/Tests/ConnectionTests.antt =====
-- `A2aAsAcp`: sessions of a connection.
use acp_a2a_gateway.Prelude.{
  ◌≡◌, refl, Bool, none, [], ◌∷◌, lookup, insert, remove, retain, dropped_keys, err, external,
}
use acp_a2a_gateway.Protocol.Acp.{PromptRequest, text}
use acp_a2a_gateway.Core.Agent.{A2aAgent}
use acp_a2a_gateway.Core.Lease.{acquire}
use acp_a2a_gateway.Core.A2aAsAcp.{
  A2aAsAcp, with_session_ttl, touch_session, drop_session, evict_expired,
}
use acp_a2a_gateway.Core.A2aAsAcp.Leaks.{IsTidy}
use acp_a2a_gateway.Core.A2aAsAcp.Turns.{
  opens, prompts, cancels, run, run-IsTidy, cancel_between_leaks,
}
use acp_a2a_gateway.Tests.Fixtures.{env}

abbrev silent : A2aAgent
silent = record {
  card = err (external "down");
  send_task = λ t. err (external "down");
  get_task = λ id. err (external "down");
  cancel_task = λ id. err (external "down");
}

abbrev request : PromptRequest
request = record { session_id = "sess-1"; prompt = text "hi" ∷ [] }

run-IsTidy_example : IsTidy (
    run
      (opens 1 "1" ∷ prompts env silent "x" request ∷ cancels silent "sess-1" ∷ [])
      (with_session_ttl 500))
run-IsTidy_example =
    run-IsTidy 500 (opens 1 "1" ∷ prompts env silent "x" request ∷ cancels silent "sess-1" ∷ [])

abbrev opened : A2aAsAcp
opened = record {
  sessions = ("sess-1", 1) ∷ [];
  lease = record { locks = []; held = λ m. Bool.false; next = 0 };
  session_ttl = 500;
}

abbrev interrupted : A2aAsAcp
interrupted = drop_session "sess-1" (touch_session 2 "sess-1" opened).1

cancel_between_leaks_example :
    (lookup "sess-1" interrupted.sessions ≡ none)
    × ¬ IsTidy (record interrupted { lease = (acquire "sess-1" interrupted.lease).1 })
unfolding touch_session evict_expired retain dropped_keys lookup insert remove
cancel_between_leaks_example = cancel_between_leaks 2 "sess-1" opened refl
