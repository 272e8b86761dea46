-- ===== src/Core/StdioAgent/Channels/Delivery.antt =====
-- core/src/stdio_agent.rs: the channel of a stream carries the chunks of its turn.
use mathlib.Core.List.{append-nil, append_assoc}
use acp_a2a_gateway.Prelude.{
  ℕ, ◌≡◌, refl, sym, ap, ◌∙◌, Bool, true, false, Option, none, List, [], ◌∷◌, ◌++◌, ◌⊎◌,
  if◌then◌else◌, is_some, get_or, and_then, ok, err, Option-cases, Bool-cases, inl, inr, lookup,
}
use acp_a2a_gateway.Prelude.Ids
use acp_a2a_gateway.Prelude.Ids.{Ids}
use acp_a2a_gateway.Protocol.Json.{Value, get, as_u64}
use acp_a2a_gateway.Protocol.Acp.{ContentBlock, SessionUpdate, SessionId}
use acp_a2a_gateway.Core.StdioAgent.{
  StdioAcpAgent, send_request, begin_call, forget, notify, handle_line, collect_session_update,
  session_chunk, close, spawned,
}
use acp_a2a_gateway.Core.StdioAgent.Prompts.{
  open_channel, close_channel, begin_prompt, begin_stream,
}
use acp_a2a_gateway.Core.StdioAgent.Steps.{
  Event, line, eof, call, expire, tell, prompt, stream, end_turn, step, run,
}
use acp_a2a_gateway.Core.StdioAgent.Channels.{
  leaves, Leaves, wanted, chunk_of_line, chunk_for, chunks_for, sent,
}
use acp_a2a_gateway.Core.StdioAgent.Channels.Routes.{
  SameRoutes, reply_lem, resolve_lem, send_lem, notify_lem, added, deliver-Serves, deliver-IsFresh,
  deliver-sent, Same-Serves, open-Serves, close-Serves, Same-IsFresh, open-IsFresh, close-IsFresh,
  opened-Serves, opened_sent, quiet_sent, IsFresh, Serves,
}

module _ (read_block : Value → Option ContentBlock) where
  handle_line_routes :
      (delivered : Bool) (v : Value) (s : StdioAcpAgent)
      → ((chunk_of_line read_block v ≡ none) × SameRoutes s (handle_line read_block delivered v s))
        ⊎ ((chunk_of_line read_block v ≡ session_chunk read_block v)
            × (handle_line read_block delivered v s ≡ collect_session_update read_block v s))
  unfolding handle_line chunk_of_line SameRoutes
  handle_line_routes delivered v s = elim (Bool-cases (is_some (get v "method"))) [
    | inl m ↦ elim (Option-cases (get v "id")) [
      | inl i ↦ inr (rw m (rw i refl), rw m (rw i refl))
      | inr (i, e) ↦ inl (rw m (rw e refl), rw m (rw e (reply_lem delivered i v s)))
    ]
    | inr m ↦ elim (Option-cases (and_then (get v "id") as_u64)) [
      | inl i ↦ inl (rw m refl, rw m (rw i (refl, refl, refl)))
      | inr (i, e) ↦ inl (rw m refl, rw m (rw e (resolve_lem i v s)))
    ]
  ]

  pub step-Serves :
      (live : Bool) (session : SessionId) (c : ℕ) (e : Event) (s : StdioAcpAgent)
      → leaves session e ≡ true
      → Serves live session c s
      → Serves live session c (step read_block e s)
  unfolding step leaves collect_session_update begin_call begin_prompt begin_stream notify forget
      close close_channel open_channel
  step-Serves live session c (line delivered v) s l h = elim (handle_line_routes delivered v s) [
    | inl (_, same) ↦ Same-Serves live session c s (handle_line read_block delivered v s) same h
    | inr (_, e) ↦ rw e (deliver-Serves live session c (session_chunk read_block v) s h)
  ]
  step-Serves live session c eof s l h = h
  step-Serves live session c (call (err e) delivered method params) s l h = h
  step-Serves live session c (call (ok u) delivered method params) s l h =
      Same-Serves live session c s _ (send_lem delivered method params s) h
  step-Serves live session c (expire id) s l h = h
  step-Serves live session c (tell alive delivered method params) s l h =
      Same-Serves live session c s _ (notify_lem alive delivered method params s) h
  step-Serves live session c (prompt (err e) delivered other params) s l h =
      open-Serves live session other c s l h
  step-Serves live session c (prompt (ok u) delivered other params) s l h =
      Same-Serves live session c (open_channel other s).1 _
        (send_lem delivered "session/prompt" params (open_channel other s).1)
        (open-Serves live session other c s l h)
  step-Serves live session c (stream delivered other params) s l h =
      Same-Serves live session c (open_channel other s).1 _
        (send_lem delivered "session/prompt" params (open_channel other s).1)
        (open-Serves live session other c s l h)
  step-Serves live session c (end_turn other opened) s l h = close-Serves live session other c s l h

  step-IsFresh : (e : Event) (s : StdioAcpAgent) → IsFresh s → IsFresh (step read_block e s)
  unfolding step collect_session_update begin_call begin_prompt begin_stream notify forget close
      close_channel open_channel
  step-IsFresh (line delivered v) s h = elim (handle_line_routes delivered v s) [
    | inl (_, same) ↦ Same-IsFresh s (handle_line read_block delivered v s) same h
    | inr (_, e) ↦ rw e (deliver-IsFresh (session_chunk read_block v) s h)
  ]
  step-IsFresh eof s h = h
  step-IsFresh (call (err e) delivered method params) s h = h
  step-IsFresh (call (ok u) delivered method params) s h =
      Same-IsFresh s _ (send_lem delivered method params s) h
  step-IsFresh (expire id) s h = h
  step-IsFresh (tell alive delivered method params) s h =
      Same-IsFresh s _ (notify_lem alive delivered method params s) h
  step-IsFresh (prompt (err e) delivered other params) s h = open-IsFresh other s h
  step-IsFresh (prompt (ok u) delivered other params) s h =
      Same-IsFresh (open_channel other s).1 _
        (send_lem delivered "session/prompt" params (open_channel other s).1)
        (open-IsFresh other s h)
  step-IsFresh (stream delivered other params) s h =
      Same-IsFresh (open_channel other s).1 _
        (send_lem delivered "session/prompt" params (open_channel other s).1)
        (open-IsFresh other s h)
  step-IsFresh (end_turn other opened) s h = close-IsFresh other s h

  run-IsFresh : (es : List Event) (s : StdioAcpAgent) → IsFresh s → IsFresh (run read_block es s)
  unfolding run
  run-IsFresh [] s h = h
  run-IsFresh (e ∷ es) s h = run-IsFresh es (step read_block e s) (step-IsFresh e s h)

  added_lem :
      (live : Bool) (session : SessionId) (delivered : Bool) (v : Value)
      (o : Option (SessionId × SessionUpdate))
      → chunk_of_line read_block v ≡ o
      → added live session o
        ≡ (if live then chunk_for read_block session (line delivered v) else [])
  unfolding added chunk_for
  added_lem live session delivered v o e = ap (λ t. if live then wanted session t else []) (sym e)

  step-sent :
      (live : Bool) (session : SessionId) (c : ℕ) (e : Event) (s : StdioAcpAgent)
      → Serves live session c s
      → sent c (step read_block e s)
        ≡ sent c s ++ (if live then chunk_for read_block session e else [])
  unfolding step chunk_for SameRoutes collect_session_update begin_call begin_prompt begin_stream
      notify forget close close_channel open_channel
  step-sent live session c (line delivered v) s h = elim (handle_line_routes delivered v s) [
    | inl (other, same) ↦
        quiet_sent live c s (handle_line read_block delivered v s)
          (chunk_for read_block session (line delivered v)) same.1 (rw other refl)
    | inr (it, e) ↦
        ap (sent c) e
        ∙ deliver-sent live session c (session_chunk read_block v) s h
        ∙ ap (λ us. sent c s ++ us)
            (added_lem live session delivered v (session_chunk read_block v) it)
  ]
  step-sent live session c eof s h = quiet_sent live c s (step read_block (eof) s) [] refl refl
  step-sent live session c (call (err e) delivered method params) s h =
      quiet_sent live c s (step read_block (call (err e) delivered method params) s) [] refl refl
  step-sent live session c (call (ok u) delivered method params) s h =
      quiet_sent live c s (step read_block (call (ok u) delivered method params) s) []
        (send_lem delivered method params s).1 refl
  step-sent live session c (expire id) s h =
      quiet_sent live c s (step read_block (expire id) s) [] refl refl
  step-sent live session c (tell alive delivered method params) s h =
      quiet_sent live c s (step read_block (tell alive delivered method params) s) []
        (notify_lem alive delivered method params s).1 refl
  step-sent live session c (prompt (err e) delivered other params) s h =
      quiet_sent live c s (step read_block (prompt (err e) delivered other params) s) [] refl refl
  step-sent live session c (prompt (ok u) delivered other params) s h =
      quiet_sent live c s (step read_block (prompt (ok u) delivered other params) s) []
        (send_lem delivered "session/prompt" params (open_channel other s).1).1 refl
  step-sent live session c (stream delivered other params) s h =
      quiet_sent live c s (step read_block (stream delivered other params) s) []
        (send_lem delivered "session/prompt" params (open_channel other s).1).1 refl
  step-sent live session c (end_turn other opened) s h =
      quiet_sent live c s (step read_block (end_turn other opened) s) [] refl refl

  pub run-sent :
      (live : Bool) (session : SessionId) (c : ℕ) (es : List Event) (s : StdioAcpAgent)
      → Leaves session es
      → Serves live session c s
      → sent c (run read_block es s)
        ≡ sent c s ++ (if live then chunks_for read_block session es else [])
  unfolding run chunks_for
  run-sent true session c [] s l h = sym (append-nil (sent c s))
  run-sent false session c [] s l h = sym (append-nil (sent c s))
  run-sent true session c (e ∷ es) s l h =
      run-sent true session c es (step read_block e s) l.1 (step-Serves true session c e s l.0 h)
      ∙ ap (λ us. us ++ chunks_for read_block session es) (step-sent true session c e s h)
      ∙ append_assoc (sent c s) (chunk_for read_block session e) (chunks_for read_block session es)
  run-sent false session c (e ∷ es) s l h =
      run-sent false session c es (step read_block e s) l.1 (step-Serves false session c e s l.0 h)
      ∙ ap (λ us. us ++ []) (step-sent false session c e s h)
      ∙ ap (λ us. us ++ []) (append-nil (sent c s))

  pub opened-IsFresh : (before : List Event) → IsFresh (run read_block before spawned)
  unfolding spawned lookup Ids.lookup
  opened-IsFresh before = run-IsFresh before spawned ((λ k. refl), (λ d. refl))

  -- Whatever has happened since the agent was spawned: as long as no turn of the session ends and
  -- no other begins, the channel that a streamed prompt has opened carries the chunks of that
  -- session, all of them, in the order of the agent's lines, and nothing else.
  pub stream_carries :
      (before : List Event) (delivered : Bool) (session : SessionId) (params : Value)
      (es : List Event)
      → Leaves session es
      → sent
          (run read_block before spawned).next_channel
          (run read_block (stream delivered session params ∷ es) (run read_block before spawned))
        ≡ chunks_for read_block session es
  unfolding run step begin_stream SameRoutes open_channel close_channel
  stream_carries before delivered session params es l =
      let s : StdioAcpAgent = run read_block before spawned in
      let opened : StdioAcpAgent = (open_channel session s).1 in
      let same : SameRoutes opened (send_request delivered "session/prompt" params opened).1 =
        send_lem delivered "session/prompt" params opened in
      run-sent true session s.next_channel es
        (send_request delivered "session/prompt" params opened).1 l
        (Same-Serves true session s.next_channel opened
          (send_request delivered "session/prompt" params opened).1 same
          (opened-Serves session s (opened-IsFresh before)))
      ∙ ap (λ us. us ++ chunks_for read_block session es)
          (ap (λ m. get_or (Ids.lookup s.next_channel m) []) same.1
            ∙ opened_sent s (opened-IsFresh before))
