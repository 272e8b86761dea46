-- ===== src/Core/StdioAgent/Channels/Stale.antt =====
-- core/src/stdio_agent.rs: the end of an earlier stream takes the channel of a later one away.
use mathlib.Core.List.{append-nil}
use acp_a2a_gateway.Prelude.{
  ℕ, ◌<◌, ◌≡◌, refl, sym, ap, subst, ◌∙◌, Bool, true, false, Option, List, [], ◌∷◌, ◌++◌, get_or,
}
use acp_a2a_gateway.Prelude.Ids
use acp_a2a_gateway.Prelude.Ids.{Ids}
use acp_a2a_gateway.Protocol.Json.{Value}
use acp_a2a_gateway.Protocol.Acp.{ContentBlock, SessionId}
use acp_a2a_gateway.Core.StdioAgent.{StdioAcpAgent, send_request, spawned}
use acp_a2a_gateway.Core.StdioAgent.Prompts.{open_channel, close_channel, begin_stream}
use acp_a2a_gateway.Core.StdioAgent.Steps.{Event, stream, end_turn, step, run}
use acp_a2a_gateway.Core.StdioAgent.Channels.{Leaves, chunks_for, sent}
use acp_a2a_gateway.Core.StdioAgent.Channels.Routes.{
  SameRoutes, send_lem, Same-Serves, opened-Serves, ended-Serves, opened_sent, Serves,
}
use acp_a2a_gateway.Core.StdioAgent.Channels.Delivery.{
  step-Serves, run-sent, opened-IsFresh, stream_carries,
}

module _ (read_block : Value → Option ContentBlock) where
  run-append :
      (xs ys : List Event) (s : StdioAcpAgent)
      → run read_block (xs ++ ys) s ≡ run read_block ys (run read_block xs s)
  unfolding run
  run-append [] ys s = refl
  run-append (x ∷ xs) ys s = run-append xs ys (step read_block x s)

  -- A stream whose turn another one ends.
  muted :
      (before : List Event) (delivered : Bool) (session : SessionId) (params : Value) (ending : ℕ)
      (es : List Event)
      → Leaves session es
      → sent (run read_block before spawned).next_channel (
          run read_block
            (stream delivered session params ∷ end_turn session ending ∷ es)
            (run read_block before spawned))
        ≡ []
  unfolding run step begin_stream SameRoutes open_channel close_channel
  muted before delivered session params ending es l =
      let s : StdioAcpAgent = run read_block before spawned in
      let opened : StdioAcpAgent = (open_channel session s).1 in
      let prompted : StdioAcpAgent = (send_request delivered "session/prompt" params opened).1 in
      let same : SameRoutes opened prompted = send_lem delivered "session/prompt" params opened in
      run-sent read_block false session s.next_channel es (close_channel session prompted) l (
        ended-Serves session s.next_channel prompted (
          Same-Serves true session s.next_channel opened prompted same
            (opened-Serves session s (opened-IsFresh read_block before))))
      ∙ append-nil (sent s.next_channel prompted)
      ∙ (ap (λ m. get_or (Ids.lookup s.next_channel m) []) same.1
          ∙ opened_sent s (opened-IsFresh read_block before))

  run-Serves :
      (session : SessionId) (c : ℕ) (es : List Event) (s : StdioAcpAgent)
      → Leaves session es
      → Serves true session c s
      → Serves true session c (run read_block es s)
  unfolding run
  run-Serves session c [] s l h = h
  run-Serves session c (e ∷ es) s l h =
      run-Serves session c es (step read_block e s) l.1
        (step-Serves read_block true session c e s l.0 h)

  streaming-Serves :
      (before : List Event) (delivered : Bool) (session : SessionId) (params : Value)
      → Serves true session
          (run read_block before spawned).next_channel
          (step read_block (stream delivered session params) (run read_block before spawned))
  unfolding step begin_stream SameRoutes open_channel
  streaming-Serves before delivered session params =
      let s : StdioAcpAgent = run read_block before spawned in
      let opened : StdioAcpAgent = (open_channel session s).1 in
      Same-Serves true session s.next_channel opened
        (send_request delivered "session/prompt" params opened).1
        (send_lem delivered "session/prompt" params opened)
        (opened-Serves session s (opened-IsFresh read_block before))

  -- Two streams of one session, the second begun while the first has not ended: the second has a
  -- channel of its own, which carries the chunks of the session as long as no turn of the session
  -- ends and no further one begins; but if the turn that ends at once is the first, whose channel
  -- is another, the second gets no chunk on its channel from then on, whatever the agent sends, as
  -- long as no further turn of the session begins or ends.
  pub stale_stream_mutes :
      (before between es : List Event) (delivered delivered' : Bool) (session : SessionId)
      (params params' : Value)
      → Leaves session between
      → Leaves session es
      → let earlier = (run read_block before spawned).next_channel in
        let s = run read_block (before ++ stream delivered session params ∷ between) spawned in
        (earlier < s.next_channel)
        × (sent s.next_channel (run read_block (stream delivered' session params' ∷ es) s)
            ≡ chunks_for read_block session es)
        × (sent s.next_channel
              (run read_block (stream delivered' session params' ∷ end_turn session earlier ∷ es) s)
            ≡ [])
  stale_stream_mutes before between es delivered delivered' session params params' lb le =
      let s0 = run read_block before spawned in
      let begun = before ++ stream delivered session params ∷ between in
      let serves =
        run-Serves session s0.next_channel between
          (step read_block (stream delivered session params) s0) lb
          (streaming-Serves before delivered session params) in
      (
        subst (λ t. s0.next_channel < t.next_channel)
            (sym (run-append before (stream delivered session params ∷ between) spawned))
            (unfold run in serves.0),
        stream_carries read_block begun delivered' session params' es le,
        muted begun delivered' session params' s0.next_channel es le,
      )
