-- ===== src/Core/StdioAgent/Calls/Answered.antt =====
-- core/src/stdio_agent.rs: a call is answered by the first response with its id, and by nothing
-- else, however the steps of other calls interleave.
use acp_a2a_gateway.Prelude.{
  ℕ, String, ◌<◌, ◌≡◌, refl, sym, ap, ◌∙◌, Bool, Option, none, some, List, [], ◌∷◌, ok, err, inl,
  inr, arith,
}
use acp_a2a_gateway.Prelude.Ids
use acp_a2a_gateway.Prelude.Ids.{Ids, lookup-insert, lookup-remove}
use acp_a2a_gateway.Protocol.Json.{Value}
use acp_a2a_gateway.Protocol.Acp.{ContentBlock}
use acp_a2a_gateway.Core.StdioAgent.{
  StdioAcpAgent, outcome_of, resolve, send_request, begin_call, forget, notify, handle_line, close,
  spawned,
}
use acp_a2a_gateway.Core.StdioAgent.Prompts.{
  open_channel, close_channel, begin_prompt, begin_stream,
}
use acp_a2a_gateway.Core.StdioAgent.Steps.{
  Event, line, eof, call, expire, tell, prompt, stream, end_turn, step, run,
}
use acp_a2a_gateway.Core.StdioAgent.Calls.{
  Call, gone, waiting, answered, view, answered_id, follow, follow_all,
}
use acp_a2a_gateway.Core.StdioAgent.Calls.Sound.{
  SoundAt, SameCalls, lookup-drain, send_lem, notify_lem, handle_line_cases, step-SoundAt,
  run-SoundAt, next_id_grows, spawned_lem,
}

unmoved : (k : ℕ) (e : Event) (c : Call) → follow k e waiting ≡ waiting → follow k e c ≡ c
unfolding follow
unmoved k e gone h = refl
unmoved k e waiting h = h
unmoved k e (answered o) h = refl

line-other :
    (k : ℕ) (delivered : Bool) (v : Value) (c : Call)
    → answered_id v ≡ none
    → follow k (line delivered v) c ≡ c
unfolding follow
line-other k delivered v c h = unmoved k (line delivered v) c (rw h refl)

view-SameCalls : (k : ℕ) (s t : StdioAcpAgent) → SameCalls s t → view k t ≡ view k s
unfolding view SameCalls
view-SameCalls k s t e = rw (e.1, e.2) refl

view-resolve :
    (k id : ℕ) (delivered : Bool) (v : Value) (s : StdioAcpAgent)
    → SoundAt k s
    → answered_id v ≡ some id
    → view k (resolve id v s) ≡ follow k (line delivered v) (view k s)
unfolding view resolve follow
view-resolve k id delivered v s h it =
    ground (arith, it, lookup-remove id k s.pending, lookup-insert id k (outcome_of v) s.answers)

view-close : (k : ℕ) (s : StdioAcpAgent) → SoundAt k s → view k (close s) ≡ follow k eof (view k s)
unfolding view close follow Ids.lookup
view-close k s h = ground (arith, lookup-drain k s.pending s.answers)

view-forget :
    (k id : ℕ) (s : StdioAcpAgent) → view k (forget id s) ≡ follow k (expire id) (view k s)
unfolding view forget follow
view-forget k id s = ground (arith, lookup-remove id k s.pending)

view-send :
    (k : ℕ) (delivered : Bool) (method : String) (params : Value) (s : StdioAcpAgent)
    → k < s.next_id
    → view k (send_request delivered method params s).1 ≡ view k s
unfolding view send_request
view-send k delivered method params s h = ground (arith, lookup-insert s.next_id k tt s.pending)

view-sent :
    (delivered : Bool) (method : String) (params : Value) (s : StdioAcpAgent)
    → SoundAt s.next_id s
    → view s.next_id (send_request delivered method params s).1 ≡ waiting
unfolding view send_request
view-sent delivered method params s h =
    ground (arith, lookup-insert s.next_id s.next_id tt s.pending)

sent_grows :
    (delivered : Bool) (method : String) (params : Value) (s : StdioAcpAgent)
    → s.next_id < (send_request delivered method params s).1.next_id
unfolding send_request
sent_grows delivered method params s = ground arith

module _ (read_block : Value → Option ContentBlock) where
  -- One step, as one call sees it.
  view-step :
      (k : ℕ) (e : Event) (s : StdioAcpAgent)
      → k < s.next_id
      → SoundAt k s
      → view k (step read_block e s) ≡ follow k e (view k s)
  unfolding step follow begin_call begin_prompt begin_stream notify close_channel open_channel
      forget close view
  view-step k (line delivered v) s lt h = elim (handle_line_cases read_block delivered v s) [
    | inl (other, same) ↦
        view-SameCalls k s (handle_line read_block delivered v s) same
        ∙ sym (line-other k delivered v (view k s) other)
    | inr (id, it, e) ↦ ap (view k) e ∙ view-resolve k id delivered v s h it
  ]
  view-step k eof s lt h = view-close k s h
  view-step k (call (err e) delivered method params) s lt h =
      sym (unmoved k (call (err e) delivered method params) (view k s) refl)
  view-step k (call (ok u) delivered method params) s lt h =
      view-send k delivered method params s lt
      ∙ sym (unmoved k (call (ok u) delivered method params) (view k s) refl)
  view-step k (expire id) s lt h = view-forget k id s
  view-step k (tell alive delivered method params) s lt h =
      view-SameCalls k s (notify alive delivered method params s).1
        (notify_lem alive delivered method params s)
      ∙ sym (unmoved k (tell alive delivered method params) (view k s) refl)
  view-step k (prompt (err e) delivered session params) s lt h =
      sym (unmoved k (prompt (err e) delivered session params) (view k s) refl)
  view-step k (prompt (ok u) delivered session params) s lt h =
      view-send k delivered "session/prompt" params (open_channel session s).1 lt
      ∙ sym (unmoved k (prompt (ok u) delivered session params) (view k s) refl)
  view-step k (stream delivered session params) s lt h =
      view-send k delivered "session/prompt" params (open_channel session s).1 lt
      ∙ sym (unmoved k (stream delivered session params) (view k s) refl)
  view-step k (end_turn session opened) s lt h =
      sym (unmoved k (end_turn session opened) (view k s) refl)

  -- However the steps of all callers and of the reader task interleave, a call that has its id sees
  -- this alone: while it waits, the first line without a method and with its id answers it with
  -- what that line carries, the end of the output with an error, and its own timeout makes it give
  -- up; nothing else moves it, and what it has once been told stays. Requests of the agent with
  -- the same id, answers to other calls and new calls change nothing.
  pub call_sees :
      (k : ℕ) (es : List Event) (s : StdioAcpAgent)
      → k < s.next_id
      → SoundAt k s
      → view k (run read_block es s) ≡ follow_all k es (view k s)
  unfolding run follow_all
  call_sees k [] s lt h = refl
  call_sees k (e ∷ es) s lt h =
      call_sees k es (step read_block e s) (next_id_grows read_block k e s lt)
        (step-SoundAt read_block k e s h)
      ∙ ap (follow_all k es) (view-step k e s lt h)

  -- Whatever has happened since the agent was spawned, a call that starts while the process lives
  -- gets the next id and from then on sees what `follow` says, from waiting on, whatever comes.
  pub call_follows :
      (before : List Event) (delivered : Bool) (method : String) (params : Value) (es : List Event)
      → view (run read_block before spawned).next_id (
          run read_block
            (call (ok tt) delivered method params ∷ es)
            (run read_block before spawned))
        ≡ follow_all (run read_block before spawned).next_id es waiting
  unfolding run step begin_call
  call_follows before delivered method params es =
      let s : StdioAcpAgent = run read_block before spawned in
      let sound : SoundAt s.next_id s =
        run-SoundAt read_block s.next_id before spawned (spawned_lem s.next_id) in
      call_sees s.next_id es (send_request delivered method params s).1
        (sent_grows delivered method params s) (send_lem s.next_id delivered method params s sound)
      ∙ ap (follow_all s.next_id es) (view-sent delivered method params s sound)
