-- ===== src/Core/StdioAgent/Calls/Sound.antt =====
-- core/src/stdio_agent.rs: the calls of an agent at every step: ids are given out once, and an
-- answered call no longer waits.
use acp_a2a_gateway.Prelude.{
  ℕ, String, ◌<◌, ◌≡◌, refl, Bool, true, false, Option, none, some, List, [], ◌∷◌, ◌⊎◌, ltb, not,
  if◌then◌else◌, is_some, and_then, ok, err, Option-cases, Bool-cases, inl, inr, Result, arith,
}
use acp_a2a_gateway.Prelude.Ids
use acp_a2a_gateway.Prelude.Ids.{Ids, lookup-insert, lookup-remove}
use acp_a2a_gateway.Protocol.Json.{Value, get, as_u64}
use acp_a2a_gateway.Protocol.Acp.{ContentBlock}
use acp_a2a_gateway.Core.StdioAgent.{
  StdioAcpAgent, Outcome, failure, outcome_of, resolve, send_request, begin_call, forget, notify,
  handle_line, reply_method_not_found, collect_session_update, close, drain, spawned,
}
use acp_a2a_gateway.Core.StdioAgent.Prompts.{
  open_channel, close_channel, begin_prompt, begin_stream,
}
use acp_a2a_gateway.Core.StdioAgent.Steps.{
  Event, line, eof, call, expire, tell, prompt, stream, end_turn, step, run,
}
use acp_a2a_gateway.Core.StdioAgent.Calls.{answered_id}

-- An id that has not been given out is not in use, and an answered call does not wait.
abbrev pub SoundIn : ℕ → ℕ → Ids (Unit {0}) → Ids Outcome → Type 0
SoundIn k next_id pending answers =
    (if is_some (Ids.lookup k answers)
      then (if ltb k next_id then not (is_some (Ids.lookup k pending)) else false)
      else (if is_some (Ids.lookup k pending) then ltb k next_id else true))
    ≡ true

abbrev pub SoundAt : ℕ → StdioAcpAgent → Type 0
SoundAt k s = SoundIn k s.next_id s.pending s.answers

pub lookup-drain :
    (k : ℕ) (waiting : Ids (Unit {0})) (answers : Ids Outcome)
    → Ids.lookup k (drain waiting answers) ≡ (
        if is_some (Ids.lookup k waiting)
        then some (failure "agent stdout closed (process exited)")
        else Ids.lookup k answers)
unfolding drain Ids.lookup
lookup-drain k [] answers = refl
lookup-drain k ((j, u) ∷ w) answers = ground (
  arith,
  lookup-drain k w answers,
  lookup-insert j k (failure "agent stdout closed (process exited)") (drain w answers),
)

-- What a step does to the calls of an agent.
pub send_lem :
    (k : ℕ) (delivered : Bool) (method : String) (params : Value) (s : StdioAcpAgent)
    → SoundAt k s
    → SoundAt k (send_request delivered method params s).1
unfolding send_request
send_lem k delivered method params s h = ground (arith, lookup-insert s.next_id k tt s.pending)

resolve_lem : (k id : ℕ) (v : Value) (s : StdioAcpAgent) → SoundAt k s → SoundAt k (resolve id v s)
unfolding resolve
resolve_lem k id v s h =
    ground (arith, lookup-remove id k s.pending, lookup-insert id k (outcome_of v) s.answers)

-- What a step leaves alone: writes, channels.
unfoldable pub SameCalls : StdioAcpAgent → StdioAcpAgent → Type 0
SameCalls s t = (t.next_id ≡ s.next_id) × (t.pending ≡ s.pending) × (t.answers ≡ s.answers)

collect_lem :
    (read_block : Value → Option ContentBlock) (v : Value) (s : StdioAcpAgent)
    → SameCalls s (collect_session_update read_block v s)
unfolding SameCalls collect_session_update
collect_lem read_block v s = ground arith

reply_lem :
    (delivered : Bool) (id v : Value) (s : StdioAcpAgent)
    → SameCalls s (reply_method_not_found delivered id v s)
unfolding SameCalls reply_method_not_found
reply_lem delivered id v s = ground arith

pub notify_lem :
    (alive : Result (Unit {0})) (delivered : Bool) (method : String) (params : Value)
    (s : StdioAcpAgent)
    → SameCalls s (notify alive delivered method params s).1
unfolding SameCalls notify
notify_lem (err e) delivered method params s = (refl, refl, refl)
notify_lem (ok u) delivered method params s = ground arith

close_lem :
    (k n : ℕ) (p : Ids (Unit {0})) (a : Ids Outcome) → SoundIn k n p a → SoundIn k n [] (drain p a)
unfolding Ids.lookup
close_lem k n p a h = ground (arith, lookup-drain k p a)

SameCalls-SoundAt : (k : ℕ) (s t : StdioAcpAgent) → SameCalls s t → SoundAt k s → SoundAt k t
unfolding SameCalls
SameCalls-SoundAt k s t e h = rw e.0 (rw e.1 (rw e.2 h))

pub spawned_lem : (k : ℕ) → SoundAt k spawned
unfolding spawned Ids.lookup
spawned_lem k = refl

module _ (read_block : Value → Option ContentBlock) where
  -- A line answers the call with its id, or no call.
  pub handle_line_cases :
      (delivered : Bool) (v : Value) (s : StdioAcpAgent)
      → ((answered_id v ≡ none) × SameCalls s (handle_line read_block delivered v s))
        ⊎ ((id : ℕ) × (answered_id v ≡ some id)
            × (handle_line read_block delivered v s ≡ resolve id v s))
  unfolding handle_line answered_id SameCalls
  handle_line_cases delivered v s = elim (Bool-cases (is_some (get v "method"))) [
    | inl m ↦ elim (Option-cases (get v "id")) [
      | inl i ↦ inl (rw m refl, rw m (rw i (collect_lem read_block v s)))
      | inr (i, e) ↦ inl (rw m refl, rw m (rw e (reply_lem delivered i v s)))
    ]
    | inr m ↦ elim (Option-cases (and_then (get v "id") as_u64)) [
      | inl i ↦ inl (rw m i, rw m (rw i (refl, refl, refl)))
      | inr (i, e) ↦ inr (i, rw m e, rw m (rw e refl))
    ]
  ]

  pub step-SoundAt :
      (k : ℕ) (e : Event) (s : StdioAcpAgent) → SoundAt k s → SoundAt k (step read_block e s)
  unfolding step handle_line SameCalls begin_call forget close notify begin_prompt begin_stream
      open_channel close_channel
  step-SoundAt k (line delivered v) s h = elim (handle_line_cases delivered v s) [
    | inl (_, same) ↦ SameCalls-SoundAt k s (handle_line read_block delivered v s) same h
    | inr (id, _, e) ↦ rw e (resolve_lem k id v s h)
  ]
  step-SoundAt k eof s h = close_lem k s.next_id s.pending s.answers h
  step-SoundAt k (call (err e) delivered method params) s h = h
  step-SoundAt k (call (ok u) delivered method params) s h = send_lem k delivered method params s h
  step-SoundAt k (expire id) s h = ground (arith, lookup-remove id k s.pending)
  step-SoundAt k (tell alive delivered method params) s h = ground arith
  step-SoundAt k (prompt (err e) delivered session params) s h = h
  step-SoundAt k (prompt (ok u) delivered session params) s h =
      send_lem k delivered "session/prompt" params (open_channel session s).1 h
  step-SoundAt k (stream delivered session params) s h =
      send_lem k delivered "session/prompt" params (open_channel session s).1 h
  step-SoundAt k (end_turn session opened) s h = h

  pub run-SoundAt :
      (k : ℕ) (es : List Event) (s : StdioAcpAgent) → SoundAt k s → SoundAt k (run read_block es s)
  unfolding run
  run-SoundAt k [] s h = h
  run-SoundAt k (e ∷ es) s h = run-SoundAt k es (step read_block e s) (step-SoundAt k e s h)

  pub next_id_grows :
      (k : ℕ) (e : Event) (s : StdioAcpAgent) → k < s.next_id → k < (step read_block e s).next_id
  unfolding step SameCalls resolve begin_call begin_prompt begin_stream open_channel send_request
      notify forget close close_channel
  next_id_grows k (line delivered v) s h = elim (handle_line_cases delivered v s) [
    | inl (_, same) ↦ rw same.0 h
    | inr (id, _, e) ↦ rw e (ground arith)
  ]
  next_id_grows k eof s h = h
  next_id_grows k (call (err e) delivered method params) s h = h
  next_id_grows k (call (ok u) delivered method params) s h = ground arith
  next_id_grows k (expire id) s h = h
  next_id_grows k (tell alive delivered method params) s h = ground arith
  next_id_grows k (prompt (err e) delivered session params) s h = h
  next_id_grows k (prompt (ok u) delivered session params) s h = ground arith
  next_id_grows k (stream delivered session params) s h = ground arith
  next_id_grows k (end_turn session opened) s h = h
