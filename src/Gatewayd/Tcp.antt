-- ===== src/Gatewayd/Tcp.antt =====
-- gatewayd/src/transport_tcp.rs: the lines of a connection, its handshake, and the connection to an
-- agent of the same protocol, which is passed through.
pub mod Serving
pub mod Verbatim
pub mod Lines
pub mod Answers
use acp_a2a_gateway.Prelude.{
  ℕ, zero, suc, String, Bool, true, false, Option, none, some, List, [], ◌∷◌, ◌++◌, ◌==◌, leb,
  if◌then◌else◌, Dict, length, Result, ok, err, line_too_long, invalid_utf8, invalid_handshake,
  handshake_timeout, token_rejected, unknown_agent,
}
use acp_a2a_gateway.Protocol.Json.{Value, str, obj, field, end}
use acp_a2a_gateway.Core.Utf8.{Text, trim, from_utf8}
use acp_a2a_gateway.Gatewayd.Registry.{Registry, AgentEntry, stdio, http, check_token, lookup_agent}

abbrev pub max_line_bytes : ℕ
max_line_bytes = 8_388_608

-- `reader.take(limit).read_line(..)`: the bytes through the first line feed, at most `limit`, and
-- the bytes behind them.
unfoldable pub take_line : (limit : ℕ) → List ℕ → List ℕ × List ℕ
take_line zero bytes = ([], bytes)
take_line (suc limit) [] = ([], [])
take_line (suc limit) (b ∷ bytes) =
    if b == 10 then (b ∷ [], bytes) else (b ∷ (take_line limit bytes).0, (take_line limit bytes).1)

-- The line's bytes and its text, and what is left of the input.
unfoldable pub read_line_limited : (limit : ℕ) → List ℕ → Result (List ℕ × Text × List ℕ)
unfolding take_line
read_line_limited limit input = elim (from_utf8 (take_line limit input).0) [
  | none ↦ err invalid_utf8
  | some line ↦
      if leb limit (length (take_line limit input).0)
      then err (line_too_long limit)
      else ok ((take_line limit input).0, line, (take_line limit input).1)
]

-- One direction of a connection that is passed through: the bytes that are written, and how it
-- ends. Every round takes a byte, so as many rounds as there are bytes are enough, and one to see
-- the end.
unfoldable pub pass : (rounds limit : ℕ) → List ℕ → List ℕ × Result (Unit {0})
unfolding read_line_limited
pass zero limit input = ([], ok tt)
pass (suc rounds) limit input = elim (read_line_limited limit input) [
  | err e ↦ ([], err e)
  | ok ([], line, rest) ↦ ([], ok tt)
  | ok (b ∷ bytes, line, rest) ↦
      (((b ∷ bytes) ++ (pass rounds limit rest).0), (pass rounds limit rest).1)
]

unfoldable pub pass_through : List ℕ → List ℕ × Result (Unit {0})
unfolding pass
pass_through input = pass (suc (length input)) max_line_bytes input

pub record Handshake : Type 0 where
  pub token : String
  pub agent_id : String

-- Where a connection goes behind its handshake.
pub data Target : Type 0 where
  passthrough : List String → Option String → Dict String → Target
  -- url, push token, agent
  agent : String → Option String → String → Target

target_of : String → AgentEntry → Target
target_of agent_id entry = elim entry.transport [
  | stdio command cwd env ↦ passthrough command cwd env
  | http url push_token ↦ agent url push_token agent_id
]

-- `handle_connection` up to the agent: what is written, the target or the error, and the input
-- behind the handshake. `in_time` is whether a line comes within HANDSHAKE_TIMEOUT, `from_str`
-- serde_json's reading.
unfoldable pub handle_connection :
    (in_time : Bool) (from_str : Text → Option Handshake)
    → Registry
    → List ℕ
    → List Value × Result (Target × List ℕ)
unfolding target_of read_line_limited
handle_connection false from_str registry input = ([], err handshake_timeout)
handle_connection true from_str registry input = elim (read_line_limited max_line_bytes input) [
  | err e ↦ ([], err e)
  | ok (bytes, line, rest) ↦ elim (from_str (trim line)) [
    | none ↦ ([], err invalid_handshake)
    | some h ↦
        if check_token h.token registry
        then elim (lookup_agent h.agent_id registry) [
          | none ↦ ([], err (unknown_agent h.agent_id))
          | some entry ↦ ([], ok (target_of h.agent_id entry, rest))
        ]
        else (obj (field "error" (str "invalid token") end) ∷ [], err (token_rejected h.agent_id))
  ]
]
