-- ===== src/Lib.antt =====
-- Verification of the ACP/A2A gateway: a model of its protocol conversion, its sessions, its
-- stores and its HTTP transport.
--
-- The gateway connects clients and agents of two protocols. `AcpAsA2a` shows an agent that speaks
-- ACP to clients of A2A: it keeps a conversation for each context, takes the lease of the
-- conversation for each turn, sends the prompt to the agent (which the supervisor keeps alive)
-- and files the answer in the task store. `A2aAsAcp` is the opposite direction, one for each
-- connection. Both translate content, states and streams by the same functions. Gatewayd lets
-- clients in by token, dispatches their requests to the adapter of an agent, bounds the streams of
-- each agent, and keeps the events of a stream in a log for clients that come back.
--
-- Prelude: the Boolean tests, lists, dictionaries (hash maps and directories by their keys, each
--   key once) and results that all parts use.
-- Protocol.Json: serde_json's `Value`. Numbers are integers; an object is its fields in order.
-- Protocol.A2a, Protocol.Acp: protocol/src/a2a.rs and acp.rs, type by type; Protocol.Handshake has
--   the types of `initialize` and their lenient readers.
-- Protocol.SdkCompat: protocol/src/a2a_sdk_compat.rs; RoundTrip has its proofs.
-- Core.Owner, Core.Agent, Core.Reply: core/src/owner.rs, agent.rs, reply.rs.
-- Core.Lease: core/src/lease.rs; `acquire`, `forget` and the guard's drop (`release`).
-- Core.TaskStore: core/src/task_store.rs; a directory is a map of files and one of half-written
--   files, and a `Fault` says where a write stops.
-- Core.Content, Core.TurnState, Core.Updates: the free functions of core/src/convert.rs and the
--   two tasks that it spawns to translate a stream.
-- Core.Conversations, Core.AcpAsA2a, Core.A2aAsAcp: the two converters of core/src/convert.rs; the
--   first two are one, its state with the conversations and its operations on tasks. An operation
--   takes the state and returns its result with the new state.
-- Core.Supervisor: core/src/supervisor.rs.
-- Core.Utf8: Rust's decoding of UTF-8, strict and lossy, and its white space; a text is the list of
--   its code points.
-- Core.Sse, Core.HttpAgent: core/src/http_agent.rs, the reader of server-sent events and the client;
--   `as_agent` makes it an agent for A2aAsAcp.
-- Core.StdioAgent: core/src/stdio_agent.rs. Its calls, its reader task and the tasks of its streams
--   share two maps; `begin_*` and `end_*` are a method before and behind its wait, `handle_line` is
--   a round of the reader task, and Steps interleaves them in any order.
-- Gatewayd.EventLog: the writer of gatewayd/src/event_log.rs; the table is the list of its rows.
-- Gatewayd.Registry, Gatewayd.Approvals: gatewayd/src/registry.rs and approvals.rs.
-- Gatewayd.Tcp: gatewayd/src/transport_tcp.rs, from the limited reader of lines to
--   `handle_http_target` (Serving), whose agent and clock are given for each line.
-- Gatewayd.Journal: the writer of gatewayd/src/journal.rs, and the command line's query.
-- Gatewayd.DialectProbe, Gatewayd.Passthrough: gatewayd/src/dialect_probe.rs and
--   transport_a2a_passthrough.rs; a handler returns its response, the cache and what it sent.
-- Gatewayd.Config: gatewayd/src/config.rs; its child Raw has the types of main.rs.
-- Gatewayd.Startup, DebugLevel, Logs: gatewayd/src/main.rs, from the configuration to the registry,
--   `/debug/level`, and the pruning of the log's directory, a list of files.
-- Gatewayd.Cli: gatewayd/src/cli.rs; a database is a table behind its path.
-- Gatewayd.Relay, Resubscribe, Requests, Dispatch, Detached, Responses, Adapters, Handlers,
--   Background: gatewayd/src/transport_http.rs, from the hub and `spawn_stream_relay` to
--   `rpc_handler` and `rest_send_message_core`.
-- Tests: values and runs of the model.
--
-- An operation of a converter holds no lock between its steps but the lease, so steps of several
-- turns interleave; where that matters the steps are definitions of their own (`touch_session`,
-- `acquire`, `cancel`). A mutex is a number, and the map and the guards share it, as the source
-- shares an `Arc`: `forget` drops the map's reference only. Waiting for a lease ends with the
-- mutex free, or with the budget used up while it is held.
--
-- Outside the model, as parameters: the agents (by their answers to the calls of an operation),
-- the clock, the disk's failures, how much of a stream its receiver takes (`room`, the number of
-- items sent before it goes away), HMAC, serde's parsing and printing, SQLite's file size and its
-- refusals, what the hub delivers to a subscriber (`Live`). Time is a number in the unit of the
-- source's `Duration`; a difference of times stops at 0, as `duration_since` does; the journal's
-- cutoff wraps at 64 bits, as a release build does. Counters (generations, ids, sequence numbers) do
-- not wrap; the source's are 64 bits wide. The number that a client names is cast to an i64, as the
-- source does (`is_after`), and results on the log ask that its numbers are below 2 ^ 63. A loop over a text or over bytes runs for as many rounds
-- as there are characters, each of which takes at least one; that this is enough is among the
-- results for the reader of events (`frames_ends`) and for a connection that is passed through
-- (`pass_through_verbatim`).
--
-- Not modelled: the HTTP client, the listener of TCP connections and the child processes, which are
-- I/O; the agent cards; in main.rs the creation of the databases, the set-up of logging and the
-- tasks that are spawned; health.rs and the monitor of the log, whose percentages are
-- floating-point numbers; the layout of what the commands print; setup.rs, a dialogue.
pub mod Prelude
pub mod Protocol
pub mod Core
pub mod Gatewayd
pub mod Tests
