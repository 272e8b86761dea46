-- ===== src/Tests/AgentTests.antt =====
-- Agents behind HTTP and behind a pipe.
use acp_a2a_gateway.Prelude.{
  lookup, insert, remove, ◌<◌, ◌≡◌, refl, true, Option, none, some, [], ◌∷◌, ◌++◌, ok, map, take,
}
use acp_a2a_gateway.Protocol.Json.{Value, num, str, obj, field, end}
use acp_a2a_gateway.Protocol.A2a.{A2aEvent, message_event}
use acp_a2a_gateway.Protocol.Handshake.{code_points}
use acp_a2a_gateway.Protocol.Acp.{ContentBlock, agent_message_chunk}
use acp_a2a_gateway.Protocol.Acp
use acp_a2a_gateway.Core.Utf8.{Text, from_utf8_lossy, trim, strip, first_line, decoder}
use acp_a2a_gateway.Core.Sse.{bytes, read_error, split_frame, frames, data_line, sse_to_a2a_events}
use acp_a2a_gateway.Core.Sse.Frames.{joined, frames_ends}
use acp_a2a_gateway.Core.Sse.Chunks.{concat, events_of_text, sse_any_cut}
use acp_a2a_gateway.Core.StdioAgent.{StdioAcpAgent, session_chunk, spawned, answer}
use acp_a2a_gateway.Core.StdioAgent.Steps.{line, eof, call, stream, end_turn, run}
use acp_a2a_gateway.Core.StdioAgent.Calls.{answered, waiting, view, follow_all}
use acp_a2a_gateway.Core.StdioAgent.Calls.Answered.{call_follows}
use acp_a2a_gateway.Core.StdioAgent.Channels.{leaves, chunks_for, sent}
use acp_a2a_gateway.Core.StdioAgent.Channels.Delivery.{stream_carries}
use acp_a2a_gateway.Core.StdioAgent.Channels.Stale.{stale_stream_mutes}
use acp_a2a_gateway.Tests.Fixtures.{hello}

-- Every text is an event.
abbrev reading : Text → Option A2aEvent
reading t = some (message_event hello)

frames_ends_example :
    (split_frame (frames (code_points "data: 1\n\nda")).1 ≡ none)
    × (joined (frames (code_points "data: 1\n\nda")).0 ++ (frames (code_points "data: 1\n\nda")).1
        ≡ code_points "data: 1\n\nda")
frames_ends_example = frames_ends (code_points "data: 1\n\nda")

framed : frames (code_points "data: 1\n\nda") ≡ (code_points "data: 1" ∷ [], code_points "da")
unfolding frames
framed = refl

sse_any_cut_example :
    (sse_to_a2a_events reading 5 (map bytes (code_points "data: 1\n" ∷ code_points "\n" ∷ []))
      ≡ take 5 (
          events_of_text reading
            (from_utf8_lossy (concat (code_points "data: 1\n" ∷ code_points "\n" ∷ [])))))
    × (sse_to_a2a_events reading 5
          (map bytes (code_points "data: 1\n" ∷ code_points "\n" ∷ []) ++ (read_error ∷ []))
        ≡ take 5 (
            events_of_text reading
              (from_utf8_lossy (concat (code_points "data: 1\n" ∷ code_points "\n" ∷ [])))))
unfolding decoder
sse_any_cut_example =
    sse_any_cut reading 5 (code_points "data: 1\n" ∷ code_points "\n" ∷ []) [] (refl, (refl, tt))

-- The line of a frame that carries data, without its prefix.
data_trimmed : data_line (code_points "event: x\ndata:data: {} ") ≡ code_points "{}"
unfolding data_line trim strip first_line
data_trimmed = refl

-- A character that is cut in two becomes two replacements.
cut_character :
    (from_utf8_lossy (0xd0 ∷ []) ++ from_utf8_lossy (0xb0 ∷ []) ≡ 0xfffd ∷ 0xfffd ∷ [])
    × (from_utf8_lossy (0xd0 ∷ 0xb0 ∷ []) ≡ 0x430 ∷ [])
unfolding from_utf8_lossy
cut_character = (refl, refl)

-- A frame behind CRLF line ends is never found.
crlf : split_frame (code_points "data: 1\r\n\r\n") ≡ none
unfolding split_frame
crlf = refl

abbrev read_block : Value → Option ContentBlock
read_block v = some (Acp.ContentBlock.text "hi")

abbrev response : Value
response = obj (field "id" (num 1) (field "result" (num 7) end))

-- A request of the agent with the id of the gateway's own call.
abbrev agent_request : Value
agent_request = obj (field "id" (num 1) (field "method" (str "fs/read_text_file") end))

abbrev chunk_line : Value
chunk_line = obj (
    field "method" (str "session/update") (
      field "params"
        (obj (
          field "sessionId" (str "s") (
            field "update"
              (obj
                (field "sessionUpdate" (str "agent_message_chunk") (field "content" (num 0) end)))
              end)))
        end))

call_follows_example :
    view (run read_block [] spawned).next_id (
      run read_block
        (call (ok tt) true "initialize" (num 0) ∷ line true agent_request ∷ line true response ∷ [])
        (run read_block [] spawned))
    ≡ follow_all
        (run read_block [] spawned).next_id
        (line true agent_request ∷ line true response ∷ [])
        waiting
call_follows_example =
    call_follows read_block [] true "initialize" (num 0)
      (line true agent_request ∷ line true response ∷ [])

call_answered :
    follow_all 1 (line true agent_request ∷ line true response ∷ []) waiting
    ≡ answered (answer (num 7))
unfolding follow_all
call_answered = refl

stream_carries_example :
    sent (run read_block [] spawned).next_channel (
      run read_block
        (stream true "s" (num 0) ∷ line true chunk_line ∷ eof ∷ [])
        (run read_block [] spawned))
    ≡ chunks_for read_block "s" (line true chunk_line ∷ eof ∷ [])
unfolding leaves
stream_carries_example =
    stream_carries read_block [] true "s" (num 0) (line true chunk_line ∷ eof ∷ [])
      (refl, (refl, tt))

stream_carried :
    chunks_for read_block "s" (line true chunk_line ∷ eof ∷ [])
    ≡ agent_message_chunk none (Acp.ContentBlock.text "hi") ∷ []
unfolding chunks_for session_chunk
stream_carried = refl

abbrev streamed : StdioAcpAgent
streamed = run read_block (stream true "s" (num 0) ∷ line true chunk_line ∷ []) spawned

stale_stream_mutes_example :
    (0 < 1)
    × (sent 1 (run read_block (stream true "s" (num 0) ∷ line true chunk_line ∷ []) streamed)
        ≡ chunks_for read_block "s" (line true chunk_line ∷ []))
    × (sent 1 (
          run read_block
            (stream true "s" (num 0) ∷ end_turn "s" 0 ∷ line true chunk_line ∷ [])
            streamed)
        ≡ [])
unfolding leaves run lookup insert remove spawned
stale_stream_mutes_example =
    stale_stream_mutes read_block [] (line true chunk_line ∷ []) (line true chunk_line ∷ []) true
      true "s" (num 0) (num 0) (refl, tt) (refl, tt)
