-- ===== src/Core/Sse.antt =====
-- core/src/http_agent.rs, `sse_to_a2a_events`: the events of a stream of server-sent events, read
-- from the chunks of bytes in which the network delivers it.
pub mod Frames
pub mod Chunks
use acp_a2a_gateway.Prelude.{
  ℕ, zero, suc, ◌+◌, Option, none, some, List, [], ◌∷◌, ◌++◌, ◌==◌, if◌then◌else◌, length, take,
  map_option,
}
use acp_a2a_gateway.Protocol.A2a.{A2aEvent}
use acp_a2a_gateway.Core.Utf8.{Text, from_utf8_lossy, trim, strip, first_line}

-- "data:"
abbrev pub data_prefix : Text
data_prefix = b'd' ∷ b'a' ∷ b't' ∷ b'a' ∷ b':' ∷ []

-- `s.trim_start_matches("data:")`, which takes the prefix off as often as it is there. Each round
-- takes five characters, so as many rounds as there are characters are enough.
trim_prefix : ℕ → Text → Text
trim_prefix zero cs = cs
trim_prefix (suc rounds) cs = elim (strip data_prefix cs) [
  | none ↦ cs
  | some rest ↦ trim_prefix rounds rest
]

-- The first line that starts with "data:". A frame has one more line than it has line feeds.
find_data : ℕ → Text → Option Text
find_data zero frame = none
find_data (suc lines) frame = elim (strip data_prefix (first_line frame).0) [
  | some rest ↦ some (first_line frame).0
  | none ↦ elim (first_line frame).1 [ none ↦ none | some more ↦ find_data lines more ]
]

unfoldable pub data_line : Text → Text
unfolding find_data trim_prefix
data_line frame = elim (find_data (length frame + 1) frame) [
  | none ↦ []
  | some line ↦ trim (trim_prefix (length line) line)
]

-- `buffer.find("\n\n")`: the text before the first blank line, and what follows it.
unfoldable pub split_frame : Text → Option (Text × Text)
split_frame [] = none
split_frame (c ∷ []) = none
split_frame (c ∷ d ∷ cs) =
    let rest = map_option (λ p. (c ∷ p.0, p.1)) (split_frame (d ∷ cs)) in
    if c == 10 then (if d == 10 then some ([], cs) else rest) else rest

-- The inner loop: it takes the frames off the buffer, and leaves what is behind the last.
unfoldable pub take_frames : ℕ → Text → List Text × Text
unfolding split_frame
take_frames zero buffer = ([], buffer)
take_frames (suc rounds) buffer = elim (split_frame buffer) [
  | none ↦ ([], buffer)
  | some (frame, rest) ↦ (frame ∷ (take_frames rounds rest).0, (take_frames rounds rest).1)
]

-- As many rounds as there are characters.
unfoldable pub frames : Text → List Text × Text
unfolding take_frames
frames buffer = take_frames (length buffer) buffer

-- What the network delivers: bytes, or an error.
pub data Chunk : Type 0 where
  bytes : List ℕ → Chunk
  read_error : Chunk

-- `from_str` is serde_json's reading of an event.
module _ (from_str : Text → Option A2aEvent) where
  event_of_frame : Text → Option A2aEvent
  unfolding data_line
  event_of_frame frame = elim (data_line frame) [ [] ↦ none | c ∷ cs ↦ from_str (c ∷ cs) ]

  unfoldable pub events_of : List Text → List A2aEvent
  unfolding event_of_frame
  events_of [] = []
  events_of (f ∷ fs) = elim (event_of_frame f) [
    | none ↦ events_of fs
    | some event ↦ event ∷ events_of fs
  ]

  -- The outer loop, with the buffer that it keeps between chunks.
  unfoldable pub read_chunks : Text → List Chunk → List A2aEvent
  unfolding frames events_of from_utf8_lossy
  read_chunks buffer [] = []
  read_chunks buffer (read_error ∷ chunks) = []
  read_chunks buffer (bytes bs ∷ chunks) =
      events_of (frames (buffer ++ from_utf8_lossy bs)).0
      ++ read_chunks (frames (buffer ++ from_utf8_lossy bs)).1 chunks

  -- What a receiver gets that takes `room` events and then disconnects, which ends the reading.
  unfoldable pub sse_to_a2a_events : ℕ → List Chunk → List A2aEvent
  unfolding read_chunks
  sse_to_a2a_events room chunks = take room (read_chunks [] chunks)
