-- ===== src/Core/Sse/Chunks.antt =====
-- core/src/http_agent.rs: the events do not depend on where the network cuts the stream.
use mathlib.Core.Path.{◌≡⟨◌⟩◌, ◌∎}
use mathlib.Core.List.{append-nil, append_assoc}
use acp_a2a_gateway.Prelude.{
  ℕ, ◌≡◌, refl, sym, ap, ◌∙◌, Option, List, [], ◌∷◌, ◌++◌, map, take, All, arith,
}
use acp_a2a_gateway.Protocol.A2a.{A2aEvent}
use acp_a2a_gateway.Core.Utf8.{Text, IsWhole, from_utf8_lossy}
use acp_a2a_gateway.Core.Utf8.Boundaries.{from_utf8_lossy-append}
use acp_a2a_gateway.Core.Sse.{
  Chunk, bytes, read_error, frames, take_frames, events_of, read_chunks, sse_to_a2a_events,
}
use acp_a2a_gateway.Core.Sse.Frames.{frames-append, frames_left}

abbrev pub concat : List (List ℕ) → List ℕ
concat [] = []
concat (bs ∷ bss) = bs ++ concat bss

-- What a stream amounts to that has arrived whole: the events of its frames.
unfoldable pub events_of_text : (Text → Option A2aEvent) → Text → List A2aEvent
events_of_text from_str t = events_of from_str (frames t).0

module _ (from_str : Text → Option A2aEvent) where
  events_of-append :
      (a b : List Text) → events_of from_str (a ++ b) ≡ events_of from_str a ++ events_of from_str b
  unfolding events_of
  events_of-append [] b = refl
  events_of-append (f ∷ a) b = ground (arith, events_of-append a b)

  -- The loop over the chunks, from a buffer that holds no frame, up to where the stream ends or
  -- breaks.
  read_chunks_whole :
      (buffer : Text) (chunks : List (List ℕ)) (after : List Chunk)
      → frames buffer ≡ ([], buffer)
      → All IsWhole chunks
      → ((b : Text) → read_chunks from_str b after ≡ [])
      → read_chunks from_str buffer (map bytes chunks ++ after)
        ≡ events_of from_str (frames (buffer ++ from_utf8_lossy (concat chunks))).0
  unfolding read_chunks
  read_chunks_whole buffer [] after none_left h stop =
      rw (append-nil buffer, none_left) (stop buffer)
  read_chunks_whole buffer (bs ∷ chunks) after none_left h stop =
      let text = from_utf8_lossy bs in
      let more = from_utf8_lossy (concat chunks) in
      let now = frames (buffer ++ text) in
      events_of from_str now.0 ++ read_chunks from_str now.1 (map bytes chunks ++ after)
      ≡⟨ ap (λ t. events_of from_str now.0 ++ t)
          (read_chunks_whole now.1 chunks after (frames_left (buffer ++ text)) h.1 stop) ⟩
        events_of from_str now.0 ++ events_of from_str (frames (now.1 ++ more)).0
      ≡⟨ sym (events_of-append now.0 (frames (now.1 ++ more)).0) ⟩
        events_of from_str (now.0 ++ (frames (now.1 ++ more)).0)
      ≡⟨ ap (λ t. events_of from_str t.0) (sym (frames-append (buffer ++ text) more)) ⟩
        events_of from_str (frames ((buffer ++ text) ++ more)).0
      ≡⟨ ap (λ t. events_of from_str (frames t).0) (append_assoc buffer text more) ⟩
        events_of from_str (frames (buffer ++ (text ++ more))).0
      ≡⟨ ap (λ t. events_of from_str (frames (buffer ++ t)).0)
          (sym (from_utf8_lossy-append bs (concat chunks) h.0)) ⟩
        events_of from_str (frames (buffer ++ from_utf8_lossy (bs ++ concat chunks))).0 ∎

  -- However the network cuts the stream, if no cut falls inside a character, a receiver that takes
  -- `room` events gets the first `room` of those that the whole text holds; and the same if the
  -- stream breaks off behind these chunks, whatever would have followed.
  pub sse_any_cut :
      (room : ℕ) (chunks : List (List ℕ)) (after : List Chunk)
      → All IsWhole chunks
      → (sse_to_a2a_events from_str room (map bytes chunks)
          ≡ take room (events_of_text from_str (from_utf8_lossy (concat chunks))))
        × (sse_to_a2a_events from_str room (map bytes chunks ++ (read_error ∷ after))
            ≡ take room (events_of_text from_str (from_utf8_lossy (concat chunks))))
  unfolding sse_to_a2a_events events_of_text frames take_frames read_chunks
  sse_any_cut room chunks after h = (
    ap (take room) (
        ap (read_chunks from_str []) (sym (append-nil (map bytes chunks)))
        ∙ read_chunks_whole [] chunks [] refl h (λ b. refl)),
    ap (take room) (read_chunks_whole [] chunks (read_error ∷ after) refl h (λ b. refl)),
  )
