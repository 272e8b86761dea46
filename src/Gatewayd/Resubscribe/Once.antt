-- ===== src/Gatewayd/Resubscribe/Once.antt =====
-- gatewayd/src/transport_http.rs: a client that comes back sees no event twice, and none out of order.
use acp_a2a_gateway.Prelude.{
  ℕ, ◌<◌, ◌^◌, String, ◌≡◌, refl, ap, Bool, ◌&&◌, ◌=ˢ◌, keep, take, Option, none, some, List, [],
  ◌∷◌, ◌++◌, map, All, arith, ltb, Bool-cases, inl, inr,
}
use acp_a2a_gateway.Protocol.A2a.{A2aEvent}
use acp_a2a_gateway.Gatewayd.EventLog.{EventRecord, Writer, sort_rows, is_after, do_events_after}
use acp_a2a_gateway.Gatewayd.EventLog.Order.{
  IsOrdered, IsAscending, All-map, AreI64, do_events_after-AreI64, do_events_after_sorted,
}
use acp_a2a_gateway.Gatewayd.Resubscribe.{
  Frame, frame_id, Live, no_stream, received, lagged, closed, event_from_record, last_served,
  serve_live, resubscribe_stream,
}

-- The ids lie behind `n` and rise strictly.
abbrev pub IsRising : ℕ → List Frame → Type 0
IsRising n [] = Unit {0}
IsRising n (f ∷ fs) = (n < frame_id f) × IsRising (frame_id f) fs

-- The numbers of each task rise in every log that the client is caught up from, and the numbers,
-- also those that the hub gives, are such that an i64 holds them.
abbrev pub AreOrdered : Live → Type 0
AreOrdered no_stream = Unit {0}
AreOrdered (received seq event live) = (seq < 2 ^ 63) × AreOrdered live
AreOrdered (lagged none live) = AreOrdered live
AreOrdered (lagged (some w) live) = IsOrdered w.rows × AreI64 w.rows × AreOrdered live
AreOrdered closed = Unit {0}

-- An event of the task behind the number.
abbrev pub is_behind : String → ℕ → EventRecord → Bool
is_behind t after_seq r = (r.task_id =ˢ t) && ltb after_seq r.seq

keep_behind :
    (t : String) (n : ℕ) (rs : List EventRecord)
    → n < 2 ^ 63
    → keep (is_behind t n) rs ≡ keep (is_after t n) rs
keep_behind t n [] b = refl
keep_behind t n (r ∷ rs) b = ground (arith, keep_behind t n rs b)

all_behind :
    (t : String) (n : ℕ) (w : Writer)
    → n < 2 ^ 63
    → take 10000 (sort_rows (keep (is_behind t n) w.rows)) ≡ do_events_after t n 10000 w
unfolding do_events_after
all_behind t n w b = ap (λ rs. take 10000 (sort_rows rs)) (keep_behind t n w.rows b)

module _ (from_json : String → Option A2aEvent) where
  frame_id-event_from_record : (r : EventRecord) → frame_id (event_from_record from_json r) ≡ r.seq
  unfolding frame_id event_from_record
  frame_id-event_from_record r = ground arith

  queue-IsRising :
      (n : ℕ) (rs : List EventRecord) (fs : List Frame)
      → IsAscending rs
      → All (λ r. n < r.seq) rs
      → IsRising (last_served n rs) fs
      → IsRising n (map (event_from_record from_json) rs ++ fs)
  unfolding last_served
  queue-IsRising n [] fs asc above rest = rest
  queue-IsRising n (r ∷ rs) fs asc above rest =
      rw (frame_id-event_from_record r) (above.0, queue-IsRising r.seq rs fs asc.1 asc.0 rest)

  last_served-bound :
      (n : ℕ) (rs : List EventRecord) → n < 2 ^ 63 → AreI64 rs → last_served n rs < 2 ^ 63
  unfolding last_served
  last_served-bound n [] b h = b
  last_served-bound n (r ∷ rs) b h = last_served-bound r.seq rs h.0 h.1

  module _ (t : String) where
    history-IsRising :
        (n : ℕ) (w : Writer) (fs : List Frame)
        → n < 2 ^ 63
        → IsOrdered w.rows
        → IsRising (last_served n (do_events_after t n 10000 w)) fs
        → IsRising n (map (event_from_record from_json) (do_events_after t n 10000 w) ++ fs)
    history-IsRising n w fs i ordered rest =
        let (asc, above, bounded) = do_events_after_sorted t n 10000 w i ordered in
        let rows = do_events_after t n 10000 w in
        queue-IsRising n rows fs asc (All-map (λ q p. p.1) rows above) rest

    serve_live-IsRising :
        (live : Live) (last : ℕ)
        → last < 2 ^ 63
        → AreOrdered live
        → IsRising last (serve_live from_json t last live)
    unfolding serve_live frame_id
    serve_live-IsRising no_stream last i o = tt
    serve_live-IsRising closed last i o = tt
    serve_live-IsRising (lagged none live) last i o = tt
    serve_live-IsRising (lagged (some w) live) last i o =
        let rows = do_events_after t last 10000 w in
        history-IsRising last w (serve_live from_json t (last_served last rows) live) i o.0 (
          serve_live-IsRising live (last_served last rows)
            (last_served-bound last rows i (do_events_after-AreI64 t last 10000 w o.1)) o.2)
    serve_live-IsRising (received seq event live) last i o = elim (Bool-cases (ltb last seq)) [
      | inl b ↦ rw b (ground arith, serve_live-IsRising live seq o.0 o.1)
      | inr b ↦ rw b (serve_live-IsRising live last i o.1)
    ]

    -- The ids of what a client is served lie behind the number that it names and rise strictly,
    -- whatever the hub delivers and however often the client falls behind, and it is served first
    -- all that the log holds of the task behind that number, 10,000 events at most; if in every log
    -- that is read the numbers of each task rise in the order of the appends, and the number that
    -- the client names and those of the log and the hub are below 2 ^ 63, so that an i64 holds them.
    pub resubscribe_stream-IsRising :
        (after_seq : ℕ) (w : Writer) (live : Live)
        → after_seq < 2 ^ 63
        → IsOrdered w.rows
        → AreI64 w.rows
        → AreOrdered live
        → IsRising after_seq (resubscribe_stream from_json t after_seq w live)
          × ((rest : List Frame) × (map
                    (event_from_record from_json)
                    (take 10000 (sort_rows (keep (is_behind t after_seq) w.rows)))
                  ++ rest
                ≡ resubscribe_stream from_json t after_seq w live))
    unfolding resubscribe_stream
    resubscribe_stream-IsRising after_seq w live i o n os =
        let rows = do_events_after t after_seq 10000 w in
        let fs = serve_live from_json t (last_served after_seq rows) live in
        (
          history-IsRising after_seq w fs i o (
              serve_live-IsRising live (last_served after_seq rows)
                (last_served-bound after_seq rows i (do_events_after-AreI64 t after_seq 10000 w n))
                os),
          (fs, ap (λ rs. map (event_from_record from_json) rs ++ fs) (all_behind t after_seq w i)),
        )
