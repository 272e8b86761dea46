-- ===== src/Gatewayd/EventLog/Replay/Restart.antt =====
-- What the size limit does to the numbers: a task whose events have all been removed is numbered
-- from one again.
use acp_a2a_gateway.Prelude.{
  ℕ, suc, ◌<◌, ◌^◌, ◌≤◌, String, ◌≡◌, refl, true, not, Option, none, List, [], ◌∷◌, arith, eq_iff,
  keep, take_all, take_nil, min, length, ok, All,
}
use acp_a2a_gateway.Gatewayd.EventLog.{
  EventRecord, Writer, next_seq, insert_row, sort_rows, do_events_after, has_key,
  cleanup_if_oversized, do_append, is_oversized,
}
use acp_a2a_gateway.Gatewayd.EventLog.Order.{All-map}

abbrev row_of : String → ℕ → String → EventRecord
row_of t n json = record { task_id = t; seq = n; event_json = json }

length-insert_row :
    (r : EventRecord) (rs : List EventRecord) → length (insert_row r rs) ≡ suc (length rs)
unfolding insert_row
length-insert_row r [] = refl
length-insert_row r (q ∷ qs) = ground (arith, length-insert_row r qs)

length-sort_rows : (rs : List EventRecord) → length (sort_rows rs) ≡ length rs
unfolding sort_rows
length-sort_rows [] = refl
length-sort_rows (r ∷ rs) = omega (arith, length-insert_row r (sort_rows rs), length-sort_rows rs)

has_key-insert_row :
    (q r : EventRecord) (rs : List EventRecord) → has_key q (insert_row r rs) ≡ has_key q (r ∷ rs)
unfolding insert_row has_key
has_key-insert_row q r [] = refl
has_key-insert_row q r (x ∷ xs) = ground (arith, has_key-insert_row q r xs)

-- Every row is found among the sorted rows.
keep-sorted :
    (rs xs : List EventRecord)
    → All (λ q. has_key q xs ≡ true) rs
    → keep (λ r. not (has_key r xs)) rs ≡ []
keep-sorted [] xs h = refl
keep-sorted (r ∷ rs) xs h = rw (h.0) (keep-sorted rs xs h.1)

All-found : (rs : List EventRecord) → All (λ q. has_key q (sort_rows rs) ≡ true) rs
unfolding sort_rows has_key
All-found [] = tt
All-found (r ∷ rs) = (
  ground (arith, has_key-insert_row r r (sort_rows rs), eq_iff r.task_id r.task_id),
  All-map {P = λ q. has_key q (sort_rows rs) ≡ true}
      {Q = λ q. has_key q (sort_rows (r ∷ rs)) ≡ true}
      (λ q p. ground (arith, has_key-insert_row q r (sort_rows rs))) rs (All-found rs),
)

module _ (db_size : List EventRecord → Option ℕ) (t : String) (w : Writer) where
  cleanup_empties :
      is_oversized db_size w ≡ true
      → length w.rows ≤ min w.max_size_mb 100000
      → (cleanup_if_oversized db_size w).rows ≡ []
  unfolding cleanup_if_oversized
  cleanup_empties over few =
      rw (over, cleanup_if_oversized)
        (rw
          (take_all (min w.max_size_mb 100000) (sort_rows w.rows)
            (omega (arith, length-sort_rows w.rows)))
          (keep-sorted w.rows (sort_rows w.rows) (All-found w.rows)))

  -- If the file is over its limit while the log has no more rows than one cleanup removes, the
  -- cleanup empties the log, and the next event of any task is numbered 1, whatever number the
  -- task had reached; a client that asks for what lies behind a number it has seen is not given it.
  pub seq_restarts :
      (json : String) (seen limit : ℕ)
      → is_oversized db_size w ≡ true
      → length w.rows ≤ min w.max_size_mb 100000
      → 1 ≤ seen
      → seen < 2 ^ 63
      → let w' = cleanup_if_oversized db_size w in
        ((do_append db_size none t json w').0 ≡ ok 1)
        × (do_events_after t seen limit (record w' { rows = row_of t 1 json ∷ w'.rows }) ≡ [])
  unfolding do_append next_seq do_events_after sort_rows
  seq_restarts json seen limit over few h i =
      let e = cleanup_empties over few in
      rw e (ground arith, ground (arith, take_nil {A = EventRecord} (min limit 10000)))
