-- ===== src/Gatewayd/EventLog.antt =====
-- gatewayd/src/event_log.rs: the durable log of stream events. The table is a list of its rows,
-- the newest first; the writer task runs the commands one after the other. The column
-- `created_at` is written and never read, and is left out.
pub mod Order
pub mod Replay
use acp_a2a_gateway.Prelude.{
  ℕ, ◌+◌, ◌*◌, ◌^◌, String, Bool, true, false, not, ◌&&◌, ◌||◌, Option, none, some, List, [], ◌∷◌,
  ◌==◌, ◌=ˢ◌, ltb, leb, if◌then◌else◌, keep, take, min, Result, ok, err, Error,
}

-- A row, as `events_after` returns it.
pub record EventRecord : Type 0 where
  pub task_id : String
  pub seq : ℕ
  pub event_json : String

abbrev pub size_check_every_n_appends : ℕ
size_check_every_n_appends = 64

pub record Writer : Type 0 where
  pub rows : List EventRecord
  pub max_size_mb : ℕ
  pub appends_since_check : ℕ

unfoldable pub open_log : ℕ → Writer
open_log max_size_mb = record { rows = []; max_size_mb = max_size_mb; appends_since_check = 0 }

-- SELECT COALESCE(MAX(seq), 0) FROM task_events WHERE task_id = ?1
unfoldable pub max_seq : String → List EventRecord → ℕ
max_seq t [] = 0
max_seq t (r ∷ rs) =
    let rest = max_seq t rs in
    if r.task_id =ˢ t then (if ltb rest r.seq then r.seq else rest) else rest

unfoldable pub next_seq : String → List EventRecord → ℕ
unfolding max_seq
next_seq t rows = max_seq t rows + 1

-- ORDER BY seq
insert_row : EventRecord → List EventRecord → List EventRecord
insert_row r [] = r ∷ []
insert_row r (q ∷ qs) = if leb r.seq q.seq then r ∷ q ∷ qs else q ∷ insert_row r qs

unfoldable pub sort_rows : List EventRecord → List EventRecord
unfolding insert_row
sort_rows [] = []
sort_rows (r ∷ rs) = insert_row r (sort_rows rs)

-- WHERE task_id = ?1 AND seq > ?2, where ?2 is `after_seq as i64`: from 2 ^ 63 on it is negative,
-- and every number lies behind it.
abbrev pub is_after : String → ℕ → EventRecord → Bool
is_after t after_seq r = (r.task_id =ˢ t) && (leb (2 ^ 63) after_seq || ltb after_seq r.seq)

unfoldable pub do_events_after : String → ℕ → ℕ → Writer → List EventRecord
unfolding sort_rows
do_events_after t after_seq limit w =
    take (min limit 10000) (sort_rows (keep (is_after t after_seq) w.rows))

unfoldable pub do_last_seq : String → Writer → ℕ
unfolding max_seq
do_last_seq t w = max_seq t w.rows

has_key : EventRecord → List EventRecord → Bool
has_key r [] = false
has_key r (q ∷ qs) =
    let rest = has_key r qs in if (q.task_id =ˢ r.task_id) && q.seq == r.seq then true else rest

-- `db_size` is what SQLite reports of its file, nothing if the query fails. Rows with equal
-- numbers leave in the order of the sort, where SQL leaves it open.
module _ (db_size : List EventRecord → Option ℕ) where
  unfoldable pub is_oversized : Writer → Bool
  is_oversized w = elim (db_size w.rows) [
    | none ↦ false
    | some size ↦ not (size == 0) && ltb (w.max_size_mb * 1024 * 1024) size
  ]

  unfoldable pub cleanup_if_oversized : Writer → Writer
  unfolding is_oversized has_key sort_rows
  cleanup_if_oversized w =
      let oldest = take (min w.max_size_mb 100000) (sort_rows w.rows) in
      if is_oversized w then record w { rows = keep (λ r. not (has_key r oldest)) w.rows } else w

  counted : Writer → Writer
  unfolding cleanup_if_oversized
  counted w =
      if not (w.max_size_mb == 0) && leb size_check_every_n_appends (w.appends_since_check + 1)
      then cleanup_if_oversized (record w { appends_since_check = 0 })
      else record w { appends_since_check = w.appends_since_check + 1 }

  -- `fault` is SQLite's refusal of the insert, if it refuses.
  unfoldable pub do_append : Option Error → String → String → Writer → Result ℕ × Writer
  unfolding next_seq counted
  do_append (some e) t event_json w = (err e, w)
  do_append none t event_json w =
      let seq = next_seq t w.rows in
      let row : EventRecord = record { task_id = t; seq = seq; event_json = event_json } in
      (ok seq, counted (record w { rows = row ∷ w.rows }))

-- Whether no event is missing between two numbers.
unfoldable pub is_contiguous : ℕ → ℕ → Bool
is_contiguous prev next = prev == 0 || next == prev + 1
