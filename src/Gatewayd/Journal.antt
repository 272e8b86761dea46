-- ===== src/Gatewayd/Journal.antt =====
-- gatewayd/src/journal.rs: the durable journal of events. The table is the list of its rows in the
-- order of their ids, which SQLite gives out by AUTOINCREMENT.
pub mod Times
pub mod Order
use mathlib.Core.List.{reverse}
use acp_a2a_gateway.Prelude.{
  ℕ, zero, suc, String, ◌+◌, ◌-◌, ◌*◌, ◌/◌, ◌%◌, ◌^◌, min, Bool, true, false, not, ◌&&◌, Option,
  none, some, List, [], ◌∷◌, ◌++◌, ◌=ˢ◌, ◌==◌, ltb, leb, if◌then◌else◌, keep, take, get_or, Result,
  ok, err, external,
}
use acp_a2a_gateway.Core.Utf8.{Text}

pub data Level : Type 0 where
  info warn error : Level

unfoldable pub as_str : Level → String
as_str info = "info"
as_str warn = "warn"
as_str error = "error"

pub record JournalRecord : Type 0 where
  pub seq : ℕ
  -- seconds, as decimal digits: the column is TEXT
  pub ts : Text
  pub level : String
  pub category : String
  pub message : String

pub record JournalFilter : Type 0 where
  pub limit : Option ℕ
  pub level : Option String
  pub category : Option String
  pub since_secs : Option ℕ

pub record Writer : Type 0 where
  pub rows : List JournalRecord
  -- the next id of AUTOINCREMENT
  pub next_id : ℕ
  pub max_size_mb : ℕ
  pub retention_days : ℕ

-- What SQLite does at an append: whether it takes the row and runs the two deletions, and the size
-- of the database in bytes.
pub record Sqlite : Type 0 where
  pub inserts : Bool
  pub deletes_old : Bool
  pub deletes_first : Bool
  -- 0 if it is not known
  pub size_bytes : ℕ

-- The last `width` decimal digits of a number.
unfoldable pub digits : (width : ℕ) → ℕ → Text
digits zero n = []
digits (suc width) n = digits width (n / 10) ++ ((b'0' + n % 10) ∷ [])

-- How many decimal digits a number has; no 64-bit number has more than twenty.
unfoldable pub width : (rounds : ℕ) → ℕ → ℕ
width zero n = 1
width (suc rounds) n = if ltb n 10 then 1 else suc (width rounds (n / 10))

unfoldable pub decimal : ℕ → Text
unfolding digits width
decimal n = digits (width 20 n) n

-- SQLite compares texts, byte by byte.
unfoldable pub text_lt : Text → Text → Bool
text_lt [] [] = false
text_lt [] (d ∷ ds) = true
text_lt (c ∷ cs) [] = false
text_lt (c ∷ cs) (d ∷ ds) =
    let rest = text_lt cs ds in if ltb c d then true else (if ltb d c then false else rest)

-- `now - retention_days * 24 * 60 * 60`, on unsigned 64-bit numbers that wrap.
unfoldable pub cutoff : ℕ → Writer → ℕ
cutoff now w = (now + 2 ^ 64 - w.retention_days * 24 * 60 * 60 % 2 ^ 64) % 2 ^ 64

-- `DELETE FROM journal_events WHERE ts < ?1`: the column's affinity makes a text of the number. A
-- number that no `i64` holds cannot be bound, so nothing is deleted.
unfoldable pub delete_old : ℕ → Sqlite → Writer → Writer
delete_old now q w =
    if w.retention_days == 0
    then w
    else if q.deletes_old && ltb (cutoff now w) (2 ^ 63)
    then record w { rows = keep (λ r. not (text_lt r.ts (decimal (cutoff now w)))) w.rows }
    else w

drop : ℕ → List JournalRecord → List JournalRecord
drop zero rows = rows
drop (suc n) [] = []
drop (suc n) (r ∷ rows) = drop n rows

-- One pass that removes the first `max_size_mb` rows of a table that is too large.
unfoldable pub delete_first : Sqlite → Writer → Writer
unfolding drop
delete_first q w =
    if w.max_size_mb == 0
    then w
    else if leb q.size_bytes (w.max_size_mb * 1024 * 1024)
    then w
    else if q.deletes_first
    then record w { rows = drop (min w.max_size_mb 100_000) w.rows }
    else w

unfoldable pub cleanup : ℕ → Sqlite → Writer → Writer
unfolding delete_old delete_first
cleanup now q w = delete_first q (delete_old now q w)

-- Journal::spawn, on a table that is there: a cleanup before anything is appended.
unfoldable pub spawn :
    ℕ → Sqlite → (max_size_mb retention_days : ℕ) → List JournalRecord → ℕ → Writer
unfolding cleanup
spawn now q max_size_mb retention_days rows next_id = cleanup now q (record {
  rows = rows;
  next_id = next_id;
  max_size_mb = max_size_mb;
  retention_days = retention_days;
})

-- COALESCE(MAX(id), 0)
unfoldable pub last_seq : List JournalRecord → ℕ
last_seq [] = 0
last_seq (r ∷ rows) = let rest = last_seq rows in if leb r.seq rest then rest else r.seq

insert_row : ℕ → Level → String → String → Writer → Writer
unfolding as_str
insert_row now level category message w = record w {
  rows =
      w.rows
      ++ (record {
        seq = w.next_id;
        ts = decimal now;
        level = as_str level;
        category = category;
        message = message;
      }
          ∷ []);
  next_id = w.next_id + 1;
}

unfoldable pub do_append : ℕ → Sqlite → Level → String → String → Writer → Result ℕ × Writer
unfolding insert_row
do_append now q level category message w =
    if q.inserts
    then (let w' = cleanup now q (insert_row now level category message w) in
        (ok (last_seq w'.rows), w'))
    else (err (external "journal: insert"), w)

unfoldable pub do_recent : ℕ → Writer → List JournalRecord
do_recent limit w = take limit (reverse w.rows)

-- Journal::recent
unfoldable pub recent : ℕ → Writer → List JournalRecord
unfolding do_recent
recent limit w = do_recent (min limit 1000) w

matches : Option String → String → Bool
matches none s = true
matches (some wanted) s = s =ˢ wanted

-- CAST(ts AS INTEGER), of a text of digits
as_integer : ℕ → Text → ℕ
as_integer value [] = value
as_integer value (c ∷ cs) = as_integer (value * 10 + (c - b'0')) cs

is_since : ℕ → Option ℕ → JournalRecord → Bool
unfolding as_integer
is_since now none r = true
is_since now (some secs) r = leb (now - secs) (as_integer 0 r.ts)

-- The conditions that `query_recent` puts together.
unfoldable pub selected : ℕ → JournalFilter → JournalRecord → Bool
unfolding matches is_since
selected now f r =
    matches f.level r.level && matches f.category r.category && is_since now f.since_secs r

unfoldable pub clamp : ℕ → ℕ
clamp n = if leb 1000 n then 1000 else if n == 0 then 1 else n

unfoldable pub query_recent : ℕ → JournalFilter → List JournalRecord → List JournalRecord
unfolding selected
query_recent now f rows = take (clamp (get_or f.limit 20)) (reverse (keep (selected now f) rows))
