-- ===== src/Gatewayd/EventLog/Order.antt =====
-- The numbers of a task's events, and the order in which they are replayed.
use acp_a2a_gateway.Prelude.{
  ℕ, zero, suc, ◌^◌, ◌≤◌, ◌<◌, String, ◌≡◌, refl, ◌≢◌, List, [], ◌∷◌, arith, eq_iff, leb, keep,
  take, min, All, All-keep, ap, ◌=ˢ◌, length, length-take-le, Bool-cases, inl, inr,
}
use acp_a2a_gateway.Gatewayd.EventLog.{
  EventRecord, Writer, insert_row, sort_rows, is_after, do_events_after,
}

-- Newest first, the numbers of each task fall strictly.
abbrev pub IsOrdered : List EventRecord → Type 0
IsOrdered [] = Unit {0}
IsOrdered (r ∷ rs) = All (λ q. q.task_id ≡ r.task_id → q.seq < r.seq) rs × IsOrdered rs

abbrev pub IsAscending : List EventRecord → Type 0
IsAscending [] = Unit {0}
IsAscending (r ∷ rs) = All (λ q. r.seq < q.seq) rs × IsAscending rs

pub All-map :
    {P Q : EventRecord → Type 0} (f : (q : EventRecord) → P q → Q q) (rs : List EventRecord)
    → All P rs
    → All Q rs
All-map f [] h = tt
All-map f (r ∷ rs) h = (f r h.0, All-map f rs h.1)

All-insert_row :
    (P : EventRecord → Type 0) (r : EventRecord) (rs : List EventRecord)
    → P r
    → All P rs
    → All P (insert_row r rs)
unfolding insert_row
All-insert_row P r [] p h = (p, tt)
All-insert_row P r (q ∷ qs) p h = elim (Bool-cases (leb r.seq q.seq)) [
  | inl e ↦ rw e (p, h)
  | inr e ↦ rw e (h.0, All-insert_row P r qs p h.1)
]

pub All-sort_rows :
    (P : EventRecord → Type 0) (rs : List EventRecord) → All P rs → All P (sort_rows rs)
unfolding sort_rows
All-sort_rows P [] h = tt
All-sort_rows P (r ∷ rs) h = All-insert_row P r (sort_rows rs) h.0 (All-sort_rows P rs h.1)

All-take : (P : EventRecord → Type 0) (n : ℕ) (rs : List EventRecord) → All P rs → All P (take n rs)
All-take P zero rs h = tt
All-take P (suc n) [] h = tt
All-take P (suc n) (r ∷ rs) h = (h.0, All-take P n rs h.1)

take-IsAscending : (n : ℕ) (rs : List EventRecord) → IsAscending rs → IsAscending (take n rs)
take-IsAscending zero rs h = tt
take-IsAscending (suc n) [] h = tt
take-IsAscending (suc n) (r ∷ rs) h =
    (All-take (λ q. r.seq < q.seq) n rs h.0, take-IsAscending n rs h.1)

insert_row-IsAscending :
    (r : EventRecord) (rs : List EventRecord)
    → All (λ q. q.seq ≢ r.seq) rs
    → IsAscending rs
    → IsAscending (insert_row r rs)
unfolding insert_row
insert_row-IsAscending r [] n h = (tt, tt)
insert_row-IsAscending r (q ∷ qs) n h = elim (Bool-cases (leb r.seq q.seq)) [
  | inl e ↦
      let lt : r.seq < q.seq = ground (arith, n.0) in
      rw e (
        (lt, All-map {P = λ x. q.seq < x.seq} {Q = λ x. r.seq < x.seq} (λ x p. omega arith) qs h.0),
        h,
      )
  | inr e ↦ rw e (
    All-insert_row (λ x. q.seq < x.seq) r qs (ground arith) h.0,
    insert_row-IsAscending r qs n.1 h.1,
  )
]

-- Of one task, the numbers that are left differ.
task_rows_differ :
    (t : String) (after_seq : ℕ) (r : EventRecord) (rs : List EventRecord)
    → r.task_id ≡ t
    → All (λ q. q.task_id ≡ r.task_id → q.seq < r.seq) rs
    → All (λ q. q.seq ≢ r.seq) (keep (is_after t after_seq) rs)
task_rows_differ t n r [] e h = tt
task_rows_differ t n r (q ∷ qs) e h = elim (Bool-cases (is_after t n q)) [
  | inl b ↦
      rw b (λ p. absurd (ground (arith, h.0, eq_iff q.task_id t)), task_rows_differ t n r qs e h.1)
  | inr b ↦ rw b (task_rows_differ t n r qs e h.1)
]

sort_rows-IsAscending :
    (t : String) (after_seq : ℕ) (rs : List EventRecord)
    → IsOrdered rs
    → IsAscending (sort_rows (keep (is_after t after_seq) rs))
unfolding sort_rows
sort_rows-IsAscending t n [] h = tt
sort_rows-IsAscending t n (r ∷ rs) h = elim (Bool-cases (is_after t n r)) [
  | inl b ↦ rw b (
      insert_row-IsAscending r (sort_rows (keep (is_after t n) rs))
        (All-sort_rows (λ q. q.seq ≢ r.seq) (keep (is_after t n) rs)
          (task_rows_differ t n r rs (ground (arith, eq_iff r.task_id t)) h.0))
        (sort_rows-IsAscending t n rs h.1))
  | inr b ↦ rw b (sort_rows-IsAscending t n rs h.1)
]

keep-is_after :
    (t : String) (after_seq : ℕ) (rs : List EventRecord)
    → after_seq < 2 ^ 63
    → All (λ q. (q.task_id ≡ t) × (after_seq < q.seq)) (keep (is_after t after_seq) rs)
keep-is_after t n [] b = tt
keep-is_after t n (r ∷ rs) i = elim (Bool-cases (is_after t n r)) [
  | inl b ↦ rw b ((ground (arith, eq_iff r.task_id t), ground arith), keep-is_after t n rs i)
  | inr b ↦ rw b (keep-is_after t n rs i)
]

-- A replay behind a number that an i64 holds gives events of the task that was asked for, each
-- behind that number, in strictly rising order, and at most as many as asked for and at most 10,000.
pub do_events_after_sorted :
    (t : String) (after_seq limit : ℕ) (w : Writer)
    → after_seq < 2 ^ 63
    → IsOrdered w.rows
    → IsAscending (do_events_after t after_seq limit w)
      × All (λ q. (q.task_id ≡ t) × (after_seq < q.seq)) (do_events_after t after_seq limit w)
      × (length (do_events_after t after_seq limit w) ≤ min limit 10000)
unfolding do_events_after
do_events_after_sorted t n limit w i h =
    let kept = keep (is_after t n) w.rows in
    let k = min limit 10000 in
    (
      take-IsAscending k (sort_rows kept) (sort_rows-IsAscending t n w.rows h),
      All-take (λ q. (q.task_id ≡ t) × (n < q.seq)) k (sort_rows kept)
          (All-sort_rows (λ q. (q.task_id ≡ t) × (n < q.seq)) kept (keep-is_after t n w.rows i)),
      length-take-le k (sort_rows kept),
    )

-- The numbers of the rows, which the column keeps as i64.
abbrev pub AreI64 : List EventRecord → Type 0
AreI64 rs = All (λ r. r.seq < 2 ^ 63) rs

pub do_events_after-AreI64 :
    (t : String) (after_seq limit : ℕ) (w : Writer)
    → AreI64 w.rows
    → AreI64 (do_events_after t after_seq limit w)
unfolding do_events_after
do_events_after-AreI64 t n limit w h =
    All-take (λ r. r.seq < 2 ^ 63) (min limit 10000) (sort_rows (keep (is_after t n) w.rows))
      (All-sort_rows (λ r. r.seq < 2 ^ 63) (keep (is_after t n) w.rows)
        (All-keep (λ r. r.seq < 2 ^ 63) (is_after t n) w.rows h))

keep-wrapped :
    (t : String) (after_seq : ℕ) (rs : List EventRecord)
    → 2 ^ 63 ≤ after_seq
    → keep (is_after t after_seq) rs ≡ keep (λ r. r.task_id =ˢ t) rs
keep-wrapped t n [] h = refl
keep-wrapped t n (r ∷ rs) h = ground (arith, keep-wrapped t n rs h)

-- From 2 ^ 63 on the number that a client names is negative to SQLite, and the client is replayed
-- the task from its first event.
pub wrapped_replays_all :
    (t : String) (after_seq limit : ℕ) (w : Writer)
    → 2 ^ 63 ≤ after_seq
    → do_events_after t after_seq limit w
      ≡ take (min limit 10000) (sort_rows (keep (λ r. r.task_id =ˢ t) w.rows))
unfolding do_events_after
wrapped_replays_all t n limit w h =
    ap (λ rows. take (min limit 10000) (sort_rows rows)) (keep-wrapped t n w.rows h)
