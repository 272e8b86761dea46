-- ===== src/Gatewayd/EventLog/Replay.antt =====
-- What a client that comes back is given.
pub mod Restart
use acp_a2a_gateway.Prelude.{
  ℕ, ◌+◌, ◌≤◌, ◌<◌, ◌^◌, String, ◌≡◌, refl, sym, ap, ◌∙◌, Bool, not, ◌&&◌, Option, none, some, List,
  [], ◌∷◌, ◌++◌, arith, ◌==◌, eq_iff, leb, keep, take, min, All, All-keep, ok, Error, Bool-cases,
  inl, inr,
}
use mathlib.Core.List.{append_assoc, append-nil}
use acp_a2a_gateway.Gatewayd.EventLog.{
  EventRecord, Writer, open_log, max_seq, next_seq, insert_row, sort_rows, is_after,
  do_events_after, do_last_seq, cleanup_if_oversized, counted, do_append, is_oversized,
  size_check_every_n_appends,
}
use acp_a2a_gateway.Gatewayd.EventLog.Order.{IsOrdered, All-map}

abbrev pub row_of : String → ℕ → String → EventRecord
row_of t n json = record { task_id = t; seq = n; event_json = json }

-- No event of a task has a higher number than its last.
max_seq_bound :
    (t : String) (rs : List EventRecord) → All (λ q. q.task_id ≡ t → q.seq ≤ max_seq t rs) rs
unfolding max_seq
max_seq_bound t [] = tt
max_seq_bound t (r ∷ rs) = (
  λ e. ground (arith, eq_iff r.task_id t),
  All-map {P = λ q. q.task_id ≡ t → q.seq ≤ max_seq t rs}
      {Q = λ q. q.task_id ≡ t → q.seq ≤ max_seq t (r ∷ rs)} (λ q p e. ground (arith, p e)) rs
      (max_seq_bound t rs),
)

keep-IsOrdered :
    (p : EventRecord → Bool) (rs : List EventRecord) → IsOrdered rs → IsOrdered (keep p rs)
keep-IsOrdered p [] h = tt
keep-IsOrdered p (r ∷ rs) h = elim (Bool-cases (p r)) [
  | inl b ↦
      rw b (All-keep (λ q. q.task_id ≡ r.task_id → q.seq < r.seq) p rs h.0, keep-IsOrdered p rs h.1)
  | inr b ↦ rw b (keep-IsOrdered p rs h.1)
]

new_row-IsOrdered :
    (t json : String) (rs : List EventRecord)
    → IsOrdered rs
    → IsOrdered (row_of t (next_seq t rs) json ∷ rs)
unfolding next_seq
new_row-IsOrdered t json rs h = (
  All-map {P = λ q. q.task_id ≡ t → q.seq ≤ max_seq t rs}
      {Q = λ q. q.task_id ≡ t → q.seq < max_seq t rs + 1} (λ q p e. omega (arith, p e)) rs
      (max_seq_bound t rs),
  h,
)

module _ (db_size : List EventRecord → Option ℕ) where
  cleanup-IsOrdered :
      (w : Writer) → IsOrdered w.rows → IsOrdered (cleanup_if_oversized db_size w).rows
  unfolding cleanup_if_oversized
  cleanup-IsOrdered w h = elim (Bool-cases (is_oversized db_size w)) [
    | inl b ↦ rw (b, cleanup_if_oversized) (keep-IsOrdered _ w.rows h)
    | inr b ↦ rw (b, cleanup_if_oversized) h
  ]

  counted-IsOrdered : (w : Writer) → IsOrdered w.rows → IsOrdered (counted db_size w).rows
  unfolding counted
  counted-IsOrdered w h =
      elim (Bool-cases
        (not (w.max_size_mb == 0) && leb size_check_every_n_appends (w.appends_since_check + 1))) [
          | inl b ↦ rw (b, counted) (cleanup-IsOrdered (record w { appends_since_check = 0 }) h)
          | inr b ↦ rw (b, counted) h
        ]

  do_append-IsOrdered :
      (fault : Option Error) (t json : String) (w : Writer)
      → IsOrdered w.rows
      → IsOrdered (do_append db_size fault t json w).1.rows
  unfolding do_append
  do_append-IsOrdered (some e) t json w h = h
  do_append-IsOrdered none t json w h =
      counted-IsOrdered (record w { rows = row_of t (next_seq t w.rows) json ∷ w.rows })
        (new_row-IsOrdered t json w.rows h)

  -- The appends that the writer serves, each with the fault that stops it, if one does.
  unfoldable pub append_each : List (Option Error × String × String) → Writer → Writer
  append_each [] w = w
  append_each ((fault, t, json) ∷ calls) w = append_each calls (do_append db_size fault t json w).1

  append_each-IsOrdered_lem :
      (calls : List (Option Error × String × String)) (w : Writer)
      → IsOrdered w.rows
      → IsOrdered (append_each calls w).rows
  unfolding append_each
  append_each-IsOrdered_lem [] w h = h
  append_each-IsOrdered_lem ((fault, t, json) ∷ calls) w h =
      append_each-IsOrdered_lem calls (do_append db_size fault t json w).1
        (do_append-IsOrdered fault t json w h)

  -- Whatever has been appended and cleaned up, the numbers of each task's events rise strictly in
  -- the order in which they were appended.
  pub append_each-IsOrdered :
      (max_size_mb : ℕ) (calls : List (Option Error × String × String))
      → IsOrdered (append_each calls (open_log max_size_mb)).rows
  append_each-IsOrdered m calls =
      append_each-IsOrdered_lem calls (open_log m) (unfold open_log in tt)

insert_row_last :
    (r : EventRecord) (rs : List EventRecord)
    → All (λ q. q.seq < r.seq) rs
    → insert_row r rs ≡ rs ++ r ∷ []
unfolding insert_row
insert_row_last r [] h = refl
insert_row_last r (q ∷ qs) h = ground (arith, insert_row_last r qs)

-- The events with the texts `js`, numbered from `n`.
abbrev pub numbered : String → ℕ → List String → List EventRecord
numbered t n [] = []
numbered t n (j ∷ js) = row_of t n j ∷ numbered t (n + 1) js

module _ (db_size : List EventRecord → Option ℕ) (t : String) where
  unfoldable pub append_all : List String → Writer → Writer
  append_all [] w = w
  append_all (j ∷ js) w = append_all js (do_append db_size none t j w).1

  abbrev after_rows : ℕ → Writer → List EventRecord
  after_rows n w = sort_rows (keep (is_after t n) w.rows)

  -- Nothing lies behind the last number.
  none_after_last :
      (n : ℕ) (rs : List EventRecord)
      → n < 2 ^ 63
      → All (λ q. q.task_id ≡ t → q.seq ≤ n) rs
      → sort_rows (keep (is_after t n) rs) ≡ []
  unfolding sort_rows
  none_after_last n [] i h = refl
  none_after_last n (r ∷ rs) i h =
      ground (arith, none_after_last n rs i h.1, eq_iff r.task_id t, h.0)

  -- One more event, in a log without a limit.
  append_one :
      (n : ℕ) (j : String) (w : Writer)
      → w.max_size_mb ≡ 0
      → n ≤ do_last_seq t w
      → ((do_append db_size none t j w).0 ≡ ok (do_last_seq t w + 1))
        × (after_rows n (do_append db_size none t j w).1
            ≡ insert_row (row_of t (do_last_seq t w + 1) j) (after_rows n w))
        × ((do_append db_size none t j w).1.max_size_mb ≡ 0)
        × (do_last_seq t (do_append db_size none t j w).1 ≡ do_last_seq t w + 1)
  unfolding do_append do_last_seq sort_rows
  append_one n j w z h = ground (arith, eq_iff t t)

  pub append_unlimited :
      (j : String) (w : Writer)
      → w.max_size_mb ≡ 0
      → ((do_append db_size none t j w).0 ≡ ok (do_last_seq t w + 1))
        × ((do_append db_size none t j w).1.max_size_mb ≡ 0)
        × (do_last_seq t (do_append db_size none t j w).1 ≡ do_last_seq t w + 1)
  append_unlimited j w z =
      let (r, rows, z', last) = append_one 0 j w z (omega arith) in (r, z', last)

  snoc-IsBelow :
      (n : ℕ) (j : String) (xs : List EventRecord)
      → All (λ q. q.seq < n) xs
      → All (λ q. q.seq < n + 1) (xs ++ row_of t n j ∷ [])
  snoc-IsBelow n j [] h = (omega arith, tt)
  snoc-IsBelow n j (x ∷ xs) h = (omega arith, snoc-IsBelow n j xs h.1)

  append_all-rows :
      (n : ℕ) (js : List String) (xs : List EventRecord) (w : Writer)
      → w.max_size_mb ≡ 0
      → n ≤ do_last_seq t w
      → after_rows n w ≡ xs
      → All (λ q. q.seq < do_last_seq t w + 1) xs
      → after_rows n (append_all js w) ≡ xs ++ numbered t (do_last_seq t w + 1) js
  unfolding append_all
  append_all-rows n [] xs w z h e b = e ∙ sym (append-nil xs)
  append_all-rows n (j ∷ js) xs w z h e b =
      let (r, rows, z', last) = append_one n j w z h in
      let w' = (do_append db_size none t j w).1 in
      let row = row_of t (do_last_seq t w + 1) j in
      let e' : after_rows n w' ≡ xs ++ row ∷ [] =
        rows ∙ (ap (insert_row row) e ∙ insert_row_last row xs b) in
      append_all-rows n js (xs ++ row ∷ []) w' z' (omega arith) e'
        (rw last (snoc-IsBelow (do_last_seq t w + 1) j xs b))
      ∙ (rw (last, append_assoc) refl)

  pub replay_after_last :
      (limit : ℕ) (js : List String) (w : Writer)
      → w.max_size_mb ≡ 0
      → do_last_seq t w < 2 ^ 63
      → do_events_after t (do_last_seq t w) limit (append_all js w)
        ≡ take (min limit 10000) (numbered t (do_last_seq t w + 1) js)
  unfolding do_events_after do_last_seq
  replay_after_last limit js w z i = ap (take (min limit 10000)) (
      append_all-rows (max_seq t w.rows) js [] w z (omega arith)
        (none_after_last (max_seq t w.rows) w.rows i (max_seq_bound t w.rows)) tt)
