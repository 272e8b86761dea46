-- ===== src/Gatewayd/Journal/Order.antt =====
-- gatewayd/src/journal.rs: the numbers of the journal's rows.
use mathlib.Core.List.{reverse, reverse-append}
use acp_a2a_gateway.Prelude.{
  ℕ, zero, suc, String, ◌+◌, ◌≤◌, ◌<◌, ◌≡◌, refl, ◌⊎◌, inl, inr, Bool, true, false, not, List, [],
  ◌∷◌, ◌++◌, min, get_or, ltb, leb, ◌==◌, ◌*◌, ◌^◌, ◌&&◌, keep, take, length, length-take-le, All,
  All-append, All-keep, Bool-cases, arith,
}
use acp_a2a_gateway.Gatewayd.Journal.{
  Level, JournalRecord, Writer, Sqlite, cutoff, delete_old, delete_first, drop, text_lt, decimal,
  cleanup, insert_row, do_append, recent, do_recent, JournalFilter, query_recent, clamp, selected,
}

-- The rows stand in the order of their numbers, all of which have been given out.
abbrev pub Rising : List JournalRecord → ℕ → Type 0
Rising [] n = Unit {0}
Rising (r ∷ rows) n = (r.seq < n) × All (λ q. r.seq < q.seq) rows × Rising rows n

abbrev pub IsOrdered : Writer → Type 0
IsOrdered w = Rising w.rows w.next_id

-- The rows stand in descending order.
abbrev pub Falling : List JournalRecord → Type 0
Falling [] = Unit {0}
Falling (r ∷ rows) = All (λ q. q.seq < r.seq) rows × Falling rows

Rising-keep :
    (p : JournalRecord → Bool) (rows : List JournalRecord) (n : ℕ)
    → Rising rows n
    → Rising (keep p rows) n
Rising-keep p [] n h = tt
Rising-keep p (r ∷ rows) n h = elim (Bool-cases (p r)) [
  | inl e ↦ rw e (h.0, All-keep (λ q. r.seq < q.seq) p rows h.1, Rising-keep p rows n h.2)
  | inr e ↦ rw e (Rising-keep p rows n h.2)
]

Rising-drop : (k : ℕ) (rows : List JournalRecord) (n : ℕ) → Rising rows n → Rising (drop k rows) n
unfolding drop
Rising-drop zero rows n h = h
Rising-drop (suc k) [] n h = tt
Rising-drop (suc k) (r ∷ rows) n h = Rising-drop k rows n h.2

All-below : (rows : List JournalRecord) (n : ℕ) → Rising rows n → All (λ q. q.seq < n) rows
All-below [] n h = tt
All-below (r ∷ rows) n h = (h.0, All-below rows n h.2)

Rising-snoc :
    (rows : List JournalRecord) (r : JournalRecord)
    → Rising rows r.seq
    → Rising (rows ++ r ∷ []) (r.seq + 1)
Rising-snoc [] r h = (omega arith, tt, tt)
Rising-snoc (q ∷ rows) r h = (
  omega (arith, h.0),
  All-append (λ p. q.seq < p.seq) rows (r ∷ []) h.1 (h.0, tt),
  Rising-snoc rows r h.2,
)

delete_old_cases :
    (now : ℕ) (q : Sqlite) (w : Writer)
    → (delete_old now q w ≡ w)
      ⊎ ((p : JournalRecord → Bool) × (delete_old now q w ≡ record w { rows = keep p w.rows }))
unfolding delete_old
delete_old_cases now q w = elim (Bool-cases (w.retention_days == 0)) [
  | inl e ↦ inl (ground arith)
  | inr e ↦ elim (Bool-cases (q.deletes_old && ltb (cutoff now w) (2 ^ 63))) [
    | inl f ↦ inr ((λ r. not (text_lt r.ts (decimal (cutoff now w)))), ground arith)
    | inr f ↦ inl (ground arith)
  ]
]

delete_old-IsOrdered :
    (now : ℕ) (q : Sqlite) (w : Writer) → IsOrdered w → IsOrdered (delete_old now q w)
delete_old-IsOrdered now q w h = elim (delete_old_cases now q w) [
  | inl e ↦ rw e h
  | inr (p, e) ↦ rw e (Rising-keep p w.rows w.next_id h)
]

delete_first_cases :
    (q : Sqlite) (w : Writer)
    → (delete_first q w ≡ w)
      ⊎ (delete_first q w ≡ record w { rows = drop (min w.max_size_mb 100_000) w.rows })
unfolding delete_first
delete_first_cases q w = elim (Bool-cases (w.max_size_mb == 0)) [
  | inl e ↦ inl (ground arith)
  | inr e ↦ elim (Bool-cases (leb q.size_bytes (w.max_size_mb * 1024 * 1024))) [
    | inl f ↦ inl (ground arith)
    | inr f ↦ elim (Bool-cases q.deletes_first) [
      | inl g ↦ inr (ground arith)
      | inr g ↦ inl (ground arith)
    ]
  ]
]

delete_first-IsOrdered : (q : Sqlite) (w : Writer) → IsOrdered w → IsOrdered (delete_first q w)
delete_first-IsOrdered q w h = elim (delete_first_cases q w) [
  | inl e ↦ rw e h
  | inr e ↦ rw e (Rising-drop (min w.max_size_mb 100_000) w.rows w.next_id h)
]

cleanup-IsOrdered : (now : ℕ) (q : Sqlite) (w : Writer) → IsOrdered w → IsOrdered (cleanup now q w)
unfolding cleanup
cleanup-IsOrdered now q w h =
    delete_first-IsOrdered q (delete_old now q w) (delete_old-IsOrdered now q w h)

cleanup-next_id : (now : ℕ) (q : Sqlite) (w : Writer) → (cleanup now q w).next_id ≡ w.next_id
unfolding cleanup delete_first delete_old
cleanup-next_id now q w = ground arith

-- An append, with what SQLite does at it.
pub record Append : Type 0 where
  pub now : ℕ
  pub sqlite : Sqlite
  pub level : Level
  pub category : String
  pub message : String

unfoldable pub append_one : Append → Writer → Writer
append_one a w = (do_append a.now a.sqlite a.level a.category a.message w).1

unfoldable pub append_all : List Append → Writer → Writer
unfolding append_one
append_all [] w = w
append_all (a ∷ more) w = append_all more (append_one a w)

appended :
    (a : Append) (w : Writer)
    → a.sqlite.inserts ≡ true
    → (do_append a.now a.sqlite a.level a.category a.message w).1
      ≡ cleanup a.now a.sqlite (insert_row a.now a.level a.category a.message w)
unfolding do_append
appended a w e = ground arith

refused :
    (a : Append) (w : Writer)
    → a.sqlite.inserts ≡ false
    → (do_append a.now a.sqlite a.level a.category a.message w).1 ≡ w
unfolding do_append
refused a w e = ground arith

insert_row-IsOrdered :
    (now : ℕ) (level : Level) (category message : String) (w : Writer)
    → IsOrdered w
    → IsOrdered (insert_row now level category message w)
unfolding insert_row
insert_row-IsOrdered now level category message w h = Rising-snoc w.rows _ h

insert_row_next :
    (now : ℕ) (level : Level) (category message : String) (w : Writer)
    → (insert_row now level category message w).next_id ≡ w.next_id + 1
unfolding insert_row
insert_row_next now level category message w = refl

append_one-IsOrdered :
    (a : Append) (w : Writer)
    → IsOrdered w
    → IsOrdered (append_one a w) × (w.next_id ≤ (append_one a w).next_id)
unfolding append_one
append_one-IsOrdered a w h = elim (Bool-cases a.sqlite.inserts) [
  | inl e ↦
      let inserted : Writer = insert_row a.now a.level a.category a.message w in
      rw (appended a w e) (
        cleanup-IsOrdered a.now a.sqlite inserted
            (insert_row-IsOrdered a.now a.level a.category a.message w h),
        omega (
          arith,
          cleanup-next_id a.now a.sqlite inserted,
          insert_row_next a.now a.level a.category a.message w,
        ),
      )
  | inr e ↦ rw (refused a w e) (h, omega arith)
]

-- The journal's numbers: from a table whose rows stand in the order of their numbers, all given
-- out, any appends lead to such a table, whatever they remove, and the next number never goes down;
-- so, unlike in the event log, no number is given out twice.
pub append_all-IsOrdered :
    (more : List Append) (w : Writer)
    → IsOrdered w
    → IsOrdered (append_all more w) × (w.next_id ≤ (append_all more w).next_id)
unfolding append_all
append_all-IsOrdered [] w h = (h, omega arith)
append_all-IsOrdered (a ∷ more) w h =
    let (h', le) = append_one-IsOrdered a w h in
    let (h'', le') = append_all-IsOrdered more (append_one a w) h' in (h'', omega arith)

Falling-snoc :
    (rows : List JournalRecord) (r : JournalRecord)
    → Falling rows
    → All (λ q. r.seq < q.seq) rows
    → Falling (rows ++ r ∷ [])
Falling-snoc [] r h k = (tt, tt)
Falling-snoc (q ∷ rows) r h k =
    (All-append (λ p. p.seq < q.seq) rows (r ∷ []) h.0 (k.0, tt), Falling-snoc rows r h.1 k.1)

All-reverse {ℓ} :
    (P : JournalRecord → Type ℓ) (rows : List JournalRecord) → All P rows → All P (reverse rows)
All-reverse P [] h = tt
All-reverse P (r ∷ rows) h =
    rw (reverse-append (r ∷ []) rows)
      (All-append P (reverse rows) (r ∷ []) (All-reverse P rows h.1) (h.0, tt))

Rising-reverse : (rows : List JournalRecord) (n : ℕ) → Rising rows n → Falling (reverse rows)
Rising-reverse [] n h = tt
Rising-reverse (r ∷ rows) n h = rw (reverse-append (r ∷ []) rows) (
    Falling-snoc (reverse rows) r (Rising-reverse rows n h.2)
      (All-reverse (λ q. r.seq < q.seq) rows h.1))

All-take :
    (P : JournalRecord → Type 0) (k : ℕ) (rows : List JournalRecord)
    → All P rows
    → All P (take k rows)
All-take P zero rows h = tt
All-take P (suc k) [] h = tt
All-take P (suc k) (r ∷ rows) h = (h.0, All-take P k rows h.1)

Falling-take : (k : ℕ) (rows : List JournalRecord) → Falling rows → Falling (take k rows)
Falling-take zero rows h = tt
Falling-take (suc k) [] h = tt
Falling-take (suc k) (r ∷ rows) h =
    (All-take (λ q. q.seq < r.seq) k rows h.0, Falling-take k rows h.1)

clamp-le : (n : ℕ) → clamp n ≤ 1000
unfolding clamp
clamp-le n = ground arith

-- Both views of the journal, the writer's and the command line's with any filter, list the rows
-- from the newest number down, each once, and at most as many as were asked for, 1000 at the most.
pub recent-Falling :
    (limit now : ℕ) (filter : JournalFilter) (w : Writer)
    → IsOrdered w
    → (Falling (recent limit w) × (length (recent limit w) ≤ min limit 1000))
      × (Falling (query_recent now filter w.rows)
          × (length (query_recent now filter w.rows) ≤ 1000))
unfolding recent do_recent query_recent
recent-Falling limit now filter w h = (
  (
    Falling-take (min limit 1000) (reverse w.rows) (Rising-reverse w.rows w.next_id h),
    length-take-le (min limit 1000) (reverse w.rows),
  ),
  (
    Falling-take _ (reverse (keep (selected now filter) w.rows)) (
        Rising-reverse (keep (selected now filter) w.rows) w.next_id
          (Rising-keep (selected now filter) w.rows w.next_id h)),
    omega (
      arith,
      length-take-le (clamp (get_or filter.limit 20)) (reverse (keep (selected now filter) w.rows)),
      clamp-le (get_or filter.limit 20),
    ),
  ),
)
