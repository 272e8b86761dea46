-- ===== src/Gatewayd/Journal/Times.antt =====
-- gatewayd/src/journal.rs: the cleanup by age compares times as texts.
use acp_a2a_gateway.Prelude.{
  ℕ, zero, suc, ◌+◌, ◌*◌, ◌/◌, ◌%◌, ◌^◌, ◌≤◌, ◌<◌, ◌≡◌, refl, ap, ◌∙◌, Bool, true, false, not, List,
  [], ◌∷◌, ◌++◌, ltb, leb, if◌then◌else◌, keep, All, length, arith,
}
use acp_a2a_gateway.Core.Utf8.{Text}
use acp_a2a_gateway.Gatewayd.Journal.{
  JournalRecord, Writer, Sqlite, digits, width, decimal, text_lt, cutoff, delete_old,
}

-- Two texts of one length with a last character each.
text_lt-snoc :
    (xs ys : Text) (c d : ℕ)
    → length xs ≡ length ys
    → text_lt (xs ++ c ∷ []) (ys ++ d ∷ [])
      ≡ (if text_lt xs ys then true else if text_lt ys xs then false else ltb c d)
unfolding text_lt
text_lt-snoc [] [] c d h = ground arith
text_lt-snoc [] (y ∷ ys) c d h = absurd (omega arith)
text_lt-snoc (x ∷ xs) [] c d h = absurd (omega arith)
text_lt-snoc (x ∷ xs) (y ∷ ys) c d h = ground (arith, text_lt-snoc xs ys c d)

length-snoc : (xs : Text) (c : ℕ) → length (xs ++ c ∷ []) ≡ suc (length xs)
length-snoc [] c = refl
length-snoc (x ∷ xs) c = ap suc (length-snoc xs c)

length-digits : (k n : ℕ) → length (digits k n) ≡ k
unfolding digits
length-digits zero n = refl
length-digits (suc k) n = length-snoc (digits k (n / 10)) _ ∙ ap suc (length-digits k (n / 10))

-- Numbers of the same width compare as their texts do.
text_lt-digits : (k a b : ℕ) → a < 10 ^ k → b < 10 ^ k → text_lt (digits k a) (digits k b) ≡ ltb a b
unfolding digits text_lt
text_lt-digits zero a b h k' = ground arith
text_lt-digits (suc k) a b h h' = ground (
  arith,
  text_lt-snoc (digits k (a / 10)) (digits k (b / 10)) (b'0' + a % 10) (b'0' + b % 10),
  length-digits k (a / 10),
  length-digits k (b / 10),
  text_lt-digits k (a / 10) (b / 10),
  text_lt-digits k (b / 10) (a / 10),
)

width_ten : (n : ℕ) → 10 ^ 9 ≤ n → n < 10 ^ 10 → width 20 n ≡ 10
unfolding width
width_ten n h k = ground arith

width_nine : (n : ℕ) → 10 ^ 8 ≤ n → n < 10 ^ 9 → width 20 n ≡ 9
unfolding width
width_nine n h k = ground arith

-- A time of this century, in seconds.
abbrev pub IsStamped : (JournalRecord → ℕ) → JournalRecord → Type 0
IsStamped time r = (r.ts ≡ decimal (time r)) × (10 ^ 9 ≤ time r) × (time r < 10 ^ 10)

stamp_lt :
    (t c : ℕ)
    → 10 ^ 9 ≤ t
    → t < 10 ^ 10
    → 10 ^ 9 ≤ c
    → c < 10 ^ 10
    → text_lt (decimal t) (decimal c) ≡ ltb t c
unfolding decimal
stamp_lt t c h h' k k' = rw (width_ten t h h', width_ten c k k') (text_lt-digits 10 t c h' k')

first_lt : (c d : ℕ) (cs ds : Text) → c < d → text_lt (c ∷ cs) (d ∷ ds) ≡ true
unfolding text_lt
first_lt c d cs ds h = ground arith

-- A text of ten digits that begins with 1 lies before one of nine digits that begins with more.
long_lt :
    (t c : ℕ)
    → 10 ^ 9 ≤ t
    → t < 2 * 10 ^ 9
    → 2 * 10 ^ 8 ≤ c
    → c < 10 ^ 9
    → text_lt (decimal t) (decimal c) ≡ true
unfolding decimal digits
long_lt t c h h' k k' =
    rw (width_ten t h (omega arith), width_nine c (omega arith) k') (first_lt _ _ _ _ (omega arith))

keep_lem :
    (p q : JournalRecord → Bool) (rows : List JournalRecord)
    → All (λ r. p r ≡ q r) rows
    → keep p rows ≡ keep q rows
keep_lem p q [] h = refl
keep_lem p q (r ∷ rows) h =
    rw (h.0) (ap (λ rest. if q r then r ∷ rest else rest) (keep_lem p q rows h.1))

keep_nothing :
    (p : JournalRecord → Bool) (rows : List JournalRecord)
    → All (λ r. p r ≡ false) rows
    → keep p rows ≡ []
keep_nothing p [] h = refl
keep_nothing p (r ∷ rows) h = rw h.0 (keep_nothing p rows h.1)

map_All :
    (P Q : JournalRecord → Type 0)
    → ((r : JournalRecord) → P r → Q r)
    → (rows : List JournalRecord) → All P rows
    → All Q rows
map_All P Q f [] h = tt
map_All P Q f (r ∷ rows) h = (f r h.0, map_All P Q f rows h.1)

-- What the statement deletes, if it runs.
delete_old_rows :
    (now : ℕ) (q : Sqlite) (w : Writer)
    → 0 < w.retention_days
    → q.deletes_old ≡ true
    → cutoff now w < 10 ^ 10
    → (delete_old now q w).rows ≡ keep (λ r. not (text_lt r.ts (decimal (cutoff now w)))) w.rows
unfolding delete_old
delete_old_rows now q w d ok hi = ground arith

-- The cleanup by age removes exactly the rows that are older than the cutoff, and keeps the others
-- in their order, if all times and the cutoff have ten digits (from 2001 to 2286).
pub delete_old_exact :
    (now : ℕ) (q : Sqlite) (w : Writer) (time : JournalRecord → ℕ)
    → All (IsStamped time) w.rows
    → 0 < w.retention_days
    → q.deletes_old ≡ true
    → 10 ^ 9 ≤ cutoff now w
    → cutoff now w < 10 ^ 10
    → (delete_old now q w).rows ≡ keep (λ r. leb (cutoff now w) (time r)) w.rows
delete_old_exact now q w time s d ok lo hi =
    delete_old_rows now q w d ok hi
    ∙ keep_lem (λ r. not (text_lt r.ts (decimal (cutoff now w)))) (λ r. leb (cutoff now w) (time r))
        w.rows (map_All (IsStamped time) _ (λ r h. stamped r h) w.rows s)
  where
    stamped :
        (r : JournalRecord)
        → IsStamped time r
        → not (text_lt r.ts (decimal (cutoff now w))) ≡ leb (cutoff now w) (time r)
    stamped r h = rw h.0 (ground (arith, stamp_lt (time r) (cutoff now w) h.1 h.2 lo hi))

-- With a retention that puts the cutoff before September 2001, to a number of nine digits that does
-- not begin with 1, the cleanup by age removes every row from before 2033, however new it is.
pub long_retention_erases :
    (now : ℕ) (q : Sqlite) (w : Writer) (time : JournalRecord → ℕ)
    → All (λ r. (r.ts ≡ decimal (time r)) × (10 ^ 9 ≤ time r) × (time r < 2 * 10 ^ 9)) w.rows
    → 0 < w.retention_days
    → q.deletes_old ≡ true
    → 2 * 10 ^ 8 ≤ cutoff now w
    → cutoff now w < 10 ^ 9
    → (delete_old now q w).rows ≡ []
long_retention_erases now q w time s d ok lo hi =
    delete_old_rows now q w d ok (omega arith)
    ∙ keep_nothing (λ r. not (text_lt r.ts (decimal (cutoff now w)))) w.rows
        (map_All (λ r. (r.ts ≡ decimal (time r)) × (10 ^ 9 ≤ time r) × (time r < 2 * 10 ^ 9)) _
          (λ r h. early r h) w.rows s)
  where
    early :
        (r : JournalRecord)
        → (r.ts ≡ decimal (time r)) × (10 ^ 9 ≤ time r) × (time r < 2 * 10 ^ 9)
        → not (text_lt r.ts (decimal (cutoff now w))) ≡ false
    early r h = rw h.0 (ground (arith, long_lt (time r) (cutoff now w) h.1 h.2 lo hi))
