-- ===== src/Core/TaskStore/Names.antt =====
-- File names that task ids turn into.
use Prim.Native.Char.{code}
use acp_a2a_gateway.Prelude.{
  ℕ, zero, suc, ◌≤◌, String, ◌≡◌, ◌≢◌, ◌⊎◌, refl, true, arith, ap, Bool-cases, inl, inr,
}
use acp_a2a_gateway.Core.TaskStore.{is_safe, keep_safe, take_chars, sanitize_task_id}

-- The code of a digit, of an ASCII letter, of `-` or of `_`.
abbrev pub IsPlain : ℕ → Type 0
IsPlain c =
    ((48 ≤ c) × (c ≤ 57)) ⊎ ((65 ≤ c) × (c ≤ 90)) ⊎ ((97 ≤ c) × (c ≤ 122)) ⊎ (c ≡ 45) ⊎ (c ≡ 95)

abbrev pub AllPlain : String → Type 0
AllPlain String.[] = Unit {0}
AllPlain (String.◌∷◌ c s) = IsPlain (code c) × AllPlain s

-- No `/`, no backslash, no dot and no zero.
abbrev pub NoPath : String → Type 0
NoPath String.[] = Unit {0}
NoPath (String.◌∷◌ c s) = ((code c ≢ 47) × (code c ≢ 92) × (code c ≢ 46) × (code c ≢ 0)) × NoPath s

abbrev pub size : String → ℕ
size String.[] = 0
size (String.◌∷◌ c s) = suc (size s)

IsPlain-of : (c : ℕ) → is_safe c ≡ true → IsPlain c
IsPlain-of c h = ground arith

is_safe_of : (c : ℕ) → IsPlain c → is_safe c ≡ true
is_safe_of c h = ground arith

NoPath-at : (c : ℕ) → IsPlain c → (c ≢ 47) × (c ≢ 92) × (c ≢ 46) × (c ≢ 0)
NoPath-at c h = (λ e. ground arith, λ e. ground arith, λ e. ground arith, λ e. ground arith)

NoPath-of : (s : String) → AllPlain s → NoPath s
NoPath-of String.[] h = tt
NoPath-of (String.◌∷◌ c s) h = (NoPath-at (code c) h.0, NoPath-of s h.1)

keep_safe-AllPlain : (s : String) → AllPlain (keep_safe s)
unfolding keep_safe
keep_safe-AllPlain String.[] = tt
keep_safe-AllPlain (String.◌∷◌ c s) = elim (Bool-cases (is_safe (code c))) [
  | inl e ↦ rw e (IsPlain-of (code c) e, keep_safe-AllPlain s)
  | inr e ↦ rw e (keep_safe-AllPlain s)
]

take_chars-AllPlain : (n : ℕ) (s : String) → AllPlain s → AllPlain (take_chars n s)
unfolding take_chars
take_chars-AllPlain zero s h = tt
take_chars-AllPlain (suc n) String.[] h = tt
take_chars-AllPlain (suc n) (String.◌∷◌ c s) h = (h.0, take_chars-AllPlain n s h.1)

size-take_chars-le : (n : ℕ) (s : String) → size (take_chars n s) ≤ n
unfolding take_chars
size-take_chars-le zero s = omega arith
size-take_chars-le (suc n) String.[] = omega arith
size-take_chars-le (suc n) (String.◌∷◌ c s) = omega (arith, size-take_chars-le n s)

keep_safe_id : (s : String) → AllPlain s → keep_safe s ≡ s
unfolding keep_safe
keep_safe_id String.[] h = refl
keep_safe_id (String.◌∷◌ c s) h =
    rw (is_safe_of (code c) h.0) (ap (String.◌∷◌ c) (keep_safe_id s h.1))

take_chars_id : (n : ℕ) (s : String) → size s ≤ n → take_chars n s ≡ s
unfolding take_chars
take_chars_id zero String.[] h = refl
take_chars_id zero (String.◌∷◌ c s) h = absurd (omega arith)
take_chars_id (suc n) String.[] h = refl
take_chars_id (suc n) (String.◌∷◌ c s) h = ap (String.◌∷◌ c) (take_chars_id n s (omega arith))

sanitize_plain : (s : String) → AllPlain s → size s ≤ 128 → sanitize_task_id s ≡ s
unfolding sanitize_task_id
sanitize_plain s p b = rw (keep_safe_id s p) (take_chars_id 128 s b)

-- Whatever the task id, the name of its file has only digits, ASCII letters, `-` and `_`, so no
-- separator, no dot and no zero byte, and at most 128 characters, and is its own name; and an id
-- that is made so is the name of its file, so two such ids have different files.
pub sanitize_task_id_safe :
    (raw plain : String)
    → AllPlain plain
    → size plain ≤ 128
    → AllPlain (sanitize_task_id raw)
      × NoPath (sanitize_task_id raw)
      × (size (sanitize_task_id raw) ≤ 128)
      × (sanitize_task_id (sanitize_task_id raw) ≡ sanitize_task_id raw)
      × (sanitize_task_id plain ≡ plain)
sanitize_task_id_safe raw plain p b =
    let name = sanitize_task_id raw in
    let safe : AllPlain name =
      unfold sanitize_task_id in take_chars-AllPlain 128 (keep_safe raw) (keep_safe-AllPlain raw) in
    let short : size name ≤ 128 =
      unfold sanitize_task_id in size-take_chars-le 128 (keep_safe raw) in
    (safe, NoPath-of name safe, short, sanitize_plain name safe short, sanitize_plain plain p b)
