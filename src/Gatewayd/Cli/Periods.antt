-- ===== src/Gatewayd/Cli/Periods.antt =====
-- How long a period of `--since` is.
use acp_a2a_gateway.Prelude.{
  ℕ, zero, suc, ◌+◌, ◌-◌, ◌*◌, ◌/◌, ◌%◌, ◌^◌, ◌<◌, ◌≡◌, refl, ap, ◌∙◌, true, false, none, some, [],
  ◌∷◌, ◌++◌, every, ◌==◌, ltb, if◌then◌else◌, and_then, arith,
}
use acp_a2a_gateway.Core.Utf8.{Text, trim}
use acp_a2a_gateway.Gatewayd.Journal.{digits}
use acp_a2a_gateway.Gatewayd.Cli.{
  is_digit, split_number, read_digits, parse_u64, multiplier, period_of, period_parts, parse_period,
}

split_number-append :
    (ds : Text) (c : ℕ) (cs : Text)
    → every is_digit ds ≡ true
    → is_digit c ≡ false
    → split_number (ds ++ (c ∷ cs)) ≡ (ds, c ∷ cs)
unfolding split_number
split_number-append [] c cs h n = rw n refl
split_number-append (d ∷ ds) c cs h n =
    let here : is_digit d ≡ true = ground arith in
    rw (here, split_number-append ds c cs (ground arith) n) refl

every_last :
    (ds : Text) (c : ℕ)
    → every is_digit ds ≡ true
    → is_digit c ≡ true
    → every is_digit (ds ++ (c ∷ [])) ≡ true
every_last [] c h k = ground arith
every_last (d ∷ ds) c h k = ground (arith, every_last ds c)

digits-is_digit : (w n : ℕ) → every is_digit (digits w n) ≡ true
unfolding digits is_digit
digits-is_digit zero n = refl
digits-is_digit (suc w) n =
    every_last (digits w (n / 10)) (b'0' + n % 10) (digits-is_digit w (n / 10)) (ground arith)

-- One more digit.
read_last :
    (value c : ℕ) (ds : Text)
    → read_digits value (ds ++ (c ∷ []))
      ≡ and_then
          (read_digits value ds)
          (λ v. if ltb (v * 10 + (c - b'0')) (2 ^ 64) then some (v * 10 + (c - b'0')) else none)
unfolding read_digits
read_last value c [] = refl
read_last value c (d ∷ ds) = ground (arith, read_last (value * 10 + (d - b'0')) c ds)

last_digit :
    (n : ℕ)
    → n < 2 ^ 64
    → (if ltb (n / 10 * 10 + (b'0' + n % 10 - b'0')) (2 ^ 64)
        then some (n / 10 * 10 + (b'0' + n % 10 - b'0'))
        else none)
      ≡ some n
last_digit n k =
    let same : n / 10 * 10 + (b'0' + n % 10 - b'0') ≡ n = omega arith in
    let less : ltb n (2 ^ 64) ≡ true = ground arith in rw (same, less) refl

read_digits-digits : (w n : ℕ) → n < 10 ^ w → n < 2 ^ 64 → read_digits 0 (digits w n) ≡ some n
unfolding digits read_digits
read_digits-digits zero n h k = ap some (omega (arith, h))
read_digits-digits (suc w) n h k =
    read_last 0 (b'0' + n % 10) (digits w (n / 10))
    ∙ ap
        (λ o. and_then o (λ v.
          if ltb (v * 10 + (b'0' + n % 10 - b'0')) (2 ^ 64)
          then some (v * 10 + (b'0' + n % 10 - b'0'))
          else none))
        (read_digits-digits w (n / 10) (omega (arith, h)) (omega (arith, k)))
    ∙ last_digit n k

parse_u64_last : (ds : Text) (c : ℕ) → parse_u64 (ds ++ (c ∷ [])) ≡ read_digits 0 (ds ++ (c ∷ []))
unfolding parse_u64
parse_u64_last [] c = refl
parse_u64_last (d ∷ ds) c = refl

-- A period of digits that print a number, and a unit, is that number of the unit's seconds; there
-- is none for 0. The product wraps at 64 bits, so a large number comes to a short period.
pub parse_period-digits :
    (s : Text) (w n mult c : ℕ) (unit : Text)
    → n < 10 ^ suc w
    → n < 2 ^ 64
    → is_digit c ≡ false
    → multiplier (c ∷ unit) ≡ some mult
    → trim s ≡ digits (suc w) n ++ (c ∷ unit)
    → parse_period s ≡ (if n == 0 then none else some (n * mult % 2 ^ 64))
unfolding parse_period period_parts period_of digits
parse_period-digits s w n mult c unit h k d m t =
    rw
      (
        t,
        split_number-append (digits (suc w) n) c unit (digits-is_digit (suc w) n) d,
        parse_u64_last (digits w (n / 10)) (b'0' + n % 10),
        read_digits-digits (suc w) n h k,
        m,
      )
      refl
