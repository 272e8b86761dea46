-- ===== src/Gatewayd/Cli/Dates.antt =====
-- The dates of the Gregorian calendar.
use acp_a2a_gateway.Prelude.{
  ℕ, zero, suc, ◌+◌, ◌-◌, ◌*◌, ◌/◌, ◌%◌, ◌≤◌, ◌<◌, ◌≡◌, refl, ap, ◌∙◌, sym, inl, inr, Bool-cases,
  Bool, ◌&&◌, ◌||◌, not, ◌==◌, ltb, if◌then◌else◌, arith,
}
use acp_a2a_gateway.Gatewayd.Cli.{
  Date, year_of_era, day_of_year, date_of_month, date_of, date_in_era, civil_from_days, unix_to_utc,
}

abbrev pub is_leap : ℕ → Bool
is_leap y = (y % 4 == 0 && not (y % 100 == 0)) || y % 400 == 0

abbrev pub month_length : (y m : ℕ) → ℕ
month_length y m =
    if m == 2
    then (if is_leap y then 29 else 28)
    else if m == 4 || m == 6 || m == 9 || m == 11
    then 30
    else 31

abbrev pub next_day : Date → Date
next_day date =
    if ltb date.day (month_length date.year date.month)
    then record date { day = date.day + 1 }
    else if ltb date.month 12
    then record { year = date.year; month = date.month + 1; day = 1 }
    else record { year = date.year + 1; month = 1; day = 1 }

-- The days of a year that begins in March of `y0`.
abbrev days_from_march : ℕ → ℕ
days_from_march y0 = if is_leap (y0 + 1) then 366 else 365

-- The year, by the number of the month.
by_month : ℕ → ℕ → ℕ → Date
by_month y0 doy mp = record {
  year = if ltb mp 10 then y0 else y0 + 1;
  month = if ltb mp 10 then mp + 3 else mp - 9;
  day = doy - (153 * mp + 2) / 5 + 1;
}

date_of-by_month : (y0 doy : ℕ) → doy < 366 → date_of y0 doy ≡ by_month y0 doy ((5 * doy + 2) / 153)
unfolding date_of date_of_month by_month
date_of-by_month y0 doy h = ground arith

by_month_next :
    (y0 doy : ℕ)
    → doy + 1 < days_from_march y0
    → next_day (by_month y0 doy ((5 * doy + 2) / 153))
      ≡ by_month y0 (doy + 1) ((5 * (doy + 1) + 2) / 153)
unfolding by_month
by_month_next y0 doy h = ground arith

short_year : (y0 : ℕ) → days_from_march y0 ≤ 366
short_year y0 = ground arith

date_of_next :
    (y0 doy : ℕ) → doy + 1 < days_from_march y0 → next_day (date_of y0 doy) ≡ date_of y0 (doy + 1)
date_of_next y0 doy h =
    rw
      (
        date_of-by_month y0 doy (omega (arith, h, short_year y0)),
        date_of-by_month y0 (doy + 1) (omega (arith, h, short_year y0)),
      )
      (by_month_next y0 doy h)

date_of_last :
    (y0 doy : ℕ) → doy + 1 ≡ days_from_march y0 → next_day (date_of y0 doy) ≡ date_of (y0 + 1) 0
unfolding date_of date_of_month
date_of_last y0 doy h = ground arith

-- The first day of a year of an era.
abbrev first_day : ℕ → ℕ
first_day yoe = 365 * yoe + yoe / 4 - yoe / 100

year_of_era_start : (doe : ℕ) → doe < 146_097 → first_day (year_of_era doe) ≤ doe
unfolding year_of_era
year_of_era_start doe h = omega (arith, h)

year_of_era_end : (doe : ℕ) → doe < 146_096 → doe < first_day (year_of_era doe + 1)
unfolding year_of_era
year_of_era_end doe h = omega (arith, h)

year_of_era_le : (doe : ℕ) → doe < 146_097 → year_of_era doe ≤ 399
unfolding year_of_era
year_of_era_le doe h = omega (arith, h)

days_left :
    (era yoe doe : ℕ)
    → yoe ≤ 399
    → first_day yoe ≤ doe
    → doe + 1 < first_day (yoe + 1)
    → doe - first_day yoe + 1 < days_from_march (yoe + era * 400)
days_left era yoe doe h start k = ground arith

no_days_left :
    (era yoe doe : ℕ)
    → yoe < 399
    → first_day yoe ≤ doe
    → doe + 1 ≡ first_day (yoe + 1)
    → doe - first_day yoe + 1 ≡ days_from_march (yoe + era * 400)
no_days_left era yoe doe h start k = ground arith

last_year_length : (era : ℕ) → days_from_march (399 + era * 400) ≡ 366
last_year_length era = ground arith

-- The next day is in the same year.
year_of_era_next :
    (doe : ℕ)
    → doe + 1 < 146_097
    → doe + 1 < first_day (year_of_era doe + 1)
    → year_of_era (doe + 1) ≡ year_of_era doe
unfolding year_of_era
year_of_era_next doe h k = omega (arith, h, k)

year_of_era_last :
    (doe : ℕ)
    → doe + 1 < 146_096
    → doe + 1 ≡ first_day (year_of_era doe + 1)
    → year_of_era (doe + 1) ≡ year_of_era doe + 1
unfolding year_of_era
year_of_era_last doe h k = omega (arith, h, k)

-- A day in the year that its day of the era falls in.
in_year :
    (era doe yoe doy : ℕ)
    → year_of_era doe ≡ yoe
    → doe - first_day yoe ≡ doy
    → date_in_era era doe ≡ date_of (yoe + era * 400) doy
unfolding date_in_era day_of_year
in_year era doe yoe doy y d = rw (y, d) refl

same_year :
    (era doe : ℕ)
    → doe < 146_096
    → doe + 1 < first_day (year_of_era doe + 1)
    → next_day (date_in_era era doe) ≡ date_in_era era (doe + 1)
same_year era doe h k =
    let yoe = year_of_era doe in
    let start : first_day yoe ≤ doe = year_of_era_start doe (omega (arith, h)) in
    rw
      (
        in_year era doe yoe (doe - first_day yoe) refl refl,
        in_year era (doe + 1) yoe (doe - first_day yoe + 1)
            (year_of_era_next doe (omega (arith, h)) k) (omega (arith, start)),
      )
      (date_of_next (yoe + era * 400) (doe - first_day yoe)
        (days_left era yoe doe (year_of_era_le doe (omega (arith, h))) start k))

next_year :
    (era doe : ℕ)
    → doe + 1 < 146_096
    → doe + 1 ≡ first_day (year_of_era doe + 1)
    → next_day (date_in_era era doe) ≡ date_in_era era (doe + 1)
next_year era doe h k =
    let yoe = year_of_era doe in
    let start : first_day yoe ≤ doe = year_of_era_start doe (omega (arith, h)) in
    let early : yoe < 399 = omega (arith, h, k, year_of_era_le doe (omega (arith, h))) in
    let moved : yoe + era * 400 + 1 ≡ yoe + 1 + era * 400 = omega arith in
    rw
      (
        in_year era doe yoe (doe - first_day yoe) refl refl,
        in_year era (doe + 1) (yoe + 1) 0 (year_of_era_last doe h k) (omega (arith, k)),
        sym moved,
      )
      (date_of_last (yoe + era * 400) (doe - first_day yoe)
        (no_days_left era yoe doe early start k))

known_years : (year_of_era 0 ≡ 0) × (year_of_era 146_095 ≡ 399) × (year_of_era 146_096 ≡ 399)
unfolding year_of_era
known_years = (refl, refl, refl)

-- The last two days of an era, of which the second is the leap day.
era_leaps : (era : ℕ) → next_day (date_in_era era 146_095) ≡ date_in_era era 146_096
era_leaps era =
    rw
      (
        in_year era 146_095 399 364 known_years.1 refl,
        in_year era 146_096 399 365 known_years.2 refl,
      )
      (date_of_next (399 + era * 400) 364 (rw (last_year_length era) (omega arith)))

era_ends : (era : ℕ) → next_day (date_in_era era 146_096) ≡ date_in_era (era + 1) 0
era_ends era =
    let moved : 399 + era * 400 + 1 ≡ 0 + (era + 1) * 400 = omega arith in
    rw
      (
        in_year era 146_096 399 365 known_years.2 refl,
        in_year (era + 1) 0 0 0 known_years.0 refl,
        sym moved,
      )
      (date_of_last (399 + era * 400) 365 (sym (last_year_length era)))

date_in_era_next :
    (era doe : ℕ) → doe + 1 < 146_097 → next_day (date_in_era era doe) ≡ date_in_era era (doe + 1)
date_in_era_next era doe h = elim (Bool-cases (ltb (doe + 1) 146_096)) [
  | inr n ↦ let last : doe ≡ 146_095 = ground arith in rw last (era_leaps era)
  | inl y ↦ elim (Bool-cases (ltb (doe + 1) (first_day (year_of_era doe + 1)))) [
    | inl k ↦ same_year era doe (ground arith) (ground arith)
    | inr k ↦ next_year era doe (ground arith) (ground (arith, year_of_era_end doe (ground arith)))
  ]
]

-- The day in its era.
day_in_era :
    (days era doe : ℕ)
    → (days + 719_468) / 146_097 ≡ era
    → days + 719_468 - era * 146_097 ≡ doe
    → civil_from_days days ≡ date_in_era era doe
unfolding civil_from_days
day_in_era days era doe e d = rw (e, d) refl

civil_from_days_next : (days : ℕ) → next_day (civil_from_days days) ≡ civil_from_days (days + 1)
civil_from_days_next days =
    let z = days + 719_468 in
    let era = z / 146_097 in
    let doe = z - era * 146_097 in
    elim (Bool-cases (ltb (doe + 1) 146_097)) [
      | inl y ↦
          rw
            (
              day_in_era days era doe refl refl,
              day_in_era (days + 1) era (doe + 1) (ground arith) (ground arith),
            )
            (date_in_era_next era doe (ground arith))
      | inr n ↦
          rw
            (
              day_in_era days era 146_096 refl (ground arith),
              day_in_era (days + 1) (era + 1) 0 (ground arith) (ground arith),
            )
            (era_ends era)
    ]

abbrev pub days_after : ℕ → Date → Date
days_after zero date = date
days_after (suc n) date = next_day (days_after n date)

suc_add : (days : ℕ) → suc days ≡ days + 1
suc_add days = omega arith

epoch : civil_from_days 0 ≡ record { year = 1970; month = 1; day = 1 }
unfolding civil_from_days date_in_era year_of_era day_of_year date_of date_of_month
epoch = refl

civil_from_days_after :
    (days : ℕ) → civil_from_days days ≡ days_after days (record { year = 1970; month = 1; day = 1 })
civil_from_days_after zero = epoch
civil_from_days_after (suc days) =
    ap civil_from_days (suc_add days)
    ∙ sym (civil_from_days_next days)
    ∙ ap next_day (civil_from_days_after days)

-- The date of a time is as many days after 1970-01-01, each day the next of the Gregorian
-- calendar, as whole days have passed, and the time of the day is what is left: with it, the
-- seconds are again those that were given.
pub unix_to_utc_calendar :
    (secs : ℕ)
    → let t = unix_to_utc secs in
      (t.date ≡ days_after (secs / 86400) (record { year = 1970; month = 1; day = 1 }))
      × (t.hour < 24)
      × (t.minute < 60)
      × (t.second < 60)
      × (secs / 86400 * 86400 + t.hour * 3600 + t.minute * 60 + t.second ≡ secs)
unfolding unix_to_utc
unix_to_utc_calendar secs =
    (civil_from_days_after (secs / 86400), omega arith, omega arith, omega arith, omega arith)
