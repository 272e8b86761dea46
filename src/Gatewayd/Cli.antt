-- ===== src/Gatewayd/Cli.antt =====
-- gatewayd/src/cli.rs: the commands that read the journal and that decide on agents. A command's
-- files are given by their paths; what it prints, but for its layout, is its result.
pub mod Periods
pub mod Deciding
pub mod Dates
use text.Mathlib.Text.{starts_with}
use acp_a2a_gateway.Prelude.{
  ◌>>=◌, ℕ, ◌+◌, ◌-◌, ◌*◌, ◌/◌, ◌%◌, ◌^◌, String, Bool, true, false, ◌&&◌, Option, none, some, List,
  [], ◌∷◌, ◌==◌, ◌=ˢ◌, leb, ltb, if◌then◌else◌, map_option, get_or, every, contains, Dict, lookup,
  insert, Result, ok, err, ok_or, bad_value, unknown_argument, bad_period, missing_database,
}
use acp_a2a_gateway.Core.Utf8.{Text, trim}
use acp_a2a_gateway.Protocol.Handshake.{code_points}
use acp_a2a_gateway.Gatewayd.Journal.{JournalRecord, query_recent}
use acp_a2a_gateway.Gatewayd.Approvals.{Status, approved, rejected, Row, ApprovalRecord, set, list}

unfoldable pub is_digit : ℕ → Bool
is_digit c = leb b'0' c && leb c b'9'

-- The digits in front, and the rest from the first other character on, if there is one.
unfoldable pub split_number : Text → Text × Text
unfolding is_digit
split_number [] = ([], [])
split_number (c ∷ cs) =
    let rest = split_number cs in if is_digit c then (c ∷ rest.0, rest.1) else ([], c ∷ cs)

-- Digits behind a value; an `u64` holds no larger number.
unfoldable pub read_digits : ℕ → Text → Option ℕ
read_digits value [] = some value
read_digits value (c ∷ cs) =
    let next = value * 10 + (c - b'0') in
    let rest = read_digits next cs in if ltb next (2 ^ 64) then rest else none

unfoldable pub parse_u64 : Text → Option ℕ
unfolding read_digits
parse_u64 [] = none
parse_u64 (c ∷ cs) = read_digits 0 (c ∷ cs)

abbrev pub is_same : Text → Text → Bool
is_same [] [] = true
is_same [] (d ∷ ds) = false
is_same (c ∷ cs) [] = false
is_same (c ∷ cs) (d ∷ ds) = c == d && is_same cs ds

unfoldable pub multiplier : (unit : Text) → Option ℕ
multiplier unit =
    if is_same unit (code_points "s")
    then some 1
    else if is_same unit (code_points "m")
    then some 60
    else if is_same unit (code_points "h")
    then some 3600
    else if is_same unit (code_points "d")
    then some (24 * 3600)
    else if is_same unit (code_points "w")
    then some (7 * 24 * 3600)
    else if is_same unit (code_points "mo")
    then some (30 * 24 * 3600)
    else none

-- The product wraps at 64 bits.
unfoldable pub period_of : (number : Option ℕ) → (unit : Text) → Option ℕ
unfolding multiplier
period_of none unit = none
period_of (some n) unit =
    if n == 0 then none else map_option (λ mult. n * mult % 2 ^ 64) (multiplier unit)

-- A text of digits only has no unit.
unfoldable pub period_parts : Text × Text → Option ℕ
unfolding parse_u64 period_of
period_parts (number, []) = none
period_parts (number, c ∷ unit) = period_of (parse_u64 number) (c ∷ unit)

unfoldable pub parse_period : Text → Option ℕ
unfolding split_number period_parts trim
parse_period s = period_parts (split_number (trim s))

pub record Date : Type 0 where
  pub year : ℕ
  pub month : ℕ
  pub day : ℕ

-- The year of an era of 400 years, each of which begins in March, from the day of the era.
unfoldable pub year_of_era : (doe : ℕ) → ℕ
year_of_era doe = (doe - doe / 1460 + doe / 36524 - doe / 146096) / 365

unfoldable pub day_of_year : (doe yoe : ℕ) → ℕ
day_of_year doe yoe = doe - (365 * yoe + yoe / 4 - yoe / 100)

-- The month and the day of a day of a year that begins in March; `mp` is the number of the month.
unfoldable pub date_of_month : (y0 doy mp : ℕ) → Date
date_of_month y0 doy mp =
    let month = if ltb mp 10 then mp + 3 else mp - 9 in
    record {
      year = if leb month 2 then y0 + 1 else y0;
      month = month;
      day = doy - (153 * mp + 2) / 5 + 1;
    }

unfoldable pub date_of : (y0 doy : ℕ) → Date
unfolding date_of_month
date_of y0 doy = date_of_month y0 doy ((5 * doy + 2) / 153)

unfoldable pub date_in_era : (era doe : ℕ) → Date
unfolding year_of_era day_of_year date_of
date_in_era era doe = date_of (year_of_era doe + era * 400) (day_of_year doe (year_of_era doe))

-- The date of a number of days since 1970-01-01. The source's numbers are not negative here.
unfoldable pub civil_from_days : ℕ → Date
unfolding date_in_era
civil_from_days days =
    let z = days + 719_468 in date_in_era (z / 146_097) (z - z / 146_097 * 146_097)

pub record Moment : Type 0 where
  pub date : Date
  pub hour : ℕ
  pub minute : ℕ
  pub second : ℕ

unfoldable pub unix_to_utc : (secs : ℕ) → Moment
unfolding civil_from_days
unix_to_utc secs = record {
  date = civil_from_days (secs / 86400);
  hour = secs % 86400 / 3600;
  minute = secs % 86400 % 3600 / 60;
  second = secs % 86400 % 60;
}

-- The arguments of `--journal`.
pub record JournalArgs : Type 0 where
  pub db : String
  pub limit : Option ℕ
  pub level : Option String
  pub category : Option String
  pub since : Option String

unfoldable pub default_args : JournalArgs
default_args = record {
  db = "/tmp/gateway/journal.db";
  limit = none;
  level = none;
  category = none;
  since = none;
}

levels : List String
levels = "info" ∷ "warn" ∷ "error" ∷ []

-- v.parse::<u64>()
unfoldable pub parse_number : Text → Option ℕ
unfolding is_digit parse_u64
parse_number [] = none
parse_number (c ∷ []) = if is_digit c then parse_u64 (c ∷ []) else none
parse_number (c ∷ d ∷ cs) =
    if c == b'+'
    then (if every is_digit (d ∷ cs) then parse_u64 (d ∷ cs) else none)
    else if every is_digit (c ∷ d ∷ cs)
    then parse_u64 (c ∷ d ∷ cs)
    else none

set_limit : Option ℕ → JournalArgs → Result JournalArgs
set_limit none a = err (bad_value "--limit")
set_limit (some n) a = ok (record a { limit = some n })

unfoldable pub set_argument : (flag value : String) → JournalArgs → Result JournalArgs
unfolding parse_number levels set_limit
set_argument flag value a =
    if flag =ˢ "--db"
    then ok (record a { db = value })
    else if flag =ˢ "--limit"
    then set_limit (parse_number (code_points value)) a
    else if flag =ˢ "--level"
    then (if contains value levels
        then ok (record a { level = some value })
        else err (bad_value "--level"))
    else if flag =ˢ "--category"
    then ok (record a { category = some value })
    else if flag =ˢ "--since"
    then ok (record a { since = some value })
    else err (unknown_argument flag)

flags : List String
flags = "--db" ∷ "--limit" ∷ "--level" ∷ "--category" ∷ "--since" ∷ []

unfoldable pub parse_args : List String → JournalArgs → Result JournalArgs
unfolding flags set_argument
parse_args [] a = ok a
parse_args (flag ∷ []) a =
    if contains flag flags then err (bad_value flag) else err (unknown_argument flag)
parse_args (flag ∷ value ∷ rest) a = do a' ← set_argument flag value a; parse_args rest a'

since_secs : Option String → Result (Option ℕ)
unfolding parse_period
since_secs none = ok none
since_secs (some s) = do secs ← ok_or (parse_period (code_points s)) (bad_period s); ok (some secs)

-- The rows of the databases that exist, by their paths.
unfoldable pub run_journal :
    (now : ℕ) → Dict (List JournalRecord) → List String → Result (List JournalRecord)
unfolding default_args parse_args since_secs query_recent
run_journal now databases args = do
  a ← parse_args args default_args
  secs ← since_secs a.since
  rows ← ok_or (lookup a.db databases) (missing_database a.db)
  ok (
      query_recent now
        (record { limit = a.limit; level = a.level; category = a.category; since_secs = secs })
        rows)

pub record ApprovalArgs : Type 0 where
  pub db : String
  pub name : Option String

unfoldable pub parse_approval_args : List String → ApprovalArgs → Result ApprovalArgs
parse_approval_args [] a = ok a
parse_approval_args (arg ∷ []) a =
    if arg =ˢ "--db"
    then err (bad_value "--db")
    else if starts_with arg "--"
    then err (unknown_argument arg)
    else ok (record a { name = some arg })
parse_approval_args (arg ∷ next ∷ rest) a =
    let behind_value = parse_approval_args rest (record a { db = next }) in
    let behind = parse_approval_args (next ∷ rest) (record a { name = some arg }) in
    if arg =ˢ "--db"
    then behind_value
    else if starts_with arg "--"
    then err (unknown_argument arg)
    else behind

pub data Printed : Type 0 where
  listed : List ApprovalRecord → Printed
  decided : Status → String → Printed

-- `ApprovalStore::open` makes a table that is not there.
unfoldable pub open_table : String → Dict (Dict Row) → Dict Row
open_table db tables = get_or (lookup db tables) []

unfoldable pub decide :
    (now : String)
    → Status
    → (db : String) → (name : Option String) → Dict (Dict Row)
    → Result Printed × Dict (Dict Row)
unfolding open_table set
decide now status db none tables =
    (err (bad_value "agent name"), insert db (open_table db tables) tables)
decide now status db (some agent) tables =
    (ok (decided status agent), insert db (set now agent status (open_table db tables)) tables)

-- `main` gives it one of the three commands.
unfoldable pub perform :
    (now command : String)
    → Result ApprovalArgs
    → Dict (Dict Row)
    → Result Printed × Dict (Dict Row)
unfolding open_table list decide
perform now command (err e) tables = (err e, tables)
perform now command (ok a) tables =
    if command =ˢ "--approvals"
    then (ok (listed (list (open_table a.db tables))), insert a.db (open_table a.db tables) tables)
    else if command =ˢ "--approve"
    then decide now approved a.db a.name tables
    else decide now rejected a.db a.name tables

-- What is on the disk afterwards comes back too.
unfoldable pub run_approvals :
    (now command : String) → List String → Dict (Dict Row) → Result Printed × Dict (Dict Row)
unfolding parse_approval_args perform
run_approvals now command args tables =
    perform now command
      (parse_approval_args args (record { db = "/tmp/gateway/approvals.db"; name = none })) tables
