-- ===== src/Tests/TcpTests.antt =====
-- Connections of ACP clients, and the journal.
use acp_a2a_gateway.Prelude.{
  ℕ, ◌≡◌, refl, true, none, some, List, [], ◌∷◌, keep, leb, if◌then◌else◌, and_then, err, external,
  arith,
}
use acp_a2a_gateway.Protocol.Json.{Value, null, num, str, arr, cons, nil, obj, field, end}
use acp_a2a_gateway.Core.Agent.{A2aAgent}
use acp_a2a_gateway.Core.Utf8.{trim}
use acp_a2a_gateway.Core.A2aAsAcp.{with_session_ttl}
use acp_a2a_gateway.Core.A2aAsAcp.Leaks.{with_session_ttl-IsTidy}
use acp_a2a_gateway.Gatewayd.Tcp.Serving.{
  read_request, Serde, Moment, Connection, serve_line, serve_lines,
}
use acp_a2a_gateway.Gatewayd.Tcp.Answers.{Kept, Answers, serve_lines-Kept, serve_line-Answers}
use acp_a2a_gateway.Gatewayd.Journal.{
  Level, JournalRecord, JournalFilter, Writer, Sqlite, decimal, cutoff, delete_old,
}
use acp_a2a_gateway.Gatewayd.Journal.Times.{delete_old_exact, long_retention_erases}
use acp_a2a_gateway.Gatewayd.Journal.Order.{Append}
use acp_a2a_gateway.Tests.Fixtures.{env, registry}

abbrev quiet : A2aAgent
quiet = record {
  card = err (external "down");
  send_task = λ t. err (external "down");
  get_task = λ id. err (external "down");
  cancel_task = λ id. err (external "down");
}

abbrev moment : Moment
moment = record { env = env; agent = quiet; suffix = "7" }

-- Every line is the same request.
abbrev reading : Value → Serde
reading v = record {
  from_str = λ line. some v;
  parse_error = λ line. "no JSON";
  is_initialize = λ p. true;
  is_new_session = λ p. true;
  read_prompt = λ p. none;
  write_initialize = λ r. null;
  write_prompt = λ r. null;
  write_update = λ u. null;
  describe = λ e. "failed";
}

abbrev opening : Value
opening = obj (field "id" (num 3) (field "method" (str "session/new") end))

abbrev fresh : Connection
fresh = record { adapter = with_session_ttl 500; registry = registry }

serve_lines-Kept_example :
    Kept
      (reading opening)
      "a"
      fresh
      (serve_lines (reading opening) "a" ((moment, []) ∷ (moment, []) ∷ []) fresh).1
serve_lines-Kept_example =
    serve_lines-Kept (reading opening) "a" ((moment, []) ∷ (moment, []) ∷ []) fresh
      (with_session_ttl-IsTidy 500)

serve_line-Answers_example :
    Answers
      (reading opening)
      "a"
      moment
      fresh
      (and_then ((reading opening).from_str (trim [])) read_request)
      (serve_line (reading opening) "a" moment [] fresh).0
serve_line-Answers_example = serve_line-Answers (reading opening) "a" moment [] fresh

-- A prompt without an id is not answered.
abbrev notification : Value
notification = obj (field "method" (str "session/new") end)

not_answered : (serve_line (reading notification) "a" moment [] fresh).0 ≡ []
unfolding serve_line read_request
not_answered = refl

-- A request as an array, its params left out.
read_array :
    read_request (arr (cons (num 1) (cons (str "initialize") nil)))
    ≡ some (record { id = some (num 1); method = "initialize"; params = null })
unfolding read_request
read_array = refl

-- 1 700 000 000 and 1 600 000 000 are days of 2023 and 2020.
abbrev row : ℕ → ℕ → JournalRecord
row seq t = record { seq = seq; ts = decimal t; level = "info"; category = "health"; message = "m" }

abbrev rows : List JournalRecord
rows = row 1 1_600_000_000 ∷ row 2 1_700_000_000 ∷ []

abbrev journal : ℕ → Writer
journal days = record { rows = rows; next_id = 3; max_size_mb = 0; retention_days = days }

abbrev sqlite : Sqlite
sqlite = record { inserts = true; deletes_old = true; deletes_first = true; size_bytes = 0 }

-- The time of a row of these.
abbrev time : JournalRecord → ℕ
time r = if leb r.seq 1 then 1_600_000_000 else 1_700_000_000

delete_old_exact_example :
    (delete_old 1_700_000_000 sqlite (journal 30)).rows
    ≡ keep (λ r. leb (cutoff 1_700_000_000 (journal 30)) (time r)) rows
unfolding cutoff
delete_old_exact_example =
    delete_old_exact 1_700_000_000 sqlite (journal 30) time
      ((refl, omega arith, omega arith), ((refl, omega arith, omega arith), tt)) (omega arith) refl
      (omega arith) (omega arith)

long_retention_erases_example : (delete_old 1_700_000_000 sqlite (journal 10_000)).rows ≡ []
unfolding cutoff
long_retention_erases_example =
    long_retention_erases 1_700_000_000 sqlite (journal 10_000) time
      ((refl, omega arith, omega arith), ((refl, omega arith, omega arith), tt)) (omega arith) refl
      (omega arith) (omega arith)

abbrev appended : Append
appended = record {
  now = 1_700_000_001;
  sqlite = sqlite;
  level = Level.warn;
  category = "health";
  message = "m";
}

abbrev everything : JournalFilter
everything = record { limit = none; level = none; category = none; since_secs = none }
