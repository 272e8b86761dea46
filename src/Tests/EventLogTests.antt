-- ===== src/Tests/EventLogTests.antt =====
-- The event log.
use acp_a2a_gateway.Prelude.{
  ◌^◌, ℕ, String, ◌≡◌, refl, Option, none, some, List, [], ◌∷◌, arith, eq_iff,
}
use acp_a2a_gateway.Gatewayd.EventLog.{EventRecord, Writer, do_events_after}
use acp_a2a_gateway.Gatewayd.EventLog.Order.{IsOrdered}

abbrev row : String → ℕ → EventRecord
row t n = record { task_id = t; seq = n; event_json = "{}" }

abbrev log : Writer
log = record {
  rows = row "t" 2 ∷ row "u" 1 ∷ row "t" 1 ∷ [];
  max_size_mb = 0;
  appends_since_check = 3;
}

abbrev no_size : List EventRecord → Option ℕ
no_size rows = none

log-IsOrdered : IsOrdered log.rows
log-IsOrdered = (
  (λ e. absurd (ground (arith, eq_iff "u" "t")), (λ e. omega arith, tt)),
  ((λ e. absurd (ground (arith, eq_iff "t" "u")), tt), (tt, tt)),
)

-- Two events of one task, in a file of 9,000,000 bytes, at a limit of 5 MB.
abbrev full : Writer
full = record log { rows = row "t" 2 ∷ row "t" 1 ∷ []; max_size_mb = 5 }

abbrev large : List EventRecord → Option ℕ
large rows = some 9000000

-- A number that no i64 holds is negative to SQLite.
wrapped : do_events_after "t" (2 ^ 63) 50 log ≡ row "t" 1 ∷ row "t" 2 ∷ []
unfolding do_events_after
wrapped = refl
