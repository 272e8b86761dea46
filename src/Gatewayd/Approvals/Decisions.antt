-- ===== src/Gatewayd/Approvals/Decisions.antt =====
-- What an operator's decision is worth at the next start.
use acp_a2a_gateway.Prelude.{
  String, ◌≡◌, refl, none, some, inl, inr, Option-cases, if◌then◌else◌, ◌=ˢ◌, eq_refl, arith, Dict,
  lookup, lookup-insert,
}
use acp_a2a_gateway.Gatewayd.Approvals.{
  Status, approved, rejected, pending, Row, as_str, from_str, status_of, register, seen, seen_again,
  set,
}

-- The configuration that the row was written for; for a name without a row, the empty one.
abbrev pub recorded : String → Dict Row → String
recorded id t = elim (lookup id t) [ none ↦ "" | some row ↦ row.fingerprint ]

pub status_of-as_str : (s : Status) (row : Row) → status_of (record row { status = as_str s }) ≡ s
unfolding status_of from_str as_str
status_of-as_str approved row = refl
status_of-as_str rejected row = refl
status_of-as_str pending row = refl

abbrev pub decided : (now id : String) → Status → Dict Row → Row
decided now id status t = record {
  fingerprint = recorded id t;
  status = as_str status;
  decided_at = some now;
  last_seen_at = now;
}

pub lookup-set :
    (now id : String) (status : Status) (t : Dict Row)
    → lookup id (set now id status t) ≡ some (decided now id status t)
unfolding set
lookup-set now id status t = elim (Option-cases (lookup id t)) [
  | inl n ↦ ground (arith, eq_refl id, lookup-insert id id (decided now id status t) t)
  | inr (row, e) ↦ ground (arith, eq_refl id, lookup-insert id id (decided now id status t) t)
]

register_found :
    (now id fingerprint : String) (row : Row) (t : Dict Row)
    → lookup id t ≡ some row
    → (register now id fingerprint t).0
      ≡ (if row.fingerprint =ˢ fingerprint then status_of row else pending)
unfolding register seen seen_again
register_found now id fingerprint row t e = rw e (ground arith)

-- At the start behind a decision, the agent has the decided status if its configuration is the
-- one on record when the decision was made, and is pending if it is another.
pub register-set :
    (now now' id fingerprint : String) (status : Status) (t : Dict Row)
    → (register now' id fingerprint (set now id status t)).0
      ≡ (if recorded id t =ˢ fingerprint then status else pending)
register-set now now' id fingerprint status t = ground (
  arith,
  register_found now' id fingerprint (decided now id status t) (set now id status t)
      (lookup-set now id status t),
  status_of-as_str status (decided now id status t),
)
