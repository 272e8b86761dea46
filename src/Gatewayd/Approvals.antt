-- ===== src/Gatewayd/Approvals.antt =====
-- gatewayd/src/approvals.rs: which agents of the configuration an operator has let in. The table
-- has one row for each agent; SQLite takes every statement.
pub mod Decisions
use acp_a2a_gateway.Prelude.{
  String, Option, none, some, List, [], ◌∷◌, ◌=ˢ◌, if◌then◌else◌, get_or, Dict, lookup, insert,
  sort_keys,
}

pub data Status : Type 0 where
  approved rejected pending : Status

unfoldable pub as_str : Status → String
as_str approved = "approved"
as_str rejected = "rejected"
as_str pending = "pending"

unfoldable pub from_str : String → Option Status
from_str s =
    if s =ˢ "approved"
    then some approved
    else if s =ˢ "rejected"
    then some rejected
    else if s =ˢ "pending"
    then some pending
    else none

-- A row behind its key; the times are what `now_unix_secs` prints.
pub record Row : Type 0 where
  pub fingerprint : String
  pub status : String
  pub decided_at : Option String
  pub last_seen_at : String

pub record ApprovalRecord : Type 0 where
  pub agent_id : String
  pub fingerprint : String
  pub status : Status
  pub decided_at : Option String
  pub last_seen_at : String

-- Status::from_str(..).unwrap_or(Status::Pending)
unfoldable pub status_of : Row → Status
unfolding from_str
status_of row = get_or (from_str row.status) pending

unfoldable pub seen_again : String → String → String → Row → Dict Row → Status × Dict Row
unfolding status_of
seen_again now id fingerprint row t =
    if row.fingerprint =ˢ fingerprint
    then (status_of row, insert id (record row { last_seen_at = now }) t)
    else (
      pending,
      insert id
          (record {
            fingerprint = fingerprint;
            status = "pending";
            decided_at = none;
            last_seen_at = now;
          })
          t,
    )

-- What becomes of the row that was found, if there is one.
unfoldable pub seen : (now id fingerprint : String) → Dict Row → Option Row → Status × Dict Row
unfolding seen_again
seen now id fingerprint t (some row) = seen_again now id fingerprint row t
seen now id fingerprint t none = (
  pending,
  insert id
      (record {
        fingerprint = fingerprint;
        status = "pending";
        decided_at = none;
        last_seen_at = now;
      })
      t,
)

unfoldable pub register : (now id fingerprint : String) → Dict Row → Status × Dict Row
unfolding seen
register now id fingerprint t = seen now id fingerprint t (lookup id t)

unfoldable pub set : (now id : String) → Status → Dict Row → Dict Row
unfolding as_str
set now id status t = elim (lookup id t) [
  | some row ↦
      insert id (record row { status = as_str status; decided_at = some now; last_seen_at = now }) t
  | none ↦
      insert id
        (record {
          fingerprint = "";
          status = as_str status;
          decided_at = some now;
          last_seen_at = now;
        })
        t
]

records : Dict Row → List ApprovalRecord
unfolding status_of
records [] = []
records ((id, row) ∷ t) =
    record {
      agent_id = id;
      fingerprint = row.fingerprint;
      status = status_of row;
      decided_at = row.decided_at;
      last_seen_at = row.last_seen_at;
    }
    ∷ records t

unfoldable pub list : Dict Row → List ApprovalRecord
unfolding records
list t = records (sort_keys t)
