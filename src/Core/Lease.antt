-- ===== src/Core/Lease.antt =====
-- core/src/lease.rs: one turn at a time for each session. A mutex is a number, which the map and
-- the guards share as the source shares its `Arc`.
pub mod Exclusion
use acp_a2a_gateway.Prelude.{
  ℕ, suc, String, Bool, true, false, not, none, some, [], ◌==◌, if◌then◌else◌, Dict, lookup, insert,
  remove, length, Result, ok, err, lease_timeout,
}

pub record TurnLease : Type 0 where
  pub locks : Dict ℕ
  pub held : ℕ → Bool
  -- the number of the next mutex that `Mutex::new` makes
  pub next : ℕ

unfoldable pub empty : TurnLease
empty = record { locks = []; held = λ m. false; next = 0 }

set_held : ℕ → Bool → TurnLease → TurnLease
set_held m b l = record l { held = λ n. if n == m then b else l.held n }

-- locks.entry(session).or_insert_with(..): the session's mutex, made if there is none
unfoldable pub entry : String → TurnLease → ℕ × TurnLease
entry session l = elim (lookup session l.locks) [
  | some m ↦ (m, l)
  | none ↦ (l.next, record l { locks = insert session l.next l.locks; next = suc l.next })
]

-- The end of the wait: the mutex is free and is taken, or the budget is over while it is held.
unfoldable pub wait : String → ℕ → TurnLease → Result ℕ × TurnLease
unfolding set_held
wait session m l = if l.held m then (err (lease_timeout session), l) else (ok m, set_held m true l)

unfoldable pub acquire : String → TurnLease → Result ℕ × TurnLease
unfolding entry wait
acquire session l = let (m, l') = entry session l in wait session m l'

-- the guard's `Drop`
unfoldable pub release : ℕ → TurnLease → TurnLease
unfolding set_held
release m l = set_held m false l

unfoldable pub forget : String → TurnLease → TurnLease
forget session l = record l { locks = remove session l.locks }

unfoldable pub tracked_sessions : TurnLease → ℕ
tracked_sessions l = length l.locks

-- Nobody holds the session's mutex.
unfoldable pub is_free : String → TurnLease → Bool
is_free session l = elim (lookup session l.locks) [ none ↦ true | some m ↦ not (l.held m) ]
