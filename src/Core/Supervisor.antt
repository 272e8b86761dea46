-- ===== src/Core/Supervisor.antt =====
-- core/src/supervisor.rs: one agent process, started again after it died. `Agent` is the process
-- and `Init` its answer to the handshake.
pub mod Respawns
use acp_a2a_gateway.Prelude.{
  ℕ, ◌+◌, ◌-◌, Bool, ltb, if◌then◌else◌, Result, ok, err, respawn_backoff,
}

module _ (Agent Init : Type 0) where
  pub record Supervised : Type 0 where
    pub agent : Agent
    pub init : Init
    pub generation : ℕ
    pub spawned_at : ℕ
    -- the atomic counter that `generation()` reads without the lock
    pub published : ℕ
    pub backoff : ℕ

module _ {Agent Init : Type 0} where
  unfoldable pub spawn_with_backoff : Result (Agent × Init) → ℕ → ℕ → Result (Supervised Agent Init)
  spawn_with_backoff spawned now backoff = elim spawned [
    | err e ↦ err e
    | ok (agent, init) ↦ ok (record {
      agent = agent;
      init = init;
      generation = 1;
      spawned_at = now;
      published = 1;
      backoff = backoff;
    })
  ]

  -- `spawned` is the outcome of `spawn_and_handshake`, if it comes to that.
  respawn : Result (Agent × Init) → ℕ → Supervised Agent Init → Result Agent × Supervised Agent Init
  respawn spawned now s = elim spawned [
    | err e ↦ (err e, s)
    | ok (agent, init) ↦ (
      ok agent,
      record s {
        agent = agent;
        init = init;
        generation = s.generation + 1;
        spawned_at = now;
        published = s.generation + 1;
      },
    )
  ]

  unfoldable pub healthy :
      (alive : Bool)
      → Result (Agent × Init)
      → ℕ
      → Supervised Agent Init
      → Result Agent × Supervised Agent Init
  unfolding respawn
  healthy alive spawned now s =
      if alive
      then (ok s.agent, s)
      else if ltb (now - s.spawned_at) s.backoff
      then (err (respawn_backoff (s.backoff - (now - s.spawned_at))), s)
      else respawn spawned now s

  -- The saved answer of the process that is alive.
  unfoldable pub initialize :
      (alive : Bool)
      → Result (Agent × Init)
      → ℕ
      → Supervised Agent Init
      → Result Init × Supervised Agent Init
  initialize alive spawned now s =
      let (r, s') = healthy alive spawned now s in
      (elim r [ err e ↦ err e | ok _ ↦ ok s'.init ], s')

  unfoldable pub ensure_ready :
      (alive : Bool)
      → Result (Agent × Init)
      → ℕ
      → Supervised Agent Init
      → Result (Unit {0}) × Supervised Agent Init
  ensure_ready alive spawned now s =
      let (r, s') = healthy alive spawned now s in (elim r [ err e ↦ err e | ok _ ↦ ok tt ], s')

  unfoldable pub generation : Supervised Agent Init → ℕ
  generation s = s.published
