-- ===== src/Core/Supervisor/Respawns.antt =====
-- Generations and the pace of restarts.
use acp_a2a_gateway.Prelude.{ℕ, ◌+◌, ◌-◌, ◌≤◌, ◌≡◌, ◌⊎◌, Bool, List, [], ◌∷◌, Result}
use acp_a2a_gateway.Core.Supervisor.{Supervised, healthy}

-- A call at one moment: whether the process was alive, and what a restart would give.
abbrev pub Call : Type 0 → Type 0 → Type 0
Call Agent Init = Bool × Result (Agent × Init) × ℕ

module _ {Agent Init : Type 0} where
  unfoldable pub calls : List (Call Agent Init) → Supervised Agent Init → Supervised Agent Init
  calls [] s = s
  calls ((alive, spawned, now) ∷ cs) s = calls cs (healthy alive spawned now s).1

  -- A process that was started again at `now` is not started once more within the backoff.
  abbrev pub Paced : (now now' : ℕ) → Bool → Result (Agent × Init) → Supervised Agent Init → Type 0
  Paced now now' alive spawned s = (s.backoff ≤ now' - now) ⊎ ((healthy alive spawned now' s).1 ≡ s)

  abbrev pub renewed : Agent × Init → ℕ → Supervised Agent Init → Supervised Agent Init
  renewed p now s = record s {
    agent = p.0;
    init = p.1;
    generation = s.generation + 1;
    spawned_at = now;
    published = s.generation + 1;
  }
