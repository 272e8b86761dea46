-- ===== src/Gatewayd/Cli/Deciding.antt =====
-- From an operator's command to an agent that is served.
use text.Mathlib.Text.{starts_with}
use acp_a2a_gateway.Prelude.{
  String, false, [], ◌≡◌, refl, subst, inl, inr, true, Bool-cases, Option, some, List, ◌∷◌, ◌=ˢ◌,
  eq_iff, eq_refl, map_option, Dict, lookup, lookup-insert, ok, arith,
}
use acp_a2a_gateway.Gatewayd.Registry.{Registry, lookup_agent}
use acp_a2a_gateway.Gatewayd.Approvals.{approved, Row, set}
use acp_a2a_gateway.Gatewayd.Approvals.Decisions.{recorded, decided, lookup-set, status_of-as_str}
use acp_a2a_gateway.Gatewayd.Config.Raw.{RawAgentEntry, RawConfig}
use acp_a2a_gateway.Gatewayd.Startup.{agent_fingerprint, agent_entry, start}
use acp_a2a_gateway.Gatewayd.Startup.Approved.{IsApproved}
use acp_a2a_gateway.Gatewayd.Startup.Admitted.{approved_served}
use acp_a2a_gateway.Gatewayd.Cli.{
  ApprovalArgs, parse_approval_args, open_table, decide, perform, run_approvals,
}

set-IsApproved :
    (now id fingerprint : String) (t : Dict Row)
    → recorded id t ≡ fingerprint
    → IsApproved id fingerprint (set now id approved t)
set-IsApproved now id fingerprint t h = (
  decided now id approved t,
  lookup-set now id approved t,
  h,
  status_of-as_str approved (decided now id approved t),
)

parse_name :
    (db id : String) (a : ApprovalArgs)
    → starts_with id "--" ≡ false
    → parse_approval_args (id ∷ "--db" ∷ db ∷ []) a ≡ ok (record { db = db; name = some id })
unfolding parse_approval_args
parse_name db id a n = elim (Bool-cases (id =ˢ "--db")) [
  | inl y ↦ absurd (flag ((eq_iff id "--db").0 y))
  | inr m ↦ rw (m, n) refl
]
  where
    flag : id ≡ "--db" → ⊥
    flag e = ground (arith, subst (λ s. starts_with s "--" ≡ false) e n)

-- `--approve NAME --db DB`
approve_sets :
    (now db id : String) (tables : Dict (Dict Row))
    → starts_with id "--" ≡ false
    → lookup db (run_approvals now "--approve" (id ∷ "--db" ∷ db ∷ []) tables).1
      ≡ some (set now id approved (open_table db tables))
unfolding run_approvals perform decide
approve_sets now db id tables n =
    rw
      (
        parse_name db id _ n,
        lookup-insert db db (set now id approved (open_table db tables)) tables,
        eq_refl db,
      )
      refl

-- If an operator approves an agent by its name, which no `--` begins, in the database of the
-- configuration, where the agent has been seen with the configuration that it has, then a start
-- that succeeds serves it, with the entry that its configuration gives.
pub approve-start :
    (var : String → Option String) (now now' id : String) (raw : RawConfig) (entry : RawAgentEntry)
    (tables : Dict (Dict Row)) (built : Registry × List String)
    → starts_with id "--" ≡ false
    → raw.approvals.enabled ≡ true
    → lookup id raw.agents ≡ some entry
    → recorded id (open_table raw.approvals.storage_path tables) ≡ agent_fingerprint entry
    → (start var now' raw (
        open_table raw.approvals.storage_path
          (run_approvals now "--approve"
            (id ∷ "--db" ∷ raw.approvals.storage_path ∷ [])
            tables).1)).0
      ≡ ok built
    → map_option (λ e. ok e) (lookup_agent id built.0) ≡ some (agent_entry var id entry)
unfolding open_table
approve-start var now now' id raw entry tables built n on l seen h =
    let set_table = approve_sets now raw.approvals.storage_path id tables n in
    approved_served var now' raw _ built id entry on l
      (set-IsApproved now id (agent_fingerprint entry)
        (open_table raw.approvals.storage_path tables) seen)
      (rw set_table at h)
