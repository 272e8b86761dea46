-- ===== src/Gatewayd/Startup/Admitted.antt =====
-- An approved agent is served.
use acp_a2a_gateway.Prelude.{
  String, ◌≡◌, refl, ap, ◌∙◌, sym, subst, inl, inr, true, false, Bool-cases, Option, some, List, [],
  ◌∷◌, ◌=ˢ◌, eq_iff, eq_refl, get_or, map_option, Dict, lookup, contains, ok, arith,
}
use acp_a2a_gateway.Gatewayd.Registry.{Registry, lookup_agent}
use acp_a2a_gateway.Gatewayd.Approvals.{
  Status, approved, rejected, pending, Row, register, seen, seen_again,
}
use acp_a2a_gateway.Gatewayd.Config.Raw.{RawAgentEntry, RawConfig}
use acp_a2a_gateway.Gatewayd.Startup.{
  agent_fingerprint, agent_entry, Admission, note_status, register_agent, admit_agents, admission,
  start,
}
use acp_a2a_gateway.Gatewayd.Startup.Serving.{build_registry_exact}
use acp_a2a_gateway.Gatewayd.Startup.Approved.{IsApproved, seen_elsewhere, note_status_table}

register_status :
    (now id fingerprint : String) (t : Dict Row)
    → IsApproved id fingerprint t
    → (register now id fingerprint t).0 ≡ approved
unfolding register seen seen_again
register_status now id fingerprint t (row, found, same, good) =
    let equal : (row.fingerprint =ˢ fingerprint) ≡ true =
      (eq_iff row.fingerprint fingerprint).1 same in
    rw (found, equal) good

note_status_keeps :
    (i id : String) (status : Status) (a : Admission)
    → contains id a.allowed ≡ true
    → contains id (note_status i status a).allowed ≡ true
unfolding note_status
note_status_keeps i id approved a h = ground arith
note_status_keeps i id pending a h = h
note_status_keeps i id rejected a h = h

admit_agents_keeps :
    (now id : String) (agents : Dict RawAgentEntry) (a : Admission)
    → contains id a.allowed ≡ true
    → contains id (admit_agents now agents a).allowed ≡ true
unfolding admit_agents register_agent
admit_agents_keeps now id [] a h = h
admit_agents_keeps now id ((i, entry) ∷ more) a h =
    admit_agents_keeps now id more (register_agent now i entry a) (note_status_keeps i id _ _ h)

elsewhere-IsApproved :
    (now i id fingerprint : String) (entry : RawAgentEntry) (a : Admission)
    → (i =ˢ id) ≡ false
    → IsApproved id fingerprint a.table
    → IsApproved id fingerprint (register_agent now i entry a).table
unfolding register_agent register
elsewhere-IsApproved now i id fingerprint entry a n (row, found, same, good) = (
  row,
  ap (λ t. lookup id t) (note_status_table i _ _)
      ∙ seen_elsewhere now i (agent_fingerprint entry) id a.table (lookup i a.table) n
      ∙ found,
  same,
  good,
)

here_approved :
    (now id : String) (entry : RawAgentEntry) (a : Admission)
    → IsApproved id (agent_fingerprint entry) a.table
    → contains id (register_agent now id entry a).allowed ≡ true
unfolding register_agent note_status
here_approved now id entry a good =
    rw (register_status now id (agent_fingerprint entry) a.table good, eq_refl id) refl

admit_agents_admits :
    (now id : String) (agents : Dict RawAgentEntry) (entry : RawAgentEntry) (a : Admission)
    → lookup id agents ≡ some entry
    → IsApproved id (agent_fingerprint entry) a.table
    → contains id (admit_agents now agents a).allowed ≡ true
unfolding admit_agents lookup
admit_agents_admits now id [] entry a l good = absurd (ground arith)
admit_agents_admits now id ((i, first) ∷ more) entry a l good = elim (Bool-cases (i =ˢ id)) [
  | inr n ↦
      admit_agents_admits now id more entry (register_agent now i first a) (ground arith)
        (elsewhere-IsApproved now i id (agent_fingerprint entry) first a n good)
  | inl y ↦
      let same : i ≡ id = (eq_iff i id).0 y in
      let equal : first ≡ entry = ap (λ o. get_or o first) (rw y at l) in
      admit_agents_keeps now id more (register_agent now i first a) (
        subst (λ j. contains id (register_agent now j first a).allowed ≡ true) (sym same)
          (subst (λ r. contains id (register_agent now id r a).allowed ≡ true) (sym equal)
            (here_approved now id entry a good)))
]

-- If the start succeeds, an agent whose present configuration is approved is served, with the
-- entry that its configuration gives.
pub approved_served :
    (var : String → Option String) (now : String) (raw : RawConfig) (table : Dict Row)
    (built : Registry × List String) (id : String) (entry : RawAgentEntry)
    → raw.approvals.enabled ≡ true
    → lookup id raw.agents ≡ some entry
    → IsApproved id (agent_fingerprint entry) table
    → (start var now raw table).0 ≡ ok built
    → map_option (λ e. ok e) (lookup_agent id built.0) ≡ some (agent_entry var id entry)
unfolding start admission
approved_served var now raw table built id entry on l good h =
    let allowed : contains id (admission now raw table).allowed ≡ true =
      rw on (admit_agents_admits now id raw.agents entry _ l good) in
    (build_registry_exact var raw (admission now raw table).allowed built h id).0
    ∙ rw (allowed, l) refl
