-- ===== src/Gatewayd/Startup/Approved.antt =====
-- What it takes to be served while approvals are on.
use Prim.Native.String
use text.Mathlib.TextLemmas.{append_assoc}
use acp_a2a_gateway.Prelude.{
  String, ◌≡◌, refl, ap, ◌∙◌, sym, ◌⊎◌, inl, inr, true, false, Bool-cases, Option, none, some, [],
  ◌∷◌, ◌=ˢ◌, eq_iff, subst, Dict, lookup, contains, lookup-insert, get_or, List, Result, ok, arith,
  map_option,
}
use acp_a2a_gateway.Gatewayd.Registry.{AgentEntry, Registry, lookup_agent}
use acp_a2a_gateway.Gatewayd.Approvals.{
  Status, approved, rejected, pending, Row, status_of, register, seen, seen_again,
}
use acp_a2a_gateway.Gatewayd.Config.Raw.{RawAgentEntry, stdio, StreamingConfig, RawConfig}
use acp_a2a_gateway.Gatewayd.Startup.{
  agent_fingerprint, join_words, Admission, note_status, register_agent, admit_agents, admission,
  start,
}
use acp_a2a_gateway.Gatewayd.Startup.Serving.{configured, build_registry_exact}

-- An operator approved the agent in the very configuration that has this fingerprint.
abbrev pub IsApproved : (id fingerprint : String) → Dict Row → Type 0
IsApproved id fingerprint t =
    (row : Row) × (lookup id t ≡ some row)
    × (row.fingerprint ≡ fingerprint)
    × (status_of row ≡ approved)

seen_again_approved :
    (now id fingerprint : String) (row : Row) (t : Dict Row)
    → (seen_again now id fingerprint row t).0 ≡ approved
    → (row.fingerprint ≡ fingerprint) × (status_of row ≡ approved)
unfolding seen_again
seen_again_approved now id fingerprint row t h = ground (arith, eq_iff row.fingerprint fingerprint)

seen_approved :
    (now id fingerprint : String) (t : Dict Row) (found : Option Row)
    → lookup id t ≡ found
    → (seen now id fingerprint t found).0 ≡ approved
    → IsApproved id fingerprint t
unfolding seen
seen_approved now id fingerprint t none f h = absurd (ground arith)
seen_approved now id fingerprint t (some row) f h =
    let same = seen_again_approved now id fingerprint row t h in (row, f, same.0, same.1)

pub seen_elsewhere :
    (now i fingerprint id : String) (t : Dict Row) (found : Option Row)
    → (i =ˢ id) ≡ false
    → lookup id (seen now i fingerprint t found).1 ≡ lookup id t
unfolding seen seen_again
seen_elsewhere now i fingerprint id t none n = rw (lookup-insert i id _ t, n) refl
seen_elsewhere now i fingerprint id t (some row) n =
    elim (Bool-cases (row.fingerprint =ˢ fingerprint)) [
      | inl y ↦ rw (y, lookup-insert i id _ t, n) refl
      | inr m ↦ rw (m, lookup-insert i id _ t, n) refl
    ]

-- The keys of a map are distinct.
abbrev pub HasDistinctKeys : Dict RawAgentEntry → Type 0
HasDistinctKeys [] = Unit {0}
HasDistinctKeys ((id, entry) ∷ more) = (lookup id more ≡ none) × HasDistinctKeys more

-- A configured agent whose present configuration was approved before the start.
abbrev pub IsApprovedIn : (id : String) → Dict RawAgentEntry → Dict Row → Type 0
IsApprovedIn id agents t =
    (entry : RawAgentEntry) × (lookup id agents ≡ some entry)
    × IsApproved id (agent_fingerprint entry) t

note_status_allowed :
    (i id : String) (status : Status) (a : Admission)
    → contains id (note_status i status a).allowed ≡ true
    → ((i =ˢ id ≡ true) × (status ≡ approved)) ⊎ (contains id a.allowed ≡ true)
unfolding note_status
note_status_allowed i id approved a h = elim (Bool-cases (i =ˢ id)) [
  | inl y ↦ inl (y, refl)
  | inr n ↦ inr (ground arith)
]
note_status_allowed i id pending a h = inr h
note_status_allowed i id rejected a h = inr h

pub note_status_table :
    (i : String) (status : Status) (a : Admission) → (note_status i status a).table ≡ a.table
unfolding note_status
note_status_table i approved a = refl
note_status_table i pending a = refl
note_status_table i rejected a = refl

-- An agent that its own registration lets in.
first_approved :
    (now i id : String) (entry : RawAgentEntry) (more : Dict RawAgentEntry) (a : Admission)
    → contains id (register_agent now i entry a).allowed ≡ true
    → (contains id a.allowed ≡ true) ⊎ IsApprovedIn id ((i, entry) ∷ more) a.table
unfolding lookup register_agent register
first_approved now i id entry more a h =
    elim (note_status_allowed i id (register now i (agent_fingerprint entry) a.table).0
      (record a { table = (register now i (agent_fingerprint entry) a.table).1 }) h) [
        | inr before ↦ inl before
        | inl (y, good) ↦
            let same : i ≡ id = (eq_iff i id).0 y in
            inr (
              entry,
              rw y refl,
              subst (λ j. IsApproved j (agent_fingerprint entry) a.table) same
                  (seen_approved now i (agent_fingerprint entry) a.table (lookup i a.table) refl
                    good),
            )
      ]

-- What is approved among the later agents is approved in the whole.
later_approved :
    (now i id : String) (entry : RawAgentEntry) (more : Dict RawAgentEntry) (a : Admission)
    → lookup i more ≡ none
    → IsApprovedIn id more (register_agent now i entry a).table
    → IsApprovedIn id ((i, entry) ∷ more) a.table
unfolding lookup register_agent register
later_approved now i id entry more a d (entry', l, (row, found, same, good)) =
    elim (Bool-cases (i =ˢ id)) [
      | inl y ↦ absurd (ground (arith, eq_iff i id))
      | inr n ↦ (
        entry',
        ground arith,
        (
          row,
          sym (seen_elsewhere now i (agent_fingerprint entry) id a.table (lookup i a.table) n)
              ∙ sym (ap (λ t. lookup id t) (note_status_table i _ _))
              ∙ found,
          same,
          good,
        ),
      )
    ]

admit_agents_approved :
    (now id : String) (agents : Dict RawAgentEntry) (a : Admission)
    → HasDistinctKeys agents
    → contains id (admit_agents now agents a).allowed ≡ true
    → (contains id a.allowed ≡ true) ⊎ IsApprovedIn id agents a.table
unfolding admit_agents
admit_agents_approved now id [] a d h = inl h
admit_agents_approved now id ((i, entry) ∷ more) a d h =
    elim (admit_agents_approved now id more (register_agent now i entry a) d.1 h) [
      | inr late ↦ inr (later_approved now i id entry more a d.0 late)
      | inl early ↦ first_approved now i id entry more a early
    ]

admission_approved :
    (now id : String) (raw : RawConfig) (table : Dict Row)
    → raw.approvals.enabled ≡ true
    → HasDistinctKeys raw.agents
    → contains id (admission now raw table).allowed ≡ true
    → IsApprovedIn id raw.agents table
unfolding admission
admission_approved now id raw table on d h =
    elim (admit_agents_approved now id raw.agents _ d (rw on at h)) [
      | inl nobody ↦ absurd (ground arith)
      | inr there ↦ there
    ]

configured_allowed :
    (var : String → Option String) (allowed : List String) (id : String) (raw : Dict RawAgentEntry)
    (e : Result AgentEntry)
    → configured var allowed id raw ≡ some e
    → contains id allowed ≡ true
configured_allowed var allowed id raw e h = elim (Bool-cases (contains id allowed)) [
  | inl y ↦ y
  | inr n ↦ absurd (ground arith)
]

-- While approvals are on, an agent that is served is configured, and before the start an operator
-- had approved it in the configuration that it has now, as far as the fingerprint tells.
pub served_approved :
    (var : String → Option String) (now : String) (raw : RawConfig) (table : Dict Row)
    (built : Registry × List String) (id : String) (e : AgentEntry)
    → raw.approvals.enabled ≡ true
    → HasDistinctKeys raw.agents
    → (start var now raw table).0 ≡ ok built
    → lookup_agent id built.0 ≡ some e
    → IsApprovedIn id raw.agents table
unfolding start
served_approved var now raw table built id e on d h served =
    let allowed = (admission now raw table).allowed in
    let exact = (build_registry_exact var raw allowed built h id).0 in
    admission_approved now id raw table on d (
      configured_allowed var allowed id raw.agents (ok e)
        (sym exact ∙ ap (map_option (λ e'. ok e')) served))

join_words-split :
    (a b : String) (command : List String)
    → join_words (a ∷ b ∷ command) ≡ join_words (String.◌++◌ a (String.◌++◌ " " b) ∷ command)
unfolding join_words
join_words-split a b [] = refl
join_words-split a b (word ∷ command) = sym (
    append_assoc a (String.◌++◌ " " b) (String.◌++◌ " " (join_words (word ∷ command)))
    ∙ ap (String.◌++◌ a) (append_assoc " " b (String.◌++◌ " " (join_words (word ∷ command)))))

-- The fingerprint does not see the environment of a command, nor where its words end: a decision
-- on one command is one on the command with two of its words in one, whatever the environments.
pub register-same_words :
    (now id a b : String) (command : List String) (cwd : Option String) (env env' : Dict String)
    (streaming : StreamingConfig) (t : Dict Row)
    → register now id (agent_fingerprint (stdio (a ∷ b ∷ command) cwd env streaming)) t
      ≡ register now id
          (agent_fingerprint
            (stdio (String.◌++◌ a (String.◌++◌ " " b) ∷ command) cwd env' streaming))
          t
unfolding agent_fingerprint
register-same_words now id a b command cwd env env' streaming t =
    ap
      (λ words.
        register now id (String.◌++◌ "stdio:" (String.◌++◌ words (String.◌++◌ ":" (get_or cwd ""))))
          t)
      (join_words-split a b command)
