-- ===== src/Core/A2aAsAcp/Leaks.antt =====
-- Sessions and lease entries stay together.
use acp_a2a_gateway.Prelude.{
  ℕ, ◌≤◌, String, ◌≡◌, refl, subst, ◌⊎◌, true, List, [], ◌∷◌, arith, eq_iff, lookup, dropped_keys,
  remove_all, contains-dropped_keys, lookup-remove_all, lookup-insert, lookup-remove, lookup-retain,
  length, length-insert-le, length-insert-some, length-remove-le, length-retain-le, ok,
  Result-cases, Option-cases, is_some, inl, inr,
}
use acp_a2a_gateway.Protocol.Acp.{SessionId, PromptRequest}
use acp_a2a_gateway.Core.Agent.{A2aAgent, Env}
use acp_a2a_gateway.Core.Lease
use acp_a2a_gateway.Core.Lease.{TurnLease, entry, wait, acquire, release, forget}
use acp_a2a_gateway.Core.A2aAsAcp.{
  A2aAsAcp, with_session_ttl, is_live, forget_all, evict_expired, add_session, register_session,
  extend_session, touch_session, drop_session, under_lease, prompt, max_sessions_per_connection,
}

-- Every lease entry is of a session that is there, and there are at most as many sessions as the
-- cap allows.
pub record IsTidy (s : A2aAsAcp) : Type 0 where
  pub no_leak :
      (k : SessionId)
      → is_some (lookup k s.lease.locks) ≡ true
      → is_some (lookup k s.sessions) ≡ true
  pub bounded : length s.sessions ≤ max_sessions_per_connection

pub with_session_ttl-IsTidy : (ttl : ℕ) → IsTidy (with_session_ttl ttl)
unfolding with_session_ttl Lease.empty lookup
with_session_ttl-IsTidy ttl = record { no_leak = λ k h. h; bounded = omega arith }

locks-forget_all :
    (ks : List SessionId) (l : TurnLease) → (forget_all ks l).locks ≡ remove_all ks l.locks
unfolding forget_all remove_all forget
locks-forget_all [] l = refl
locks-forget_all (k ∷ ks) l = locks-forget_all ks (forget k l)

evict_expired-IsTidy : (now : ℕ) (s : A2aAsAcp) → IsTidy s → IsTidy (evict_expired now s)
unfolding evict_expired
evict_expired-IsTidy now s v =
    let p = is_live s.session_ttl now in
    record {
      no_leak = λ k. elim (Option-cases (lookup k s.sessions)) [
        | inl e ↦ ground (
          arith,
          locks-forget_all (dropped_keys p s.sessions) s.lease,
          lookup-remove_all (dropped_keys p s.sessions) k s.lease.locks,
          v.no_leak k,
        )
        | inr (t, e) ↦ ground (
          arith,
          locks-forget_all (dropped_keys p s.sessions) s.lease,
          lookup-remove_all (dropped_keys p s.sessions) k s.lease.locks,
          lookup-retain p k s.sessions,
          contains-dropped_keys p k t s.sessions,
          v.no_leak k,
        )
      ];
      bounded = omega (arith, length-retain-le p s.sessions, v.bounded);
    }

add_session-IsTidy :
    (now : ℕ) (k : SessionId) (s : A2aAsAcp) → IsTidy s → IsTidy (add_session now k s).1
unfolding add_session
add_session-IsTidy now k s v = record {
  no_leak = λ j. ground (arith, lookup-insert k j now s.sessions, v.no_leak j);
  bounded = ground (arith, length-insert-le k now s.sessions);
}

extend_session-IsTidy :
    (now : ℕ) (k : SessionId) (s : A2aAsAcp) → IsTidy s → IsTidy (extend_session now k s).1
unfolding extend_session
extend_session-IsTidy now k s v = record {
  no_leak = λ j. ground (arith, lookup-insert k j now s.sessions, v.no_leak j);
  bounded = elim (Option-cases (lookup k s.sessions)) [
    | inl e ↦ ground arith
    | inr (t, e) ↦ ground (arith, length-insert-some k now t s.sessions)
  ];
}

pub register_session-IsTidy :
    (now : ℕ) (k : SessionId) (s : A2aAsAcp) → IsTidy s → IsTidy (register_session now k s).1
unfolding register_session
register_session-IsTidy now k s v =
    add_session-IsTidy now k (evict_expired now s) (evict_expired-IsTidy now s v)

pub touch_session-IsTidy :
    (now : ℕ) (k : SessionId) (s : A2aAsAcp) → IsTidy s → IsTidy (touch_session now k s).1
unfolding touch_session
touch_session-IsTidy now k s v =
    extend_session-IsTidy now k (evict_expired now s) (evict_expired-IsTidy now s v)

pub drop_session-IsTidy : (k : SessionId) (s : A2aAsAcp) → IsTidy s → IsTidy (drop_session k s)
unfolding drop_session forget
drop_session-IsTidy k s v = record {
  no_leak = λ j.
      ground (arith, lookup-remove k j s.sessions, lookup-remove k j s.lease.locks, v.no_leak j);
  bounded = omega (arith, length-remove-le k s.sessions, v.bounded);
}

locks-entry :
    (k j : SessionId) (l : TurnLease)
    → is_some (lookup j (entry k l).1.locks) ≡ true
    → (k ≡ j) ⊎ (is_some (lookup j l.locks) ≡ true)
unfolding entry
locks-entry k j l h = elim (Option-cases (lookup k l.locks)) [
  | inl e ↦ ground (arith, lookup-insert k j l.next l.locks, eq_iff k j)
  | inr (m, e) ↦ ground arith
]

pub locks-acquire : (k : SessionId) (l : TurnLease) → (acquire k l).1.locks ≡ (entry k l).1.locks
unfolding acquire wait
locks-acquire k l = ground arith

module _ (env : Env) (a : A2aAgent) (suffix : String) (req : PromptRequest) where
  locks-under_lease :
      (s : A2aAsAcp)
      → (under_lease env a suffix req s).1.lease.locks ≡ (entry req.session_id s.lease).1.locks
  unfolding under_lease release
  locks-under_lease s = ground (arith, locks-acquire req.session_id s.lease)

  sessions-under_lease : (s : A2aAsAcp) → (under_lease env a suffix req s).1.sessions ≡ s.sessions
  unfolding under_lease
  sessions-under_lease s = ground arith

  touched :
      (s : A2aAsAcp)
      → (touch_session env.now req.session_id s).0 ≡ ok tt
      → is_some (lookup req.session_id (touch_session env.now req.session_id s).1.sessions) ≡ true
  unfolding touch_session
  touched s h = ground (
    arith,
    lookup-insert req.session_id req.session_id env.now (evict_expired env.now s).sessions,
    eq_iff req.session_id req.session_id,
  )

  under_lease-IsTidy :
      (s : A2aAsAcp)
      → is_some (lookup req.session_id s.sessions) ≡ true
      → IsTidy s
      → IsTidy (under_lease env a suffix req s).1
  under_lease-IsTidy s there v = record {
    no_leak = λ j h.
        rw (sessions-under_lease s)
          (elim (locks-entry req.session_id j s.lease
            (subst (λ m. is_some (lookup j m) ≡ true) (locks-under_lease s) h)) [
              | inl e ↦ subst (λ k. is_some (lookup k s.sessions) ≡ true) e there
              | inr g ↦ v.no_leak j g
            ]);
    bounded = rw (sessions-under_lease s) v.bounded;
  }

  pub prompt-IsTidy : (s : A2aAsAcp) → IsTidy s → IsTidy (prompt env a suffix req s).1
  unfolding prompt
  prompt-IsTidy s v =
      let v' = touch_session-IsTidy env.now req.session_id s v in
      elim (Result-cases (touch_session env.now req.session_id s).0) [
        | inl (tt, e) ↦
            rw (e, prompt)
              (under_lease-IsTidy (touch_session env.now req.session_id s).1 (touched s e) v')
        | inr (x, e) ↦ rw (e, prompt) v'
      ]
