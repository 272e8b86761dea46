-- ===== src/Core/Lease/Exclusion.antt =====
-- What a lease promises: exclusion within a session, and no waiting across sessions.
use acp_a2a_gateway.Prelude.{
  ℕ, ◌≤◌, ◌<◌, String, ◌≡◌, refl, true, false, some, arith, if◌then◌else◌, lookup, lookup-insert,
  lookup-remove, ◌==◌, ◌=ˢ◌, eq_iff, ok, err, lease_timeout, Option-cases, inl, inr,
}
use acp_a2a_gateway.Core.Lease.{TurnLease, empty, entry, wait, acquire, release, forget, is_free}

pub record IsValid (l : TurnLease) : Type 0 where
  -- mutexes of the map have been made, and no two sessions share one
  pub made : (k : String) (m : ℕ) → lookup k l.locks ≡ some m → m < l.next
  pub distinct :
      (j k : String) (m : ℕ) → lookup j l.locks ≡ some m → lookup k l.locks ≡ some m → j ≡ k
  -- a mutex that is not made yet is not held
  pub fresh : (m : ℕ) → l.next ≤ m → l.held m ≡ false

pub empty-IsValid : IsValid empty
unfolding empty lookup
empty-IsValid = record { made = λ k m h. cc; distinct = λ j k m h g. cc; fresh = λ m h. refl }

entry-IsValid : (s : String) (l : TurnLease) → IsValid l → IsValid (entry s l).1
unfolding entry
entry-IsValid s l v = record {
  made = λ k m. ground (arith, lookup-insert s k l.next l.locks, v.made k m);
  distinct = λ j k m. ground (
    arith,
    lookup-insert s j l.next l.locks,
    lookup-insert s k l.next l.locks,
    v.distinct j k m,
    v.made j m,
    v.made k m,
    eq_iff s j,
    eq_iff s k,
  );
  fresh = λ m. ground (arith, v.fresh m);
}

-- The session's mutex after `entry` is the one that `entry` returns.
pub lookup-entry : (s : String) (l : TurnLease) → lookup s (entry s l).1.locks ≡ some (entry s l).0
unfolding entry
lookup-entry s l = ground (arith, lookup-insert s s l.next l.locks, eq_iff s s)

wait-IsValid :
    (s : String) (m : ℕ) (l : TurnLease) → m < l.next → IsValid l → IsValid (wait s m l).1
unfolding wait
wait-IsValid s m l h v = record {
  made = λ k n. ground (arith, v.made k n);
  distinct = λ j k n. ground (arith, v.distinct j k n);
  fresh = λ n. ground (arith, v.fresh n);
}

pub acquire-IsValid : (s : String) (l : TurnLease) → IsValid l → IsValid (acquire s l).1
unfolding acquire
acquire-IsValid s l v =
    let v' = entry-IsValid s l v in
    wait-IsValid s (entry s l).0 (entry s l).1 (v'.made s _ (lookup-entry s l)) v'

pub release-IsValid : (m : ℕ) (l : TurnLease) → IsValid l → IsValid (release m l)
unfolding release
release-IsValid m l v = record {
  made = v.made;
  distinct = v.distinct;
  fresh = λ n. ground (arith, v.fresh n);
}

pub forget-IsValid : (s : String) (l : TurnLease) → IsValid l → IsValid (forget s l)
unfolding forget
forget-IsValid s l v = record {
  made = λ k m. ground (arith, lookup-remove s k l.locks, v.made k m);
  distinct = λ j k m.
      ground (arith, lookup-remove s j l.locks, lookup-remove s k l.locks, v.distinct j k m);
  fresh = v.fresh;
}

-- A session's lease is granted exactly while nobody holds it, and its mutex is then held;
-- otherwise the caller has the timeout error, and the held mutexes are as before.
pub acquire_iff_free :
    (s : String) (l : TurnLease) (n : ℕ)
    → IsValid l
    → ((acquire s l).0 ≡ (if is_free s l then ok (entry s l).0 else err (lease_timeout s)))
      × ((acquire s l).1.held n
          ≡ (if is_free s l then (if n == (entry s l).0 then true else l.held n) else l.held n))
unfolding acquire entry wait is_free
acquire_iff_free s l n v = elim (Option-cases (lookup s l.locks)) [
  | inl e ↦ ground (arith, v.fresh l.next)
  | inr (m, e) ↦ ground arith
]

module _ (k j : String) (l : TurnLease) (v : IsValid l) where
  -- Taking the lease of one session blocks that session and no other.
  pub is_free-acquire : is_free j (acquire k l).1 ≡ (if k =ˢ j then false else is_free j l)
  unfolding acquire entry wait is_free
  is_free-acquire = elim (Option-cases (lookup k l.locks)) [
    | inl e ↦ elim (Option-cases (lookup j l.locks)) [
      | inl e' ↦ ground (arith, lookup-insert k j l.next l.locks, v.fresh l.next, eq_iff k j)
      | inr (n, e') ↦
          ground (arith, lookup-insert k j l.next l.locks, v.fresh l.next, v.made j n, eq_iff k j)
    ]
    | inr (m, e) ↦ elim (Option-cases (lookup j l.locks)) [
      | inl e' ↦ ground (arith, eq_iff k j)
      | inr (n, e') ↦ ground (arith, eq_iff k j, v.distinct k j m)
    ]
  ]

  -- A turn that has got the lease and ends leaves every session as free as it was.
  pub is_free-release :
      (m : ℕ) → (acquire k l).0 ≡ ok m → is_free j (release m (acquire k l).1) ≡ is_free j l
  unfolding acquire entry wait is_free release
  is_free-release m h = elim (Option-cases (lookup k l.locks)) [
    | inl e ↦ elim (Option-cases (lookup j l.locks)) [
      | inl e' ↦ ground (arith, lookup-insert k j l.next l.locks, v.fresh l.next, eq_iff k j)
      | inr (n, e') ↦
          ground (arith, lookup-insert k j l.next l.locks, v.fresh l.next, v.made j n, eq_iff k j)
    ]
    | inr (n, e) ↦ elim (Option-cases (lookup j l.locks)) [
      | inl e' ↦ ground (arith, eq_iff k j)
      | inr (n', e') ↦ ground (arith, eq_iff k j, v.distinct k j n)
    ]
  ]
