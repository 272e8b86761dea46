-- ===== src/Prelude/Maps.antt =====
-- A `HashMap` with string keys, as an association list. The program iterates over its maps only
-- to filter them or to list them sorted, so the order of the entries is not observable.
use Prim.Native.Nat.{◌+◌, ◌≤◌, Ordering}
use Prim.Native.String.{String, compare}
use mathlib.Core.List.{List, [], ◌∷◌}
use mathlib.Core.Path.{◌≡◌, refl}
use mathlib.Core.Bool.{Bool, true, false}
use mathlib.Core.Option.{Option, none, some}
use native.Mathlib.Omega.{arith}
use text.Mathlib.Text.{◌==◌ as ◌=ˢ◌}
use text.Mathlib.TextEquality.{eq_iff}
use acp_a2a_gateway.Prelude.Tests.{if◌then◌else◌}
use acp_a2a_gateway.Prelude.Lists.{length}

abbrev pub Dict {ℓ} : Type ℓ → Type ℓ
Dict V = List (String × V)

module _ {ℓ} {V : Type ℓ} where
  -- map.get(k)
  unfoldable pub lookup : String → Dict V → Option V
  lookup k [] = none
  lookup k ((j, v) ∷ m) = if j =ˢ k then some v else lookup k m

  -- map.insert(k, v), which replaces the value of a key that is there
  unfoldable pub insert : String → V → Dict V → Dict V
  insert k v [] = (k, v) ∷ []
  insert k v ((j, w) ∷ m) = if j =ˢ k then (k, v) ∷ m else (j, w) ∷ insert k v m

  -- map.remove(k)
  unfoldable pub remove : String → Dict V → Dict V
  remove k [] = []
  remove k ((j, w) ∷ m) = let rest = remove k m in if j =ˢ k then rest else (j, w) ∷ rest

  -- map.retain(p); an entry that goes takes with it whatever it shadowed
  unfoldable pub retain : (String → V → Bool) → Dict V → Dict V
  unfolding remove
  retain p [] = []
  retain p ((j, w) ∷ m) = let rest = retain p m in if p j w then (j, w) ∷ rest else remove j rest

  -- the values that `retain p` drops
  unfoldable pub dropped : (String → V → Bool) → Dict V → List V
  dropped p [] = []
  dropped p ((j, w) ∷ m) = let rest = dropped p m in if p j w then rest else w ∷ rest

  -- a value that passes the test
  abbrev pub passing : (V → Bool) → Option V → Option V
  passing p none = none
  passing p (some v) = if p v then some v else none

  -- What is found at `wanted` behind a write at `at`.
  pub lookup-insert :
      (at wanted : String) (new : V) (d : Dict V)
      → lookup wanted (insert at new d) ≡ (if at =ˢ wanted then some new else lookup wanted d)
  unfolding insert lookup
  lookup-insert at wanted new [] = refl
  lookup-insert at wanted new ((there, old) ∷ d) =
      ground (
        arith,
        lookup-insert at wanted new d,
        eq_iff there at,
        eq_iff there wanted,
        eq_iff at wanted,
      )

  pub lookup-remove :
      (k j : String) (m : Dict V) → lookup j (remove k m) ≡ (if k =ˢ j then none else lookup j m)
  unfolding lookup remove
  lookup-remove k j [] = ground arith
  lookup-remove k j ((i, w) ∷ m) =
      ground (arith, eq_iff k j, eq_iff i k, eq_iff i j, lookup-remove k j m)

  pub length-insert-le : (k : String) (v : V) (m : Dict V) → length (insert k v m) ≤ length m + 1
  unfolding insert
  length-insert-le k v [] = omega arith
  length-insert-le k v ((j, w) ∷ m) = ground (arith, length-insert-le k v m)

  pub length-remove-le : (k : String) (m : Dict V) → length (remove k m) ≤ length m
  unfolding remove
  length-remove-le k [] = omega arith
  length-remove-le k ((j, w) ∷ m) = ground (arith, length-remove-le k m)

  pub length-retain-le : (p : String → V → Bool) (m : Dict V) → length (retain p m) ≤ length m
  unfolding retain
  length-retain-le p [] = omega arith
  length-retain-le p ((j, w) ∷ m) =
      ground (arith, length-retain-le p m, length-remove-le j (retain p m))

  pub lookup-retain :
      (p : String → V → Bool) (j : String) (m : Dict V)
      → lookup j (retain p m) ≡ passing (p j) (lookup j m)
  unfolding lookup retain
  lookup-retain p j [] = refl
  lookup-retain p j ((i, w) ∷ m) =
      ground (arith, lookup-retain p j m, lookup-remove i j (retain p m), eq_iff i j)

  -- A write to a key that is there keeps the size.
  pub length-insert-some :
      (k : String) (v w : V) (m : Dict V) → lookup k m ≡ some w → length (insert k v m) ≡ length m
  unfolding lookup insert
  length-insert-some k v w [] h = ground arith
  length-insert-some k v w ((j, u) ∷ m) h = ground (arith, length-insert-some k v w m)

pub ruleset dict_laws = (lookup-insert, lookup-remove, lookup-retain)

abbrev pub contains : String → List String → Bool
contains k [] = false
contains k (j ∷ js) = let rest = contains k js in if j =ˢ k then true else rest

module _ {ℓ} {V : Type ℓ} where
  -- the keys of the entries that `retain p` drops
  unfoldable pub dropped_keys : (String → V → Bool) → Dict V → List String
  dropped_keys p [] = []
  dropped_keys p ((j, w) ∷ m) = let rest = dropped_keys p m in if p j w then rest else j ∷ rest

  unfoldable pub remove_all : List String → Dict V → Dict V
  unfolding remove
  remove_all [] m = m
  remove_all (k ∷ ks) m = remove_all ks (remove k m)

  pub contains-dropped_keys :
      (p : String → V → Bool) (k : String) (v : V) (m : Dict V)
      → lookup k m ≡ some v
      → p k v ≡ false
      → contains k (dropped_keys p m) ≡ true
  unfolding lookup dropped_keys
  contains-dropped_keys p k v [] h n = ground arith
  contains-dropped_keys p k v ((j, w) ∷ m) h n =
      ground (arith, eq_iff j k, contains-dropped_keys p k v m)

  pub lookup-remove_all :
      (ks : List String) (k : String) (m : Dict V)
      → lookup k (remove_all ks m) ≡ (if contains k ks then none else lookup k m)
  unfolding remove_all
  lookup-remove_all [] k m = ground arith
  lookup-remove_all (j ∷ js) k m =
      ground (arith, lookup-remove_all js k (remove j m), lookup-remove j k m)

module _ {ℓ} {V : Type ℓ} where
  insert_sorted : String × V → Dict V → Dict V
  insert_sorted e [] = e ∷ []
  insert_sorted e (f ∷ fs) =
      let rest = insert_sorted e fs in
      elim (compare e.0 f.0) [ Ordering.gt ↦ f ∷ rest | _ ↦ e ∷ f ∷ fs ]

  -- the entries in the order of their keys
  unfoldable pub sort_keys : Dict V → Dict V
  unfolding insert_sorted
  sort_keys [] = []
  sort_keys (e ∷ es) = insert_sorted e (sort_keys es)
