-- ===== src/Prelude/Ids.antt =====
-- A `HashMap` with numbers for keys, as an association list.
use Prim.Native.Nat.{ℕ}
use mathlib.Core.Path.{◌≡◌}
use mathlib.Core.Option.{Option, none, some}
use mathlib.Core.List.{List, [], ◌∷◌}
use native.Mathlib.Omega.{arith}
use acp_a2a_gateway.Prelude.Tests.{◌==◌, if◌then◌else◌}

abbrev pub Ids {ℓ} : Type ℓ → Type ℓ
Ids V = List (ℕ × V)

module _ {ℓ} {V : Type ℓ} where
  unfoldable pub lookup : ℕ → Ids V → Option V
  lookup id [] = none
  lookup id ((held, value) ∷ rest) = if held == id then some value else lookup id rest

  unfoldable pub insert : ℕ → V → Ids V → Ids V
  insert id new [] = (id, new) ∷ []
  insert id new ((held, value) ∷ rest) =
      if held == id then (id, new) ∷ rest else (held, value) ∷ insert id new rest

  unfoldable pub remove : ℕ → Ids V → Ids V
  remove id [] = []
  remove id ((held, value) ∷ rest) =
      let kept = remove id rest in if held == id then kept else (held, value) ∷ kept

  pub lookup-insert :
      (id wanted : ℕ) (new : V) (ids : Ids V)
      → lookup wanted (insert id new ids) ≡ (if id == wanted then some new else lookup wanted ids)
  unfolding insert lookup
  lookup-insert id wanted new [] = ground arith
  lookup-insert id wanted new ((held, value) ∷ rest) =
      ground (arith, lookup-insert id wanted new rest)

  pub lookup-remove :
      (id wanted : ℕ) (ids : Ids V)
      → lookup wanted (remove id ids) ≡ (if id == wanted then none else lookup wanted ids)
  unfolding remove lookup
  lookup-remove id wanted [] = ground arith
  lookup-remove id wanted ((held, value) ∷ rest) = ground (arith, lookup-remove id wanted rest)
