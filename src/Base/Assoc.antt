-- ===== src/Base/Assoc.antt =====
-- Go maps with integer keys, as association lists.
use Prim.Native.Nat.{ℕ}
use mathlib.Core.Path.{◌≡◌, refl}
use mathlib.Core.List.{List, [], ◌∷◌}
use mathlib.Core.Option.{Option, none, some}
use native.Mathlib.Omega.{arith}
use moqtransport_fec.Base.Tests.{◌==◌, if◌then◌else◌}

module _ {ℓ} {V : Type ℓ} where
  -- `v, ok := m[id]`
  unfoldable pub lookup : ℕ → List (ℕ × V) → Option V
  lookup id [] = none
  lookup id ((key, value) ∷ rest) = if key == id then some value else lookup id rest

  -- `delete(m, id)`
  unfoldable pub delete : ℕ → List (ℕ × V) → List (ℕ × V)
  delete id [] = []
  delete id ((key, value) ∷ rest) =
      let kept = delete id rest in if key == id then kept else (key, value) ∷ kept

  -- `m[id] = v`
  unfoldable pub insert : ℕ → V → List (ℕ × V) → List (ℕ × V)
  insert id new [] = (id, new) ∷ []
  insert id new ((key, old) ∷ rest) =
      let changed = insert id new rest in
      if key == id then (id, new) ∷ rest else (key, old) ∷ changed

  pub lookup-delete :
      (id other : ℕ) (m : List (ℕ × V))
      → lookup other (delete id m) ≡ (if id == other then none else lookup other m)
  unfolding lookup delete
  lookup-delete id other [] = ground arith
  lookup-delete id other ((key, value) ∷ rest) = ground (arith, lookup-delete id other rest)

  pub lookup-insert :
      (id other : ℕ) (new : V) (m : List (ℕ × V))
      → lookup other (insert id new m) ≡ (if id == other then some new else lookup other m)
  unfolding lookup insert
  lookup-insert id other new [] = refl
  lookup-insert id other new ((key, old) ∷ rest) = ground (arith, lookup-insert id other new rest)
