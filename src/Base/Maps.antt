-- ===== src/Base/Maps.antt =====
-- `HashMap<u32, V>` as an association list. A lookup reads the first entry of a key.
use Prim.Native.Nat.{ℕ}
use mathlib.Core.Path.{◌≡◌, refl}
use mathlib.Core.Bool.{Bool}
use mathlib.Core.Option.{Option, none, some}
use mathlib.Core.List.{List, [], ◌∷◌}
use native.Mathlib.Omega.{arith}
use t2_bus.Base.Tests.{◌==◌, if◌then◌else◌}

abbrev pub Map : Type 0 → Type 0
Map V = List (ℕ × V)

module _ {V : Type 0} where
  unfoldable pub lookup : ℕ → Map V → Option V
  lookup k [] = none
  lookup k ((j, v) ∷ m) = if j == k then some v else lookup k m

  -- `HashMap::remove`
  unfoldable pub delete : ℕ → Map V → Map V
  delete k [] = []
  delete k ((j, v) ∷ m) = let rest = delete k m in if j == k then rest else (j, v) ∷ rest

  -- `HashMap::insert`
  unfoldable pub put : ℕ → V → Map V → Map V
  unfolding delete
  put k v m = (k, v) ∷ delete k m

  -- `HashMap::retain`, where the test reads the value alone
  unfoldable pub retain : (V → Bool) → Map V → Map V
  retain p [] = []
  retain p ((j, v) ∷ m) = let rest = retain p m in if p v then (j, v) ∷ rest else rest

  pub lookup-delete :
      (k j : ℕ) (m : Map V) → lookup j (delete k m) ≡ (if k == j then none else lookup j m)
  unfolding lookup delete
  lookup-delete k j [] = ground arith
  lookup-delete k j ((i, v) ∷ m) = ground (arith, lookup-delete k j m)

  pub lookup-put :
      (k j : ℕ) (v : V) (m : Map V) → lookup j (put k v m) ≡ (if k == j then some v else lookup j m)
  unfolding put lookup
  lookup-put k j v m = ground (arith, lookup-delete k j m)

  -- Keys are distinct.
  abbrev pub HasDistinctKeys : Map V → Type 0
  HasDistinctKeys [] = Unit
  HasDistinctKeys ((k, v) ∷ m) = (lookup k m ≡ none) × HasDistinctKeys m

  pub lookup-retain-none :
      (p : V → Bool) (k : ℕ) (m : Map V) → lookup k m ≡ none → lookup k (retain p m) ≡ none
  unfolding lookup retain
  lookup-retain-none p k [] e = refl
  lookup-retain-none p k ((j, v) ∷ m) e = ground (arith, lookup-retain-none p k m)

  pub delete-HasDistinctKeys :
      (k : ℕ) (m : Map V) → HasDistinctKeys m → HasDistinctKeys (delete k m)
  unfolding delete
  delete-HasDistinctKeys k [] d = tt
  delete-HasDistinctKeys k ((j, v) ∷ m) d =
      ground (arith, delete-HasDistinctKeys k m d.1, lookup-delete k j m)

  pub put-HasDistinctKeys :
      (k : ℕ) (v : V) (m : Map V) → HasDistinctKeys m → HasDistinctKeys (put k v m)
  unfolding put
  put-HasDistinctKeys k v m d = ground (arith, delete-HasDistinctKeys k m d, lookup-delete k k m)

  pub retain-HasDistinctKeys :
      (p : V → Bool) (m : Map V) → HasDistinctKeys m → HasDistinctKeys (retain p m)
  unfolding retain
  retain-HasDistinctKeys p [] d = tt
  retain-HasDistinctKeys p ((j, v) ∷ m) d =
      ground (arith, retain-HasDistinctKeys p m d.1, lookup-retain-none p j m d.0)
