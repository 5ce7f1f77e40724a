-- ===== src/Prelude/Map.antt =====
-- A `BTreeMap` whose keys are numbers, as an association list with one entry for a key. The
-- program reads these maps by key only, or asks whether some value occurs, so order is not kept.
use Prim.Native.Nat.{ℕ}
use mathlib.Core.Path.{◌≡◌}
use mathlib.Core.Logic.{inl, inr}
use mathlib.Core.Option.{Option, none, some}
use mathlib.Core.List.{List, [], ◌∷◌}
use native.Mathlib.Omega.{arith}
use spec_to_rust_os.Prelude.Tests.{◌==◌, if◌then◌else◌, Option-cases}

abbrev pub Map {ℓ} : Type ℓ → Type ℓ
Map V = List (ℕ × V)

module _ {ℓ} {V : Type ℓ} where
  -- map.get(&k)
  unfoldable pub lookup : ℕ → Map V → Option V
  lookup k [] = none
  lookup k ((j, v) ∷ m) = if j == k then some v else lookup k m

  -- map.remove(&k)
  unfoldable pub remove : ℕ → Map V → Map V
  remove k [] = []
  remove k ((j, v) ∷ m) = let rest = remove k m in if j == k then rest else (j, v) ∷ rest

  -- map.insert(k, v)
  unfoldable pub insert : ℕ → V → Map V → Map V
  unfolding remove
  insert k v m = (k, v) ∷ remove k m

  pub lookup-remove :
      (k j : ℕ) (m : Map V) → lookup j (remove k m) ≡ (if k == j then none else lookup j m)
  unfolding lookup remove
  lookup-remove k j [] = ground arith
  lookup-remove k j ((i, v) ∷ m) = ground (arith, lookup-remove k j m)

  pub lookup-insert :
      (k j : ℕ) (v : V) (m : Map V)
      → lookup j (insert k v m) ≡ (if k == j then some v else lookup j m)
  unfolding lookup insert
  lookup-insert k j v m = ground (arith, lookup-remove k j m)

  -- map.get_mut(&k), and a change of what it points at
  unfoldable pub modify : ℕ → (V → V) → Map V → Map V
  modify k f [] = []
  modify k f ((j, v) ∷ m) =
      let rest = modify k f m in if j == k then (j, f v) ∷ m else (j, v) ∷ rest

  abbrev pub map_value : (V → V) → Option V → Option V
  map_value f none = none
  map_value f (some v) = some (f v)

  pub lookup-modify :
      (k j : ℕ) (f : V → V) (m : Map V)
      → lookup j (modify k f m) ≡ (if k == j then map_value f (lookup j m) else lookup j m)
  unfolding lookup modify
  lookup-modify k j f [] = ground arith
  lookup-modify k j f ((i, v) ∷ m) = ground (arith, lookup-modify k j f m)

module _ {ℓ} {V : Type ℓ} where
  -- map.entry(k).or_insert_with(|| d)
  unfoldable pub or_insert : ℕ → V → Map V → Map V
  or_insert k d m = elim (lookup k m) [ none ↦ insert k d m | some v ↦ m ]

  abbrev pub or_default : V → Option V → Option V
  or_default d none = some d
  or_default d (some v) = some v

  pub lookup-or_insert :
      (k j : ℕ) (d : V) (m : Map V)
      → lookup j (or_insert k d m) ≡ (if k == j then or_default d (lookup k m) else lookup j m)
  unfolding or_insert
  lookup-or_insert k j d m = elim (Option-cases (lookup k m)) [
    | inl e ↦ rw e (ground (arith, lookup-insert k j d m, e))
    | inr (v, e) ↦ rw e (ground (arith, e))
  ]

pub ruleset map_laws = (lookup-remove, lookup-insert, lookup-modify)
