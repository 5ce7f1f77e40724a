-- ===== src/Prelude/Distinct.antt =====
-- Lists of identifiers, and lists of entries under identifiers: membership, the removal of the
-- first match, and what these do to a list without repetition.
use mathlib.Core.Path.{◌≡◌, refl}
use mathlib.Core.Bool.{Bool, true, false, ◌||◌}
use mathlib.Core.Logic.{◌≢◌}
use mathlib.Core.Option.{Option, none, some}
use mathlib.Core.List.{List, [], ◌∷◌, ◌++◌}
use Prim.Native.Nat.{ℕ}
use native.Mathlib.Omega.{arith}
use spec_to_rust_os.Prelude.Tests.{◌==◌, if◌then◌else◌}
use spec_to_rust_os.Prelude.Map.{lookup}

-- Vec::contains
unfoldable pub contains : List ℕ → ℕ → Bool
contains [] c = false
contains (x ∷ xs) c = if x == c then true else contains xs c

-- Vec::remove at the `position` of `c`, where there is one.
unfoldable pub remove_first : ℕ → List ℕ → List ℕ
remove_first c [] = []
remove_first c (x ∷ xs) = if x == c then xs else x ∷ remove_first c xs

abbrev pub Distinct : List ℕ → Type 0
Distinct [] = Unit
Distinct (x ∷ xs) = (contains xs x ≡ false) × Distinct xs

pub contains-remove_first :
    (c j : ℕ) (l : List ℕ)
    → Distinct l
    → contains (remove_first c l) j ≡ (if c == j then false else contains l j)
unfolding contains remove_first
contains-remove_first c j [] d = ground arith
contains-remove_first c j (x ∷ xs) d = ground (arith, contains-remove_first c j xs d.1)

pub remove_first-Distinct : (c : ℕ) (l : List ℕ) → Distinct l → Distinct (remove_first c l)
unfolding contains remove_first
remove_first-Distinct c [] d = tt
remove_first-Distinct c (x ∷ xs) d =
    ground (arith, remove_first-Distinct c xs d.1, contains-remove_first c x xs d.1)

pub contains-of-remove_first :
    (c j : ℕ) (l : List ℕ) → contains (remove_first c l) j ≡ true → contains l j ≡ true
unfolding contains remove_first
contains-of-remove_first c j [] h = h
contains-of-remove_first c j (x ∷ xs) h = ground (arith, contains-of-remove_first c j xs)

-- The entries after `add` of a process that has none: the parent's list ends with it, and it has an
-- empty list of its own, unless it is its own parent.
pub contains-remove_first_ne :
    (c j : ℕ) (l : List ℕ) → j ≢ c → contains l j ≡ true → contains (remove_first c l) j ≡ true
unfolding contains remove_first
contains-remove_first_ne c j [] other h = h
contains-remove_first_ne c j (x ∷ xs) other h =
    ground (arith, contains-remove_first_ne c j xs other)

pub contains-append : (l k : List ℕ) (j : ℕ) → contains (l ++ k) j ≡ (contains l j || contains k j)
unfolding contains
contains-append [] k j = refl
contains-append (x ∷ xs) k j = ground (arith, contains-append xs k j)

pub append-Distinct :
    (l : List ℕ) (c : ℕ) → Distinct l → contains l c ≡ false → Distinct (l ++ c ∷ [])
unfolding contains
append-Distinct [] c d n = (refl, tt)
append-Distinct (x ∷ xs) c d n =
    ground (arith, append-Distinct xs c d.1, contains-append xs (c ∷ []) x)

module _ {ℓ} {V : Type ℓ} where
  -- Vec::remove at the `position` of the entry for `c`, where there is one.
  unfoldable pub remove_key : ℕ → List (ℕ × V) → List (ℕ × V)
  remove_key c [] = []
  remove_key c ((x, v) ∷ xs) = if x == c then xs else (x, v) ∷ remove_key c xs

  abbrev pub DistinctKeys : List (ℕ × V) → Type ℓ
  DistinctKeys [] = Unit
  DistinctKeys ((x, v) ∷ xs) = (lookup x xs ≡ none) × DistinctKeys xs

  pub lookup-remove_key :
      (c j : ℕ) (l : List (ℕ × V))
      → DistinctKeys l
      → lookup j (remove_key c l) ≡ (if c == j then none else lookup j l)
  unfolding lookup remove_key
  lookup-remove_key c j [] d = ground arith
  lookup-remove_key c j ((x, v) ∷ xs) d = ground (arith, lookup-remove_key c j xs d.1)

  pub remove_key-DistinctKeys :
      (c : ℕ) (l : List (ℕ × V)) → DistinctKeys l → DistinctKeys (remove_key c l)
  unfolding lookup remove_key
  remove_key-DistinctKeys c [] d = tt
  remove_key-DistinctKeys c ((x, v) ∷ xs) d =
      ground (arith, remove_key-DistinctKeys c xs d.1, lookup-remove_key c x xs d.1)

  abbrev pub or_else : Option V → Option V → Option V
  or_else none b = b
  or_else (some a) b = some a

  pub lookup-append :
      (l : List (ℕ × V)) (c : ℕ) (v : V) (j : ℕ)
      → lookup j (l ++ (c, v) ∷ []) ≡ or_else (lookup j l) (if c == j then some v else none)
  unfolding lookup
  lookup-append [] c v j = refl
  lookup-append ((x, w) ∷ xs) c v j = ground (arith, lookup-append xs c v j)

  pub append-DistinctKeys :
      (l : List (ℕ × V)) (c : ℕ) (v : V)
      → DistinctKeys l
      → lookup c l ≡ none
      → DistinctKeys (l ++ (c, v) ∷ [])
  unfolding lookup
  append-DistinctKeys [] c v d n = (refl, tt)
  append-DistinctKeys ((x, w) ∷ xs) c v d n =
      ground (arith, append-DistinctKeys xs c v d.1, lookup-append xs c v x)
