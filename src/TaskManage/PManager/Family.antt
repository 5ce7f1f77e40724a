-- ===== src/TaskManage/PManager/Family.antt =====
-- The process tree under `add`: the lists of children and the parents agree.
use spec_to_rust_os.Prelude.{
  ℕ, ◌≡◌, true, false, ◌||◌, Option, none, some, List, [], ◌∷◌, ◌==◌, if◌then◌else◌, arith,
}
use spec_to_rust_os.Prelude.Map.{Map, lookup, modify, or_insert, lookup-or_insert, lookup-modify}
use spec_to_rust_os.Prelude.Distinct.{contains, contains-append}
use spec_to_rust_os.TaskManage.ProcRel
use spec_to_rust_os.TaskManage.ProcRel.{ProcRel, add_child}
use spec_to_rust_os.TaskManage.PManager.{enter}

abbrev pub list_of : Option ProcRel → List ℕ
list_of none = []
list_of (some r) = r.children

abbrev pub parent_in : Option ProcRel → Option ℕ
parent_in none = none
parent_in (some r) = some r.parent

abbrev pub dead_in : Option ProcRel → List (ℕ × ℕ)
dead_in none = []
dead_in (some r) = r.dead_children

abbrev pub children_of : Map ProcRel → ℕ → List ℕ
children_of rels p = list_of (lookup p rels)

abbrev pub parent_of : Map ProcRel → ℕ → Option ℕ
parent_of rels c = parent_in (lookup c rels)

abbrev pub dead_of : Map ProcRel → ℕ → List (ℕ × ℕ)
dead_of rels p = dead_in (lookup p rels)

-- Whoever is listed as a child of `p` has an entry, with `p` for its parent.
pub record IsTree (rels : Map ProcRel) : Type 0 where
  pub up : (p c : ℕ) → contains (children_of rels p) c ≡ true → parent_of rels c ≡ some p

module _ (id parent : ℕ) (rels : Map ProcRel) (fresh : lookup id rels ≡ none) where
  children-enter :
      (j c : ℕ)
      → contains (children_of (enter id parent rels) j) c
        ≡ (contains (children_of rels j) c || (if parent == j then id == c else false))
  unfolding enter add_child ProcRel.new contains
  children-enter j c = ground (
    arith,
    fresh,
    lookup-or_insert id j (ProcRel.new parent) m₂,
    lookup-modify parent j (add_child id) m₁,
    lookup-modify parent id (add_child id) m₁,
    lookup-or_insert parent j (ProcRel.new parent) rels,
    lookup-or_insert parent id (ProcRel.new parent) rels,
    contains-append (children_of m₁ j) (id ∷ []) c,
  )
    where
      m₁ : Map ProcRel
      m₁ = or_insert parent (ProcRel.new parent) rels

      m₂ : Map ProcRel
      m₂ = modify parent (add_child id) m₁

  parent-enter :
      (j : ℕ)
      → parent_of (enter id parent rels) j ≡ (
          if id == j then some parent else elim (parent_of rels j) [
            | none ↦ if parent == j then some parent else none
            | some q ↦ some q
          ])
  unfolding enter add_child ProcRel.new
  parent-enter j = ground (
    arith,
    fresh,
    lookup-or_insert id j (ProcRel.new parent) m₂,
    lookup-modify parent j (add_child id) m₁,
    lookup-modify parent id (add_child id) m₁,
    lookup-or_insert parent j (ProcRel.new parent) rels,
    lookup-or_insert parent id (ProcRel.new parent) rels,
  )
    where
      m₁ : Map ProcRel
      m₁ = or_insert parent (ProcRel.new parent) rels

      m₂ : Map ProcRel
      m₂ = modify parent (add_child id) m₁

  dead-enter : (j : ℕ) → dead_of (enter id parent rels) j ≡ dead_of rels j
  unfolding enter add_child ProcRel.new
  dead-enter j = ground (
    arith,
    fresh,
    lookup-or_insert id j (ProcRel.new parent) m₂,
    lookup-modify parent j (add_child id) m₁,
    lookup-modify parent id (add_child id) m₁,
    lookup-or_insert parent j (ProcRel.new parent) rels,
    lookup-or_insert parent id (ProcRel.new parent) rels,
  )
    where
      m₁ : Map ProcRel
      m₁ = or_insert parent (ProcRel.new parent) rels

      m₂ : Map ProcRel
      m₂ = modify parent (add_child id) m₁

-- `add` of a process that has no entry yet keeps the tree. The new process has the given parent and is
-- listed with it; every other list of children, every parent that there was, and every exit code that
-- waits stay as they were.
pub enter-IsTree :
    (id parent : ℕ) (rels : Map ProcRel)
    → lookup id rels ≡ none
    → IsTree rels
    → let rels' = enter id parent rels in
      IsTree rels'
      × (parent_of rels' id ≡ some parent)
      × (contains (children_of rels' parent) id ≡ true)
      × ((p c : ℕ)
          → contains (children_of rels' p) c
            ≡ (contains (children_of rels p) c || (if parent == p then id == c else false)))
      × ((c q : ℕ) → parent_of rels c ≡ some q → parent_of rels' c ≡ some q)
      × ((p : ℕ) → dead_of rels' p ≡ dead_of rels p)
enter-IsTree id parent rels fresh t = (
  record {
    up = λ p c h. ground (
      arith,
      children-enter id parent rels fresh p c,
      parent-enter id parent rels fresh c,
      t.up p c,
      fresh,
    );
  },
  ground (arith, parent-enter id parent rels fresh id),
  ground (arith, children-enter id parent rels fresh parent id),
  children-enter id parent rels fresh,
  λ c q h. ground (arith, parent-enter id parent rels fresh c, fresh, h),
  dead-enter id parent rels fresh,
)
