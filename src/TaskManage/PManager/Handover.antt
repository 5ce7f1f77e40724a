-- ===== src/TaskManage/PManager/Handover.antt =====
-- The steps of an exit on the process tree: the parent is told, and children are handed to init.
use spec_to_rust_os.Prelude.{
  ℕ, ◌≡◌, ◌≢◌, refl, true, ◌||◌, Option, none, some, List, [], ◌∷◌, ◌++◌, ◌⊎◌, inl, ◌==◌,
  if◌then◌else◌, ◌∙◌, arith,
}
use spec_to_rust_os.Prelude.Map.{Map, modify, lookup-modify}
use spec_to_rust_os.Prelude.Distinct.{
  contains, contains-append, contains-of-remove_first, contains-remove_first_ne,
}
use spec_to_rust_os.TaskManage.ProcRel.{ProcRel, add_child, del_child}
use spec_to_rust_os.TaskManage.PManager.{report, adopt, adopt_all}
use spec_to_rust_os.TaskManage.PManager.Family.{children_of, parent_of, dead_of}

-- The death of a process takes names off lists and changes no parent.
pub children-report :
    (pid code p c : ℕ) (o : Option ProcRel) (rels : Map ProcRel)
    → contains (children_of (report pid code o rels) p) c ≡ true
    → contains (children_of rels p) c ≡ true
unfolding report del_child
children-report pid code p c none rels h = h
children-report pid code p c (some rel) rels h = ground (
  arith,
  lookup-modify rel.parent p (del_child pid code) rels,
  contains-of-remove_first pid c (children_of rels p),
)

pub keep-report :
    (pid code p c : ℕ) (o : Option ProcRel) (rels : Map ProcRel)
    → c ≢ pid
    → contains (children_of rels p) c ≡ true
    → contains (children_of (report pid code o rels) p) c ≡ true
unfolding report del_child
keep-report pid code p c none rels other h = h
keep-report pid code p c (some rel) rels other h = ground (
  arith,
  lookup-modify rel.parent p (del_child pid code) rels,
  contains-remove_first_ne pid c (children_of rels p) other,
)

pub parent-report :
    (pid code c : ℕ) (o : Option ProcRel) (rels : Map ProcRel)
    → parent_of (report pid code o rels) c ≡ parent_of rels c
unfolding report del_child
parent-report pid code c none rels = refl
parent-report pid code c (some rel) rels =
    ground (arith, lookup-modify rel.parent c (del_child pid code) rels)

-- The entry of a process while children are handed to init.
module _ (b : ℕ) (rels : Map ProcRel) where
  pub children-adopt :
      (p c : ℕ)
      → contains (children_of (adopt b rels) p) c ≡ true
      → (contains (children_of rels p) c ≡ true) ⊎ ((p ≡ 0) × (b ≡ c))
  unfolding adopt add_child contains
  children-adopt p c h = ground (
    arith,
    lookup-modify 0 p (add_child b) (modify b (λ rel. record rel { parent = 0 }) rels),
    lookup-modify b p (λ rel. record rel { parent = 0 }) rels,
    contains-append (children_of rels p) (b ∷ []) c,
  )

  pub parent-adopt :
      (c : ℕ) {q : ℕ}
      → parent_of rels c ≡ some q
      → parent_of (adopt b rels) c ≡ some (if b == c then 0 else q)
  unfolding adopt add_child
  parent-adopt c h = ground (
    arith,
    lookup-modify 0 c (add_child b) (modify b (λ rel. record rel { parent = 0 }) rels),
    lookup-modify b c (λ rel. record rel { parent = 0 }) rels,
  )

  dead-adopt : (p : ℕ) → dead_of (adopt b rels) p ≡ dead_of rels p
  unfolding adopt add_child
  dead-adopt p = ground (
    arith,
    lookup-modify 0 p (add_child b) (modify b (λ rel. record rel { parent = 0 }) rels),
    lookup-modify b p (λ rel. record rel { parent = 0 }) rels,
  )

  pub init-adopt :
      (c : ℕ) {q : ℕ}
      → parent_of rels 0 ≡ some q
      → contains (children_of (adopt b rels) 0) c ≡ (contains (children_of rels 0) c || b == c)
  unfolding adopt add_child contains
  init-adopt c h = ground (
    arith,
    lookup-modify 0 0 (add_child b) (modify b (λ rel. record rel { parent = 0 }) rels),
    lookup-modify b 0 (λ rel. record rel { parent = 0 }) rels,
    contains-append (children_of rels 0) (b ∷ []) c,
  )

-- The same for the whole loop.
pub children-adopt_all :
    (cs : List ℕ) (rels : Map ProcRel) (p c : ℕ)
    → contains (children_of (adopt_all cs rels) p) c ≡ true
    → (contains (children_of rels p) c ≡ true) ⊎ ((p ≡ 0) × (contains cs c ≡ true))
unfolding adopt_all contains
children-adopt_all [] rels p c h = inl h
children-adopt_all (b ∷ cs) rels p c h =
    ground (arith, children-adopt_all cs (adopt b rels) p c h, children-adopt b rels p c)

pub parent-adopt_all :
    (cs : List ℕ) (rels : Map ProcRel) (c q : ℕ)
    → parent_of rels c ≡ some q
    → parent_of (adopt_all cs rels) c ≡ some (if contains cs c then 0 else q)
unfolding adopt_all contains
parent-adopt_all [] rels c q h = h
parent-adopt_all (b ∷ cs) rels c q h =
    ground (
      arith,
      parent-adopt b rels c h,
      parent-adopt_all cs (adopt b rels) c (if b == c then 0 else q),
    )

pub dead-adopt_all :
    (cs : List ℕ) (rels : Map ProcRel) (p : ℕ) → dead_of (adopt_all cs rels) p ≡ dead_of rels p
unfolding adopt_all
dead-adopt_all [] rels p = refl
dead-adopt_all (b ∷ cs) rels p = dead-adopt_all cs (adopt b rels) p ∙ dead-adopt b rels p

pub init-adopt_all :
    (cs : List ℕ) (rels : Map ProcRel) (c q : ℕ)
    → parent_of rels 0 ≡ some q
    → contains (children_of (adopt_all cs rels) 0) c
      ≡ (contains (children_of rels 0) c || contains cs c)
unfolding adopt_all contains
init-adopt_all [] rels c q h = ground arith
init-adopt_all (b ∷ cs) rels c q h = ground (
  arith,
  parent-adopt b rels 0 h,
  init-adopt b rels c h,
  init-adopt_all cs (adopt b rels) c (if b == 0 then 0 else q),
)

-- The parent's record of a death.
pub dead-report :
    (pid code : ℕ) (rel : ProcRel) (rels : Map ProcRel)
    → contains (children_of rels rel.parent) pid ≡ true
    → dead_of (report pid code (some rel) rels) rel.parent
      ≡ dead_of rels rel.parent ++ (pid, code) ∷ []
unfolding report del_child contains
dead-report pid code rel rels h =
    ground (arith, lookup-modify rel.parent rel.parent (del_child pid code) rels)
