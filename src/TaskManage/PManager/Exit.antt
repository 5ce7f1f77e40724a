-- ===== src/TaskManage/PManager/Exit.antt =====
-- The process tree under `make_current_exited`: the parent keeps the exit code, and the children go
-- to init.
use spec_to_rust_os.Prelude.{
  ℕ, ◌≡◌, ◌≢◌, refl, true, Option, none, some, [], ◌∷◌, ◌++◌, ◌⊎◌, ◌==◌, if◌then◌else◌, ◌∙◌, arith,
}
use spec_to_rust_os.Prelude.Map.{Map, lookup, lookup-modify}
use spec_to_rust_os.Prelude.Distinct.{contains}
use spec_to_rust_os.TaskManage.ProcRel.{ProcRel}
use spec_to_rust_os.TaskManage.Interface.{Manage, Schedule}
use spec_to_rust_os.Prelude.Panic.{returned}
use spec_to_rust_os.TaskManage.PManager.{
  PManager, make_current_exited, report, adopt_all, adopt_children, leave,
}
use spec_to_rust_os.TaskManage.PManager.Family.{children_of, parent_of, dead_of, IsTree, list_of}
use spec_to_rust_os.TaskManage.PManager.Handover.{
  children-report, parent-report, keep-report, dead-report, children-adopt_all, parent-adopt_all,
  dead-adopt_all, init-adopt_all,
}

adopt_children_lem :
    (o : Option ProcRel) (rels : Map ProcRel) → adopt_children o rels ≡ adopt_all (list_of o) rels
unfolding adopt_children adopt_all
adopt_children_lem none rels = refl
adopt_children_lem (some rel) rels = refl

-- The steps of `leave`: the parent is told, the children are handed over, the list is cleared.
module _ (pid code : ℕ) (rels : Map ProcRel) where
  abbrev told : Map ProcRel
  told = report pid code (lookup pid rels) rels

  abbrev handed : Map ProcRel
  handed = adopt_all (children_of told pid) told

  lookup-leave :
      (p : ℕ)
      → (children_of (leave pid code rels) p ≡ (if pid == p then [] else children_of handed p))
        × (parent_of (leave pid code rels) p ≡ parent_of handed p)
        × (dead_of (leave pid code rels) p ≡ dead_of handed p)
  unfolding leave
  lookup-leave p =
      rw (adopt_children_lem (lookup pid told) told)
        (ground (arith, lookup-modify pid p (λ rel. record rel { children = [] }) handed))

  parent-leave :
      (c q : ℕ)
      → parent_of rels c ≡ some q
      → parent_of (leave pid code rels) c
        ≡ some (if contains (children_of told pid) c then 0 else q)
  parent-leave c q h = ground (
    arith,
    lookup-leave c,
    parent-report pid code c (lookup pid rels) rels,
    parent-adopt_all (children_of told pid) told c q,
  )

  children-leave :
      (p c : ℕ)
      → contains (children_of (leave pid code rels) p) c ≡ true
      → (p ≢ pid)
        × ((contains (children_of rels p) c ≡ true)
            ⊎ ((p ≡ 0) × (contains (children_of told pid) c ≡ true)))
  unfolding contains
  children-leave p c h = ground (
    arith,
    lookup-leave p,
    children-adopt_all (children_of told pid) told p c,
    children-report pid code p c (lookup pid rels) rels,
  )

  -- The exit of any process keeps the tree.
  leave-IsTree : IsTree rels → IsTree (leave pid code rels)
  leave-IsTree t = record {
    up = λ p c h. ground (
      arith,
      children-leave p c h,
      children-report pid code pid c (lookup pid rels) rels,
      t.up p c,
      t.up pid c,
      parent-leave c p,
      parent-leave c pid,
    );
  }

  children-told :
      (c : ℕ)
      → c ≢ pid
      → contains (children_of rels pid) c ≡ true
      → contains (children_of told pid) c ≡ true
  children-told c other h = keep-report pid code pid c (lookup pid rels) rels other h

  -- A child of the process has init for its parent afterwards, and init lists it.
  child-leave :
      (c q : ℕ)
      → IsTree rels
      → c ≢ pid
      → pid ≢ 0
      → parent_of rels 0 ≡ some q
      → contains (children_of rels pid) c ≡ true
      → (parent_of (leave pid code rels) c ≡ some 0)
        × (contains (children_of (leave pid code rels) 0) c ≡ true)
  child-leave c q t other not_init init h = ground (
    arith,
    children-told c other h,
    t.up pid c h,
    parent-leave c pid,
    lookup-leave 0,
    parent-report pid code 0 (lookup pid rels) rels,
    init-adopt_all (children_of told pid) told c q,
  )

  -- The parent keeps the exit code, behind those that it has not collected.
  dead-leave :
      (rel : ProcRel)
      → lookup pid rels ≡ some rel
      → contains (children_of rels rel.parent) pid ≡ true
      → dead_of (leave pid code rels) rel.parent ≡ dead_of rels rel.parent ++ (pid, code) ∷ []
  dead-leave rel e h =
      (lookup-leave rel.parent).2
      ∙ dead-adopt_all (children_of told pid) told rel.parent
      ∙ rw e (dead-report pid code rel rels h)

-- A process exits: `make_current_exited` deletes its task, leaves no process current and keeps the
-- tree; each of its children has init for its parent and is listed by init; and its parent, if it
-- lists the process, keeps the exit code behind those that it has not collected yet.
pub make_current_exited_lem :
    {M T : Type 0} (store : Manage M T) (queue : Schedule M) (code pid q : ℕ) (p : PManager M)
    (m : M) (rel : ProcRel)
    → p.manager ≡ some m
    → p.current ≡ some pid
    → lookup pid p.relations ≡ some rel
    → IsTree p.relations
    → pid ≢ 0
    → parent_of p.relations 0 ≡ some q
    → (p' : PManager M) × (make_current_exited store queue code p ≡ returned p')
      × (p'.manager ≡ some (store.delete pid m))
      × (p'.current ≡ none)
      × IsTree p'.relations
      × ((c : ℕ)
          → c ≢ pid
          → contains rel.children c ≡ true
          → (parent_of p'.relations c ≡ some 0) × (contains (children_of p'.relations 0) c ≡ true))
      × (contains (children_of p.relations rel.parent) pid ≡ true
          → dead_of p'.relations rel.parent ≡ dead_of p.relations rel.parent ++ (pid, code) ∷ [])
unfolding make_current_exited
make_current_exited_lem store queue code pid q p m rel has runs e t not_init init = (
  record {
    manager = some (store.delete pid m);
    relations = leave pid code p.relations;
    current = none;
  },
  rw (runs, make_current_exited) (rw has),
  refl,
  refl,
  leave-IsTree pid code p.relations t,
  λ c other h. child-leave pid code p.relations c q t other not_init init (rw e h),
  dead-leave pid code p.relations rel e,
)
