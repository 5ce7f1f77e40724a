-- ===== src/TaskManage/PManager.antt =====
-- task-manage/src/lib.rs: `PManager`, over any implementation of the two traits. The loop of
-- `find_next` takes fuel: one round for each identifier in the ready queue, and one more.
pub mod Exit
pub mod Family
pub mod Handover
pub mod Scheduling
use spec_to_rust_os.Prelude.{ℕ, zero, suc, Option, none, some, List, [], ◌∷◌, ◌==◌, if◌then◌else◌}
use spec_to_rust_os.Prelude.Map
use spec_to_rust_os.Prelude.Map.{Map, lookup, modify, or_insert}
use spec_to_rust_os.Prelude.Panic.{Outcome, returned, panicked, ◌>>=◌}
use spec_to_rust_os.TaskManage.Interface.{Manage, Schedule}
use spec_to_rust_os.TaskManage.ProcRel
use spec_to_rust_os.TaskManage.ProcRel.{
  ProcRel, add_child, del_child, wait_child, wait_any_child, usize_max,
}

pub record PManager (M : Type 0) : Type 0 where
  pub manager : Option M
  pub relations : Map ProcRel
  pub current : Option ℕ

unfoldable pub new : {M : Type 0} → PManager M
new = record { manager = none; relations = []; current = none }

unfoldable pub set_manager : {M : Type 0} → M → PManager M → PManager M
set_manager m p = record p { manager = some m }

-- `expect` on the manager.
abbrev pub expect : {A : Type 0} → Option A → Outcome A
expect none = panicked
expect (some a) = returned a

-- The relations after `add`: the child enters the parent's list, and gets an entry of its own.
unfoldable pub enter : ℕ → ℕ → Map ProcRel → Map ProcRel
enter id parent rels =
    or_insert id (ProcRel.new parent)
      (modify parent (add_child id) (or_insert parent (ProcRel.new parent) rels))

-- The death of `pid` in the list of its parent.
unfoldable pub report : ℕ → ℕ → Option ProcRel → Map ProcRel → Map ProcRel
report pid exit_code none rels = rels
report pid exit_code (some rel) rels = modify rel.parent (del_child pid exit_code) rels

-- One round of the loop that hands a child to init, the process 0.
unfoldable pub adopt : ℕ → Map ProcRel → Map ProcRel
adopt child_pid rels =
    modify 0 (add_child child_pid) (modify child_pid (λ rel. record rel { parent = 0 }) rels)

unfoldable pub adopt_all : List ℕ → Map ProcRel → Map ProcRel
adopt_all [] rels = rels
adopt_all (c ∷ cs) rels = adopt_all cs (adopt c rels)

unfoldable pub adopt_children : Option ProcRel → Map ProcRel → Map ProcRel
adopt_children none rels = rels
adopt_children (some rel) rels = adopt_all rel.children rels

-- The relations after the exit of a process.
unfoldable pub leave : ℕ → ℕ → Map ProcRel → Map ProcRel
unfolding report adopt adopt_all adopt_children
leave pid exit_code rels =
    let told = report pid exit_code (lookup pid rels) rels in
    modify pid (λ rel. record rel { children = [] }) (adopt_children (lookup pid told) told)

module _ {M T : Type 0} (store : Manage M T) (queue : Schedule M) where
  unfoldable pub add : ℕ → T → ℕ → PManager M → Outcome (PManager M)
  add id task parent p = do
    m ← expect p.manager
    returned (record p {
      manager = some (queue.add id (store.insert id task m));
      relations = enter id parent p.relations;
    })

  -- The loop of `find_next`; `none` outside means that the fuel ran out.
  unfoldable pub find_loop : ℕ → M → Option (Option (ℕ × T) × M)
  find_loop zero m = none
  find_loop (suc fuel) m =
      let (id, m') = queue.fetch m in
      elim id [
        | none ↦ some (none, m')
        | some i ↦ elim (store.get_mut i m') [
          | some task ↦ some (some (i, task), m')
          | none ↦ find_loop fuel m'
        ]
      ]

  abbrev pub id_of : Option (ℕ × T) → Option ℕ
  id_of none = none
  id_of (some (i, t)) = some i

  unfoldable pub find_next : ℕ → PManager M → Outcome (Option (Option (ℕ × T) × PManager M))
  find_next fuel p = do
    m ← expect p.manager
    returned (elim (find_loop fuel m) [
      | none ↦ none
      | some (found, m') ↦ some (found, record p { manager = some m'; current = id_of found })
    ])

  unfoldable pub get_task : ℕ → PManager M → Outcome (Option T)
  get_task id p = do m ← expect p.manager; returned (store.get_mut id m)

  unfoldable pub current : PManager M → Outcome (Option T)
  unfolding get_task
  current p = elim p.current [ none ↦ returned none | some id ↦ get_task id p ]

  unfoldable pub make_current_suspend : PManager M → Outcome (PManager M)
  make_current_suspend p = elim p.current [
    | none ↦ returned p
    | some id ↦ (do
      m ← expect p.manager
      returned (record p { manager = some (queue.add id m); current = none }))
  ]

  unfoldable pub make_current_exited : ℕ → PManager M → Outcome (PManager M)
  make_current_exited exit_code p = elim p.current [
    | none ↦ returned p
    | some pid ↦ (do
      m ← expect p.manager
      returned (record p {
        manager = some (store.delete pid m);
        relations = leave pid exit_code p.relations;
        current = none;
      }))
  ]

wait_in : ℕ → ℕ → Map ProcRel → Option ProcRel → Option (ℕ × ℕ) × Map ProcRel
wait_in child_pid pid rels none = (none, rels)
wait_in child_pid pid rels (some rel) =
    let (found, rel') =
      if child_pid == usize_max then wait_any_child rel else wait_child child_pid rel in
    (found, modify pid (λ _. rel') rels)

unfoldable pub wait : {M : Type 0} → ℕ → PManager M → Option (ℕ × ℕ) × PManager M
unfolding wait_in
wait child_pid p = elim p.current [
  | none ↦ (none, p)
  | some pid ↦
      (let (found, rels) = wait_in child_pid pid p.relations (lookup pid p.relations) in
        (found, record p { relations = rels }))
]
