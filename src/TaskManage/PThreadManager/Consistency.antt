-- ===== src/TaskManage/PThreadManager/Consistency.antt =====
-- The maps of `PThreadManager` agree, so that the exit of a thread finds what it expects.
use spec_to_rust_os.Prelude.{
  ℕ, ◌≡◌, ◌≢◌, true, false, ◌||◌, Option, none, some, List, [], ◌∷◌, inl, inr, ◌==◌, if◌then◌else◌,
  Option-cases, Bool-cases, arith,
}
use spec_to_rust_os.Prelude.Map
use spec_to_rust_os.Prelude.Map.{
  Map, lookup, remove, modify, or_insert, lookup-or_insert, lookup-modify, lookup-remove,
  lookup-insert,
}
use spec_to_rust_os.Prelude.Distinct.{contains, contains-append, contains-remove_first_ne}
use spec_to_rust_os.TaskManage.ProcRel.{add_child, del_child}
use spec_to_rust_os.TaskManage.ProcThreadRel
use spec_to_rust_os.TaskManage.ProcThreadRel.{ProcThreadRel, on_family, add_thread, del_thread}
use spec_to_rust_os.TaskManage.PThreadManager.{enter_proc, enter_thread, threads_in, leave_proc}

abbrev pub threads_of : Map ProcThreadRel → ℕ → List ℕ
threads_of rels pid = threads_in (lookup pid rels)

-- Each thread that has a task belongs to a process whose entry lists it.
pub record Owned {T : Type 0} (get : ℕ → Option T) (tids : Map ℕ) (rels : Map ProcThreadRel)
    : Type 0 where
  pub owner :
      (tid : ℕ) (t : T)
      → get tid ≡ some t
      → (pid : ℕ) × (lookup tid tids ≡ some pid) × (contains (threads_of rels pid) tid ≡ true)

-- What the operations do to the lists of threads.
pub threads-enter_proc :
    (id parent pid : ℕ) (rels : Map ProcThreadRel)
    → threads_of (enter_proc id parent rels) pid ≡ threads_of rels pid
unfolding enter_proc ProcThreadRel.new
threads-enter_proc id parent pid rels = ground (
  arith,
  lookup-or_insert id pid (ProcThreadRel.new parent) m₂,
  lookup-modify parent pid (on_family (add_child id)) m₁,
  lookup-modify parent id (on_family (add_child id)) m₁,
  lookup-or_insert parent pid (ProcThreadRel.new parent) rels,
  lookup-or_insert parent id (ProcThreadRel.new parent) rels,
)
  where
    m₁ : Map ProcThreadRel
    m₁ = or_insert parent (ProcThreadRel.new parent) rels

    m₂ : Map ProcThreadRel
    m₂ = modify parent (on_family (add_child id)) m₁

pub threads-enter_thread :
    (tid pid q j : ℕ) (rels : Map ProcThreadRel)
    → contains (threads_of (enter_thread tid pid rels) q) j
      ≡ (contains (threads_of rels q) j || (if pid == q then tid == j else false))
unfolding enter_thread ProcThreadRel.new add_thread contains
threads-enter_thread tid pid q j rels = ground (
  arith,
  lookup-modify pid q (add_thread tid) (or_insert pid (ProcThreadRel.new 0) rels),
  lookup-or_insert pid q (ProcThreadRel.new 0) rels,
  contains-append (threads_of rels q) (tid ∷ []) j,
)

pub threads-del_thread :
    (tid code pid q j : ℕ) (rels : Map ProcThreadRel)
    → j ≢ tid
    → contains (threads_of rels q) j ≡ true
    → contains (threads_of (modify pid (del_thread tid code) rels) q) j ≡ true
unfolding del_thread
threads-del_thread tid code pid q j rels other h = ground (
  arith,
  lookup-modify pid q (del_thread tid code) rels,
  contains-remove_first_ne tid j (threads_of rels q) other,
)

pub threads-leave_proc :
    (id code q : ℕ) (rels : Map ProcThreadRel)
    → threads_of (leave_proc id code rels) q ≡ (if id == q then [] else threads_of rels q)
unfolding leave_proc
threads-leave_proc id code q rels = elim (Option-cases (lookup id rels)) [
  | inl e ↦ rw (e, leave_proc) (ground (arith, lookup-remove id q rels))
  | inr (r, e) ↦
      rw (e, leave_proc)
        (ground (
          arith,
          lookup-modify r.parent q (on_family (del_child id code)) (remove id rels),
          lookup-remove id q rels,
        ))
]

-- `add_proc` keeps the ownership of threads; so does `add` of a thread, which it extends.
pub enter_proc-Owned :
    {T : Type 0} (get : ℕ → Option T) (tids : Map ℕ) (rels : Map ProcThreadRel) (id parent : ℕ)
    → Owned get tids rels
    → Owned get tids (enter_proc id parent rels)
enter_proc-Owned get tids rels id parent o = record {
  owner = λ tid t e.
      let (pid, at, lists) = o.owner tid t e in
      (pid, at, rw (threads-enter_proc id parent pid rels) lists);
}

pub enter_thread-Owned :
    {T : Type 0} (get get' : ℕ → Option T) (tids : Map ℕ) (rels : Map ProcThreadRel) (id pid : ℕ)
    (task : T)
    → lookup id tids ≡ none
    → ((j : ℕ) → get' j ≡ (if id == j then some task else get j))
    → Owned get tids rels
    → Owned get' (Map.insert id pid tids) (enter_thread id pid rels)
enter_thread-Owned get get' tids rels id pid task fresh now o = record {
  owner = λ tid t e. elim (Bool-cases (id == tid)) [
    | inl same ↦ (
      pid,
      rw (lookup-insert, same),
      rw (threads-enter_thread id pid pid tid rels) (ground arith),
    )
    | inr other ↦
        (let (p, at, lists) = o.owner tid t (ground (arith, now tid)) in
          (p, rw (lookup-insert, other) at, rw (threads-enter_thread id pid p tid rels) (rw lists)))
  ];
}
