-- ===== src/TaskManage/PThreadManager.antt =====
-- task-manage/src/lib.rs: `PThreadManager`, over implementations of the traits for threads and for
-- processes. `find_next` is the loop of `PManager` on the thread manager.
pub mod Consistency
pub mod Exit
pub mod ProcessExit
use spec_to_rust_os.Prelude.{ℕ, Option, none, some, List, [], ◌∷◌, ◌==◌, length, if◌then◌else◌}
use spec_to_rust_os.Prelude.Map
use spec_to_rust_os.Prelude.Map.{Map, lookup, remove, modify, or_insert}
use spec_to_rust_os.Prelude.Panic.{Outcome, returned, panicked, ◌>>=◌}
use spec_to_rust_os.TaskManage.Interface.{Manage, Schedule}
use spec_to_rust_os.TaskManage.ProcRel.{add_child, del_child, wait_child, wait_any_child, usize_max}
use spec_to_rust_os.TaskManage.ProcThreadRel
use spec_to_rust_os.TaskManage.ProcThreadRel.{
  ProcThreadRel, on_family, wait_family, add_thread, del_thread, wait_thread,
}
use spec_to_rust_os.TaskManage.PManager.{expect, find_loop, id_of}

-- `MT` is the thread manager, `MP` the process manager.
pub record PThreadManager (MT MP : Type 0) : Type 0 where
  pub thread_manager : Option MT
  pub proc_manager : Option MP
  pub relations : Map ProcThreadRel
  pub tid2pid : Map ℕ
  pub current : Option ℕ

unfoldable pub new : {MT MP : Type 0} → PThreadManager MT MP
new = record {
  thread_manager = none;
  proc_manager = none;
  relations = [];
  tid2pid = [];
  current = none;
}

-- The relations after `add_proc`.
unfoldable pub enter_proc : ℕ → ℕ → Map ProcThreadRel → Map ProcThreadRel
enter_proc id parent rels =
    or_insert id (ProcThreadRel.new parent)
      (modify parent (on_family (add_child id)) (or_insert parent (ProcThreadRel.new parent) rels))

-- The relations after `add` of a thread.
unfoldable pub enter_thread : ℕ → ℕ → Map ProcThreadRel → Map ProcThreadRel
enter_thread tid pid rels = modify pid (add_thread tid) (or_insert pid (ProcThreadRel.new 0) rels)

unfoldable pub forget_threads : List ℕ → Map ℕ → Map ℕ
forget_threads [] m = m
forget_threads (t ∷ ts) m = forget_threads ts (remove t m)

abbrev pub threads_in : Option ProcThreadRel → List ℕ
threads_in none = []
threads_in (some r) = r.threads

-- The relations after `del_proc`: the entry goes, and the parent is told.
unfoldable pub leave_proc : ℕ → ℕ → Map ProcThreadRel → Map ProcThreadRel
leave_proc id exit_code rels = elim (lookup id rels) [
  | none ↦ remove id rels
  | some r ↦ modify r.parent (on_family (del_child id exit_code)) (remove id rels)
]

module _ {MT MP T P : Type 0} (threads : Manage MT T) (queue : Schedule MT)
    (procs : Manage MP P) where
  unfoldable pub add_proc : ℕ → P → ℕ → PThreadManager MT MP → Outcome (PThreadManager MT MP)
  add_proc id proc parent s = do
    pm ← expect s.proc_manager
    returned (record s {
      proc_manager = some (procs.insert id proc pm);
      relations = enter_proc id parent s.relations;
    })

  unfoldable pub add : ℕ → T → ℕ → PThreadManager MT MP → Outcome (PThreadManager MT MP)
  add id task pid s = do
    tm ← expect s.thread_manager
    returned (record s {
      thread_manager = some (queue.add id (threads.insert id task tm));
      tid2pid = Map.insert id pid s.tid2pid;
      relations = enter_thread id pid s.relations;
    })

  unfoldable pub find_next :
      ℕ → PThreadManager MT MP → Outcome (Option (Option (ℕ × T) × PThreadManager MT MP))
  find_next fuel s = do
    tm ← expect s.thread_manager
    returned (elim (find_loop threads queue fuel tm) [
      | none ↦ none
      | some (found, tm') ↦
          some (found, record s { thread_manager = some tm'; current = id_of threads queue found })
    ])

  unfoldable pub make_current_suspend : PThreadManager MT MP → Outcome (PThreadManager MT MP)
  make_current_suspend s = elim s.current [
    | none ↦ returned s
    | some id ↦ (do
      tm ← expect s.thread_manager
      returned (record s { thread_manager = some (queue.add id tm); current = none }))
  ]

  unfoldable pub make_current_blocked : PThreadManager MT MP → PThreadManager MT MP
  make_current_blocked s = record s { current = none }

  unfoldable pub del_proc : ℕ → ℕ → PThreadManager MT MP → Outcome (PThreadManager MT MP)
  del_proc id exit_code s = do
    pm ← expect s.proc_manager
    returned (record s {
      proc_manager = some (procs.delete id pm);
      tid2pid = forget_threads (threads_in (lookup id s.relations)) s.tid2pid;
      relations = leave_proc id exit_code s.relations;
    })

  -- The body of `make_current_exited` for the current thread `tid`.
  unfoldable pub exit_thread : ℕ → ℕ → PThreadManager MT MP → Outcome (PThreadManager MT MP)
  exit_thread tid exit_code s = do
    pid ← expect (lookup tid s.tid2pid)
    tm ← expect s.thread_manager
    rel ← expect (lookup pid s.relations)
    let s' = record s {
      thread_manager = some (threads.delete tid tm);
      relations = modify pid (del_thread tid exit_code) s.relations;
      current = none;
    }
    if length (del_thread tid exit_code rel).threads == 0
        then del_proc pid exit_code s'
        else returned s'

  unfoldable pub make_current_exited : ℕ → PThreadManager MT MP → Outcome (PThreadManager MT MP)
  make_current_exited exit_code s = elim s.current [
    | none ↦ returned s
    | some tid ↦ exit_thread tid exit_code s
  ]

  unfoldable pub re_enque : ℕ → PThreadManager MT MP → Outcome (PThreadManager MT MP)
  re_enque id s = do
    tm ← expect s.thread_manager
    returned (record s { thread_manager = some (queue.add id tm) })

  unfoldable pub get_task : ℕ → PThreadManager MT MP → Outcome (Option T)
  get_task id s = do tm ← expect s.thread_manager; returned (threads.get_mut id tm)

  unfoldable pub get_proc : ℕ → PThreadManager MT MP → Outcome (Option P)
  get_proc id s = do pm ← expect s.proc_manager; returned (procs.get_mut id pm)

  unfoldable pub current : PThreadManager MT MP → Outcome (Option T)
  current s = elim s.current [ none ↦ returned none | some tid ↦ get_task tid s ]

  unfoldable pub get_current_proc : PThreadManager MT MP → Outcome (Option P)
  get_current_proc s = elim s.current [
    | none ↦ returned none
    | some tid ↦ elim (lookup tid s.tid2pid) [ none ↦ returned none | some pid ↦ get_proc pid s ]
  ]

-- The relation entry of the current thread's process, and its identifier.
unfoldable pub current_rel : {MT MP : Type 0} → PThreadManager MT MP → Option (ℕ × ProcThreadRel)
current_rel s = elim s.current [
  | none ↦ none
  | some tid ↦ elim (lookup tid s.tid2pid) [
    | none ↦ none
    | some pid ↦ elim (lookup pid s.relations) [ none ↦ none | some rel ↦ some (pid, rel) ]
  ]
]

unfoldable pub wait :
    {MT MP : Type 0} → ℕ → PThreadManager MT MP → Option (ℕ × ℕ) × PThreadManager MT MP
wait child_pid s = elim (current_rel s) [
  | none ↦ (none, s)
  | some (pid, rel) ↦
      (let (found, rel') =
          if child_pid == usize_max
          then wait_family wait_any_child rel
          else wait_family (wait_child child_pid) rel in
        (found, record s { relations = modify pid (λ _. rel') s.relations }))
]

unfoldable pub waittid :
    {MT MP : Type 0} → ℕ → PThreadManager MT MP → Option ℕ × PThreadManager MT MP
waittid tid s = elim (current_rel s) [
  | none ↦ (none, s)
  | some (pid, rel) ↦
      (let (found, rel') = wait_thread tid rel in
        (found, record s { relations = modify pid (λ _. rel') s.relations }))
]

unfoldable pub thread_count : {MT MP : Type 0} → ℕ → PThreadManager MT MP → ℕ
thread_count id s = elim (lookup id s.relations) [ none ↦ 0 | some r ↦ length r.threads ]
