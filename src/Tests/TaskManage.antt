-- ===== src/Tests/TaskManage.antt =====
-- The theorems about task-manage/src/lib.rs at concrete inputs, over the managers of chapter 8.
use spec_to_rust_os.Prelude.{
  ◌≡◌, ◌≢◌, refl, true, false, none, some, [], ◌∷◌, ◌++◌, arith, ℕ, if◌then◌else◌, ◌==◌, ◌||◌,
}
use spec_to_rust_os.Prelude.Map.{Map, lookup}
use spec_to_rust_os.Prelude.Distinct.{contains}
use spec_to_rust_os.Prelude.Panic.{returned, ◌>>=◌}
use spec_to_rust_os.TaskManage.ProcRel.{ProcRel, del_child, wait_child}
use spec_to_rust_os.TaskManage.ProcRel.Status.{
  IsValid, status, after_death, collected, reply, status-del_child, wait_child_lem,
}
use spec_to_rust_os.TaskManage.ProcThreadRel.{
  ProcThreadRel, del_thread, wait_thread, wait_thread_ambiguous,
}
use spec_to_rust_os.TaskManage.ProcRel.{minus_two}
use spec_to_rust_os.TaskManage.PManager.{
  PManager, find_next, make_current_suspend, make_current_exited, id_of, enter,
}
use spec_to_rust_os.TaskManage.PManager.Scheduling.{
  first_live, behind, find_next_lem, find_next-make_current_suspend,
}
use spec_to_rust_os.TaskManage.PManager.Family.{
  IsTree, children_of, parent_of, dead_of, enter-IsTree,
}
use spec_to_rust_os.TaskManage.PManager.Exit.{make_current_exited_lem}
use spec_to_rust_os.TaskManage.PThreadManager as Threads
use spec_to_rust_os.TaskManage.PThreadManager.{PThreadManager}
use spec_to_rust_os.TaskManage.PThreadManager.Consistency.{Owned}
use spec_to_rust_os.TaskManage.PThreadManager.ProcessExit.{ProcessAfter}
use spec_to_rust_os.TaskManage.PThreadManager.Exit.{make_current_exited-Owned}
use spec_to_rust_os.Kernel.Managers.{
  ThreadManager, proc_manager, thread_manager, thread_schedule, thread_manager-IsStore,
  thread_manager-IsQueue,
}

-- 4 lives, 5 died with code 9
abbrev parent : ProcRel
parent = record { parent = 0; children = 4 ∷ []; dead_children = (5, 9) ∷ [] }

parent-IsValid : IsValid parent
unfolding contains lookup
parent-IsValid = record {
  children = (refl, tt);
  dead_children = (refl, tt);
  apart = λ c h. ground arith;
}

status-del_child_example :
    IsValid (del_child 4 1 parent)
    × ((j : ℕ)
        → status (del_child 4 1 parent) j
          ≡ (if 4 == j then after_death 1 (status parent j) else status parent j))
status-del_child_example = status-del_child 4 1 parent parent-IsValid

wait_child_lem_example :
    ((wait_child 5 parent).0 ≡ reply 5 (status parent 5))
    × IsValid (wait_child 5 parent).1
    × ((j : ℕ)
        → status (wait_child 5 parent).1 j
          ≡ (if 5 == j then collected (status parent j) else status parent j))
wait_child_lem_example = wait_child_lem 5 parent parent-IsValid

abbrev threads : ProcThreadRel
threads = record { family = parent; threads = 7 ∷ []; dead_threads = [] }

wait_thread_ambiguous_example :
    let (first, r') = wait_thread 7 (del_thread 7 minus_two threads) in
    (first ≡ some minus_two)
    × (first ≡ (wait_thread 7 threads).0)
    × (contains r'.threads 7 ≡ false)
    × (lookup 7 r'.dead_threads ≡ none)
    × ((wait_thread 7 r').0 ≡ none)
unfolding contains lookup
wait_thread_ambiguous_example = wait_thread_ambiguous 7 threads refl refl (refl, tt) tt

-- Tasks 2 and 3, with the stale identifier 1 in front of them.
abbrev tasks : ThreadManager ℕ
tasks = record { store = (2, 20) ∷ (3, 30) ∷ []; ready = 1 ∷ 3 ∷ [] }

abbrev procs : PManager (ThreadManager ℕ)
procs = record {
  manager = some tasks;
  relations =
      (0, record { parent = 0; children = 2 ∷ []; dead_children = [] })
      ∷ (2, record { parent = 0; children = 3 ∷ []; dead_children = [] })
      ∷ (3, record { parent = 2; children = []; dead_children = [] })
      ∷ [];
  current = some 2;
}

find_next_lem_example :
    let found = first_live (λ i. lookup i tasks.store) (1 ∷ 3 ∷ []) in
    (m' : ThreadManager ℕ) × (find_next (thread_manager ℕ) (thread_schedule ℕ) 3 procs
      ≡ returned (
          some (
            found,
            record procs {
              manager = some m';
              current = id_of (thread_manager ℕ) (thread_schedule ℕ) found;
            },
          )))
    × (m'.ready ≡ behind (λ i. lookup i tasks.store) (1 ∷ 3 ∷ []))
    × ((j : ℕ) → lookup j m'.store ≡ lookup j tasks.store)
find_next_lem_example =
    find_next_lem (thread_manager ℕ) (thread_schedule ℕ) (thread_manager-IsQueue ℕ) 3 procs tasks
      refl (omega arith)

find_next-make_current_suspend_example :
    let found = first_live (λ i. lookup i tasks.store) (1 ∷ 3 ∷ 2 ∷ []) in
    (m' : ThreadManager ℕ) × ((make_current_suspend (thread_manager ℕ) (thread_schedule ℕ) procs
        >>= find_next (thread_manager ℕ) (thread_schedule ℕ) 4)
      ≡ returned (
          some (
            found,
            record procs {
              manager = some m';
              current = id_of (thread_manager ℕ) (thread_schedule ℕ) found;
            },
          )))
    × (m'.ready ≡ behind (λ i. lookup i tasks.store) (1 ∷ 3 ∷ 2 ∷ []))
find_next-make_current_suspend_example =
    find_next-make_current_suspend (thread_manager ℕ) (thread_schedule ℕ) (thread_manager-IsQueue ℕ)
      4 2 procs tasks refl refl (omega arith)

procs-IsTree : IsTree procs.relations
unfolding contains lookup
procs-IsTree = record { up = λ p c h. ground arith }

enter-IsTree_example :
    let rels' = enter 8 3 procs.relations in
    IsTree rels'
    × (parent_of rels' 8 ≡ some 3)
    × (contains (children_of rels' 3) 8 ≡ true)
    × ((p c : ℕ)
        → contains (children_of rels' p) c
          ≡ (contains (children_of procs.relations p) c || (if 3 == p then 8 == c else false)))
    × ((c q : ℕ) → parent_of procs.relations c ≡ some q → parent_of rels' c ≡ some q)
    × ((p : ℕ) → dead_of rels' p ≡ dead_of procs.relations p)
unfolding lookup
enter-IsTree_example = enter-IsTree 8 3 procs.relations refl procs-IsTree

make_current_exited_lem_example :
    (p' : PManager (ThreadManager ℕ)) × (make_current_exited
        (thread_manager ℕ)
        (thread_schedule ℕ)
        6
        procs
      ≡ returned p')
    × (p'.manager ≡ some ((thread_manager ℕ).delete 2 tasks))
    × (p'.current ≡ none)
    × IsTree p'.relations
    × ((c : ℕ)
        → c ≢ 2
        → contains (3 ∷ []) c ≡ true
        → (parent_of p'.relations c ≡ some 0) × (contains (children_of p'.relations 0) c ≡ true))
    × (contains (children_of procs.relations 0) 2 ≡ true
        → dead_of p'.relations 0 ≡ dead_of procs.relations 0 ++ (2, 6) ∷ [])
unfolding lookup
make_current_exited_lem_example =
    make_current_exited_lem (thread_manager ℕ) (thread_schedule ℕ) 6 2 0 procs tasks
      (record { parent = 0; children = 3 ∷ []; dead_children = [] }) refl refl refl procs-IsTree
      (omega arith) refl

-- Process 1 with the threads 2, which runs, and 3.
abbrev system : PThreadManager (ThreadManager ℕ) (Map ℕ)
system = record {
  thread_manager = some tasks;
  proc_manager = some ((1, 10) ∷ []);
  relations =
      (
        1,
        record {
          family = record { parent = 0; children = []; dead_children = [] };
          threads = 2 ∷ 3 ∷ [];
          dead_threads = [];
        },
      )
      ∷ [];
  tid2pid = (2, 1) ∷ (3, 1) ∷ [];
  current = some 2;
}

system-Owned : Owned (λ i. lookup i tasks.store) system.tid2pid system.relations
unfolding contains lookup
system-Owned = record { owner = λ tid t e. (1, ground arith, ground arith) }

make_current_exited-Owned_example :
    (pid : ℕ) × (rel : ProcThreadRel) × (s' : PThreadManager (ThreadManager ℕ) (Map ℕ)) × (lookup 2
        system.tid2pid
      ≡ some pid)
    × (lookup pid system.relations ≡ some rel)
    × (Threads.make_current_exited (thread_manager ℕ) (thread_schedule ℕ) (proc_manager ℕ) 4 system
        ≡ returned s')
    × (s'.thread_manager ≡ some ((thread_manager ℕ).delete 2 tasks))
    × (s'.current ≡ none)
    × (s'.tid2pid ≡ system.tid2pid)
    × ProcessAfter 2 pid 4 rel
        ((proc_manager ℕ).delete pid ((1, 10) ∷ []))
        ((1, 10) ∷ [])
        system.relations
        s'.proc_manager
        s'.relations
    × Owned
        (λ i. (thread_manager ℕ).get_mut i ((thread_manager ℕ).delete 2 tasks))
        s'.tid2pid
        s'.relations
unfolding lookup
make_current_exited-Owned_example =
    make_current_exited-Owned (thread_manager ℕ) (thread_schedule ℕ) (proc_manager ℕ)
      (thread_manager-IsStore ℕ) 4 2 20 system tasks ((1, 10) ∷ []) refl refl refl refl system-Owned
