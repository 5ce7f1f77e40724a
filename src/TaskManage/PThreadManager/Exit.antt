-- ===== src/TaskManage/PThreadManager/Exit.antt =====
-- The exit of a thread: it never hits an `expect`, and the last thread takes the process with it.
use spec_to_rust_os.Prelude.{
  ℕ, ◌≡◌, ◌≢◌, refl, true, Option, none, some, List, [], ◌∷◌, inl, inr, ◌==◌, if◌then◌else◌, length,
  Option-cases, Bool-cases, ==_iff, arith,
}
use spec_to_rust_os.Prelude.Map.{Map, lookup, modify, lookup-modify}
use spec_to_rust_os.Prelude.Distinct.{contains}
use spec_to_rust_os.Prelude.Panic.{returned}
use spec_to_rust_os.TaskManage.Interface.{Manage, Schedule, IsStore}
use spec_to_rust_os.TaskManage.ProcThreadRel.{ProcThreadRel, del_thread}
use spec_to_rust_os.TaskManage.PThreadManager.{
  PThreadManager, forget_threads, del_proc, exit_thread, make_current_exited,
}
use spec_to_rust_os.TaskManage.PThreadManager.ProcessExit.{after_exit, ProcessAfter, process_lem}
use spec_to_rust_os.TaskManage.PThreadManager.Consistency.{
  threads_of, Owned, threads-del_thread, threads-leave_proc,
}

not-contains-of-length : (l : List ℕ) (j : ℕ) → length l ≡ 0 → contains l j ≡ true → ⊥
unfolding contains
not-contains-of-length [] j e h = cc
not-contains-of-length (x ∷ xs) j e h = absurd (omega arith)

contains_nil : (j : ℕ) → contains [] j ≡ true → ⊥
unfolding contains
contains_nil j h = cc

forget_none : (l : List ℕ) (m : Map ℕ) → length l ≡ 0 → forget_threads l m ≡ m
unfolding forget_threads
forget_none [] m h = refl
forget_none (x ∷ xs) m h = absurd (omega arith)

after_exit-keeps :
    (tid pid code q j : ℕ) (rels : Map ProcThreadRel)
    → j ≢ tid
    → contains (threads_of rels q) j ≡ true
    → contains (threads_of (after_exit tid pid code rels) q) j ≡ true
after_exit-keeps tid pid code q j rels other h =
    elim (Bool-cases (length (threads_of (modify pid (del_thread tid code) rels) pid) == 0)) [
      | inl last ↦
          (let rels' = modify pid (del_thread tid code) rels in
            rw last (
              ground (
                arith,
                threads-leave_proc pid code q rels',
                threads-del_thread tid code pid q j rels other h,
                not-contains-of-length (threads_of rels' q) j,
                (==_iff (length (threads_of rels' pid)) 0).0 last,
              )))
      | inr more ↦ rw more (threads-del_thread tid code pid q j rels other h)
    ]

module _ {MT MP T P : Type 0} (threads : Manage MT T) (queue : Schedule MT) (procs : Manage MP P)
    (store : IsStore threads) where
  abbrev get : MT → ℕ → Option T
  get m i = threads.get_mut i m

  exit-Owned :
      (code tid pid : ℕ) (tm : MT) (tids : Map ℕ) (rels : Map ProcThreadRel)
      → Owned (get tm) tids rels
      → Owned (get (threads.delete tid tm)) tids (after_exit tid pid code rels)
  exit-Owned code tid pid tm tids rels o = record {
    owner = λ j t e.
        let other : j ≢ tid = λ same. ground (arith, store.get-delete tid j tm) in
        let (p, at, lists) = o.owner j t (ground (arith, store.get-delete tid j tm)) in
        (p, at, after_exit-keeps tid pid code p j rels other lists);
  }

  -- The state that the exit of thread `tid` of process `pid` leaves.
  abbrev pub exited : ℕ → ℕ → ℕ → MT → MP → PThreadManager MT MP → PThreadManager MT MP
  exited tid pid code tm pm s = record s {
    thread_manager = some (threads.delete tid tm);
    proc_manager = some (
        if length (threads_of (modify pid (del_thread tid code) s.relations) pid) == 0
        then procs.delete pid pm
        else pm);
    relations = after_exit tid pid code s.relations;
    current = none;
  }

  exit_thread_lem :
      (code tid pid : ℕ) (s : PThreadManager MT MP) (tm : MT) (pm : MP) (rel : ProcThreadRel)
      → s.thread_manager ≡ some tm
      → s.proc_manager ≡ some pm
      → lookup tid s.tid2pid ≡ some pid
      → lookup pid s.relations ≡ some rel
      → exit_thread threads queue procs tid code s ≡ returned (exited tid pid code tm pm s)
  unfolding exit_thread del_proc
  exit_thread_lem code tid pid s tm pm rel has_t has_p at e =
      let rels' = modify pid (del_thread tid code) s.relations in
      let same : threads_of rels' pid ≡ (del_thread tid code rel).threads =
        ground (arith, lookup-modify pid pid (del_thread tid code) s.relations) in
      ground (arith, at, e, same, forget_none (threads_of rels' pid) s.tid2pid)

  -- A thread with a task exits: `make_current_exited` returns without a panic, deletes the task and
  -- leaves no thread current. If it was the only thread of its process, the process is deleted, its entry
  -- goes, and its parent hears of its death; otherwise the process stays, with the thread among its dead
  -- ones under the exit code. Every other thread that has a task still belongs to a process that lists it.
  pub make_current_exited-Owned :
      (code tid : ℕ) (task : T) (s : PThreadManager MT MP) (tm : MT) (pm : MP)
      → s.thread_manager ≡ some tm
      → s.proc_manager ≡ some pm
      → s.current ≡ some tid
      → threads.get_mut tid tm ≡ some task
      → Owned (get tm) s.tid2pid s.relations
      → (pid : ℕ) × (rel : ProcThreadRel) × (s' : PThreadManager MT MP) × (lookup tid s.tid2pid
          ≡ some pid)
        × (lookup pid s.relations ≡ some rel)
        × (make_current_exited threads queue procs code s ≡ returned s')
        × (s'.thread_manager ≡ some (threads.delete tid tm))
        × (s'.current ≡ none)
        × (s'.tid2pid ≡ s.tid2pid)
        × ProcessAfter tid pid code rel
            (procs.delete pid pm)
            pm
            s.relations
            s'.proc_manager
            s'.relations
        × Owned (get (threads.delete tid tm)) s'.tid2pid s'.relations
  unfolding make_current_exited
  make_current_exited-Owned code tid task s tm pm has_t has_p runs live o =
      let (pid, at, lists) = o.owner tid task live in
      elim (Option-cases (lookup pid s.relations)) [
        | inl e ↦ absurd (contains_nil tid (rw e at lists))
        | inr (rel, e) ↦ (
          pid,
          rel,
          exited tid pid code tm pm s,
          at,
          e,
          rw (runs, make_current_exited)
              (exit_thread_lem code tid pid s tm pm rel has_t has_p at e),
          refl,
          refl,
          refl,
          process_lem tid pid code rel (procs.delete pid pm) pm s.relations e (rw e at lists),
          exit-Owned code tid pid tm s.tid2pid s.relations o,
        )
      ]
