-- ===== src/Kernel/Wake/Exit.antt =====
-- ch8/src/main.rs: `exit_current_thread`, and the threads that wait for the one that exits.
use spec_to_rust_os.Prelude.{
  ℕ, ◌≡◌, ◌≢◌, refl, none, some, List, ◌++◌, ◌==◌, if◌then◌else◌, length, Bool-cases, inl, inr,
  arith,
}
use spec_to_rust_os.Prelude.Map.{
  Map, lookup, modify, remove, lookup-modify, lookup-remove, map_value,
}
use spec_to_rust_os.Prelude.Distinct.{contains}
use spec_to_rust_os.Prelude.Panic.{returned}
use spec_to_rust_os.TaskManage.PThreadManager as Threads
use spec_to_rust_os.TaskManage.ProcThreadRel.{ProcThreadRel, del_thread}
use spec_to_rust_os.Kernel.Managers.{ThreadManager}
use spec_to_rust_os.Kernel.Process.{Thread, Process, take_waittid_waiters, remove_thread_stack}
use spec_to_rust_os.Kernel.State.{Kernel, Processor, put_proc, make_current_exited}
use spec_to_rust_os.Kernel.Wake.{
  take_waiters, wake_waiters, wake_waittid_waiters, forget_stack, exit_thread, exit_current_thread,
}
use spec_to_rust_os.Kernel.Wake.Waiters.{with_threads, with_a0, live, AllRegs, Woken, wake_all_lem}

abbrev pub with_procs : {S Sp : Type 0} → Map (Process S Sp) → Processor S Sp → Processor S Sp
with_procs pm s = record s { proc_manager = some pm }

abbrev pub with_processor : {S Sp Mem : Type 0} → Processor S Sp → Kernel S Sp Mem → Kernel S Sp Mem
with_processor s k = record k { processor = some s }

-- The threads that wait for `tid` in the process.
abbrev pub waiters_of : {S Sp : Type 0} → ℕ → Process S Sp → List ℕ
waiters_of tid p = (take_waittid_waiters tid p).0

module _ {S Sp : Type 0} (pid tid code : ℕ) (p : Process S Sp) where
  abbrev taken : Map (Process S Sp) → Map (Process S Sp)
  taken pm = modify pid (λ _. (take_waittid_waiters tid p).1) pm

  abbrev forgotten : Map (Process S Sp) → Map (Process S Sp)
  forgotten pm = modify pid (λ _. remove_thread_stack tid (take_waittid_waiters tid p).1) (taken pm)

  take_waiters_lem :
      (tm : ThreadManager Thread) (pm : Map (Process S Sp)) (s : Processor S Sp)
      → lookup pid pm ≡ some p
      → take_waiters pid tid (with_threads tm (with_procs pm s))
        ≡ returned (waiters_of tid p, with_threads tm (with_procs (taken pm) s))
  unfolding take_waiters Threads.get_proc put_proc
  take_waiters_lem tm pm s e = rw (take_waiters, e) refl

  forget_stack_lem :
      (tm : ThreadManager Thread) (pm : Map (Process S Sp)) (s : Processor S Sp)
      → lookup pid pm ≡ some p
      → forget_stack pid tid (with_threads tm (with_procs (taken pm) s))
        ≡ returned (with_threads tm (with_procs (forgotten pm) s))
  unfolding forget_stack Threads.get_proc put_proc
  forget_stack_lem tm pm s e =
      let there : lookup pid (taken pm) ≡ some (take_waittid_waiters tid p).1 =
        ground (arith, lookup-modify pid pid (λ _. (take_waittid_waiters tid p).1) pm, e) in
      rw (forget_stack, there) refl

  wake_waiters_lem :
      (tm : ThreadManager Thread) (pm : Map (Process S Sp)) (s : Processor S Sp)
      → lookup pid pm ≡ some p
      → AllRegs tm.store
      → (tm' : ThreadManager Thread) × (wake_waiters pid tid code
            (with_threads tm (with_procs pm s))
          ≡ returned (with_threads tm' (with_procs (taken pm) s)))
        × Woken code (waiters_of tid p) tm tm'
  unfolding wake_waiters
  wake_waiters_lem tm pm s e full =
      let (tm', went, woken) =
        wake_all_lem (waiters_of tid p) code tm (with_procs (taken pm) s) full in
      (tm', rw (wake_waiters, take_waiters_lem tm pm s e) went, woken)

-- The thread leaves the manager, and with the last thread of a process the process.
make_current_exited_lem :
    {S Sp : Type 0} (pid tid code : ℕ) (rel : ProcThreadRel) (tm : ThreadManager Thread)
    (pm : Map (Process S Sp)) (s : Processor S Sp)
    → s.current ≡ some tid
    → lookup tid s.tid2pid ≡ some pid
    → lookup pid s.relations ≡ some rel
    → (s' : Processor S Sp) × (make_current_exited code (with_threads tm (with_procs pm s))
        ≡ returned (with_threads (record tm { store = remove tid tm.store }) s'))
      × (s'.current ≡ none)
unfolding Threads.make_current_exited Threads.exit_thread Threads.del_proc
make_current_exited_lem pid tid code rel tm pm s now owner family =
    let rels = modify pid (del_thread tid code) s.relations in
    elim (Bool-cases (length (del_thread tid code rel).threads == 0)) [
      | inl last ↦ (
        record s {
          proc_manager = some (remove pid pm);
          tid2pid = Threads.forget_threads (Threads.threads_in (lookup pid rels)) s.tid2pid;
          relations = Threads.leave_proc pid code rels;
          current = none;
        },
        rw (Threads.make_current_exited, now, Threads.exit_thread, owner, family, last) refl,
        refl,
      )
      | inr more ↦ (
        record s { proc_manager = some pm; relations = rels; current = none },
        rw (Threads.make_current_exited, now, Threads.exit_thread, owner, family, more) refl,
        refl,
      )
    ]

pub exit_current_thread_lem :
    {S Sp Mem : Type 0} (pid tid code : ℕ) (p : Process S Sp) (rel : ProcThreadRel)
    (tm : ThreadManager Thread) (pm : Map (Process S Sp)) (s : Processor S Sp) (k : Kernel S Sp Mem)
    → s.current ≡ some tid
    → lookup tid s.tid2pid ≡ some pid
    → lookup pid s.relations ≡ some rel
    → lookup pid pm ≡ some p
    → AllRegs tm.store
    → (s' : Processor S Sp) × (tm' : ThreadManager Thread) × (exit_current_thread pid tid code
          (with_processor (with_threads tm (with_procs pm s)) k)
        ≡ returned (with_processor (with_threads tm' s') k))
      × (s'.current ≡ none)
      × (tm'.ready ≡ tm.ready ++ live (waiters_of tid p) tm.store)
      × (lookup tid tm'.store ≡ none)
      × ((j : ℕ)
          → j ≢ tid
          → lookup j tm'.store ≡ (
              if contains (waiters_of tid p) j
              then map_value (with_a0 code) (lookup j tm.store)
              else lookup j tm.store))
unfolding exit_current_thread wake_waittid_waiters exit_thread
exit_current_thread_lem pid tid code p rel tm pm s k now owner family here full =
    let (tm₁, woke, (ready, store)) = wake_waiters_lem pid tid code p tm pm s here full in
    let (s', left, gone) =
      make_current_exited_lem pid tid code rel tm₁ (forgotten pid tid code p pm) s now owner
        family in
    (
      s',
      record tm₁ { store = remove tid tm₁.store },
      rw
          (
            exit_current_thread,
            wake_waittid_waiters,
            woke,
            exit_thread,
            forget_stack_lem pid tid code p tm₁ pm s here,
            left,
          )
          refl,
      gone,
      ready,
      ground (arith, lookup-remove tid tid tm₁.store),
      λ j other. ground (arith, lookup-remove tid j tm₁.store, store j),
    )
