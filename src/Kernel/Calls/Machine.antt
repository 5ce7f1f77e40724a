-- ===== src/Kernel/Calls/Machine.antt =====
-- ch8/src/main.rs: what the helpers of the handlers do while a thread of an existing process runs.
use spec_to_rust_os.Prelude.{ℕ, ◌≡◌, refl, ap, some, [], ◌∷◌, ◌++◌}
use spec_to_rust_os.Prelude.Map.{Map, lookup, modify}
use spec_to_rust_os.Prelude.Panic.{returned}
use spec_to_rust_os.Sync.Cell.{IntrState}
use spec_to_rust_os.KernelContext.{HasRegs}
use spec_to_rust_os.TaskManage.PThreadManager as Threads
use spec_to_rust_os.Kernel.Managers.{ThreadManager}
use spec_to_rust_os.Kernel.Process.{Thread, Process}
use spec_to_rust_os.Kernel.State.{
  Kernel, Processor, put_proc, put_current_proc, put_owned, owner_pid,
}
use spec_to_rust_os.Kernel.Wake.{wake_thread_with_ret}
use spec_to_rust_os.Kernel.Wake.Waiters.{with_a0, wake_present}
use spec_to_rust_os.Kernel.Calls.{current_process_mut, put_process}

-- The kernel with these threads, processes and interrupt state.
abbrev pub machine :
    {S Sp Mem : Type 0}
    → Kernel S Sp Mem
    → Processor S Sp
    → ThreadManager Thread
    → Map (Process S Sp)
    → IntrState
    → Kernel S Sp Mem
machine k s tm pm i = record k {
  processor = some (record s { thread_manager = some tm; proc_manager = some pm });
  intr = i;
}

-- Thread `cur` of process `pid` runs.
pub record Running {S Sp : Type 0} (cur pid : ℕ) (s : Processor S Sp) : Type 0 where
  pub now : s.current ≡ some cur
  pub owner : lookup cur s.tid2pid ≡ some pid

abbrev pub woken : ℕ → ℕ → Thread → ThreadManager Thread → ThreadManager Thread
woken tid ret t tm = record {
  store = modify tid (λ _. with_a0 ret t) tm.store;
  ready = tm.ready ++ tid ∷ [];
}

owner_pid_lem :
    {S Sp : Type 0} (cur pid : ℕ) (s : Processor S Sp)
    → s.current ≡ some cur
    → lookup cur s.tid2pid ≡ some pid
    → owner_pid s ≡ some pid
unfolding owner_pid
owner_pid_lem cur pid s now owner = rw (owner_pid, now, owner) refl

module _ {S Sp Mem : Type 0} (k : Kernel S Sp Mem) (s : Processor S Sp) (cur pid : ℕ)
    (run : Running cur pid s) (tm : ThreadManager Thread) (pm : Map (Process S Sp))
    (i : IntrState) where
  pub current_lem :
      (p : Process S Sp)
      → lookup pid pm ≡ some p
      → current_process_mut (machine k s tm pm i) ≡ returned (some p)
  unfolding current_process_mut Threads.get_current_proc Threads.get_proc
  current_lem p e = rw (current_process_mut, Threads.get_current_proc, run.now, run.owner, e) refl

  pub put_lem :
      (p : Process S Sp)
      → put_process p (machine k s tm pm i) ≡ machine k s tm (modify pid (λ _. p) pm) i
  unfolding put_process put_current_proc put_proc
  put_lem p =
      let here = record s { thread_manager = some tm; proc_manager = some pm } in
      ap (λ o. record k { processor = some (put_owned o p here); intr = i })
        (owner_pid_lem cur pid here run.now run.owner)

  pub wake_lem :
      (tid ret : ℕ) (t : Thread)
      → lookup tid tm.store ≡ some t
      → HasRegs t.context.context
      → wake_thread_with_ret tid ret (machine k s tm pm i)
        ≡ returned (machine k s (woken tid ret t tm) pm i)
  unfolding wake_thread_with_ret
  wake_lem tid ret t e full =
      rw
        (
          wake_thread_with_ret,
          wake_present tid ret t tm (record s { proc_manager = some pm }) e full,
        )
        refl
