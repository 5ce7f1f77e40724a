-- ===== src/Kernel/Calls/Threads.antt =====
-- ch8/src/main.rs: the calls of the traits `Thread`, `Scheduling` and `Clock`.
use spec_to_rust_os.Prelude.{
  ℕ, ◌*◌, ◌/◌, ◌%◌, ◌^◌, Option, none, some, List, ◌++◌, ◌==◌, if◌then◌else◌,
}
use spec_to_rust_os.Prelude.Panic.{Outcome, returned}
use spec_to_rust_os.EasyFs.Disk.{word_bytes}
use spec_to_rust_os.KernelContext.{a_mut}
use spec_to_rust_os.TaskManage.PThreadManager.{waittid}
use spec_to_rust_os.Kernel.Vm.{Vm}
use spec_to_rust_os.Kernel.Memory.{write_user_bytes}
use spec_to_rust_os.Kernel.Process.{Process, alloc_thread_stack, add_waittid_waiter}
use spec_to_rust_os.Kernel.Spawn.{fresh, satp_of, start_context}
use spec_to_rust_os.Kernel.State as State
use spec_to_rust_os.Kernel.State.{
  Kernel, Processor, minus_one, minus_two, blocked_return, put_proc, make_current_suspend,
}
use spec_to_rust_os.Kernel.Calls.{
  Call, handler, ◌>>=◌, ◌>>◌, give, leave, some_or_fail, read_from, ask, change, processor, process,
  on_it, user_space, current_tid, current_pid,
}

abbrev pub or_minus_one : Option ℕ → ℕ
or_minus_one none = minus_one
or_minus_one (some n) = n

abbrev pub clock_monotonic : ℕ
clock_monotonic = 1

abbrev pub clock_freq : ℕ
clock_freq = 10000000

-- The bytes of the `TimeSpec` of the ticks.
unfoldable pub time_spec : ℕ → List ℕ
time_spec ticks =
    word_bytes 8 (ticks / clock_freq)
    ++ word_bytes 8 (((ticks % clock_freq * 1000000000) % 2 ^ 64) / clock_freq)

module _ {S Sp Mem : Type 0} where
  -- The counter of thread identifiers.
  abbrev pub new_tid : Call (Kernel S Sp Mem) ℕ
  new_tid = do
    n ← read_from (λ k. k.next_tid)
    change (λ k. returned (record k { next_tid = (fresh n).1 }))
    give (fresh n).0

  -- The search for a slot always ends, so the case of no fuel does not arise.
  abbrev stack_given :
      ℕ → Option (Option ℕ × Process S Sp × Mem) → Call (Kernel S Sp Mem) (Option ℕ × Process S Sp)
  stack_given pid none = leave minus_one
  stack_given pid (some (top, p, mem)) = do
    on_it (λ s. returned (put_proc pid p s))
    change (λ k. returned (record k { mem = mem }))
    give (top, p)

  unfoldable pub thread_create : Vm Sp Mem → ℕ → ℕ → Kernel S Sp Mem → Outcome (ℕ × Kernel S Sp Mem)
  thread_create vm entry arg = handler (do
    _ ← processor
    pid ← current_pid
    tid ← new_tid
    p ← process pid
    mem ← read_from (λ k. k.mem)
    (top, p') ← stack_given pid (alloc_thread_stack vm tid p mem)
    stack_top ← some_or_fail top
    c ← ask (λ k. start_context entry stack_top (satp_of vm p'.space))
    context ← ask (λ k. a_mut 0 arg c.context)
    on_it (
        State.add tid (record { tid = tid; pid = pid; context = record c { context = context } })
          pid)
    give tid)

  abbrev pub gettid : Kernel S Sp Mem → ℕ
  gettid k = or_minus_one k.current_tid

  -- The answers of the manager: none, the status of a thread that still runs, or the exit code.
  abbrev answer : ℕ → ℕ → ℕ → Option ℕ → Call (Kernel S Sp Mem) ℕ
  answer self_pid self_tid target none = give minus_one
  answer self_pid self_tid target (some code) =
      if code == minus_two
      then (do
        p ← process self_pid
        on_it (λ s. returned (put_proc self_pid (add_waittid_waiter target self_tid p) s))
        give blocked_return)
      else give code

  abbrev reaped : ℕ → Call (Kernel S Sp Mem) (Option ℕ)
  reaped target = do
    s ← processor
    on_it (λ s. returned (waittid target s).1)
    give (waittid target s).0

  unfoldable pub waittid_call : ℕ → Kernel S Sp Mem → Outcome (ℕ × Kernel S Sp Mem)
  waittid_call target = handler (do
    self_tid ← current_tid
    self_pid ← current_pid
    _ ← (if target == self_tid then leave minus_one else give tt)
    code ← reaped target
    answer self_pid self_tid target code)

  unfoldable pub sched_yield : Kernel S Sp Mem → Outcome (ℕ × Kernel S Sp Mem)
  sched_yield = handler (do _ ← processor; on_it make_current_suspend; give 0)

  -- `ticks` is the time register.
  unfoldable pub clock_gettime :
      Vm Sp Mem → ℕ → ℕ → ℕ → Kernel S Sp Mem → Outcome (ℕ × Kernel S Sp Mem)
  clock_gettime vm ticks clock_id tp = handler (do
    _ ← (if clock_id == clock_monotonic then give tt else leave minus_one)
    space ← user_space
    mem ← read_from (λ k. k.mem)
    let (ok, mem') = write_user_bytes vm space tp (time_spec ticks) mem
    change (λ k. returned (record k { mem = mem' }))
    give (if ok then 0 else minus_one))
