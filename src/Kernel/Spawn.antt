-- ===== src/Kernel/Spawn.antt =====
-- ch8/src/main.rs: the operations of `Process` that make or replace an address space.
use spec_to_rust_os.Prelude.{ℕ, ◌+◌, ◌%◌, ◌^◌, Option, none, some, List, [], ◌==◌, if◌then◌else◌}
use Prim.Native.Nat.{bit_or}
use spec_to_rust_os.Prelude.Map
use spec_to_rust_os.Prelude.Panic.{Outcome, returned, ◌>>=◌}
use spec_to_rust_os.KernelContext
use spec_to_rust_os.KernelContext.{sp_mut}
use spec_to_rust_os.Signal.State as Signals
use spec_to_rust_os.Kernel.Vm.{Vm}
use spec_to_rust_os.Kernel.Elf.{ElfFile, load_user_space_from_elf}
use spec_to_rust_os.Kernel.Process.{
  ForeignContext, Thread, Process, portal_vpn, map_thread_stack, new_stdio_fd_table, clone_fd_table,
}

-- `ProcId::new()` and `ThreadId::new()` on their counter: the identifier, and the counter after it.
abbrev pub fresh : ℕ → ℕ × ℕ
fresh counter = (counter, (counter + 1) % 2 ^ 64)

-- The loop ends in its second round at the latest, since the counter is then 1.
unfoldable pub alloc_pid_nonzero : ℕ → ℕ × ℕ
alloc_pid_nonzero counter =
    let (pid, next) = fresh counter in if pid == 0 then fresh next else (pid, next)

unfoldable pub satp_of : {Sp Mem : Type 0} → Vm Sp Mem → Sp → ℕ
satp_of vm space = bit_or (2 ^ 63) (vm.root_ppn space)

-- The context of a thread that starts at `entry`.
unfoldable pub start_context : ℕ → ℕ → ℕ → Outcome ForeignContext
start_context entry stack_top satp = do
  c ← sp_mut stack_top (KernelContext.user entry)
  returned (record { context = c; satp = satp })

abbrev new_process : {S Sp : Type 0} → ℕ → ℕ → Sp → Process S Sp
new_process pid main_tid space = record {
  pid = pid;
  space = space;
  fd_table = new_stdio_fd_table;
  signal = Signals.new;
  thread_stacks = Map.insert main_tid 0 [];
  waittid_waiters = [];
  condvar_wait_mutex = [];
  semaphores = [];
  mutexes = [];
  condvars = [];
}

abbrev replaced : {S Sp : Type 0} → ℕ → Sp → Process S Sp → Process S Sp
replaced current_tid space p = record p {
  space = space;
  thread_stacks = Map.insert current_tid 0 [];
  waittid_waiters = [];
  condvar_wait_mutex = [];
  semaphores = [];
  mutexes = [];
  condvars = [];
  signal = Signals.clear p.signal;
}

module _ {S Sp Mem : Type 0} (vm : Vm Sp Mem) where
  abbrev started : ℕ → ℕ → ℕ → Option ℕ × Sp × Mem → Outcome (Option (Process S Sp × Thread) × Mem)
  started pid main_tid entry (none, space, mem) = returned (none, mem)
  started pid main_tid entry (some stack_top, space, mem) = do
    c ← start_context entry stack_top (satp_of vm space)
    returned (
      some (new_process pid main_tid space, record { tid = main_tid; pid = pid; context = c }),
      mem,
    )

  unfoldable pub from_elf :
      (List ℕ → Option ElfFile)
      → List ℕ
      → Sp
      → ℕ
      → ℕ
      → Mem
      → Outcome (Option (Process S Sp × Thread) × Mem)
  from_elf parse elf_data kernel_space pid main_tid mem = do
    (found, mem) ← load_user_space_from_elf vm parse elf_data kernel_space mem
    elim found [
      | none ↦ returned (none, mem)
      | some (space, entry) ↦ started pid main_tid entry (map_thread_stack vm 0 space mem)
    ]

  -- The child of a `fork`; its identifier is given.
  unfoldable pub fork_process : Sp → ℕ → Process S Sp → Mem → Process S Sp × Mem
  fork_process kernel_space pid p mem =
      let (empty, mem) = vm.new mem in
      let (space, mem) = vm.cloneself p.space empty mem in
      (
        record {
          pid = pid;
          space = vm.copy_leaf_pte_from kernel_space portal_vpn space;
          fd_table = clone_fd_table p.fd_table;
          signal = Signals.from_fork p.signal;
          thread_stacks = [];
          waittid_waiters = [];
          condvar_wait_mutex = [];
          semaphores = [];
          mutexes = [];
          condvars = [];
        },
        mem,
      )

  abbrev restarted :
      ℕ
      → ℕ
      → Process S Sp
      → Option ℕ × Sp × Mem
      → Outcome (Option ForeignContext × Process S Sp × Mem)
  restarted current_tid entry p (none, space, mem) = returned (none, p, mem)
  restarted current_tid entry p (some stack_top, space, mem) = do
    c ← start_context entry stack_top (satp_of vm space)
    returned (
      some c,
      replaced current_tid space p,
      vm.free_allocated_pages_and_root portal_vpn p.space mem,
    )

  unfoldable pub exec_process :
      (List ℕ → Option ElfFile)
      → ℕ
      → List ℕ
      → Sp
      → Process S Sp
      → Mem
      → Outcome (Option ForeignContext × Process S Sp × Mem)
  exec_process parse current_tid elf_data kernel_space p mem = do
    (found, mem) ← load_user_space_from_elf vm parse elf_data kernel_space mem
    elim found [
      | none ↦ returned (none, p, mem)
      | some (space, entry) ↦ restarted current_tid entry p (map_thread_stack vm 0 space mem)
    ]
