-- ===== src/Tests/Kernel.antt =====
-- Runs of the kernel of ch8/src/main.rs, over a memory that is mapped one to one.
use spec_to_rust_os.Prelude.{
  ℕ, ◌+◌, ◌≡◌, refl, sym, ap, Bool, true, false, Option, none, some, List, [], ◌∷◌, ◌==◌,
  if◌then◌else◌, length, replicate, take, drop, arith,
}
use spec_to_rust_os.Prelude.Map.{Map, lookup}
use spec_to_rust_os.Prelude.Panic.{Outcome, returned}
use spec_to_rust_os.KernelContext as Context
use spec_to_rust_os.Sync.Cell
use spec_to_rust_os.Sync.Cell.{IntrState, IsMasked}
use spec_to_rust_os.Sync.Cell.Session.{after_session}
use spec_to_rust_os.Sync.Mutex.{lock_inner}
use spec_to_rust_os.EasyFs.File.{Inode, FileHandle}
use spec_to_rust_os.Signal.State as Signals
use spec_to_rust_os.Signal.State.Soundness.{new-IsSound}
use spec_to_rust_os.TaskManage.ProcThreadRel.{ProcThreadRel}
use spec_to_rust_os.Kernel.Managers.{ThreadManager}
use spec_to_rust_os.Kernel.Vm.{Vm, IsMemory}
use spec_to_rust_os.Kernel.Process.{Thread, Process, alloc_thread_stack, alloc_fd, clone_fd_table}
use spec_to_rust_os.Kernel.Process.Stacks.{SlotsApart, StackGiven, alloc_thread_stack-StackGiven}
use spec_to_rust_os.Kernel.Process.Tables.{clone_fd_table_lem}
use spec_to_rust_os.Kernel.Process.Descriptors.{HasStdio, Opened, alloc_fd-Opened}
use spec_to_rust_os.Kernel.State.{Kernel, Processor}
use spec_to_rust_os.Kernel.Wake.Waiters.{AllRegs, with_threads, regs_of}
use spec_to_rust_os.Kernel.Wake.Exit.{with_procs, with_processor}
use spec_to_rust_os.Kernel.Memory.{
  read_user_bytes, write_user_bytes, Mapped, read_user_bytes-write_user_bytes,
}
use spec_to_rust_os.Kernel.Calls.Sync.{condvar_signal}
use spec_to_rust_os.Kernel.Calls.Sync.Signals.{signalled_process, condvar_signal_lem}
use spec_to_rust_os.Kernel.Calls.Machine.{machine, woken}
use spec_to_rust_os.Syscall.{SyscallResult, done}
use spec_to_rust_os.Kernel.SyscallContext.{Answer}
use spec_to_rust_os.Kernel.Loop.{answer_call}
use spec_to_rust_os.Kernel.Loop.Decided.{way}
use spec_to_rust_os.Kernel.Loop.Leaving.{Settled}
use spec_to_rust_os.Kernel.Loop.Answered.{called, thread_after, answer_call-Settled}

abbrev Memory : Type 0
Memory = ℕ → ℕ

abbrev put : ℕ → ℕ → Memory → Memory
put p v m = λ q. if p == q then v else m q

-- One page table, which maps every address to itself.
abbrev flat : Vm ℕ Memory
flat = record {
  new = λ m. (0, m);
  map = λ a b content offset flags space m. (space, m);
  translate = λ space address flags. some address;
  cloneself = λ space empty m. (space, m);
  copy_leaf_pte_from = λ src vpn space. space;
  free_allocated_pages_and_root = λ vpn space m. m;
  root_ppn = λ space. space;
  vaddr = λ x. x;
  load = λ p m. m p;
  store = put;
}

abbrev flat-IsMemory : IsMemory flat
flat-IsMemory = record { load-store = λ p q v m. refl }

abbrev zeros : Memory
zeros = λ p. 0

-- Memory

flat-Mapped : Mapped flat 0 100 2 (λ i. 100 + i)
flat-Mapped = record {
  readable = λ i h. ground arith;
  writable = λ i h. ground arith;
  apart = λ i j h g e. omega arith;
}

read_user_bytes-write_user_bytes_example :
    ((write_user_bytes flat 0 100 (7 ∷ 8 ∷ []) zeros).0 ≡ true)
    × (read_user_bytes flat 0 100 2 (write_user_bytes flat 0 100 (7 ∷ 8 ∷ []) zeros).1
        ≡ some (7 ∷ 8 ∷ []))
read_user_bytes-write_user_bytes_example =
    read_user_bytes-write_user_bytes flat 0 100 flat-IsMemory (7 ∷ 8 ∷ []) (λ i. 100 + i) zeros
      flat-Mapped

-- Files

abbrev whole_file : Inode (List ℕ)
whole_file = record {
  read_at = λ s offset n. take n (drop offset s);
  write_at = λ s offset bytes. (0, s);
  clear = λ s. [];
  readdir = λ s. [];
}

abbrev some_bytes : List ℕ
some_bytes = 7 ∷ 8 ∷ []

abbrev file : FileHandle (List ℕ)
file = record { inode = some whole_file; readable = true; writable = false; offset = 1 }

-- Descriptor 3 was closed, and descriptor 4 is open.
abbrev table : List (Option (FileHandle (List ℕ)))
table = some file ∷ some file ∷ some file ∷ none ∷ some file ∷ []

clone_fd_table_lem_example : clone_fd_table table ≡ table
clone_fd_table_lem_example = clone_fd_table_lem table

-- Threads 1 and 2 have stacks, 2 waits for 1 to exit, and 3 for a condition variable with mutex 0.
abbrev process : Process (List ℕ) ℕ
process = record {
  pid = 5;
  space = 0;
  fd_table = table;
  signal = Signals.new;
  thread_stacks = (1, 0) ∷ (2, 1) ∷ [];
  waittid_waiters = (1, 2 ∷ []) ∷ [];
  condvar_wait_mutex = (3, 0) ∷ [];
  semaphores = [];
  mutexes = some (Cell.new (record { locked = false; waiting = [] })) ∷ [];
  condvars = Cell.new (3 ∷ []) ∷ [];
}

process-HasStdio : HasStdio process
process-HasStdio = omega arith

alloc_fd-Opened_example : Opened (alloc_fd file process).0 file process (alloc_fd file process).1
alloc_fd-Opened_example = alloc_fd-Opened file process process-HasStdio

process-SlotsApart : SlotsApart process
unfolding lookup
process-SlotsApart = record {
  above_zero = λ t s h. ground arith;
  apart = λ t u s h g. ground arith;
}

alloc_thread_stack-StackGiven_example :
    StackGiven flat 3 process zeros (alloc_thread_stack flat 3 process zeros)
alloc_thread_stack-StackGiven_example =
    alloc_thread_stack-StackGiven flat 3 process zeros process-SlotsApart (omega arith)

-- Threads

abbrev thread : ℕ → Thread
thread tid = record {
  tid = tid;
  pid = 5;
  context = record {
    context = record { regs = replicate 31 0; sepc = 0; supervisor = false; interrupt = true };
    satp = 0;
  };
}

abbrev threads : ThreadManager Thread
threads = record { store = (1, thread 1) ∷ (2, thread 2) ∷ (3, thread 3) ∷ []; ready = [] }

abbrev processes : Map (Process (List ℕ) ℕ)
processes = (5, process) ∷ []

abbrev relation : ProcThreadRel
relation = record {
  family = record { parent = 0; children = []; dead_children = [] };
  threads = 1 ∷ 2 ∷ 3 ∷ [];
  dead_threads = [];
}

-- Thread 1 runs.
abbrev processor : Processor (List ℕ) ℕ
processor = record {
  thread_manager = none;
  proc_manager = none;
  relations = (5, relation) ∷ [];
  tid2pid = (1, 5) ∷ (2, 5) ∷ (3, 5) ∷ [];
  current = some 1;
}

abbrev kernel : Kernel (List ℕ) ℕ Memory
kernel = record {
  kernel_space = none;
  processor = none;
  current_space = some 5;
  current_pid = some 5;
  current_tid = some 1;
  next_pid = 6;
  next_tid = 4;
  intr = record { nesting = 0; prev_enabled = false; enabled = false };
  mem = zeros;
  files = some_bytes;
  console = [];
  input = [];
}

of_three :
    (a b c : Bool) (t : Thread)
    → (if a
        then some (thread 1)
        else if b
        then some (thread 2)
        else if c
        then some (thread 3)
        else none)
      ≡ some t
    → Context.HasRegs t.context.context
of_three true b c t h = sym (ap (λ o. length (regs_of o)) h)
of_three false true c t h = sym (ap (λ o. length (regs_of o)) h)
of_three false false true t h = sym (ap (λ o. length (regs_of o)) h)
of_three false false false t h = cc

threads-AllRegs : AllRegs threads.store
unfolding lookup
threads-AllRegs j t h = of_three (1 == j) (2 == j) (3 == j) t h

processor-owner : lookup 1 processor.tid2pid ≡ some 5
unfolding lookup
processor-owner = refl

processor-family : lookup 5 processor.relations ≡ some relation
unfolding lookup
processor-family = refl

process-there : lookup 5 processes ≡ some process
unfolding lookup
process-there = refl

thread-there : lookup 3 threads.store ≡ some (thread 3)
unfolding lookup
thread-there = refl

thread_1-there : lookup 1 threads.store ≡ some (thread 1)
unfolding lookup
thread_1-there = refl

recorded : lookup 3 process.condvar_wait_mutex ≡ some 0
unfolding lookup
recorded = refl

kernel-IsMasked : IsMasked kernel.intr
kernel-IsMasked = record { off = λ h. absurd (omega arith) }

-- A write of four bytes that is answered at once.
abbrev written : SyscallResult (Answer (Kernel (List ℕ) ℕ Memory))
written = done (λ k. some (returned (4, k)))

abbrev stopped_in : Kernel (List ℕ) ℕ Memory
stopped_in = with_processor (with_threads threads (with_procs processes processor)) kernel

answer_call-Settled_example :
    (o : Outcome (Kernel (List ℕ) ℕ Memory)) × (answer_call 64 written 5 1 stopped_in ≡ some o)
    × Settled
        (way 64 (some 4))
        1
        (thread_after (way 64 (some 4)) (some 4) (thread 1))
        process.signal
        threads.ready
        kernel
        o
answer_call-Settled_example =
    answer_call-Settled 5 1 relation processor kernel refl processor-owner processor-family 64
      (some 4) written stopped_in process (thread 1) threads processes
      (called (λ k. some (returned (4, k))) 4 refl refl) process-there thread_1-there
      threads-AllRegs new-IsSound

condvar_signal_lem_example :
    (pm' : Map (Process (List ℕ) ℕ)) × (condvar_signal 0
        (machine kernel processor threads processes kernel.intr)
      ≡ returned (
        0,
        machine kernel processor
            (if (lock_inner 3 (record { locked = false; waiting = [] })).0
              then woken 3 0 (thread 3) threads
              else threads)
            pm'
            (after_session (after_session kernel.intr)),
      ))
    × ((j : ℕ)
        → lookup j pm' ≡ (
            if 5 == j
            then some (
                signalled_process 0 0 3 []
                  (lock_inner 3 (record { locked = false; waiting = [] })).1
                  process)
            else lookup j processes))
condvar_signal_lem_example =
    condvar_signal_lem kernel processor 1 5 (record { now = refl; owner = processor-owner }) threads
      processes kernel.intr kernel-IsMasked 0 0 3 [] (record { locked = false; waiting = [] })
      (thread 3) process process-there refl recorded refl thread-there refl
