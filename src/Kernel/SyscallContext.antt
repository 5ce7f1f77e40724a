-- ===== src/Kernel/SyscallContext.antt =====
-- ch8/src/main.rs: `SyscallContext`, which implements the traits of the system calls.
use spec_to_rust_os.Prelude.{ℕ, Bool, Option, some, List}
use spec_to_rust_os.Prelude.Panic.{Outcome, returned}
use spec_to_rust_os.Syscall.{Handlers}
use spec_to_rust_os.Kernel.Vm.{Vm}
use spec_to_rust_os.Kernel.Fs.{Directory}
use spec_to_rust_os.Kernel.Elf.{ElfFile}
use spec_to_rust_os.Kernel.State.{Kernel}
use spec_to_rust_os.Kernel.Calls.Files as Files
use spec_to_rust_os.Kernel.Calls.Processes as Processes
use spec_to_rust_os.Kernel.Calls.Signals as Signals
use spec_to_rust_os.Kernel.Calls.Sync as Sync
use spec_to_rust_os.Kernel.Calls.Threads as Calls

-- A call answers, panics, or waits (none).
abbrev pub Answer : Type 0 → Type 0
Answer K = K → Option (Outcome (ℕ × K))

abbrev at_once : {K : Type 0} → (K → Outcome (ℕ × K)) → Answer K
at_once f k = some (f k)

abbrev only : {K : Type 0} → (K → ℕ) → Answer K
only f k = some (returned (f k, k))

-- What the machine and the libraries outside the repository give: the test of UTF-8, the parser of ELF
-- files, and the time register.
pub record Surroundings : Type 0 where
  pub is_utf8 : List ℕ → Bool
  pub parse : List ℕ → Option ElfFile
  pub ticks : ℕ

module _ {S Sp Mem : Type 0} (fuel : ℕ) (vm : Vm Sp Mem) (root : Directory S)
    (given : Surroundings) where
  unfoldable pub syscall_context : Handlers (Answer (Kernel S Sp Mem))
  syscall_context = record {
    io = some (record {
      read = λ fd buf count. Files.read vm fd buf count;
      write = λ fd buf count. at_once (Files.write vm fd buf count);
      open_file = λ path flags. at_once (Files.open_call vm root given.is_utf8 path flags);
      close = λ fd. at_once (Files.close fd);
    });
    process = some (record {
      fork = at_once (Processes.fork vm);
      exec = λ path. Processes.exec fuel vm root given.is_utf8 given.parse path;
      exit = λ exit_code. only (λ k. Processes.exit exit_code);
      wait = λ ptr. at_once (Processes.wait_call vm ptr);
      waitpid = λ pid ptr. at_once (Processes.waitpid vm pid ptr);
      getpid = only Processes.getpid;
    });
    scheduling = some (record { sched_yield = at_once Calls.sched_yield });
    clock =
        some
          (record { clock_gettime = λ id tp. at_once (Calls.clock_gettime vm given.ticks id tp) });
    signal = some (record {
      kill = λ pid signum. at_once (Signals.kill pid signum);
      sigaction = λ signum action old. at_once (Signals.sigaction vm signum action old);
      sigprocmask = λ mask. at_once (Signals.sigprocmask mask);
      sigreturn = at_once Signals.sigreturn;
    });
    thread = some (record {
      thread_create = λ entry arg. at_once (Calls.thread_create vm entry arg);
      gettid = only Calls.gettid;
      waittid = λ tid. at_once (Calls.waittid_call tid);
    });
    sync_mutex = some (record {
      semaphore_create = λ res_count. at_once (Sync.semaphore_create res_count);
      semaphore_up = λ sem_id. at_once (Sync.semaphore_up sem_id);
      semaphore_down = λ sem_id. at_once (Sync.semaphore_down sem_id);
      mutex_create = λ blocking. at_once (Sync.mutex_create blocking);
      mutex_lock = λ mutex_id. at_once (Sync.mutex_lock mutex_id);
      mutex_unlock = λ mutex_id. at_once (Sync.mutex_unlock mutex_id);
      condvar_create = at_once Sync.condvar_create;
      condvar_signal = λ condvar_id. at_once (Sync.condvar_signal condvar_id);
      condvar_wait = λ condvar_id mutex_id. at_once (Sync.condvar_wait condvar_id mutex_id);
    });
  }
