-- ===== src/Syscall.antt =====
-- syscall/src/kernel.rs: the traits that a kernel implements and `handle`, which chooses among them. `C` is the type of what a call does, which answers with an
-- `isize`; the caller is known to the kernel, and left out.
pub mod Numbers
use spec_to_rust_os.Prelude.{
  ℕ, ◌%◌, ◌^◌, Bool, not, Option, none, some, List, ◌==◌, if◌then◌else◌, get_or,
}
use spec_to_rust_os.Syscall.Numbers.{
  read_id, write_id, open_file_id, close_id, fork_id, execve_id, exit_id, wait4_id, getpid_id,
  sched_yield_id, clock_gettime_id, kill_id, sigaction_id, sigprocmask_id, rt_sigreturn_id,
  thread_create_id, gettid_id, waittid_id, semop_id, semget_id, semctl_id, mutex_create_id,
  mutex_lock_id, mutex_unlock_id, condvar_create_id, condvar_signal_id, condvar_wait_id,
}

-- The traits

pub record Io (C : Type 0) : Type 0 where
  pub read : ℕ → ℕ → ℕ → C
  pub write : ℕ → ℕ → ℕ → C
  pub open_file : ℕ → ℕ → C
  pub close : ℕ → C

pub record Process (C : Type 0) : Type 0 where
  pub fork : C
  pub exec : ℕ → C
  pub exit : ℕ → C
  pub wait : ℕ → C
  pub waitpid : ℕ → ℕ → C
  pub getpid : C

pub record Scheduling (C : Type 0) : Type 0 where
  pub sched_yield : C

pub record Clock (C : Type 0) : Type 0 where
  pub clock_gettime : ℕ → ℕ → C

pub record Signal (C : Type 0) : Type 0 where
  pub kill : ℕ → ℕ → C
  pub sigaction : ℕ → ℕ → ℕ → C
  pub sigprocmask : ℕ → C
  pub sigreturn : C

pub record Thread (C : Type 0) : Type 0 where
  pub thread_create : ℕ → ℕ → C
  pub gettid : C
  pub waittid : ℕ → C

pub record SyncMutex (C : Type 0) : Type 0 where
  pub semaphore_create : ℕ → C
  pub semaphore_up : ℕ → C
  pub semaphore_down : ℕ → C
  pub mutex_create : Bool → C
  pub mutex_lock : ℕ → C
  pub mutex_unlock : ℕ → C
  pub condvar_create : C
  pub condvar_signal : ℕ → C
  pub condvar_wait : ℕ → ℕ → C

-- The handlers that have been registered.
pub record Handlers (C : Type 0) : Type 0 where
  pub io : Option (Io C)
  pub process : Option (Process C)
  pub scheduling : Option (Scheduling C)
  pub clock : Option (Clock C)
  pub signal : Option (Signal C)
  pub thread : Option (Thread C)
  pub sync_mutex : Option (SyncMutex C)

pub data SyscallResult (C : Type 0) : Type 0 where
  done : C → SyscallResult C
  unsupported : ℕ → SyscallResult C

abbrev arg : List ℕ → ℕ → ℕ
arg args i = get_or args i 0

-- `if let Some(handler) = HANDLER.get()`
abbrev with_handler : {H C : Type 0} → Option H → ℕ → (H → C) → SyscallResult C
with_handler none id call = unsupported id
with_handler (some h) id call = done (call h)

-- The arms of `handle` for this trait.
abbrev io_call : {C : Type 0} → ℕ → List ℕ → Option (Io C → C)
io_call id args =
    if id == read_id
    then some (λ h. h.read (arg args 0) (arg args 1) (arg args 2))
    else if id == write_id
    then some (λ h. h.write (arg args 0) (arg args 1) (arg args 2))
    else if id == open_file_id
    then some (λ h. h.open_file (arg args 0) (arg args 1 % 2 ^ 32))
    else if id == close_id
    then some (λ h. h.close (arg args 0))
    else none

-- The arms of `handle` for this trait.
abbrev process_call : {C : Type 0} → ℕ → List ℕ → Option (Process C → C)
process_call id args =
    if id == fork_id
    then some (λ h. h.fork)
    else if id == execve_id
    then some (λ h. h.exec (arg args 0))
    else if id == exit_id
    then some (λ h. h.exit (arg args 0 % 2 ^ 32))
    else if id == wait4_id
    then some (λ h. h.waitpid (arg args 0) (arg args 1))
    else if id == getpid_id
    then some (λ h. h.getpid)
    else none

-- The arms of `handle` for this trait.
abbrev scheduling_call : {C : Type 0} → ℕ → List ℕ → Option (Scheduling C → C)
scheduling_call id args = if id == sched_yield_id then some (λ h. h.sched_yield) else none

-- The arms of `handle` for this trait.
abbrev clock_call : {C : Type 0} → ℕ → List ℕ → Option (Clock C → C)
clock_call id args =
    if id == clock_gettime_id then some (λ h. h.clock_gettime (arg args 0) (arg args 1)) else none

-- The arms of `handle` for this trait.
abbrev signal_call : {C : Type 0} → ℕ → List ℕ → Option (Signal C → C)
signal_call id args =
    if id == kill_id
    then some (λ h. h.kill (arg args 0) (arg args 1 % 256))
    else if id == sigaction_id
    then some (λ h. h.sigaction (arg args 0 % 256) (arg args 1) (arg args 2))
    else if id == sigprocmask_id
    then some (λ h. h.sigprocmask (arg args 0))
    else if id == rt_sigreturn_id
    then some (λ h. h.sigreturn)
    else none

-- The arms of `handle` for this trait.
abbrev thread_call : {C : Type 0} → ℕ → List ℕ → Option (Thread C → C)
thread_call id args =
    if id == thread_create_id
    then some (λ h. h.thread_create (arg args 0) (arg args 1))
    else if id == gettid_id
    then some (λ h. h.gettid)
    else if id == waittid_id
    then some (λ h. h.waittid (arg args 0))
    else none

-- The arms of `handle` for this trait.
abbrev sync_mutex_call : {C : Type 0} → ℕ → List ℕ → Option (SyncMutex C → C)
sync_mutex_call id args =
    if id == semop_id
    then some (λ h. h.semaphore_down (arg args 0))
    else if id == semget_id
    then some (λ h. h.semaphore_create (arg args 0))
    else if id == semctl_id
    then some (λ h. h.semaphore_up (arg args 0))
    else if id == mutex_create_id
    then some (λ h. h.mutex_create (not (arg args 0 == 0)))
    else if id == mutex_lock_id
    then some (λ h. h.mutex_lock (arg args 0))
    else if id == mutex_unlock_id
    then some (λ h. h.mutex_unlock (arg args 0))
    else if id == condvar_create_id
    then some (λ h. h.condvar_create)
    else if id == condvar_signal_id
    then some (λ h. h.condvar_signal (arg args 0))
    else if id == condvar_wait_id
    then some (λ h. h.condvar_wait (arg args 0) (arg args 1))
    else none

abbrev or_else : {C : Type 0} → Option (SyscallResult C) → SyscallResult C → SyscallResult C
or_else none r = r
or_else (some s) r = s

abbrev arm : {H C : Type 0} → Option H → ℕ → Option (H → C) → Option (SyscallResult C)
arm h id none = none
arm h id (some call) = some (with_handler h id call)

unfoldable pub handle : {C : Type 0} → Handlers C → ℕ → List ℕ → SyscallResult C
handle handlers id args = or_else (arm handlers.io id (io_call id args)) (
    or_else (arm handlers.process id (process_call id args)) (
      or_else (arm handlers.scheduling id (scheduling_call id args)) (
        or_else (arm handlers.clock id (clock_call id args)) (
          or_else (arm handlers.signal id (signal_call id args)) (
            or_else (arm handlers.thread id (thread_call id args))
              (or_else (arm handlers.sync_mutex id (sync_mutex_call id args)) (unsupported id)))))))
