-- ===== src/Kernel/Calls/Sync.antt =====
-- ch8/src/main.rs: the calls of the trait `SyncMutex`.
pub mod Signals
use spec_to_rust_os.Prelude.{
  ℕ, ◌-◌, Bool, true, false, Option, none, some, List, [], ◌∷◌, ◌++◌, length, get_elem?, set,
  if◌then◌else◌,
}
use spec_to_rust_os.Prelude.Map
use spec_to_rust_os.Prelude.Map.{lookup, remove}
use spec_to_rust_os.Prelude.Panic.{Outcome}
use spec_to_rust_os.Sync.Semaphore
use spec_to_rust_os.Sync.Mutex
use spec_to_rust_os.Sync.Mutex.{MutexBlocking}
use spec_to_rust_os.Sync.Condvar
use spec_to_rust_os.Kernel.Process.{Process}
use spec_to_rust_os.Kernel.State.{Kernel, blocked_return}
use spec_to_rust_os.Kernel.Wake.{wake_thread_with_ret}
use spec_to_rust_os.Kernel.Calls.{
  Call, handler, ◌>>=◌, ◌>>◌, give, some_or_fail, change, current_process, write_process,
  in_session, current_tid,
}

abbrev pub join : {A : Type 0} → Option (Option A) → Option A
join none = none
join (some x) = x

module _ {S Sp Mem : Type 0} where
  -- `if let Some(tid) = wake_tid { wake_thread_with_ret(tid, 0); }`
  abbrev pub wake_if : Option ℕ → Call (Kernel S Sp Mem) (Unit {0})
  wake_if none = give tt
  wake_if (some tid) = change (wake_thread_with_ret tid 0)

  unfoldable pub semaphore_create : ℕ → Kernel S Sp Mem → Outcome (ℕ × Kernel S Sp Mem)
  semaphore_create res_count = handler (do
    p ← current_process
    let p' = record p { semaphores = p.semaphores ++ Semaphore.new res_count ∷ [] }
    write_process p'
    give (length p'.semaphores - 1))

  unfoldable pub semaphore_up : ℕ → Kernel S Sp Mem → Outcome (ℕ × Kernel S Sp Mem)
  semaphore_up sem_id = handler (do
    p ← current_process
    sem ← some_or_fail (get_elem? p.semaphores sem_id)
    (wake_tid, sem') ← in_session Semaphore.up sem
    write_process (record p { semaphores = set p.semaphores sem_id sem' })
    wake_if wake_tid
    give 0)

  unfoldable pub semaphore_down : ℕ → Kernel S Sp Mem → Outcome (ℕ × Kernel S Sp Mem)
  semaphore_down sem_id = handler (do
    tid ← current_tid
    p ← current_process
    sem ← some_or_fail (get_elem? p.semaphores sem_id)
    (down_ok, sem') ← in_session (Semaphore.down tid) sem
    write_process (record p { semaphores = set p.semaphores sem_id sem' })
    give (if down_ok then 0 else blocked_return))

  unfoldable pub mutex_create : Bool → Kernel S Sp Mem → Outcome (ℕ × Kernel S Sp Mem)
  mutex_create blocking = handler (do
    p ← current_process
    let mutex = if blocking then some Mutex.new else none
    let p' = record p { mutexes = p.mutexes ++ mutex ∷ [] }
    write_process p'
    give (length p'.mutexes - 1))

  unfoldable pub mutex_lock : ℕ → Kernel S Sp Mem → Outcome (ℕ × Kernel S Sp Mem)
  mutex_lock mutex_id = handler (do
    tid ← current_tid
    p ← current_process
    mutex ← some_or_fail (join (get_elem? p.mutexes mutex_id))
    (lock_ok, mutex') ← in_session (Mutex.lock tid) mutex
    write_process (record p { mutexes = set p.mutexes mutex_id (some mutex') })
    give (if lock_ok then 0 else blocked_return))

  unfoldable pub mutex_unlock : ℕ → Kernel S Sp Mem → Outcome (ℕ × Kernel S Sp Mem)
  mutex_unlock mutex_id = handler (do
    p ← current_process
    mutex ← some_or_fail (join (get_elem? p.mutexes mutex_id))
    (wake_tid, mutex') ← in_session Mutex.unlock mutex
    write_process (record p { mutexes = set p.mutexes mutex_id (some mutex') })
    wake_if wake_tid
    give 0)

  unfoldable pub condvar_create : Kernel S Sp Mem → Outcome (ℕ × Kernel S Sp Mem)
  condvar_create = handler (do
    p ← current_process
    let p' = record p { condvars = p.condvars ++ Condvar.new ∷ [] }
    write_process p'
    give (length p'.condvars - 1))

  -- `lock(tid)` for the thread that was signalled, which runs if it gets the lock.
  abbrev lock_for : ℕ → ℕ → Call (Kernel S Sp Mem) ℕ
  lock_for tid mutex_id = do
    p ← current_process
    mutex ← some_or_fail (join (get_elem? p.mutexes mutex_id))
    (lock_result, mutex') ← in_session (Mutex.lock tid) mutex
    write_process (record p { mutexes = set p.mutexes mutex_id (some mutex') })
    wake_if (if lock_result then some tid else none)
    give 0

  abbrev resume : ℕ → Option ℕ → Call (Kernel S Sp Mem) ℕ
  resume tid (some mutex_id) = lock_for tid mutex_id
  resume tid none = wake_if (some tid) >> give 0

  abbrev signalled : Process S Sp → Option ℕ → Call (Kernel S Sp Mem) ℕ
  signalled p none = write_process p >> give 0
  signalled p (some tid) =
      write_process (record p { condvar_wait_mutex = remove tid p.condvar_wait_mutex })
      >> resume tid (lookup tid p.condvar_wait_mutex)

  unfoldable pub condvar_signal : ℕ → Kernel S Sp Mem → Outcome (ℕ × Kernel S Sp Mem)
  condvar_signal condvar_id = handler (do
    p ← current_process
    condvar ← some_or_fail (get_elem? p.condvars condvar_id)
    (tid, condvar') ← in_session Condvar.signal condvar
    signalled (record p { condvars = set p.condvars condvar_id condvar' }) tid)

  unfoldable pub condvar_wait : ℕ → ℕ → Kernel S Sp Mem → Outcome (ℕ × Kernel S Sp Mem)
  condvar_wait condvar_id mutex_id = handler (do
    tid ← current_tid
    p ← current_process
    condvar ← some_or_fail (get_elem? p.condvars condvar_id)
    mutex ← some_or_fail (join (get_elem? p.mutexes mutex_id))
    (_, condvar') ← in_session (Condvar.wait_no_sched tid) condvar
    (wake_tid, mutex') ← in_session Mutex.unlock mutex
    write_process (record p {
      condvar_wait_mutex = Map.insert tid mutex_id p.condvar_wait_mutex;
      condvars = set p.condvars condvar_id condvar';
      mutexes = set p.mutexes mutex_id (some mutex');
    })
    wake_if wake_tid
    give blocked_return)
