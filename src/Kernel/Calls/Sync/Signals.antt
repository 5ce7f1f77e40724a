-- ===== src/Kernel/Calls/Sync/Signals.antt =====
-- ch8/src/main.rs: `condvar_signal`, and the mutex that the signalled thread waits for.
use spec_to_rust_os.Prelude.{
  ℕ, ◌≡◌, refl, Bool, Option, some, List, ◌∷◌, ◌==◌, if◌then◌else◌, arith, get_elem?, set,
  Bool-cases, inl, inr,
}
use spec_to_rust_os.Prelude.Map.{Map, lookup, modify, remove, lookup-modify}
use spec_to_rust_os.Prelude.Panic.{returned}
use spec_to_rust_os.Sync.Cell
use spec_to_rust_os.Sync.Cell.{IntrState, IsMasked}
use spec_to_rust_os.Sync.Cell.Session.{after_session, session_of_new}
use spec_to_rust_os.Sync.Mutex
use spec_to_rust_os.Sync.Mutex.{MutexBlockingInner, lock_inner}
use spec_to_rust_os.Sync.Condvar
use spec_to_rust_os.KernelContext.{HasRegs}
use spec_to_rust_os.Kernel.Managers.{ThreadManager}
use spec_to_rust_os.Kernel.Process.{Thread, Process}
use spec_to_rust_os.Kernel.State.{Kernel, Processor}
use spec_to_rust_os.Kernel.Calls.Sync.{condvar_signal}
use spec_to_rust_os.Kernel.Calls.Machine.{machine, Running, woken, current_lem, put_lem, wake_lem}

signal_lem :
    (i : IntrState) (t : ℕ) (rest : List ℕ)
    → IsMasked i
    → Condvar.signal i (Cell.new (t ∷ rest)) ≡ returned (some t, after_session i, Cell.new rest)
unfolding Condvar.signal
signal_lem i t rest m = session_of_new {A = List ℕ} {B = Option ℕ} i m _ (t ∷ rest)

lock_lem :
    (t : ℕ) (i : IntrState) (m : MutexBlockingInner)
    → IsMasked i
    → Mutex.lock t i (Cell.new m)
      ≡ returned ((lock_inner t m).0, after_session i, Cell.new (lock_inner t m).1)
unfolding Mutex.lock
lock_lem t i m masked = session_of_new {A = MutexBlockingInner} {B = Bool} i masked _ m

-- The process after the call.
abbrev pub signalled_process :
    {S Sp : Type 0} → ℕ → ℕ → ℕ → List ℕ → MutexBlockingInner → Process S Sp → Process S Sp
signalled_process condvar_id mutex_id tid rest m p = record p {
  condvars = set p.condvars condvar_id (Cell.new rest);
  condvar_wait_mutex = remove tid p.condvar_wait_mutex;
  mutexes = set p.mutexes mutex_id (some (Cell.new m));
}

module _ {S Sp Mem : Type 0} (k : Kernel S Sp Mem) (s : Processor S Sp) (cur pid : ℕ)
    (run : Running cur pid s) (tm : ThreadManager Thread) (pm : Map (Process S Sp)) (i : IntrState)
    (masked : IsMasked i) where
  -- `condvar_signal` takes the thread at the front of the queue of the condition variable, and asks for
  -- the mutex that the thread released when it began to wait: if the mutex is free, the thread gets it
  -- and goes to the queue of the ready with the result 0, and if it is held, the thread joins the queue
  -- of the mutex and stays off that queue. The call returns 0, and changes no other process.
  pub condvar_signal_lem :
      (condvar_id mutex_id tid : ℕ) (rest : List ℕ) (m : MutexBlockingInner) (t : Thread)
      (p : Process S Sp)
      → lookup pid pm ≡ some p
      → get_elem? p.condvars condvar_id ≡ some (Cell.new (tid ∷ rest))
      → lookup tid p.condvar_wait_mutex ≡ some mutex_id
      → get_elem? p.mutexes mutex_id ≡ some (some (Cell.new m))
      → lookup tid tm.store ≡ some t
      → HasRegs t.context.context
      → (pm' : Map (Process S Sp)) × (condvar_signal condvar_id (machine k s tm pm i)
          ≡ returned (
            0,
            machine k s
                (if (lock_inner tid m).0 then woken tid 0 t tm else tm)
                pm'
                (after_session (after_session i)),
          ))
        × ((j : ℕ)
            → lookup j pm' ≡ (
                if pid == j
                then some (signalled_process condvar_id mutex_id tid rest (lock_inner tid m).1 p)
                else lookup j pm))
  unfolding condvar_signal
  condvar_signal_lem condvar_id mutex_id tid rest m t p here cond recorded mutex present full =
      let p₁ : Process S Sp = record p {
        condvars = set p.condvars condvar_id (Cell.new rest);
        condvar_wait_mutex = remove tid p.condvar_wait_mutex;
      } in
      let pm₁ : Map (Process S Sp) = modify pid (λ _. p₁) pm in
      let p₂ = signalled_process condvar_id mutex_id tid rest (lock_inner tid m).1 p in
      let pm₂ : Map (Process S Sp) = modify pid (λ _. p₂) pm₁ in
      let there : lookup pid pm₁ ≡ some p₁ =
        ground (arith, lookup-modify pid pid (λ _. p₁) pm, here) in
      let i₁ = after_session i in
      (
        pm₂,
        rw
            (
              condvar_signal,
              current_lem k s cur pid run tm pm i p here,
              cond,
              signal_lem i tid rest masked,
              put_lem k s cur pid run tm pm i₁ p₁,
              recorded,
              current_lem k s cur pid run tm pm₁ i₁ p₁ there,
              mutex,
              lock_lem tid i₁ m (record { off = masked.off }),
              put_lem k s cur pid run tm pm₁ (after_session i₁) p₂,
            )
            (elim (Bool-cases (lock_inner tid m).0) [
              | inl granted ↦
                  rw
                    (
                      granted,
                      wake_lem k s cur pid run tm pm₂ (after_session i₁) tid 0 t present full,
                    )
                    refl
              | inr refused ↦ rw refused refl
            ]),
        λ j. ground (arith, lookup-modify pid j (λ _. p₂) pm₁, lookup-modify pid j (λ _. p₁) pm),
      )
