-- ===== src/Kernel/Loop/Answered.antt =====
-- ch8/src/main.rs: from the answer to a system call to the end of the trap, in the loop of `rust_main`.
use spec_to_rust_os.Prelude.{
  ℕ, ◌≡◌, refl, ◌∙◌, true, false, Option, none, some, ◌==◌, length-set, Bool-cases, inl, inr, arith,
}
use spec_to_rust_os.Prelude.Map.{Map, lookup, modify, lookup-modify}
use spec_to_rust_os.Prelude.Panic.{Outcome, returned}
use spec_to_rust_os.Signal.State.Delivery.{IsSound}
use spec_to_rust_os.TaskManage.ProcThreadRel.{ProcThreadRel}
use spec_to_rust_os.Syscall.{SyscallResult, done, unsupported}
use spec_to_rust_os.Syscall.Numbers.{exit_id}
use spec_to_rust_os.Kernel.SyscallContext.{Answer}
use spec_to_rust_os.Kernel.Managers.{ThreadManager}
use spec_to_rust_os.Kernel.Process.{Thread, Process}
use spec_to_rust_os.Kernel.State.{Kernel, Processor, blocked_return, minus_two}
use spec_to_rust_os.Kernel.Wake.Waiters.{with_threads, AllRegs, with_a0}
use spec_to_rust_os.Kernel.Wake.Exit.{with_procs, with_processor}
use spec_to_rust_os.Kernel.Loop.Contexts.{kept-AllRegs}
use spec_to_rust_os.Kernel.Loop.Decided.{Way, leaves, waits, rests, way, exits, blocks, suspends}
use spec_to_rust_os.Kernel.Loop.Leaving.{Settled, settle-Settled, set_context_lem}
use spec_to_rust_os.Kernel.Loop.{after_done, settle, conclude, answer_call, after_unsupported}

-- The answer to a call in the kernel `k₀`: it is refused, or it is carried out and leaves the kernel `k`
-- with the value that it returns.
pub data Answered {K : Type 0} (r : SyscallResult (Answer K)) (k₀ k : K) : Option ℕ → Type 0 where
  refused : (n : ℕ) → r ≡ unsupported n → k₀ ≡ k → Answered r k₀ k none
  called :
      (call : Answer K) (ret : ℕ)
      → r ≡ done call
      → call k₀ ≡ some (returned (ret, k))
      → Answered r k₀ k (some ret)

-- The task of the thread once it has the result in a0, which it gets if it can go on.
abbrev pub thread_after : Way → Option ℕ → Thread → Thread
thread_after rests (some ret) t = with_a0 ret t
thread_after w reply t = t

module _ {S Sp Mem : Type 0} (pid tid : ℕ) (rel : ProcThreadRel) (s : Processor S Sp)
    (k : Kernel S Sp Mem) (now : s.current ≡ some tid) (owner : lookup tid s.tid2pid ≡ some pid)
    (family : lookup pid s.relations ≡ some rel) where
  abbrev kernel_with : ThreadManager Thread → Map (Process S Sp) → Kernel S Sp Mem
  kernel_with tm pm = with_processor (with_threads tm (with_procs pm s)) k

  conclude-Settled :
      (id ret : ℕ) (p : Process S Sp) (t : Thread) (tm : ThreadManager Thread)
      (pm : Map (Process S Sp))
      → lookup pid pm ≡ some p
      → lookup tid tm.store ≡ some t
      → AllRegs tm.store
      → IsSound p.signal
      → Settled
          (way id (some ret))
          tid
          (thread_after (way id (some ret)) (some ret) t)
          p.signal
          tm.ready
          k
          (conclude id ret pid tid (kernel_with tm pm))
  unfolding conclude after_done way
  conclude-Settled id ret p t tm pm here present full sound = elim (Bool-cases (id == exit_id)) [
    | inl leaving ↦
        rw (conclude, after_done, leaving)
          (settle-Settled pid tid rel s k now owner family
            (record { next_exit = some ret; next_suspend = false; next_block = false }) leaves p t
            tm pm (exits ret refl) here present full sound)
    | inr staying ↦ elim (Bool-cases (ret == blocked_return)) [
      | inl waiting ↦
          rw (conclude, after_done, staying, waiting)
            (settle-Settled pid tid rel s k now owner family
              (record { next_exit = none; next_suspend = false; next_block = true }) waits p t tm pm
              (blocks refl refl) here present full sound)
      | inr going ↦
          (let t₁ = with_a0 ret t in
            let tm₁ : ThreadManager Thread = record tm { store = modify tid (λ _. t₁) tm.store } in
            let present₁ : lookup tid tm₁.store ≡ some t₁ =
              ground (arith, lookup-modify tid tid (λ _. t₁) tm.store, present) in
            let full₁ : AllRegs tm₁.store =
              kept-AllRegs tid t₁.context.context t tm.store full
                (length-set t.context.context.regs 9 ret ∙ full tid t present) in
            rw
              (
                conclude,
                after_done,
                staying,
                going,
                set_context_lem pid tid rel s k now owner family ret t tm pm present
                    (full tid t present),
              )
              (settle-Settled pid tid rel s k now owner family
                (record { next_exit = none; next_suspend = true; next_block = false }) rests p t₁
                tm₁ pm (suspends refl refl refl) here present₁ full₁ sound))
    ]
  ]

  -- However a system call is answered, refused or returned by the handler with the thread still current and
  -- its process and task there, whose signals are sound and whose contexts are whole, the kernel gets to the
  -- end of the trap without a panic, nobody is current then, and the thread goes the way of the answer: it is gone after a call that is not supported,
  -- after exit, and if the signals that are due kill the process; it stays without being queued if the call
  -- returned the mark of a blocked one; otherwise it is at the end of the ready queue with the result in a0.
  -- A thread that stays has the context that the signals leave.
  pub answer_call-Settled :
      (id : ℕ) (reply : Option ℕ) (r : SyscallResult (Answer (Kernel S Sp Mem)))
      (k₀ : Kernel S Sp Mem) (p : Process S Sp) (t : Thread) (tm : ThreadManager Thread)
      (pm : Map (Process S Sp))
      → Answered r k₀ (kernel_with tm pm) reply
      → lookup pid pm ≡ some p
      → lookup tid tm.store ≡ some t
      → AllRegs tm.store
      → IsSound p.signal
      → (o : Outcome (Kernel S Sp Mem)) × (answer_call id r pid tid k₀ ≡ some o)
        × Settled (way id reply) tid (thread_after (way id reply) reply t) p.signal tm.ready k o
  unfolding answer_call way
  answer_call-Settled id _ r k₀ p t tm pm (refused n e same) here present full sound = (
    settle after_unsupported pid tid (kernel_with tm pm),
    rw (e, same) refl,
    settle-Settled pid tid rel s k now owner family after_unsupported leaves p t tm pm
        (exits minus_two refl) here present full sound,
  )
  answer_call-Settled id _ r k₀ p t tm pm (called call ret e answers) here present full sound = (
    conclude id ret pid tid (kernel_with tm pm),
    rw (e, answers) refl,
    conclude-Settled id ret p t tm pm here present full sound,
  )
