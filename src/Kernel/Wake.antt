-- ===== src/Kernel/Wake.antt =====
-- ch8/src/main.rs: the helpers that wake threads, end the current one and deliver its signals.
pub mod Exit
pub mod Waiters
use spec_to_rust_os.Prelude.{ℕ, ◌-◌, ◌^◌, Option, none, some, List, [], ◌∷◌}
use spec_to_rust_os.Prelude.Panic.{Outcome, returned, panicked, ◌>>=◌}
use spec_to_rust_os.KernelContext.{LocalContext, a_mut}
use spec_to_rust_os.Signal.State.{SignalResult, process_killed, handle_signals}
use spec_to_rust_os.Kernel.Process.{Thread, take_waittid_waiters, remove_thread_stack}
use spec_to_rust_os.Kernel.State.{
  Kernel, Processor, get_task, get_proc, re_enque, make_current_exited, put_task, put_proc,
}

abbrev pub with_context : LocalContext → Thread → Thread
with_context c t = record t { context = record t.context { context = c } }

-- The code of `ProcessKilled` is an `i32`, in two's complement.
abbrev pub lost : SignalResult
lost = process_killed (2 ^ 32 - 3)

module _ {S Sp : Type 0} where
  -- What a thread that is woken gets: the result of its system call, and a place in the queue.
  unfoldable pub wake : ℕ → ℕ → Processor S Sp → Outcome (Processor S Sp)
  wake tid ret s = do
    found ← get_task tid s
    elim found [
      | none ↦ returned s
      | some t ↦ (do
        c ← a_mut 0 ret t.context.context
        re_enque tid (put_task tid (with_context c t) s))
    ]

  -- The loop of `wake_waittid_waiters`.
  unfoldable pub wake_all : List ℕ → ℕ → Processor S Sp → Outcome (Processor S Sp)
  wake_all [] ret s = returned s
  wake_all (tid ∷ tids) ret s = do s' ← wake tid ret s; wake_all tids ret s'

  unfoldable pub take_waiters : ℕ → ℕ → Processor S Sp → Outcome (List ℕ × Processor S Sp)
  take_waiters pid exited_tid s = do
    found ← get_proc pid s
    elim found [
      | none ↦ returned ([], s)
      | some p ↦
          (let (waiters, p') = take_waittid_waiters exited_tid p in
            returned (waiters, put_proc pid p' s))
    ]

  unfoldable pub wake_waiters : ℕ → ℕ → ℕ → Processor S Sp → Outcome (Processor S Sp)
  wake_waiters pid exited_tid exit_code s = do
    (waiters, s') ← take_waiters pid exited_tid s
    wake_all waiters exit_code s'

  unfoldable pub forget_stack : ℕ → ℕ → Processor S Sp → Outcome (Processor S Sp)
  forget_stack pid tid s = do
    found ← get_proc pid s
    elim found [
      | none ↦ returned s
      | some p ↦ returned (put_proc pid (remove_thread_stack tid p) s)
    ]

  unfoldable pub exit_thread : ℕ → ℕ → ℕ → Processor S Sp → Outcome (Processor S Sp)
  exit_thread pid tid exit_code s = do s' ← forget_stack pid tid s; make_current_exited exit_code s'

module _ {S Sp Mem : Type 0} where
  -- With no processor there is nothing to do.
  abbrev pub on_processor :
      (Processor S Sp → Outcome (Processor S Sp)) → Kernel S Sp Mem → Outcome (Kernel S Sp Mem)
  on_processor f k = elim k.processor [
    | none ↦ returned k
    | some s ↦ (do s' ← f s; returned (record k { processor = some s' }))
  ]

  unfoldable pub wake_thread_with_ret : ℕ → ℕ → Kernel S Sp Mem → Outcome (Kernel S Sp Mem)
  wake_thread_with_ret tid ret = on_processor (wake tid ret)

  unfoldable pub wake_waittid_waiters : ℕ → ℕ → ℕ → Kernel S Sp Mem → Outcome (Kernel S Sp Mem)
  wake_waittid_waiters pid exited_tid exit_code =
      on_processor (wake_waiters pid exited_tid exit_code)

  unfoldable pub exit_current_thread : ℕ → ℕ → ℕ → Kernel S Sp Mem → Outcome (Kernel S Sp Mem)
  exit_current_thread pid tid exit_code k = do
    k' ← wake_waittid_waiters pid tid exit_code k
    on_processor (exit_thread pid tid exit_code) k'

  unfoldable pub handle_current_signals :
      ℕ → ℕ → Kernel S Sp Mem → Outcome (SignalResult × Kernel S Sp Mem)
  handle_current_signals pid tid k = elim k.processor [
    | none ↦ returned (lost, k)
    | some s ↦ (do
      found ← get_proc pid s
      elim found [
        | none ↦ returned (lost, k)
        | some p ↦ (do
          found ← get_task tid s
          elim found [
            | none ↦ returned (lost, k)
            | some t ↦ (do
              (result, signal, c) ← handle_signals p.signal t.context.context
              let s' = put_proc pid (record p { signal = signal }) s
              returned (result, record k { processor = some (put_task tid (with_context c t) s') }))
          ])
      ])
  ]
