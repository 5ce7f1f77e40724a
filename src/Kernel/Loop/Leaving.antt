-- ===== src/Kernel/Loop/Leaving.antt =====
-- ch8/src/main.rs: how a trap ends, in the loop of `rust_main`.
use spec_to_rust_os.Prelude.{ℕ, ◌≡◌, refl, none, some, List, [], ◌∷◌, ◌++◌, arith}
use spec_to_rust_os.Prelude.Map.{Map, lookup, modify, lookup-modify}
use spec_to_rust_os.Prelude.Panic.{Outcome, returned}
use spec_to_rust_os.KernelContext.{LocalContext, HasRegs, a_mut, a_mut_0}
use spec_to_rust_os.Signal.State.{SignalResult, SignalImpl, handle_signals}
use spec_to_rust_os.Signal.State.Delivery.{IsSound, handle_signals-Delivery}
use spec_to_rust_os.TaskManage.PThreadManager as Threads
use spec_to_rust_os.TaskManage.ProcThreadRel.{ProcThreadRel}
use spec_to_rust_os.Kernel.Managers.{ThreadManager}
use spec_to_rust_os.Kernel.Process.{Thread, Process}
use spec_to_rust_os.Kernel.State.{Kernel, Processor, put_task, put_proc}
use spec_to_rust_os.Kernel.Wake.{with_context, handle_current_signals}
use spec_to_rust_os.Kernel.Wake.Waiters.{with_threads, AllRegs, with_a0}
use spec_to_rust_os.Kernel.Wake.Exit.{with_procs, with_processor, exit_current_thread_lem}
use spec_to_rust_os.Kernel.Loop.Contexts.{Delivery-HasRegs, kept-AllRegs}
use spec_to_rust_os.Kernel.Loop.Decided.{
  Way, leaves, waits, rests, killed_or, way_after, IsDecided, exits, blocks, suspends,
  after_signals-IsDecided,
}
use spec_to_rust_os.Kernel.Loop.{Decision, after_signals, carry_out, settle, set_context}

-- Where the thread `tid`, whose task is `u`, stands then, with `ready` for the queue before the trap.
abbrev pub Stands : Way → ℕ → Thread → List ℕ → ThreadManager Thread → Type 0
Stands leaves tid u ready tm = lookup tid tm.store ≡ none
Stands waits tid u ready tm = (lookup tid tm.store ≡ some u) × (tm.ready ≡ ready)
Stands rests tid u ready tm = (lookup tid tm.store ≡ some u) × (tm.ready ≡ ready ++ tid ∷ [])

-- The kernel gets to the end of the trap, with a processor on which nobody runs and the rest of the kernel
-- as it was.
abbrev pub Left :
    {S Sp Mem : Type 0}
    → Way
    → ℕ
    → Thread
    → List ℕ
    → Kernel S Sp Mem
    → Outcome (Kernel S Sp Mem)
    → Type 0
Left {S = S} {Sp = Sp} w tid u ready k o =
    (s' : Processor S Sp) × (tm' : ThreadManager Thread) × (o
      ≡ returned (with_processor (with_threads tm' s') k))
    × (s'.current ≡ none)
    × Stands w tid u ready tm'

-- The same with the signals of the process: what `handle_signals` answers on the context of `t`.
abbrev pub Settled :
    {S Sp Mem : Type 0}
    → Way
    → ℕ
    → Thread
    → SignalImpl
    → List ℕ
    → Kernel S Sp Mem
    → Outcome (Kernel S Sp Mem)
    → Type 0
Settled w tid t signal ready k o =
    (verdict : SignalResult) × (signal' : SignalImpl) × (c : LocalContext) × (handle_signals signal
        t.context.context
      ≡ returned (verdict, signal', c))
    × Left (way_after w verdict) tid (with_context c t) ready k o

module _ {S Sp Mem : Type 0} (pid tid : ℕ) (rel : ProcThreadRel) (s : Processor S Sp)
    (k : Kernel S Sp Mem) (now : s.current ≡ some tid) (owner : lookup tid s.tid2pid ≡ some pid)
    (family : lookup pid s.relations ≡ some rel) where
  signals_lem :
      (r : SignalResult) (p : Process S Sp) (t : Thread) (signal : SignalImpl) (c : LocalContext)
      (tm : ThreadManager Thread) (pm : Map (Process S Sp))
      → lookup pid pm ≡ some p
      → lookup tid tm.store ≡ some t
      → handle_signals p.signal t.context.context ≡ returned (r, signal, c)
      → handle_current_signals pid tid (with_processor (with_threads tm (with_procs pm s)) k)
        ≡ returned (
          r,
          with_processor
              (with_threads
                (record tm { store = modify tid (λ _. with_context c t) tm.store })
                (with_procs (modify pid (λ _. record p { signal = signal }) pm) s))
              k,
        )
  unfolding handle_current_signals Threads.get_proc Threads.get_task put_task put_proc
  signals_lem r p t signal c tm pm here present e =
      rw (handle_current_signals, here, present, e) refl

  carry_out-Left :
      (d : Decision) (w : Way) (p : Process S Sp) (u : Thread) (tm : ThreadManager Thread)
      (pm : Map (Process S Sp))
      → IsDecided d w
      → lookup pid pm ≡ some p
      → lookup tid tm.store ≡ some u
      → AllRegs tm.store
      → Left w tid u tm.ready k
          (carry_out d pid tid (with_processor (with_threads tm (with_procs pm s)) k))
  unfolding carry_out Threads.make_current_blocked Threads.make_current_suspend
  carry_out-Left d _ p u tm pm (exits code e) here present full =
      let (s', tm', went, idle, _, gone, _) =
        exit_current_thread_lem pid tid code p rel tm pm s k now owner family here full in
      (s', tm', rw (carry_out, e) went, idle, gone)
  carry_out-Left d _ p u tm pm (blocks e b) here present full = (
    record s { thread_manager = some tm; proc_manager = some pm; current = none },
    tm,
    rw (carry_out, e, b) refl,
    refl,
    (present, refl),
  )
  carry_out-Left d _ p u tm pm (suspends e b q) here present full =
      let tm' : ThreadManager Thread = record tm { ready = tm.ready ++ tid ∷ [] } in
      (
        record s { thread_manager = some tm'; proc_manager = some pm; current = none },
        tm',
        rw (carry_out, e, b, q, Threads.make_current_suspend, now) refl,
        refl,
        (present, refl),
      )

  -- A thread that does not exit: its signals are looked at.
  signals-Left :
      (d : Decision) (w : Way) (p : Process S Sp) (t : Thread) (tm : ThreadManager Thread)
      (pm : Map (Process S Sp)) (r : SignalResult) (signal : SignalImpl) (c : LocalContext)
      → IsDecided d w
      → d.next_exit ≡ none
      → lookup pid pm ≡ some p
      → lookup tid tm.store ≡ some t
      → AllRegs tm.store
      → HasRegs c
      → handle_signals p.signal t.context.context ≡ returned (r, signal, c)
      → Left
          (killed_or r w)
          tid
          (with_context c t)
          tm.ready
          k
          (settle d pid tid (with_processor (with_threads tm (with_procs pm s)) k))
  unfolding settle
  signals-Left d w p t tm pm r signal c ok stays here present full regs e =
      let p₁ : Process S Sp = record p { signal = signal } in
      let pm₁ : Map (Process S Sp) = modify pid (λ _. p₁) pm in
      let tm₁ : ThreadManager Thread = record tm {
        store = modify tid (λ _. with_context c t) tm.store;
      } in
      let there : lookup pid pm₁ ≡ some p₁ =
        ground (arith, lookup-modify pid pid (λ _. p₁) pm, here) in
      let present₁ : lookup tid tm₁.store ≡ some (with_context c t) =
        ground (arith, lookup-modify tid tid (λ _. with_context c t) tm.store, present) in
      let full₁ : AllRegs tm₁.store = kept-AllRegs tid c t tm.store full regs in
      let (s', tm', went, idle, stands) =
        carry_out-Left (after_signals r d) (killed_or r w) p₁ (with_context c t) tm₁ pm₁
          (after_signals-IsDecided r d w ok) there present₁ full₁ in
      (
        s',
        tm',
        rw (settle, stays, signals_lem r p t signal c tm pm here present e) went,
        idle,
        stands,
      )

  settle_way :
      (d : Decision) (w : Way) (p : Process S Sp) (t : Thread) (tm : ThreadManager Thread)
      (pm : Map (Process S Sp)) (r : SignalResult) (signal : SignalImpl) (c : LocalContext)
      → IsDecided d w
      → lookup pid pm ≡ some p
      → lookup tid tm.store ≡ some t
      → AllRegs tm.store
      → HasRegs c
      → handle_signals p.signal t.context.context ≡ returned (r, signal, c)
      → Left
          (way_after w r)
          tid
          (with_context c t)
          tm.ready
          k
          (settle d pid tid (with_processor (with_threads tm (with_procs pm s)) k))
  unfolding settle
  settle_way d _ p t tm pm r signal c (exits code e) here present full regs h =
      let (s', tm', went, idle, gone) =
        carry_out-Left d leaves p t tm pm (exits code e) here present full in
      (s', tm', rw (settle, e) went, idle, gone)
  settle_way d _ p t tm pm r signal c (blocks e b) here present full regs h =
      signals-Left d waits p t tm pm r signal c (blocks e b) e here present full regs h
  settle_way d _ p t tm pm r signal c (suspends e b q) here present full regs h =
      signals-Left d rests p t tm pm r signal c (suspends e b q) e here present full regs h

  pub settle-Settled :
      (d : Decision) (w : Way) (p : Process S Sp) (t : Thread) (tm : ThreadManager Thread)
      (pm : Map (Process S Sp))
      → IsDecided d w
      → lookup pid pm ≡ some p
      → lookup tid tm.store ≡ some t
      → AllRegs tm.store
      → IsSound p.signal
      → Settled w tid t p.signal tm.ready k
          (settle d pid tid (with_processor (with_threads tm (with_procs pm s)) k))
  settle-Settled d w p t tm pm ok here present full sound =
      let (r, signal, c, e, delivery) =
        handle_signals-Delivery p.signal t.context.context sound (full tid t present) in
      (
        r,
        signal,
        c,
        e,
        settle_way d w p t tm pm r signal c ok here present full
            (Delivery-HasRegs (full tid t present) delivery) e,
      )

  pub set_context_lem :
      (ret : ℕ) (t : Thread) (tm : ThreadManager Thread) (pm : Map (Process S Sp))
      → lookup tid tm.store ≡ some t
      → HasRegs t.context.context
      → set_context tid (a_mut 0 ret) (with_processor (with_threads tm (with_procs pm s)) k)
        ≡ returned (
            with_processor
              (with_threads
                (record tm { store = modify tid (λ _. with_a0 ret t) tm.store })
                (with_procs pm s))
              k)
  unfolding Threads.get_task put_task
  set_context_lem ret t tm pm present full = rw (present, a_mut_0 ret t.context.context full) refl
