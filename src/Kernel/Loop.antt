-- ===== src/Kernel/Loop.antt =====
-- ch8/src/main.rs: the loop of `rust_main` from trap to trap. What a thread does
-- while it runs is given: the context that it stops with, and the trap.
pub mod Answered
pub mod Contexts
pub mod Decided
pub mod Leaving
use spec_to_rust_os.Prelude.{
  ℕ, ◌%◌, ◌^◌, ◌+◌, ◌-◌, Bool, true, false, not, Option, none, some, List, [], ◌∷◌, ◌==◌, ltb,
  if◌then◌else◌,
}
use spec_to_rust_os.Prelude.Panic.{Outcome, returned, panicked, ◌>>=◌}
use spec_to_rust_os.Syscall.Numbers.{exit_id}
use spec_to_rust_os.Kernel.SyscallContext.{Answer}
use spec_to_rust_os.Syscall.{Handlers, SyscallResult, done, unsupported, handle}
use spec_to_rust_os.KernelContext.{LocalContext, move_next, a, a_mut}
use spec_to_rust_os.Signal.State.{
  SignalResult, no_signal, busy, ignored, handled, process_killed, process_suspended,
}
use spec_to_rust_os.Kernel.Vm.{Vm}
use spec_to_rust_os.Kernel.Fs.{Directory}
use spec_to_rust_os.Kernel.Elf.{ElfFile}
use spec_to_rust_os.Kernel.Process.{Thread, Process}
use spec_to_rust_os.Kernel.State.{
  Kernel, Processor, minus_two, minus_three, blocked_return, get_task, get_proc, put_task,
  make_current_suspend, make_current_blocked, find_next,
}
use spec_to_rust_os.Kernel.Wake.{
  with_context, on_processor, handle_current_signals, exit_current_thread,
}
use spec_to_rust_os.Kernel.Calls.Files as Files
use spec_to_rust_os.Kernel.Calls.Processes as Processes
use spec_to_rust_os.Kernel.Calls.Signals as Signals
use spec_to_rust_os.Kernel.Calls.Sync as Sync
use spec_to_rust_os.Kernel.Calls.Threads as Calls

-- The three variables that a trap sets.
pub record Decision : Type 0 where
  pub next_exit : Option ℕ
  pub next_suspend : Bool
  pub next_block : Bool

-- After a call that returned `ret`.
unfoldable pub after_done : ℕ → ℕ → Decision
after_done id ret =
    if id == exit_id
    then record { next_exit = some ret; next_suspend = false; next_block = false }
    else if ret == blocked_return
    then record { next_exit = none; next_suspend = false; next_block = true }
    else record { next_exit = none; next_suspend = true; next_block = false }

abbrev pub after_unsupported : Decision
after_unsupported = record { next_exit = some minus_two; next_suspend = false; next_block = false }

-- The code of `ProcessKilled`, as an `isize`.
abbrev pub widened : ℕ → ℕ
widened code = if ltb code (2 ^ 31) then code else code + (2 ^ 64 - 2 ^ 32)

-- The signals, on the way out of a call and of a timer interrupt.
unfoldable pub after_signals : SignalResult → Decision → Decision
after_signals no_signal d = d
after_signals ignored d = d
after_signals handled d = d
after_signals busy d = d
after_signals process_suspended d = if not d.next_block then record d { next_suspend = true } else d
after_signals (process_killed code) d = record {
  next_exit = some (widened code);
  next_suspend = false;
  next_block = false;
}

abbrev pub after_timer : Decision
after_timer = record { next_exit = none; next_suspend = true; next_block = false }

module _ {S Sp Mem : Type 0} where
  unfoldable pub carry_out : Decision → ℕ → ℕ → Kernel S Sp Mem → Outcome (Kernel S Sp Mem)
  carry_out d pid tid k = elim d.next_exit [
    | some code ↦ exit_current_thread pid tid code k
    | none ↦
        if d.next_block
        then on_processor make_current_blocked k
        else if d.next_suspend
        then on_processor make_current_suspend k
        else returned k
  ]

  -- The signals are looked at only if the thread does not exit.
  unfoldable pub settle : Decision → ℕ → ℕ → Kernel S Sp Mem → Outcome (Kernel S Sp Mem)
  settle d pid tid k = elim d.next_exit [
    | some code ↦ carry_out d pid tid k
    | none ↦ (do
      (result, k') ← handle_current_signals pid tid k
      carry_out (after_signals result d) pid tid k')
  ]

  -- A write to the context of the thread that runs.
  abbrev pub set_context :
      ℕ → (LocalContext → Outcome LocalContext) → Kernel S Sp Mem → Outcome (Kernel S Sp Mem)
  set_context tid f = on_processor (λ s. do
    found ← get_task tid s
    elim found [
      | none ↦ returned s
      | some t ↦ (do c ← f t.context.context; returned (put_task tid (with_context c t) s))
    ])

  unfoldable pub conclude : ℕ → ℕ → ℕ → ℕ → Kernel S Sp Mem → Outcome (Kernel S Sp Mem)
  conclude id ret pid tid k = do
    let d = after_done id ret
    k' ← (if d.next_suspend then set_context tid (a_mut 0 ret) k else returned k)
    settle d pid tid k'

  abbrev concluded : ℕ → ℕ → ℕ → Outcome (ℕ × Kernel S Sp Mem) → Outcome (Kernel S Sp Mem)
  concluded id pid tid panicked = panicked
  concluded id pid tid (returned (ret, k)) = conclude id ret pid tid k

  abbrev waiting_or :
      Option (Outcome (ℕ × Kernel S Sp Mem))
      → (Outcome (ℕ × Kernel S Sp Mem) → Outcome (Kernel S Sp Mem))
      → Option (Outcome (Kernel S Sp Mem))
  waiting_or none f = none
  waiting_or (some o) f = some (f o)

  unfoldable pub answer_call :
      ℕ
      → SyscallResult (Answer (Kernel S Sp Mem))
      → ℕ
      → ℕ
      → Kernel S Sp Mem
      → Option (Outcome (Kernel S Sp Mem))
  answer_call id (unsupported _) pid tid k = some (settle after_unsupported pid tid k)
  answer_call id (done call) pid tid k = waiting_or (call k) (concluded id pid tid)

-- The registers of a call: its number, and the arguments.
unfoldable pub call_registers : LocalContext → Outcome (ℕ × List ℕ)
call_registers c = do
  id ← a 7 c
  a0 ← a 0 c
  a1 ← a 1 c
  a2 ← a 2 c
  a3 ← a 3 c
  a4 ← a 4 c
  a5 ← a 5 c
  returned (id, a0 ∷ a1 ∷ a2 ∷ a3 ∷ a4 ∷ a5 ∷ [])

pub data Trap : Type 0 where
  user_env_call : Trap
  supervisor_timer : Trap
  other : Trap

module _ {S Sp Mem : Type 0} (handlers : Handlers (Answer (Kernel S Sp Mem))) where
  abbrev call_of :
      ℕ → ℕ → Outcome (ℕ × List ℕ) → Outcome (Kernel S Sp Mem) → Option (Outcome (Kernel S Sp Mem))
  call_of pid tid (returned (id, args)) (returned k) =
      answer_call id (handle handlers id args) pid tid k
  call_of pid tid _ _ = some panicked

  -- `c` is the context that the thread stopped with.
  unfoldable pub trap :
      Trap → LocalContext → ℕ → ℕ → Kernel S Sp Mem → Option (Outcome (Kernel S Sp Mem))
  trap user_env_call c pid tid k =
      call_of pid tid (call_registers (move_next c))
        (set_context tid (λ _. returned (move_next c)) k)
  trap supervisor_timer c pid tid k =
      some (set_context tid (λ _. returned c) k >>= settle after_timer pid tid)
  trap other c pid tid k =
      some (set_context tid (λ _. returned c) k >>= exit_current_thread pid tid minus_three)

  abbrev forget_current : Kernel S Sp Mem → Kernel S Sp Mem
  forget_current k = record k { current_space = none; current_pid = none; current_tid = none }

  abbrev cleared : Option (Outcome (Kernel S Sp Mem)) → Option (Outcome (Kernel S Sp Mem))
  cleared none = none
  cleared (some o) = some (o >>= λ k. returned (forget_current k))

  -- The thread that was found runs up to its trap, if its process exists.
  unfoldable pub dispatch :
      Trap
      → LocalContext
      → Thread
      → Processor S Sp
      → Kernel S Sp Mem
      → Option (Outcome (Kernel S Sp Mem))
  dispatch event c t s k = elim (get_proc t.pid s) [
    | panicked ↦ some panicked
    | returned none ↦ some (exit_current_thread t.pid t.tid minus_three k)
    | returned (some p) ↦ cleared (
        trap event c t.pid t.tid (record k {
          current_space = some t.pid;
          current_pid = some t.pid;
          current_tid = some t.tid;
        }))
  ]

  -- One round of the loop: false, if no thread is ready, and the loop ends. None: a call waits, or the
  -- fuel does not suffice for the search.
  abbrev went_on : Option (Outcome (Kernel S Sp Mem)) → Option (Outcome (Bool × Kernel S Sp Mem))
  went_on none = none
  went_on (some o) = some (o >>= λ k. returned (true, k))

  unfoldable pub round :
      ℕ → Trap → LocalContext → Kernel S Sp Mem → Option (Outcome (Bool × Kernel S Sp Mem))
  round fuel event c k = elim k.processor [
    | none ↦ some panicked
    | some s ↦ elim (find_next fuel s) [
      | panicked ↦ some panicked
      | returned none ↦ none
      | returned (some (none, s')) ↦ some (returned (false, record k { processor = some s' }))
      | returned (some (some (_, t), s')) ↦
          went_on (dispatch event c t s' (record k { processor = some s' }))
    ]
  ]
