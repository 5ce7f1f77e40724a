-- ===== src/Kernel/Calls/Signals.antt =====
-- ch8/src/main.rs: the calls of the trait `Signal`, and the signal actions in the memory of the user.
use spec_to_rust_os.Prelude.{
  ℕ, ◌^◌, Bool, ◌||◌, Option, none, some, List, ◌++◌, ◌==◌, ltb, leb, if◌then◌else◌, take, drop,
}
use spec_to_rust_os.Prelude.Panic.{Outcome, returned}
use spec_to_rust_os.EasyFs.Disk.{word_bytes, bytes_word}
use spec_to_rust_os.Signal.State.{
  SignalAction, from_usize, max_sig, add_signal, get_action_ref, set_action, update_mask,
  sig_return,
}
use spec_to_rust_os.Kernel.Vm.{Vm}
use spec_to_rust_os.Kernel.Memory.{read_user_bytes, write_user_bytes}
use spec_to_rust_os.Kernel.Process.{Process}
use spec_to_rust_os.Kernel.State.{Kernel, minus_one, put_proc, put_task}
use spec_to_rust_os.Kernel.Wake.{with_context}
use spec_to_rust_os.Kernel.Calls.{
  Call, handler, ◌>>=◌, ◌>>◌, give, leave, some_or_fail, read_from, change, process, task, on_it,
  current_process, write_process, user_space, current_tid, current_pid,
}

abbrev signal_action_size : ℕ
signal_action_size = 16

abbrev action_of : Option (List ℕ) → Option SignalAction
action_of none = none
action_of (some bytes) =
    some (record { handler = bytes_word (take 8 bytes); mask = bytes_word (take 8 (drop 8 bytes)) })

module _ {Sp Mem : Type 0} (vm : Vm Sp Mem) where
  unfoldable pub read_user_signal_action : Sp → ℕ → Mem → Option SignalAction
  read_user_signal_action space ptr mem =
      action_of (read_user_bytes vm space ptr signal_action_size mem)

  unfoldable pub write_user_signal_action : Sp → ℕ → SignalAction → Mem → Bool × Mem
  write_user_signal_action space ptr action mem =
      write_user_bytes vm space ptr (word_bytes 8 action.handler ++ word_bytes 8 action.mask) mem

abbrev is_bad : ℕ → Bool
is_bad signum = (signum == 0) || ltb max_sig signum

module _ {S Sp Mem : Type 0} where
  abbrev fail_if : Bool → Call (Kernel S Sp Mem) (Unit {0})
  fail_if b = if b then leave minus_one else give tt

  unfoldable pub kill : ℕ → ℕ → Kernel S Sp Mem → Outcome (ℕ × Kernel S Sp Mem)
  kill pid signum = handler (do
    fail_if (leb (2 ^ 63) pid)
    let signum = from_usize signum
    fail_if (is_bad signum)
    target ← process pid
    on_it (λ s.
        returned (put_proc pid (record target { signal = add_signal signum target.signal }) s))
    give 0)

  -- A null pointer is no action.
  abbrev new_action : Vm Sp Mem → Sp → ℕ → Call (Kernel S Sp Mem) (Option SignalAction)
  new_action vm space action = if action == 0 then give none else (do
    mem ← read_from (λ k. k.mem)
    value ← some_or_fail (read_user_signal_action vm space action mem)
    give (some value))

  abbrev write_old : Vm Sp Mem → Sp → ℕ → ℕ → Process S Sp → Call (Kernel S Sp Mem) (Unit {0})
  write_old vm space signum old_action p = if old_action == 0 then give tt else (do
    old ← some_or_fail (get_action_ref signum p.signal)
    mem ← read_from (λ k. k.mem)
    let (ok, mem') = write_user_signal_action vm space old_action old mem
    change (λ k. returned (record k { mem = mem' }))
    (if ok then give tt else leave minus_one))

  abbrev set_new : ℕ → Option SignalAction → Process S Sp → Call (Kernel S Sp Mem) ℕ
  set_new signum none p = give 0
  set_new signum (some action) p = do
    let (ok, signal) = set_action signum action p.signal
    write_process (record p { signal = signal })
    give (if ok then 0 else minus_one)

  unfoldable pub sigaction : Vm Sp Mem → ℕ → ℕ → ℕ → Kernel S Sp Mem → Outcome (ℕ × Kernel S Sp Mem)
  sigaction vm signum action old_action = handler (do
    let signum = from_usize signum
    fail_if (is_bad signum)
    space ← user_space
    found ← new_action vm space action
    p ← current_process
    write_old vm space signum old_action p
    set_new signum found p)

  unfoldable pub sigprocmask : ℕ → Kernel S Sp Mem → Outcome (ℕ × Kernel S Sp Mem)
  sigprocmask mask = handler (do
    p ← current_process
    let (old, signal) = update_mask mask p.signal
    write_process (record p { signal = signal })
    give old)

  unfoldable pub sigreturn : Kernel S Sp Mem → Outcome (ℕ × Kernel S Sp Mem)
  sigreturn = handler (do
    pid ← current_pid
    tid ← current_tid
    p ← process pid
    t ← task tid
    let (ok, signal, c) = sig_return p.signal t.context.context
    on_it (λ s.
        returned (put_task tid (with_context c t) (put_proc pid (record p { signal = signal }) s)))
    give (if ok then 0 else minus_one))
