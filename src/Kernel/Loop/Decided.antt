-- ===== src/Kernel/Loop/Decided.antt =====
-- ch8/src/main.rs: after a trap the loop of `rust_main` has chosen what becomes of the thread.
use spec_to_rust_os.Prelude.{
  ℕ, ◌≡◌, refl, Bool, true, false, not, Option, none, some, ◌==◌, if◌then◌else◌,
}
use spec_to_rust_os.Signal.State.{
  SignalResult, no_signal, busy, ignored, handled, process_killed, process_suspended,
}
use spec_to_rust_os.Syscall.Numbers.{exit_id}
use spec_to_rust_os.Kernel.State.{blocked_return}
use spec_to_rust_os.Kernel.Loop.{Decision, after_signals}

-- What becomes of a thread after a trap: it exits, it is blocked, or it goes to the ready queue.
pub data Way : Type 0 where
  leaves : Way
  waits : Way
  rests : Way

-- After a call with the number `id`: the kernel does not support it, or it returned a value.
unfoldable pub way : ℕ → Option ℕ → Way
way id none = leaves
way id (some ret) = if id == exit_id then leaves else if ret == blocked_return then waits else rests

-- A signal that kills lets the thread exit; no other signal changes the way.
abbrev pub killed_or : SignalResult → Way → Way
killed_or no_signal w = w
killed_or ignored w = w
killed_or handled w = w
killed_or busy w = w
killed_or process_suspended w = w
killed_or (process_killed code) w = leaves

-- The signals of a thread that exits do not matter.
abbrev pub way_after : Way → SignalResult → Way
way_after leaves r = leaves
way_after waits r = killed_or r waits
way_after rests r = killed_or r rests

pub data IsDecided (d : Decision) : Way → Type 0 where
  exits : (code : ℕ) → d.next_exit ≡ some code → IsDecided d leaves
  blocks : d.next_exit ≡ none → d.next_block ≡ true → IsDecided d waits
  suspends : d.next_exit ≡ none → d.next_block ≡ false → d.next_suspend ≡ true → IsDecided d rests

relaxed-IsDecided :
    (d : Decision) (w : Way) → IsDecided d w → IsDecided (record d { next_suspend = true }) w
relaxed-IsDecided d _ (exits code e) = exits code e
relaxed-IsDecided d _ (blocks e b) = blocks e b
relaxed-IsDecided d _ (suspends e b q) = suspends e b refl

either-IsDecided :
    (b : Bool) (d : Decision) (w : Way)
    → IsDecided d w
    → IsDecided (if not b then record d { next_suspend = true } else d) w
either-IsDecided true d w ok = ok
either-IsDecided false d w ok = relaxed-IsDecided d w ok

pub after_signals-IsDecided :
    (r : SignalResult) (d : Decision) (w : Way)
    → IsDecided d w
    → IsDecided (after_signals r d) (killed_or r w)
unfolding after_signals
after_signals-IsDecided no_signal d w ok = ok
after_signals-IsDecided ignored d w ok = ok
after_signals-IsDecided handled d w ok = ok
after_signals-IsDecided busy d w ok = ok
after_signals-IsDecided process_suspended d w ok = either-IsDecided d.next_block d w ok
after_signals-IsDecided (process_killed code) d w ok = exits _ refl
