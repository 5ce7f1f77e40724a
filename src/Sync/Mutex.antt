-- ===== src/Sync/Mutex.antt =====
-- sync/src/lib.rs: `MutexBlocking`. `lock` and `unlock` run in a session of the cell.
pub mod Threads
use spec_to_rust_os.Prelude.{
  ℕ, Bool, true, false, Option, none, some, List, [], ◌∷◌, ◌++◌, not, if◌then◌else◌,
}
use spec_to_rust_os.Prelude.Panic.{Outcome, returned, panicked}
use spec_to_rust_os.Sync.Cell
use spec_to_rust_os.Sync.Cell.{IntrState, UpIntrFreeCell, exclusive_session}

pub record MutexBlockingInner : Type 0 where
  pub locked : Bool
  pub waiting : List ℕ

abbrev pub new_inner : MutexBlockingInner
new_inner = record { locked = false; waiting = [] }

-- The closures that `lock` and `unlock` run in a session.
unfoldable pub lock_inner : ℕ → MutexBlockingInner → Bool × MutexBlockingInner
lock_inner tid m =
    if m.locked
    then (false, record m { waiting = m.waiting ++ tid ∷ [] })
    else (true, record m { locked = true })

-- The lock passes to the front of the queue and stays locked, if somebody waits.
unfoldable pub pass_on : Bool → List ℕ → Option ℕ × MutexBlockingInner
pass_on l [] = (none, record { locked = false; waiting = [] })
pass_on l (tid ∷ rest) = (some tid, record { locked = l; waiting = rest })

unfoldable pub unlock_inner : MutexBlockingInner → Outcome (Option ℕ × MutexBlockingInner)
unlock_inner m = if not m.locked then panicked else returned (pass_on m.locked m.waiting)

abbrev pub MutexBlocking : Type 0
MutexBlocking = UpIntrFreeCell MutexBlockingInner

abbrev pub new : MutexBlocking
new = Cell.new new_inner

unfoldable pub lock : ℕ → IntrState → MutexBlocking → Outcome (Bool × IntrState × MutexBlocking)
lock tid = exclusive_session (λ m. returned (lock_inner tid m))

unfoldable pub unlock : IntrState → MutexBlocking → Outcome (Option ℕ × IntrState × MutexBlocking)
unlock = exclusive_session unlock_inner
