-- ===== src/Tests/Sync.antt =====
-- The theorems about sync/src/lib.rs at concrete inputs.
use spec_to_rust_os.Prelude.{
  ◌+◌, ◌-◌, ◌^◌, ◌≤◌, ◌<◌, ◌≡◌, refl, true, Option, some, List, [], ◌∷◌, ◌++◌, length, pop_front,
  arith, ℕ,
}
use spec_to_rust_os.Prelude.Panic.{Outcome, returned, panicked}
use spec_to_rust_os.Sync.Cell
use spec_to_rust_os.Sync.Cell.{
  IntrState, IsMasked, initial, UpIntrFreeCell, exclusive_access, drop_pops, exclusive_session,
  push_off, pop_off, drop_releases,
}
use spec_to_rust_os.Sync.Cell.Session.{after_session, exclusive_session_lem}
use spec_to_rust_os.Sync.Semaphore.{SemaphoreInner, down_inner, up_inner, new_inner}
use spec_to_rust_os.Sync.Semaphore.Permits.{
  view, IsValid, HasRoom, acquire, release, down_inner-refines, up_inner-refines,
}
use spec_to_rust_os.Sync.Semaphore.Runs.{
  Op, run, run_permits, run_refines, granted, ups, granted-run,
}
use spec_to_rust_os.Sync.Mutex.{lock_inner}
use spec_to_rust_os.Sync.Mutex.Threads.{System, start, Reach, here, next, lock, mutual_exclusion}
use spec_to_rust_os.Sync.Condvar.{wait_with_mutex, wait_with_mutex_lem, forget}

abbrev on : IntrState
on = initial true

on-IsMasked : IsMasked on
on-IsMasked = record { off = λ h. absurd (omega arith) }

abbrev take_one : List ℕ → Outcome (Option ℕ × List ℕ)
take_one q = returned (pop_front q)

exclusive_session_lem_example :
    exclusive_session take_one on (Cell.new (7 ∷ []))
    ≡ returned (some 7, after_session on, Cell.new [])
exclusive_session_lem_example =
    exclusive_session_lem take_one on (Cell.new (7 ∷ [])) on-IsMasked refl

-- one waiter: the count is -1
abbrev busy : SemaphoreInner
busy = record { count = 2 ^ 64 - 1; waiting = 5 ∷ [] }

busy-IsValid : IsValid busy
busy-IsValid = omega arith

down_inner-refines_example :
    let (ok, t) = down_inner 6 busy in
    ((ok, view t) ≡ acquire 6 (view busy)) × IsValid t × HasRoom 0 t
down_inner-refines_example = down_inner-refines 6 0 busy busy-IsValid (omega arith)

up_inner-refines_example :
    let (woken, t) = up_inner busy in
    ((woken, view t) ≡ release (view busy)) × IsValid t × HasRoom 0 t
up_inner-refines_example = up_inner-refines 0 busy busy-IsValid (omega arith)

abbrev script : List Op
script = Op.down 1 ∷ Op.down 2 ∷ Op.up ∷ Op.up ∷ Op.down 3 ∷ []

run_refines_example : let (rs, t) = run busy script in (rs, view t) ≡ run_permits (view busy) script
run_refines_example = run_refines script busy busy-IsValid (omega arith)

granted-run_example : let (rs, t) = run (new_inner 1) script in granted rs + (view t).permits ≡ 3
unfolding ups
granted-run_example = granted-run 1 script (omega arith)

abbrev contended : System
contended = record {
  mutex = record { locked = true; waiting = 2 ∷ [] };
  holders = 1 ∷ [];
  requests = 1 ∷ 2 ∷ [];
  grants = 1 ∷ [];
}

contended-Reach : Reach contended
unfolding start lock_inner
contended-Reach = next (next here (lock 1 refl)) (lock 2 refl)

mutual_exclusion_example :
    (length contended.holders ≤ 1)
    × (0 < length contended.mutex.waiting → length contended.holders ≡ 1)
    × (contended.requests ≡ contended.grants ++ contended.mutex.waiting)
mutual_exclusion_example = mutual_exclusion contended-Reach

wait_with_mutex_lem_example :
    forget (wait_with_mutex 3 on (Cell.new (record { locked = true; waiting = [] }))) ≡ panicked
wait_with_mutex_lem_example = wait_with_mutex_lem 3 on true [] on-IsMasked
