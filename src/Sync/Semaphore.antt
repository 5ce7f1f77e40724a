-- ===== src/Sync/Semaphore.antt =====
-- sync/src/lib.rs: `Semaphore`. Its operations run in a session of the cell; `isize` is the bit
-- pattern, and arithmetic on it wraps, as in the release build.
pub mod Permits
pub mod Runs
use spec_to_rust_os.Prelude.{
  ℕ, ◌+◌, ◌-◌, ◌%◌, ◌^◌, Bool, true, false, Option, none, some, List, [], ◌∷◌, ◌++◌, leb, pop_front,
  if◌then◌else◌,
}
use spec_to_rust_os.Prelude.Panic.{Outcome, returned}
use spec_to_rust_os.Sync.Cell
use spec_to_rust_os.Sync.Cell.{IntrState, UpIntrFreeCell, exclusive_session}

pub record SemaphoreInner : Type 0 where
  pub count : ℕ
  pub waiting : List ℕ

-- `count < 0` of an `isize`.
abbrev pub is_negative : ℕ → Bool
is_negative n = leb (2 ^ 63) n

-- The closures that `down` and `up` run in a session.
unfoldable pub down_inner : ℕ → SemaphoreInner → Bool × SemaphoreInner
down_inner tid s =
    let count : ℕ = (s.count + (2 ^ 64 - 1)) % 2 ^ 64 in
    if is_negative count
    then (false, record { count = count; waiting = s.waiting ++ tid ∷ [] })
    else (true, record s { count = count })

unfoldable pub up_inner : SemaphoreInner → Option ℕ × SemaphoreInner
up_inner s =
    let (front, rest) = pop_front s.waiting in
    (front, record { count = (s.count + 1) % 2 ^ 64; waiting = rest })

-- `res_count as isize`
unfoldable pub new_inner : ℕ → SemaphoreInner
new_inner res_count = record { count = res_count % 2 ^ 64; waiting = [] }

abbrev pub Semaphore : Type 0
Semaphore = UpIntrFreeCell SemaphoreInner

unfoldable pub new : ℕ → Semaphore
new res_count = Cell.new (new_inner res_count)

unfoldable pub down : ℕ → IntrState → Semaphore → Outcome (Bool × IntrState × Semaphore)
down tid = exclusive_session (λ s. returned (down_inner tid s))

unfoldable pub up : IntrState → Semaphore → Outcome (Option ℕ × IntrState × Semaphore)
up = exclusive_session (λ s. returned (up_inner s))
