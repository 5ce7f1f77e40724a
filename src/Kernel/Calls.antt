-- ===== src/Kernel/Calls.antt =====
-- ch8/src/main.rs: what the handlers of the system calls share. A handler may return early, with the
-- pattern of an `isize`, change the kernel, or panic.
pub mod Machine
pub mod Sync
pub mod Threads
pub mod Processes
pub mod Files
pub mod Signals
use spec_to_rust_os.Prelude.{ℕ, ◌==◌, if◌then◌else◌, Option, none, some}
use spec_to_rust_os.Prelude.Map.{map_value}
use spec_to_rust_os.Prelude.Panic.{Outcome, returned, panicked}
use spec_to_rust_os.Sync.Cell.{IntrState}
use spec_to_rust_os.Kernel.Process.{Thread, Process}
use spec_to_rust_os.Kernel.Wake.{on_processor}
use spec_to_rust_os.Kernel.State.{
  Kernel, Processor, minus_one, usize_max, get_task, get_proc, get_current_proc, put_current_proc,
  current_space,
}

pub data Exit (A : Type 0) : Type 0 where
  early : ℕ → Exit A
  going : A → Exit A

abbrev pub Call : Type 0 → Type 0 → Type 0
Call K A = K → Outcome (Exit A × K)

abbrev pub continue :
    {K A B : Type 0} → (A → Call K B) → Outcome (Exit A × K) → Outcome (Exit B × K)
continue f panicked = panicked
continue f (returned (early r, k)) = returned (early r, k)
continue f (returned (going a, k)) = f a k

infixl 5 ◌>>=◌ ◌>>◌
abbrev pub ◌>>=◌ : {K A B : Type 0} → Call K A → (A → Call K B) → Call K B
m >>= f = λ k. continue f (m k)

abbrev pub ◌>>◌ : {K B : Type 0} → Call K (Unit {0}) → Call K B → Call K B
m >> n = m >>= λ _. n

abbrev finish : {K : Type 0} → Outcome (Exit ℕ × K) → Outcome (ℕ × K)
finish panicked = panicked
finish (returned (early r, k)) = returned (r, k)
finish (returned (going r, k)) = returned (r, k)

abbrev pub handler : {K : Type 0} → Call K ℕ → K → Outcome (ℕ × K)
handler m k = finish (m k)

module _ {K A : Type 0} where
  abbrev pub give : A → Call K A
  give a k = returned (going a, k)

  abbrev pub leave : ℕ → Call K A
  leave r k = returned (early r, k)

  -- `let Some(x) = o else { return -1 };`
  abbrev pub some_or_fail : Option A → Call K A
  some_or_fail none = leave minus_one
  some_or_fail (some x) = give x

  abbrev pub read_from : (K → A) → Call K A
  read_from f k = returned (going (f k), k)

  abbrev lifted : K → Outcome A → Outcome (Exit A × K)
  lifted k panicked = panicked
  lifted k (returned a) = returned (going a, k)

  -- A computation that reads the kernel and may panic, and one that changes it as well.
  abbrev pub ask : (K → Outcome A) → Call K A
  ask f k = lifted k (f k)

  abbrev ran : Outcome (A × K) → Outcome (Exit A × K)
  ran panicked = panicked
  ran (returned (a, k)) = returned (going a, k)

  abbrev pub run : (K → Outcome (A × K)) → Call K A
  run f k = ran (f k)

abbrev changed : {K : Type 0} → Outcome K → Outcome (Exit (Unit {0}) × K)
changed panicked = panicked
changed (returned k) = returned (going tt, k)

abbrev pub change : {K : Type 0} → (K → Outcome K) → Call K (Unit {0})
change f k = changed (f k)

-- `CURRENT_TID.unwrap_or(usize::MAX)`, after which the handler fails on `usize::MAX`.
abbrev or_usize_max : Option ℕ → ℕ
or_usize_max none = usize_max
or_usize_max (some n) = n

module _ {S Sp Mem : Type 0} where
  unfoldable pub current_process_mut : Kernel S Sp Mem → Outcome (Option (Process S Sp))
  current_process_mut k = elim k.processor [ none ↦ returned none | some s ↦ get_current_proc s ]

  abbrev pub current_process : Call (Kernel S Sp Mem) (Process S Sp)
  current_process = ask current_process_mut >>= some_or_fail

  -- A change of the process that `current_process_mut` returned.
  unfoldable pub put_process : Process S Sp → Kernel S Sp Mem → Kernel S Sp Mem
  put_process p k = record k { processor = map_value (put_current_proc p) k.processor }

  abbrev pub write_process : Process S Sp → Call (Kernel S Sp Mem) (Unit {0})
  write_process p = change (λ k. returned (put_process p k))

  abbrev pub processor : Call (Kernel S Sp Mem) (Processor S Sp)
  processor = read_from (λ k. k.processor) >>= some_or_fail

  abbrev pub process : ℕ → Call (Kernel S Sp Mem) (Process S Sp)
  process pid = processor >>= λ s. ask (λ k. get_proc pid s) >>= some_or_fail

  abbrev pub task : ℕ → Call (Kernel S Sp Mem) Thread
  task tid = processor >>= λ s. ask (λ k. get_task tid s) >>= some_or_fail

  -- A change of the processor, which is there.
  abbrev pub on_it : (Processor S Sp → Outcome (Processor S Sp)) → Call (Kernel S Sp Mem) (Unit {0})
  on_it f = change (on_processor f)

  -- `current_space()`, or failure.
  abbrev pub user_space : Call (Kernel S Sp Mem) Sp
  user_space = read_from current_space >>= some_or_fail

  abbrev kept_session :
      {A C : Type 0}
      → Kernel S Sp Mem
      → Outcome (A × IntrState × C)
      → Outcome ((A × C) × Kernel S Sp Mem)
  kept_session k panicked = panicked
  kept_session k (returned (a, intr, c)) = returned ((a, c), record k { intr = intr })

  -- An operation of a cell of the sync library, under the interrupt state of the processor.
  abbrev pub in_session :
      {A C : Type 0}
      → (IntrState → C → Outcome (A × IntrState × C))
      → C
      → Call (Kernel S Sp Mem) (A × C)
  in_session op c = run (λ k. kept_session k (op k.intr c))

  abbrev known : ℕ → Call (Kernel S Sp Mem) ℕ
  known n = if n == usize_max then leave minus_one else give n

  abbrev pub current_tid : Call (Kernel S Sp Mem) ℕ
  current_tid = read_from (λ k. or_usize_max k.current_tid) >>= known

  abbrev pub current_pid : Call (Kernel S Sp Mem) ℕ
  current_pid = read_from (λ k. or_usize_max k.current_pid) >>= known
