-- ===== src/EasyFs/UserBuffer.antt =====
-- easy-fs/src/vfs.rs: the iterator of `UserBuffer`. A pointer to a byte is its slice and its place there.
use spec_to_rust_os.Prelude.{
  ℕ, suc, Option, none, some, List, leb, if◌then◌else◌, length, get_elem?,
}
use spec_to_rust_os.Prelude.Panic.{Outcome, returned, panicked}

pub record UserBufferIterator : Type 0 where
  pub buffers : List (List ℕ)
  pub current : ℕ
  pub inner : ℕ

unfoldable pub into_iter : List (List ℕ) → UserBufferIterator
into_iter buffers = record { buffers = buffers; current = 0; inner = 0 }

-- The byte is in the slice, or the index is a panic; then the iterator moves on.
abbrev next_in : List ℕ → UserBufferIterator → Outcome (Option (ℕ × ℕ) × UserBufferIterator)
next_in buffer it =
    if leb (length buffer) it.inner
    then panicked
    else returned (
      some (it.current, it.inner),
      (if leb (length buffer) (suc it.inner)
          then record { buffers = it.buffers; current = suc it.current; inner = 0 }
          else record { buffers = it.buffers; current = it.current; inner = suc it.inner }),
    )

unfoldable pub next : UserBufferIterator → Outcome (Option (ℕ × ℕ) × UserBufferIterator)
next it = elim (get_elem? it.buffers it.current) [
  | none ↦ returned (none, it)
  | some buffer ↦ next_in buffer it
]
