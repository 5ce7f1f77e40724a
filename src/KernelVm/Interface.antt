-- ===== src/KernelVm/Interface.antt =====
-- kernel-vm/src/lib.rs: the trait `PageManager`, and what the file uses of the crate page-table, which is
-- outside the repository. Page numbers, page table entries, flags and pointers are numbers. `S` is the
-- physical memory with the pages that are free.
use spec_to_rust_os.Prelude.{ℕ, Bool, Option}
use spec_to_rust_os.Prelude.Panic.{Outcome}

-- `VmMeta`, and the methods of `Pte`, `VmFlags` and `VAddr` for it.
pub record VmMeta : Type 0 where
  pub page_bits : ℕ
  pub valid_flag : ℕ
  pub is_valid : ℕ → Bool
  pub ppn : ℕ → ℕ
  pub flags : ℕ → ℕ
  pub build_pte : ℕ → ℕ → ℕ
  pub contains : ℕ → ℕ → Bool
  pub floor : ℕ → ℕ
  pub offset : ℕ → ℕ

pub record PageManager (M S : Type 0) : Type 0 where
  pub new_root : S → M × S
  pub root_ptr : M → ℕ
  pub root_ppn : M → ℕ
  pub p_to_v : M → ℕ → ℕ
  pub v_to_p : M → ℕ → ℕ
  pub allocate : ℕ → ℕ → M × S → (ℕ × ℕ) × M × S
  pub deallocate : ℕ → ℕ → M × S → M × S
  pub check_owned : M → ℕ → Bool
  pub drop_root : M × S → M × S

-- The bytes of the memory, by their pointers.
pub record Memory (S : Type 0) : Type 0 where
  pub load : ℕ → S → ℕ
  pub store : ℕ → ℕ → S → S

-- A visitor whose methods all stop the walk: `arrive pte target result`, and `meet pte` with the pointer to
-- the next table. Its `block` changes nothing.
pub record Visitor (R : Type 0) : Type 0 where
  pub arrive : ℕ → ℕ → R → R
  pub meet : ℕ → Option ℕ

-- A decorator whose methods `arrive` and `block` stop the walk and install a table: `arrive pte target` is
-- the new entry, and `block` gives an entry for a new table with the pointer to it.
pub record Decorator (M S : Type 0) : Type 0 where
  pub arrive : ℕ → ℕ → Outcome ℕ
  pub meet : M → ℕ → Outcome (Option ℕ)
  pub block : M × S → (ℕ × ℕ) × M × S

-- `walk` and `walk_mut` of a `PageTable`, from the pointer to a root table to a page.
pub record PageTable (M S : Type 0) : Type 1 where
  pub walk : {R : Type 0} → Visitor R → ℕ → ℕ → S → R → R
  pub walk_mut : Decorator M S → ℕ → ℕ → M × S → Outcome (M × S)
