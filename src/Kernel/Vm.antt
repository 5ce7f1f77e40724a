-- ===== src/Kernel/Vm.antt =====
-- What ch8/src/main.rs uses of kernel-vm/src/lib.rs and of the memory behind it: the operations of an
-- `AddressSpace`, as an interface. `Sp` is the type of address spaces, `Mem` that of the physical memory
-- with the allocator of its pages.
use spec_to_rust_os.Prelude.{ℕ, ◌≡◌, Option, List, ◌==◌, if◌then◌else◌}

-- The flags that the kernel passes to `VmFlags::build_from_str`, by that string.
pub data VmFlags : Type 0 where
  r : VmFlags
  w : VmFlags
  vru : VmFlags
  vrwu : VmFlags
  vrxu : VmFlags
  vrwxu : VmFlags

-- `map start end data offset flags`; `translate space address flags` is the physical address, if the page
-- is mapped with these flags; `vaddr` is `VAddr::new(x).val()`.
pub record Vm (Sp Mem : Type 0) : Type 0 where
  pub new : Mem → Sp × Mem
  pub map : ℕ → ℕ → List ℕ → ℕ → VmFlags → Sp → Mem → Sp × Mem
  pub translate : Sp → ℕ → VmFlags → Option ℕ
  pub cloneself : Sp → Sp → Mem → Sp × Mem
  pub copy_leaf_pte_from : Sp → ℕ → Sp → Sp
  pub free_allocated_pages_and_root : ℕ → Sp → Mem → Mem
  pub root_ppn : Sp → ℕ
  pub vaddr : ℕ → ℕ
  pub load : ℕ → Mem → ℕ
  pub store : ℕ → ℕ → Mem → Mem

-- The memory keeps what is written to it.
pub record IsMemory {Sp Mem : Type 0} (vm : Vm Sp Mem) : Type 0 where
  pub load-store :
      (p q v : ℕ) (m : Mem) → vm.load q (vm.store p v m) ≡ (if p == q then v else vm.load q m)
