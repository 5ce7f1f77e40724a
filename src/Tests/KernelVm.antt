-- ===== src/Tests/KernelVm.antt =====
-- Runs of kernel-vm/src/lib.rs.
use spec_to_rust_os.Prelude.{
  ℕ, ◌+◌, ◌≤◌, ◌<◌, ◌≡◌, refl, List, [], ◌∷◌, ◌==◌, if◌then◌else◌, get_or, arith,
}
use spec_to_rust_os.KernelVm.Interface.{Memory}
use spec_to_rust_os.KernelVm.AddressSpace.{fill}
use spec_to_rust_os.KernelVm.Filling.{IsMemory, fill_lem}

abbrev memory : Memory (ℕ → ℕ)
memory = record { load = λ p s. s p; store = λ p v s. λ q. if p == q then v else s q }

memory-IsMemory : IsMemory memory
memory-IsMemory = record { load-store = λ p q v s. refl }

-- Bytes that were there before.
abbrev used : ℕ → ℕ
used p = 7

abbrev program : List ℕ
program = 19 ∷ 5 ∷ []

fill_lem_example :
    ((i : ℕ)
      → i < 2
      → memory.load (4096 + (3 + i)) (fill memory 4096 3 program 8 used) ≡ get_or program i 0)
    × ((i : ℕ) → i < 3 → memory.load (4096 + i) (fill memory 4096 3 program 8 used) ≡ 0)
    × ((i : ℕ) → 3 + 2 ≤ i → i < 8 → memory.load (4096 + i) (fill memory 4096 3 program 8 used) ≡ 0)
    × ((p : ℕ)
        → (4096 ≤ p → 4096 + 8 ≤ p)
        → memory.load p (fill memory 4096 3 program 8 used) ≡ memory.load p used)
fill_lem_example = fill_lem memory memory-IsMemory 4096 3 program 8 used (omega arith)
