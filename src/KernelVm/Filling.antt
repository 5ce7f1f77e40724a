-- ===== src/KernelVm/Filling.antt =====
-- kernel-vm/src/lib.rs: what `map` writes to new pages.
use spec_to_rust_os.Prelude.{
  ℕ, zero, suc, ◌+◌, ◌-◌, ◌≤◌, ◌<◌, ◌≡◌, ◌≢◌, refl, ap, ◌∙◌, true, false, List, [], ◌∷◌, ◌==◌,
  if◌then◌else◌, length, get_or, Bool-cases, inl, inr, arith,
}
use spec_to_rust_os.KernelVm.Interface.{Memory}
use spec_to_rust_os.KernelVm.AddressSpace.{write_zeros, write_data, fill}

-- The memory keeps what is written to it.
pub record IsMemory {S : Type 0} (memory : Memory S) : Type 0 where
  pub load-store :
      (p q v : ℕ) (s : S)
      → memory.load q (memory.store p v s) ≡ (if p == q then v else memory.load q s)

module _ {S : Type 0} (memory : Memory S) (law : IsMemory memory) where
  load-same : (p v : ℕ) (s : S) → memory.load p (memory.store p v s) ≡ v
  load-same p v s =
      let same : (p == p) ≡ true = ground arith in law.load-store p p v s ∙ rw same refl

  load-other : (p q v : ℕ) (s : S) → p ≢ q → memory.load q (memory.store p v s) ≡ memory.load q s
  load-other p q v s n =
      let other : (p == q) ≡ false = ground arith in law.load-store p q v s ∙ rw other refl

  write_zeros-outside :
      (base n p : ℕ) (s : S)
      → (base ≤ p → base + n ≤ p)
      → memory.load p (write_zeros memory base n s) ≡ memory.load p s
  unfolding write_zeros
  write_zeros-outside base zero p s out = refl
  write_zeros-outside base (suc n) p s out =
      write_zeros-outside (suc base) n p (memory.store base 0 s)
        (λ h. omega (arith, out (omega arith)))
      ∙ load-other base p 0 s (λ e. absurd (omega (arith, out (omega (arith, e)), e)))

  write_zeros-inside :
      (base n p : ℕ) (s : S)
      → base ≤ p
      → p < base + n
      → memory.load p (write_zeros memory base n s) ≡ 0
  unfolding write_zeros
  write_zeros-inside base zero p s lo hi = absurd (omega arith)
  write_zeros-inside base (suc n) p s lo hi = elim (Bool-cases (p == base)) [
    | inl here ↦
        (let e : p ≡ base = ground arith in
          write_zeros-outside (suc base) n p (memory.store base 0 s) (λ h. absurd (omega arith))
          ∙ ap (λ q. memory.load q (memory.store base 0 s)) e
          ∙ load-same base 0 s)
    | inr there ↦
        write_zeros-inside (suc base) n p (memory.store base 0 s) (ground arith) (omega arith)
  ]

  write_data-outside :
      (base : ℕ) (bytes : List ℕ) (p : ℕ) (s : S)
      → (base ≤ p → base + length bytes ≤ p)
      → memory.load p (write_data memory base bytes s) ≡ memory.load p s
  unfolding write_data
  write_data-outside base [] p s out = refl
  write_data-outside base (b ∷ bs) p s out =
      write_data-outside (suc base) bs p (memory.store base b s)
        (λ h. omega (arith, out (omega arith)))
      ∙ load-other base p b s (λ e. absurd (omega (arith, out (omega (arith, e)), e)))

  write_data-inside :
      (base : ℕ) (bytes : List ℕ) (i : ℕ) (s : S)
      → i < length bytes
      → memory.load (base + i) (write_data memory base bytes s) ≡ get_or bytes i 0
  unfolding write_data
  write_data-inside base [] i s lt = absurd (omega arith)
  write_data-inside base (b ∷ bs) zero s lt =
      let e : base + 0 ≡ base = omega arith in
      write_data-outside (suc base) bs (base + 0) (memory.store base b s)
        (λ h. absurd (omega arith))
      ∙ ap (λ q. memory.load q (memory.store base b s)) e
      ∙ load-same base b s
  write_data-inside base (b ∷ bs) (suc i) s lt =
      let e : base + suc i ≡ suc base + i = omega arith in
      ap (λ q. memory.load q (write_data memory (suc base) bs (memory.store base b s))) e
      ∙ write_data-inside (suc base) bs i (memory.store base b s) (omega arith)

  -- The data stand in the new pages from the offset on, the rest of the pages is zero, and no other memory
  -- changes.
  pub fill_lem :
      (base offset : ℕ) (bytes : List ℕ) (size : ℕ) (s : S)
      → offset + length bytes ≤ size
      → ((i : ℕ)
          → i < length bytes
          → memory.load (base + (offset + i)) (fill memory base offset bytes size s)
            ≡ get_or bytes i 0)
        × ((i : ℕ) → i < offset → memory.load (base + i) (fill memory base offset bytes size s) ≡ 0)
        × ((i : ℕ)
            → offset + length bytes ≤ i
            → i < size
            → memory.load (base + i) (fill memory base offset bytes size s) ≡ 0)
        × ((p : ℕ)
            → (base ≤ p → base + size ≤ p)
            → memory.load p (fill memory base offset bytes size s) ≡ memory.load p s)
  unfolding fill
  fill_lem base offset bytes size s fits =
      let tail : ℕ = offset + length bytes in
      let s₁ = write_zeros memory base offset s in
      let s₂ = write_data memory (base + offset) bytes s₁ in
      (
        λ i lt.
            let e : base + (offset + i) ≡ base + offset + i = omega arith in
            write_zeros-outside (base + tail) (size - tail) (base + (offset + i)) s₂
              (λ h. absurd (omega arith))
            ∙ ap (λ q. memory.load q s₂) e
            ∙ write_data-inside (base + offset) bytes i s₁ lt,
        λ i lt.
            write_zeros-outside (base + tail) (size - tail) (base + i) s₂
              (λ h. absurd (omega arith))
            ∙ write_data-outside (base + offset) bytes (base + i) s₁ (λ h. absurd (omega arith))
            ∙ write_zeros-inside base offset (base + i) s (omega arith) (omega arith),
        λ i lo hi.
            write_zeros-inside (base + tail) (size - tail) (base + i) s₂ (omega arith)
              (omega arith),
        λ p out.
            write_zeros-outside (base + tail) (size - tail) p s₂
              (λ h. omega (arith, out (omega arith)))
            ∙ write_data-outside (base + offset) bytes p s₁ (λ h. omega (arith, out (omega arith)))
            ∙ write_zeros-outside base offset p s (λ h. omega (arith, out h)),
      )
