-- ===== src/KernelContext.antt =====
-- kernel-context/src/lib.rs: `LocalContext`, the registers of a thread that does not run. `execute`
-- and the portal to another address space are assembly, and are left out.
use spec_to_rust_os.Prelude.{
  ℕ, ◌+◌, ◌-◌, ◌%◌, ◌^◌, ◌≤◌, ◌<◌, ◌≡◌, ◌≢◌, refl, Bool, true, false, ◌&&◌, none, some, List, leb,
  if◌then◌else◌, length, get_elem?, set, replicate, length-set, get_elem?-set_self,
  get_elem?-set_ne, Bool-cases, inl, inr, arith,
}
use spec_to_rust_os.Prelude.Panic.{Outcome, returned, panicked, ◌>>=◌}

pub record LocalContext : Type 0 where
  pub regs : List ℕ
  pub sepc : ℕ
  pub supervisor : Bool
  pub interrupt : Bool

unfoldable pub empty : LocalContext
empty = record { regs = replicate 31 0; sepc = 0; supervisor = false; interrupt = false }

unfoldable pub user : ℕ → LocalContext
user pc = record { regs = replicate 31 0; sepc = pc; supervisor = false; interrupt = true }

unfoldable pub thread : ℕ → Bool → LocalContext
thread pc interrupt = record {
  regs = replicate 31 0;
  sepc = pc;
  supervisor = true;
  interrupt = interrupt;
}

-- The index into the registers; an index past the array is a panic too.
slot : ℕ → LocalContext → Outcome ℕ
slot n c = elim (get_elem? c.regs n) [ none ↦ panicked | some v ↦ returned v ]

unfoldable pub x : ℕ → LocalContext → Outcome ℕ
unfolding slot
x n c = if leb 1 n && leb n 31 then slot (n - 1) c else panicked

-- A write through the reference that `x_mut` returns.
unfoldable pub x_mut : ℕ → ℕ → LocalContext → Outcome LocalContext
unfolding slot
x_mut n v c =
    if leb 1 n && leb n 31
    then (slot (n - 1) c >>= λ _. returned (record c { regs = set c.regs (n - 1) v }))
    else panicked

unfoldable pub a : ℕ → LocalContext → Outcome ℕ
a n c = if leb n 7 then x (10 + n) c else panicked

unfoldable pub a_mut : ℕ → ℕ → LocalContext → Outcome LocalContext
a_mut n v c = if leb n 7 then x_mut (10 + n) v c else panicked

unfoldable pub ra : LocalContext → Outcome ℕ
ra c = x 1 c

unfoldable pub sp : LocalContext → Outcome ℕ
sp c = x 2 c

unfoldable pub sp_mut : ℕ → LocalContext → Outcome LocalContext
sp_mut v c = x_mut 2 v c

abbrev pub pc : LocalContext → ℕ
pc c = c.sepc

abbrev pub pc_mut : ℕ → LocalContext → LocalContext
pc_mut v c = record c { sepc = v }

-- `wrapping_add(4)`
unfoldable pub move_next : LocalContext → LocalContext
move_next c = record c { sepc = (c.sepc + 4) % 2 ^ 64 }

abbrev pub HasRegs : LocalContext → Type 0
HasRegs c = length c.regs ≡ 31

slot-some : (l : List ℕ) (i : ℕ) → i < length l → (v : ℕ) × (get_elem? l i ≡ some v)
slot-some List.[] i h = absurd (omega arith)
slot-some (List.◌∷◌ y l) ℕ.zero h = (y, refl)
slot-some (List.◌∷◌ y l) (ℕ.suc i) h = slot-some l i (omega arith)

-- Within range a write through `x_mut` succeeds, is read back by `x`, and leaves the other registers,
-- the program counter and the flags alone; out of range both panic.
pub x-x_mut :
    (n v : ℕ) (c : LocalContext)
    → HasRegs c
    → 1 ≤ n
    → n ≤ 31
    → (c' : LocalContext) × (x_mut n v c ≡ returned c')
      × (x n c' ≡ returned v)
      × ((j : ℕ) → j ≢ n → x j c' ≡ x j c)
      × (c'.sepc ≡ c.sepc)
      × HasRegs c'
unfolding x x_mut
x-x_mut n v c full lo hi =
    let (old, e) = slot-some c.regs (n - 1) (omega arith) in
    (
      record c { regs = set c.regs (n - 1) v },
      ground (arith, e),
      ground (arith, get_elem?-set_self c.regs (n - 1) v),
      λ j other. elim (Bool-cases (leb 1 j && leb j 31)) [
        | inl range ↦
            (let ne : n - 1 ≢ j - 1 = λ q. ground arith in
              rw range (rw (get_elem?-set_ne c.regs {i = n - 1} {j = j - 1} v ne, slot)))
        | inr outside ↦ rw outside
      ],
      refl,
      ground (arith, length-set c.regs (n - 1) v),
    )

-- A write to a0, which lies at index 9, succeeds.
pub a_mut_0 :
    (v : ℕ) (c : LocalContext)
    → HasRegs c
    → a_mut 0 v c ≡ returned (record c { regs = set c.regs 9 v })
unfolding a_mut x_mut slot
a_mut_0 v c full = let (old, e) = slot-some c.regs 9 (omega arith) in rw (slot, e) refl
