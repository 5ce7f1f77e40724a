-- ===== src/Kernel/Process/Slots.antt =====
-- ch8/src/main.rs: the search of `alloc_thread_stack` for a slot that is free ends.
use spec_to_rust_os.Prelude.{
  ℕ, zero, suc, ◌+◌, ◌≤◌, ◌<◌, ◌≡◌, refl, sym, ◌∙◌, true, false, not, ◌&&◌, some, [], ◌∷◌, ◌==◌,
  if◌then◌else◌, length, Bool-cases, inl, inr, arith,
}
use spec_to_rust_os.Prelude.Map.{Map}
use spec_to_rust_os.Kernel.Process.{slot_taken, first_slot}

-- Removing the entries of a slot.
without : ℕ → Map ℕ → Map ℕ
without slot [] = []
without slot ((t, s) ∷ stacks) =
    let rest = without slot stacks in if s == slot then rest else (t, s) ∷ rest

slot_taken-without :
    (slot j : ℕ) (stacks : Map ℕ)
    → slot_taken (without slot stacks) j ≡ (slot_taken stacks j && not (slot == j))
unfolding slot_taken without
slot_taken-without slot j [] = refl
slot_taken-without slot j ((t, s) ∷ stacks) = ground (arith, slot_taken-without slot j stacks)

length-without : (slot : ℕ) (stacks : Map ℕ) → length (without slot stacks) ≤ length stacks
unfolding without
length-without slot [] = omega arith
length-without slot ((t, s) ∷ stacks) = ground (arith, length-without slot stacks)

shorter :
    (slot : ℕ) (stacks : Map ℕ)
    → slot_taken stacks slot ≡ true
    → length (without slot stacks) < length stacks
unfolding slot_taken without
shorter slot [] h = cc
shorter slot ((t, s) ∷ stacks) h = ground (arith, shorter slot stacks, length-without slot stacks)

-- The first slot from `slot` on that no thread has.
abbrev pub FirstFree : Map ℕ → ℕ → ℕ → Type 0
FirstFree stacks slot k =
    (slot ≤ k)
    × (slot_taken stacks k ≡ false)
    × ((j : ℕ) → slot ≤ j → j < k → slot_taken stacks j ≡ true)

-- `left` are the stacks whose slots may still be met.
first_slot_left :
    (fuel : ℕ) (stacks left : Map ℕ) (slot : ℕ)
    → length left < fuel
    → ((j : ℕ) → slot ≤ j → slot_taken stacks j ≡ slot_taken left j)
    → (k : ℕ) × (first_slot fuel stacks slot ≡ some k)
      × (k ≤ slot + length left)
      × FirstFree stacks slot k
unfolding first_slot
first_slot_left zero stacks left slot short same = absurd (omega arith)
first_slot_left (suc fuel) stacks left slot short same =
    elim (Bool-cases (slot_taken stacks slot)) [
      | inl taken ↦
          (let here : slot_taken left slot ≡ true = sym (same slot (omega arith)) ∙ taken in
            let less : length (without slot left) < length left = shorter slot left here in
            let (k, e, near, (above, free, before)) =
              first_slot_left fuel stacks (without slot left) (suc slot) (omega arith)
                (λ j lo. same j (omega arith) ∙ ground (arith, slot_taken-without slot j left)) in
            (
              k,
              rw (first_slot, taken) e,
              omega arith,
              (
                omega arith,
                free,
                λ j lo h. elim (Bool-cases (slot == j)) [
                  | inl q ↦ (let r : slot ≡ j = ground arith in rw (sym r) taken)
                  | inr q ↦ before j (ground arith) h
                ],
              ),
            ))
      | inr free ↦ (
        slot,
        rw (first_slot, free) refl,
        omega arith,
        (omega arith, free, λ j lo h. absurd (omega arith)),
      )
    ]

pub first_slot_lem :
    (stacks : Map ℕ)
    → (k : ℕ) × (first_slot (suc (length stacks)) stacks 0 ≡ some k)
      × (k ≤ length stacks)
      × FirstFree stacks 0 k
first_slot_lem stacks =
    let (k, e, near, first) =
      first_slot_left (suc (length stacks)) stacks stacks 0 (omega arith) (λ j lo. refl) in
    (k, e, omega arith, first)
