-- ===== src/Kernel/Process/Stacks.antt =====
-- ch8/src/main.rs: the stacks of the threads of a process, each in a slot of its own below the portal.
use spec_to_rust_os.Prelude.{
  ℕ, ◌+◌, ◌-◌, ◌*◌, ◌%◌, ◌^◌, ◌≤◌, ◌<◌, ◌≡◌, ◌≢◌, refl, sym, true, false, Option, none, some, [],
  ◌∷◌, ◌==◌, if◌then◌else◌, ltb, length, Bool-cases, inl, inr, arith, ◌⊎◌,
}
use mathlib.Core.Path.{subst}
use spec_to_rust_os.Prelude.Map
use spec_to_rust_os.Prelude.Map.{Map, lookup, remove, lookup-insert}
use spec_to_rust_os.Kernel.Vm.{Vm, vrwu}
use spec_to_rust_os.Kernel.Process.Slots.{first_slot_lem}
use spec_to_rust_os.Kernel.Process.{
  Process, alloc_thread_stack, assign_stack, map_thread_stack, stack_vpn, slot_taken, portal_vpn,
}

slot_taken-lookup :
    (u s : ℕ) (stacks : Map ℕ) → lookup u stacks ≡ some s → slot_taken stacks s ≡ true
unfolding slot_taken lookup
slot_taken-lookup u s [] h = cc
slot_taken-lookup u s ((t, r) ∷ stacks) h = ground (arith, slot_taken-lookup u s stacks)

-- The last slot whose stack is above address 0 is 67108862.
stack_vpn_low : (s : ℕ) → s < 67108863 → stack_vpn s ≡ some (portal_vpn - 2 * (s + 1))
unfolding stack_vpn portal_vpn
stack_vpn_low s h = ground arith

stack_vpn-some :
    (s v : ℕ)
    → s < 2 ^ 64 - 1
    → stack_vpn s ≡ some v
    → (s < 67108863) × (v ≡ portal_vpn - 2 * (s + 1))
unfolding stack_vpn portal_vpn
stack_vpn-some s v h e = ground arith

-- The threads of a process have different slots, whose stacks lie above address 0.
pub record SlotsApart {S Sp : Type 0} (p : Process S Sp) : Type 0 where
  pub above_zero : (t s : ℕ) → lookup t p.thread_stacks ≡ some s → s < 67108863
  pub apart :
      (t u s : ℕ) → lookup t p.thread_stacks ≡ some s → lookup u p.thread_stacks ≡ some s → t ≡ u

-- The two pages from `v` on and the two from `w` on have none in common.
abbrev pub PagesApart : ℕ → ℕ → Type 0
PagesApart v w = (v + 2 ≤ w) ⊎ (w + 2 ≤ v)

-- What `alloc_thread_stack` does: the thread gets a slot, and with it two pages below the portal that
-- are no other thread's stack and are mapped in its process, whose other threads keep their slots; or
-- there is no room, and nothing changes.
pub data StackGiven {S Sp Mem : Type 0} (vm : Vm Sp Mem) (tid : ℕ) (p : Process S Sp) (mem : Mem)
    : Option (Option ℕ × Process S Sp × Mem) → Type 0 where
  given :
      (slot vpn : ℕ) (stacks : Map ℕ)
      → stack_vpn slot ≡ some vpn
      → vpn + 2 ≤ portal_vpn
      → ((u : ℕ) → lookup u stacks ≡ (if tid == u then some slot else lookup u p.thread_stacks))
      → ((u s v : ℕ)
          → u ≢ tid
          → lookup u p.thread_stacks ≡ some s
          → stack_vpn s ≡ some v
          → PagesApart vpn v)
      → SlotsApart (record p {
        space = (vm.map vpn (vpn + 2) [] 0 vrwu p.space mem).0;
        thread_stacks = stacks;
      })
      → StackGiven vm tid p mem (
          some (
            some ((vm.vaddr ((vpn + 2) * 2 ^ 12) + (2 ^ 64 - 16)) % 2 ^ 64),
            record p {
              space = (vm.map vpn (vpn + 2) [] 0 vrwu p.space mem).0;
              thread_stacks = stacks;
            },
            (vm.map vpn (vpn + 2) [] 0 vrwu p.space mem).1,
          ))
  no_room :
      ((s : ℕ) → s < 67108863 → slot_taken p.thread_stacks s ≡ true)
      → StackGiven vm tid p mem (some (none, p, mem))

insert-SlotsApart :
    {S Sp : Type 0} (tid slot : ℕ) (space : Sp) (p : Process S Sp)
    → SlotsApart p
    → slot < 67108863
    → slot_taken p.thread_stacks slot ≡ false
    → SlotsApart (record p { space = space; thread_stacks = Map.insert tid slot p.thread_stacks })
insert-SlotsApart tid slot space p ok low free = record {
  above_zero = λ t s h. ground (arith, lookup-insert tid t slot p.thread_stacks, ok.above_zero t s);
  apart = λ t u s h k. ground (
    arith,
    lookup-insert tid t slot p.thread_stacks,
    lookup-insert tid u slot p.thread_stacks,
    ok.apart t u s,
    slot_taken-lookup t s p.thread_stacks,
    slot_taken-lookup u s p.thread_stacks,
  );
}

stack_vpn-none : (s : ℕ) → s < 2 ^ 64 - 1 → 67108863 ≤ s → stack_vpn s ≡ none
unfolding stack_vpn portal_vpn
stack_vpn-none s h le = ground arith

pages_apart :
    (s t v w : ℕ)
    → s < 67108863
    → t < 67108863
    → s ≢ t
    → stack_vpn s ≡ some v
    → stack_vpn t ≡ some w
    → PagesApart v w
unfolding portal_vpn
pages_apart s t v w hs ht ne e f =
    let (_, ev) = stack_vpn-some s v (omega arith) e in
    let (_, ew) = stack_vpn-some t w (omega arith) f in ground arith

slots_differ :
    (u slot s : ℕ) (stacks : Map ℕ)
    → slot_taken stacks slot ≡ false
    → lookup u stacks ≡ some s
    → slot ≢ s
slots_differ u slot s stacks free h q = ground (arith, slot_taken-lookup u slot stacks)

vpn_below : (slot : ℕ) → slot < 67108863 → portal_vpn - 2 * (slot + 1) + 2 ≤ portal_vpn
unfolding portal_vpn
vpn_below slot h = omega arith

mapped_none :
    {Sp Mem : Type 0} (vm : Vm Sp Mem) (slot : ℕ) (space : Sp) (mem : Mem)
    → stack_vpn slot ≡ none
    → map_thread_stack vm slot space mem ≡ (none, space, mem)
unfolding map_thread_stack
mapped_none vm slot space mem e = rw (map_thread_stack, e) refl

mapped_some :
    {Sp Mem : Type 0} (vm : Vm Sp Mem) (slot vpn : ℕ) (space : Sp) (mem : Mem)
    → stack_vpn slot ≡ some vpn
    → map_thread_stack vm slot space mem ≡ (
      some ((vm.vaddr ((vpn + 2) * 2 ^ 12) + (2 ^ 64 - 16)) % 2 ^ 64),
      (vm.map vpn (vpn + 2) [] 0 vrwu space mem).0,
      (vm.map vpn (vpn + 2) [] 0 vrwu space mem).1,
    )
unfolding map_thread_stack
mapped_some vm slot vpn space mem e = rw (map_thread_stack, e) refl

-- The search for a slot ends. The thread gets a slot that no other thread has, with two pages that are
-- mapped below the portal, and the other threads keep theirs, apart from it; or every slot above address
-- 0 is taken, and nothing changes.
pub alloc_thread_stack-StackGiven :
    {S Sp Mem : Type 0} (vm : Vm Sp Mem) (tid : ℕ) (p : Process S Sp) (mem : Mem)
    → SlotsApart p
    → length p.thread_stacks < 2 ^ 64 - 1
    → StackGiven vm tid p mem (alloc_thread_stack vm tid p mem)
unfolding alloc_thread_stack assign_stack
alloc_thread_stack-StackGiven vm tid p mem ok small =
    let (slot, found, near, (_, free, before)) = first_slot_lem p.thread_stacks in
    elim (Bool-cases (ltb slot 67108863)) [
      | inl low ↦
          (let in_room : slot < 67108863 = ground arith in
            let vpn : ℕ = portal_vpn - 2 * (slot + 1) in
            let e : stack_vpn slot ≡ some vpn = stack_vpn_low slot in_room in
            let space = (vm.map vpn (vpn + 2) [] 0 vrwu p.space mem).0 in
            let ok' = insert-SlotsApart tid slot space p ok in_room free in
            rw (alloc_thread_stack, found)
              (subst (λ r. StackGiven vm tid p mem (some (assign_stack tid slot p r)))
                (sym (mapped_some vm slot vpn p.space mem e))
                (given slot vpn (Map.insert tid slot p.thread_stacks) e (vpn_below slot in_room)
                  (λ u. lookup-insert tid u slot p.thread_stacks)
                  (λ u s v ne h f.
                    pages_apart slot s vpn v in_room (ok.above_zero u s h)
                      (slots_differ u slot s p.thread_stacks free h) e f)
                  ok')))
      | inr high ↦
          (let none_left : stack_vpn slot ≡ none =
              stack_vpn-none slot (omega arith) (ground arith) in
            rw (alloc_thread_stack, found)
              (subst (λ r. StackGiven vm tid p mem (some (assign_stack tid slot p r)))
                (sym (mapped_none vm slot p.space mem none_left))
                (no_room (λ s h. before s (omega arith) (ground arith)))))
    ]
