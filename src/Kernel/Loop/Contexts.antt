-- ===== src/Kernel/Loop/Contexts.antt =====
-- ch8/src/main.rs: the contexts of the threads stay whole through a trap.
use spec_to_rust_os.Prelude.{
  ℕ, ◌≡◌, sym, ap, ◌∙◌, Bool, true, false, Option, none, some, List, [], ◌==◌, if◌then◌else◌,
  length, length-set,
}
use spec_to_rust_os.Prelude.Map.{Map, lookup, modify, lookup-modify, map_value}
use spec_to_rust_os.Prelude.Panic.{Outcome, returned, panicked}
use spec_to_rust_os.KernelContext.{LocalContext, HasRegs, a_mut_0, pc_mut}
use spec_to_rust_os.Signal.State.{SignalResult, SignalImpl}
use spec_to_rust_os.Signal.State.Delivery.{
  Delivery, killed, resumed, still_frozen, in_handler, nothing_due, stopped, entered, dropped,
  killed_by_default,
}
use spec_to_rust_os.Kernel.Process.{Thread}
use spec_to_rust_os.Kernel.Wake.{with_context}
use spec_to_rust_os.Kernel.Wake.Waiters.{AllRegs, regs_of}

abbrev regs_in : Outcome LocalContext → List ℕ
regs_in panicked = []
regs_in (returned c) = c.regs

-- The context stays one of 31 registers, whatever the signals do.
pub Delivery-HasRegs :
    {s : SignalImpl} {c : LocalContext} {r : SignalResult} {s' : SignalImpl} {c' : LocalContext}
    → HasRegs c
    → Delivery s c r s' c'
    → HasRegs c'
Delivery-HasRegs full (killed _) = full
Delivery-HasRegs full (resumed _ _ _) = full
Delivery-HasRegs full (still_frozen _ _ _) = full
Delivery-HasRegs full (in_handler _ _ _) = full
Delivery-HasRegs full (nothing_due _ _) = full
Delivery-HasRegs full (stopped _ _) = full
Delivery-HasRegs {c = c} full (entered k c' _ _ _ _ e) =
    sym (ap (λ o. length (regs_in o)) (sym (a_mut_0 k (pc_mut _ c) full) ∙ e))
    ∙ length-set c.regs 9 k
    ∙ full
Delivery-HasRegs full (dropped _ _ _ _ _ _) = full
Delivery-HasRegs full (killed_by_default _ _ _ _ _ _) = full

kept_context :
    (t : Thread) (o : Option Thread) (b : Bool) (u : Thread)
    → HasRegs t.context.context
    → ((v : Thread) → o ≡ some v → HasRegs v.context.context)
    → (if b then map_value (λ _. t) o else o) ≡ some u
    → HasRegs u.context.context
kept_context t none true u ok full h = cc
kept_context t none false u ok full h = cc
kept_context t (some v) true u ok full h = sym (ap (λ o. length (regs_of o)) h) ∙ ok
kept_context t (some v) false u ok full h = full u h

pub kept-AllRegs :
    (tid : ℕ) (c : LocalContext) (t : Thread) (store : Map Thread)
    → AllRegs store
    → HasRegs c
    → AllRegs (modify tid (λ _. with_context c t) store)
kept-AllRegs tid c t store full ok j u h =
    kept_context (with_context c t) (lookup j store) (tid == j) u ok (full j)
      (sym (lookup-modify tid j (λ _. with_context c t) store) ∙ h)
