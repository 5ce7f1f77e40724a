-- ===== src/Kernel/Wake/Waiters.antt =====
-- ch8/src/main.rs: the threads that `wake_waittid_waiters` and `exit_current_thread` wake.
use spec_to_rust_os.Prelude.{
  ℕ, zero, suc, ◌≡◌, refl, sym, ap, ◌∙◌, Bool, true, false, Option, none, some, List, [], ◌∷◌, ◌++◌,
  ◌==◌, if◌then◌else◌, length, set, Bool-cases, Option-cases, inl, inr, arith, length-set,
}
use mathlib.Core.List.{append_assoc, append-nil}
use spec_to_rust_os.Prelude.Map.{Map, lookup, modify, lookup-modify, map_value}
use spec_to_rust_os.Prelude.Distinct.{contains}
use spec_to_rust_os.Prelude.Panic.{returned}
use spec_to_rust_os.KernelContext.{HasRegs, a_mut_0}
use spec_to_rust_os.TaskManage.PThreadManager as Threads
use spec_to_rust_os.Kernel.Managers.{ThreadManager}
use spec_to_rust_os.Kernel.Process.{Thread}
use spec_to_rust_os.Kernel.State.{Processor, put_task}
use spec_to_rust_os.Kernel.Wake.{wake, wake_all, with_context}

-- The thread with `ret` in its register a0.
abbrev pub with_a0 : ℕ → Thread → Thread
with_a0 ret t =
    with_context (record t.context.context { regs = set t.context.context.regs 9 ret }) t

abbrev pub AllRegs : Map Thread → Type 0
AllRegs store = (j : ℕ) (t : Thread) → lookup j store ≡ some t → HasRegs t.context.context

-- The processor with this thread manager.
abbrev pub with_threads : {S Sp : Type 0} → ThreadManager Thread → Processor S Sp → Processor S Sp
with_threads tm s = record s { thread_manager = some tm }

abbrev exists : Option Thread → Bool
exists none = false
exists (some t) = true

-- The threads of the list that exist.
unfoldable pub live : List ℕ → Map Thread → List ℕ
live [] store = []
live (tid ∷ tids) store =
    let rest = live tids store in if exists (lookup tid store) then tid ∷ rest else rest

pub wake_absent :
    {S Sp : Type 0} (tid ret : ℕ) (tm : ThreadManager Thread) (s : Processor S Sp)
    → lookup tid tm.store ≡ none
    → wake tid ret (with_threads tm s) ≡ returned (with_threads tm s)
unfolding wake Threads.get_task
wake_absent tid ret tm s e = rw (wake, e) refl

pub wake_present :
    {S Sp : Type 0} (tid ret : ℕ) (t : Thread) (tm : ThreadManager Thread) (s : Processor S Sp)
    → lookup tid tm.store ≡ some t
    → HasRegs t.context.context
    → wake tid ret (with_threads tm s)
      ≡ returned (
          with_threads
            (record {
              store = modify tid (λ _. with_a0 ret t) tm.store;
              ready = tm.ready ++ tid ∷ [];
            })
            s)
unfolding wake Threads.get_task Threads.re_enque put_task
wake_present tid ret t tm s e full = rw (wake, e, a_mut_0 ret t.context.context full) refl

-- The threads of the list that exist enter the queue in its order with `ret` in a0, and nothing else changes.
abbrev pub Woken : ℕ → List ℕ → ThreadManager Thread → ThreadManager Thread → Type 0
Woken ret tids tm tm' =
    (tm'.ready ≡ tm.ready ++ live tids tm.store)
    × ((j : ℕ)
        → lookup j tm'.store ≡ (
            if contains tids j
            then map_value (with_a0 ret) (lookup j tm.store)
            else lookup j tm.store))

-- The store after one thread is woken.
after_wake :
    (tid ret : ℕ) (t : Thread) (store : Map Thread) (j : ℕ)
    → lookup tid store ≡ some t
    → lookup j (modify tid (λ _. with_a0 ret t) store)
      ≡ (if tid == j then map_value (with_a0 ret) (lookup j store) else lookup j store)
after_wake tid ret t store j e = elim (Bool-cases (tid == j)) [
  | inl here ↦
      (let same : tid ≡ j = ground arith in
        rw (lookup-modify tid j (λ _. with_a0 ret t) store, here) (rw (sym same) (rw e refl)))
  | inr other ↦ rw (lookup-modify tid j (λ _. with_a0 ret t) store, other) refl
]

live_same :
    (tids : List ℕ) (m n : Map Thread)
    → ((j : ℕ) → exists (lookup j m) ≡ exists (lookup j n))
    → live tids m ≡ live tids n
unfolding live
live_same [] m n same = refl
live_same (tid ∷ tids) m n same = rw (live, same tid, live_same tids m n same) refl

exists_map :
    (f : Thread → Thread) (o : Option Thread) (b : Bool)
    → exists (if b then map_value f o else o) ≡ exists o
exists_map f none true = refl
exists_map f none false = refl
exists_map f (some t) true = refl
exists_map f (some t) false = refl

set_twice : {A : Type 0} (l : List A) (i : ℕ) (v w : A) → set (set l i v) i w ≡ set l i w
set_twice [] i v w = refl
set_twice (x ∷ l) zero v w = refl
set_twice (x ∷ l) (suc i) v w = ap (λ r. x ∷ r) (set_twice l i v w)

-- A thread whose a0 is written twice keeps the last.
twice :
    (ret : ℕ) (o : Option Thread) (b c : Bool)
    → (if c
        then map_value (with_a0 ret) (if b then map_value (with_a0 ret) o else o)
        else (if b then map_value (with_a0 ret) o else o))
      ≡ (if if b then true else c then map_value (with_a0 ret) o else o)
twice ret none b c = ground arith
twice ret (some t) true true =
    ap (λ r. some (with_context (record t.context.context { regs = r }) t))
      (set_twice t.context.context.regs 9 ret ret)
twice ret (some t) true false = refl
twice ret (some t) false true = refl
twice ret (some t) false false = refl

abbrev pub regs_of : Option Thread → List ℕ
regs_of none = []
regs_of (some t) = t.context.context.regs

kept_regs :
    (ret : ℕ) (o : Option Thread) (b : Bool) (u : Thread)
    → ((t : Thread) → o ≡ some t → HasRegs t.context.context)
    → (if b then map_value (with_a0 ret) o else o) ≡ some u
    → HasRegs u.context.context
kept_regs ret none true u full h = cc
kept_regs ret none false u full h = cc
kept_regs ret (some t) true u full h =
    sym (ap (λ o. length (regs_of o)) h) ∙ length-set t.context.context.regs 9 ret ∙ full t refl
kept_regs ret (some t) false u full h = full u h

after_wake-AllRegs :
    (tid ret : ℕ) (t : Thread) (store : Map Thread)
    → lookup tid store ≡ some t
    → AllRegs store
    → AllRegs (modify tid (λ _. with_a0 ret t) store)
after_wake-AllRegs tid ret t store e full j u h =
    kept_regs ret (lookup j store) (tid == j) u (full j) (sym (after_wake tid ret t store j e) ∙ h)

absent_too :
    (tid ret : ℕ) (tids : List ℕ) (store : Map Thread) (j : ℕ)
    → lookup tid store ≡ none
    → (if contains tids j then map_value (with_a0 ret) (lookup j store) else lookup j store) ≡ (
        if contains (tid ∷ tids) j
        then map_value (with_a0 ret) (lookup j store)
        else lookup j store)
unfolding contains
absent_too tid ret tids store j e = elim (Bool-cases (tid == j)) [
  | inl here ↦
      (let same : tid ≡ j = ground arith in
        rw (contains, here) (rw (sym same) (rw e (ground arith))))
  | inr other ↦ rw (contains, other) refl
]

-- The loop wakes the threads of its list that exist, and always returns.
pub wake_all_lem :
    {S Sp : Type 0} (tids : List ℕ) (ret : ℕ) (tm : ThreadManager Thread) (s : Processor S Sp)
    → AllRegs tm.store
    → (tm' : ThreadManager Thread) × (wake_all tids ret (with_threads tm s)
        ≡ returned (with_threads tm' s))
      × Woken ret tids tm tm'
unfolding wake_all live contains
wake_all_lem [] ret tm s full = (tm, refl, (sym (append-nil tm.ready), λ j. refl))
wake_all_lem (tid ∷ tids) ret tm s full = elim (Option-cases (lookup tid tm.store)) [
  | inl e ↦
      (let (tm', went, (ready, store)) = wake_all_lem tids ret tm s full in
        (
          tm',
          rw (wake_all, wake_absent tid ret tm s e) went,
          (rw (live, e) ready, λ j. store j ∙ absent_too tid ret tids tm.store j e),
        ))
  | inr (t, e) ↦
      (let tm₁ : ThreadManager Thread = record {
        store = modify tid (λ _. with_a0 ret t) tm.store;
        ready = tm.ready ++ tid ∷ [];
      } in
        let changed = λ (j : ℕ). after_wake tid ret t tm.store j e in
        let (tm', went, (ready, store)) =
          wake_all_lem tids ret tm₁ s (after_wake-AllRegs tid ret t tm.store e full) in
        (
          tm',
          rw (wake_all, wake_present tid ret t tm s e (full tid t e)) went,
          (
            ready
                ∙ append_assoc tm.ready (tid ∷ []) (live tids tm₁.store)
                ∙ ap (λ r. tm.ready ++ r)
                    (rw (live, e)
                      (ap (λ r. tid ∷ r)
                        (live_same tids tm₁.store tm.store (λ j.
                          ap exists (changed j)
                          ∙ exists_map (with_a0 ret) (lookup j tm.store) (tid == j))))),
            λ j.
                store j
                ∙ rw (changed j) (twice ret (lookup j tm.store) (tid == j) (contains tids j)),
          ),
        ))
]
