-- ===== src/TaskManage/ProcThreadRel.antt =====
-- task-manage/src/lib.rs: `ProcThreadRel`. Its child fields and the methods on them are, word for
-- word, those of `ProcRel`, so they are one field here; the threads are its own.
use mathlib.Core.Path.{subst}
use spec_to_rust_os.Prelude.{
  ℕ, ◌≡◌, refl, sym, ap, ◌∙◌, true, false, Option, none, some, List, [], ◌∷◌, ◌++◌, if◌then◌else◌,
  arith,
}
use spec_to_rust_os.Prelude.Map.{lookup}
use spec_to_rust_os.Prelude.Distinct.{
  contains, Distinct, DistinctKeys, remove_first, remove_key, lookup-append, lookup-remove_key,
  append-DistinctKeys, contains-remove_first,
}
use spec_to_rust_os.TaskManage.ProcRel
use spec_to_rust_os.TaskManage.ProcRel.{ProcRel, minus_two}

pub record ProcThreadRel : Type 0 where
  pub family : ProcRel
  pub open family use *
  pub threads : List ℕ
  pub dead_threads : List (ℕ × ℕ)

unfoldable pub new : ℕ → ProcThreadRel
new parent = record { family = ProcRel.new parent; threads = []; dead_threads = [] }

-- `add_child`, `del_child`
abbrev pub on_family : (ProcRel → ProcRel) → ProcThreadRel → ProcThreadRel
on_family f r = record r { family = f r.family }

-- `wait_any_child`, `wait_child`
abbrev pub wait_family :
    (ProcRel → Option (ℕ × ℕ) × ProcRel) → ProcThreadRel → Option (ℕ × ℕ) × ProcThreadRel
wait_family f r = let (found, fam) = f r.family in (found, record r { family = fam })

unfoldable pub add_thread : ℕ → ProcThreadRel → ProcThreadRel
add_thread tid r = record r { threads = r.threads ++ tid ∷ [] }

unfoldable pub del_thread : ℕ → ℕ → ProcThreadRel → ProcThreadRel
del_thread tid exit_code r =
    if contains r.threads tid
    then record r {
      threads = remove_first tid r.threads;
      dead_threads = r.dead_threads ++ (tid, exit_code) ∷ [];
    }
    else r

-- -2 stands for a thread that lives.
unfoldable pub wait_thread : ℕ → ProcThreadRel → Option ℕ × ProcThreadRel
wait_thread tid r = elim (lookup tid r.dead_threads) [
  | some code ↦ (some code, record r { dead_threads = remove_key tid r.dead_threads })
  | none ↦ (if contains r.threads tid then some minus_two else none, r)
]

-- A thread that exits with -2 is reported as one that lives: the reply is the one that the parent got
-- while the thread ran. The entry is used up by it, so the next call finds no such thread.
pub wait_thread_ambiguous :
    (tid : ℕ) (r : ProcThreadRel)
    → contains r.threads tid ≡ true
    → lookup tid r.dead_threads ≡ none
    → Distinct r.threads
    → DistinctKeys r.dead_threads
    → let (first, r') = wait_thread tid (del_thread tid minus_two r) in
      (first ≡ some minus_two)
      × (first ≡ (wait_thread tid r).0)
      × (contains r'.threads tid ≡ false)
      × (lookup tid r'.dead_threads ≡ none)
      × ((wait_thread tid r').0 ≡ none)
unfolding wait_thread del_thread
wait_thread_ambiguous tid r lives fresh once keys =
    let dead = r.dead_threads ++ (tid, minus_two) ∷ [] in
    let found : lookup tid dead ≡ some minus_two =
      ground (arith, lookup-append r.dead_threads tid minus_two tid) in
    let used : lookup tid (remove_key tid dead) ≡ none = ground (
      arith,
      lookup-remove_key tid tid dead (append-DistinctKeys r.dead_threads tid minus_two keys fresh),
    ) in
    let left : contains (remove_first tid r.threads) tid ≡ false =
      ground (arith, contains-remove_first tid tid r.threads once) in
    let r₁ : ProcThreadRel = record r {
      threads = remove_first tid r.threads;
      dead_threads = dead;
    } in
    let r₂ : ProcThreadRel = record r₁ { dead_threads = remove_key tid dead } in
    let exited : del_thread tid minus_two r ≡ r₁ = rw (del_thread, lives) refl in
    let replied : wait_thread tid r₁ ≡ (some minus_two, r₂) = rw (wait_thread, found) refl in
    let before : some minus_two ≡ (wait_thread tid r).0 = rw (wait_thread, fresh, lives) refl in
    let again : (wait_thread tid r₂).0 ≡ none = rw (wait_thread, used, left) refl in
    subst
      (λ w.
        (w.0 ≡ some minus_two)
        × (w.0 ≡ (wait_thread tid r).0)
        × (contains w.1.threads tid ≡ false)
        × (lookup tid w.1.dead_threads ≡ none)
        × ((wait_thread tid w.1).0 ≡ none))
      (sym (ap (wait_thread tid) exited ∙ replied)) (refl, before, left, used, again)
