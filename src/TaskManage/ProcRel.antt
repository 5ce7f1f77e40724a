-- ===== src/TaskManage/ProcRel.antt =====
-- task-manage/src/lib.rs: `ProcRel`. Exit codes are the bit patterns of `isize`.
pub mod Status
use spec_to_rust_os.Prelude.{ℕ, ◌-◌, ◌^◌, Option, none, some, List, [], ◌∷◌, ◌++◌, if◌then◌else◌}
use spec_to_rust_os.Prelude.Map.{lookup}
use spec_to_rust_os.Prelude.Distinct.{contains, remove_first, remove_key}

abbrev pub usize_max : ℕ
usize_max = 2 ^ 64 - 1

-- `isize` literals -1 and -2
abbrev pub minus_one : ℕ
minus_one = 2 ^ 64 - 1

abbrev pub minus_two : ℕ
minus_two = 2 ^ 64 - 2

-- "Some children live, none has died": a pid that no process has, and -1.
abbrev pub still_running : ℕ × ℕ
still_running = (usize_max - 1, minus_one)

pub record ProcRel : Type 0 where
  pub parent : ℕ
  pub children : List ℕ
  pub dead_children : List (ℕ × ℕ)

unfoldable pub new : ℕ → ProcRel
new parent_pid = record { parent = parent_pid; children = []; dead_children = [] }

unfoldable pub add_child : ℕ → ProcRel → ProcRel
add_child child_pid r = record r { children = r.children ++ child_pid ∷ [] }

unfoldable pub del_child : ℕ → ℕ → ProcRel → ProcRel
del_child child_pid exit_code r =
    if contains r.children child_pid
    then record r {
      children = remove_first child_pid r.children;
      dead_children = r.dead_children ++ (child_pid, exit_code) ∷ [];
    }
    else r

reap_any : ProcRel → List ℕ → List (ℕ × ℕ) → Option (ℕ × ℕ) × ProcRel
reap_any r [] [] = (none, r)
reap_any r _ (dead ∷ rest) = (some dead, record r { dead_children = rest })
reap_any r _ [] = (some still_running, r)

unfoldable pub wait_any_child : ProcRel → Option (ℕ × ℕ) × ProcRel
unfolding reap_any
wait_any_child r = reap_any r r.children r.dead_children

unfoldable pub wait_child : ℕ → ProcRel → Option (ℕ × ℕ) × ProcRel
wait_child child_pid r = elim (lookup child_pid r.dead_children) [
  | some code ↦
      (some (child_pid, code), record r { dead_children = remove_key child_pid r.dead_children })
  | none ↦ (if contains r.children child_pid then some still_running else none, r)
]
