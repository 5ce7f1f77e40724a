-- ===== src/Kernel/Managers.antt =====
-- ch8/src/main.rs: `ProcManager` and `ThreadManager`, which implement the traits of task-manage.
use spec_to_rust_os.Prelude.{ℕ, refl, List, [], ◌∷◌, ◌++◌, pop_front}
use spec_to_rust_os.Prelude.Map
use spec_to_rust_os.Prelude.Map.{Map, lookup, remove, modify, lookup-insert, lookup-remove}
use spec_to_rust_os.TaskManage.Interface.{Manage, Schedule, IsStore, IsQueue}

-- The map from identifiers that `ProcManager` is.
abbrev pub proc_manager : (T : Type 0) → Manage (Map T) T
proc_manager T = record {
  insert = Map.insert;
  delete = remove;
  get_mut = lookup;
  write = λ i t. modify i (λ _. t);
}

pub record ThreadManager (T : Type 0) : Type 0 where
  pub store : Map T
  pub ready : List ℕ

abbrev pub thread_manager : (T : Type 0) → Manage (ThreadManager T) T
thread_manager T = record {
  insert = λ i t m. record m { store = Map.insert i t m.store };
  delete = λ i m. record m { store = remove i m.store };
  get_mut = λ i m. lookup i m.store;
  write = λ i t m. record m { store = modify i (λ _. t) m.store };
}

abbrev pub thread_schedule : (T : Type 0) → Schedule (ThreadManager T)
thread_schedule T = record {
  add = λ i m. record m { ready = m.ready ++ i ∷ [] };
  fetch = λ m. let (front, rest) = pop_front m.ready in (front, record m { ready = rest });
}

-- The managers keep the contracts that task-manage relies on.
pub proc_manager-IsStore : (T : Type 0) → IsStore (proc_manager T)
proc_manager-IsStore T = record {
  get-insert = λ i j t m. lookup-insert i j t m;
  get-delete = λ i j m. lookup-remove i j m;
}

pub thread_manager-IsStore : (T : Type 0) → IsStore (thread_manager T)
thread_manager-IsStore T = record {
  get-insert = λ i j t m. lookup-insert i j t m.store;
  get-delete = λ i j m. lookup-remove i j m.store;
}

abbrev pub thread_manager-IsQueue : (T : Type 0) → IsQueue (thread_manager T) (thread_schedule T)
thread_manager-IsQueue T = record {
  ready = λ m. m.ready;
  ready-add = λ i m. refl;
  fetch-front = λ m. refl;
  ready-fetch = λ m. refl;
  ready-insert = λ i t m. refl;
  ready-delete = λ i m. refl;
  get-add = λ i j m. refl;
  get-fetch = λ j m. refl;
}
