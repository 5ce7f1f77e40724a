-- ===== src/TaskManage/Interface.antt =====
-- task-manage/src/lib.rs: the traits `Manage` and `Schedule`, which the kernel implements, and what
-- the managers rely on. A `&mut` that `get_mut` returns is read by `get_mut` and written by `write`.
use spec_to_rust_os.Prelude.{
  ℕ, ◌≡◌, Option, none, some, List, [], ◌∷◌, ◌++◌, ◌==◌, pop_front, if◌then◌else◌,
}

pub record Manage (M T : Type 0) : Type 0 where
  pub insert : ℕ → T → M → M
  pub delete : ℕ → M → M
  pub get_mut : ℕ → M → Option T
  pub write : ℕ → T → M → M

pub record Schedule (M : Type 0) : Type 0 where
  pub add : ℕ → M → M
  pub fetch : M → Option ℕ × M

-- A store keeps each task under its identifier.
pub record IsStore {M T : Type 0} (store : Manage M T) : Type 0 where
  pub get-insert :
      (i j : ℕ) (t : T) (m : M)
      → store.get_mut j (store.insert i t m) ≡ (if i == j then some t else store.get_mut j m)
  pub get-delete :
      (i j : ℕ) (m : M)
      → store.get_mut j (store.delete i m) ≡ (if i == j then none else store.get_mut j m)

-- A queue is first in, first out, and leaves the stored tasks alone.
pub record IsQueue {M T : Type 0} (store : Manage M T) (queue : Schedule M) : Type 0 where
  pub ready : M → List ℕ
  pub ready-add : (i : ℕ) (m : M) → ready (queue.add i m) ≡ ready m ++ i ∷ []
  pub fetch-front : (m : M) → (queue.fetch m).0 ≡ (pop_front (ready m)).0
  pub ready-fetch : (m : M) → ready (queue.fetch m).1 ≡ (pop_front (ready m)).1
  pub ready-insert : (i : ℕ) (t : T) (m : M) → ready (store.insert i t m) ≡ ready m
  pub ready-delete : (i : ℕ) (m : M) → ready (store.delete i m) ≡ ready m
  pub get-add : (i j : ℕ) (m : M) → store.get_mut j (queue.add i m) ≡ store.get_mut j m
  pub get-fetch : (j : ℕ) (m : M) → store.get_mut j (queue.fetch m).1 ≡ store.get_mut j m
