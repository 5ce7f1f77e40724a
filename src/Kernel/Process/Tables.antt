-- ===== src/Kernel/Process/Tables.antt =====
-- ch8/src/main.rs: copies of a table of descriptors, and descriptors that are closed.
use spec_to_rust_os.Prelude.{
  ℕ, zero, suc, ◌-◌, ◌<◌, ◌≡◌, refl, ap, true, false, Option, none, some, List, [], ◌∷◌, ◌==◌,
  if◌then◌else◌, length, get_elem?, set, Bool-cases, inl, inr, arith, ◌⊎◌, ◌^◌,
}
use spec_to_rust_os.EasyFs.File
use spec_to_rust_os.EasyFs.File.{FileHandle}
use spec_to_rust_os.Kernel.Process.Descriptors.{held, get_elem?-set}
use spec_to_rust_os.Kernel.Process.{
  Process, get_fd, close_fd, duplicate_file_handle, clone_fd_table,
}

same_handle :
    {S : Type 0} (file : FileHandle S) (o : Option (File.Inode S))
    → file.inode ≡ o
    → duplicate_file_handle file ≡ file
unfolding duplicate_file_handle File.new File.empty
same_handle file none e = rw (duplicate_file_handle, e) refl
same_handle file (some i) e = rw (duplicate_file_handle, e) refl

-- A duplicate of a handle has the inode, the permissions and the offset of the handle, so a cloned table gives what the table gives.
pub clone_fd_table_lem :
    {S : Type 0} (table : List (Option (FileHandle S))) → clone_fd_table table ≡ table
unfolding clone_fd_table
clone_fd_table_lem [] = refl
clone_fd_table_lem (none ∷ l) = ap (λ r. none ∷ r) (clone_fd_table_lem l)
clone_fd_table_lem (some file ∷ l) =
    rw (same_handle file file.inode refl) (ap (λ r. some file ∷ r) (clone_fd_table_lem l))

-- What `close_fd` does: an entry that holds a file is cleared, and any other descriptor is refused.
pub data Closed {S Sp : Type 0} (fd : ℕ) (p : Process S Sp) : ℕ × Process S Sp → Type 0 where
  done :
      (p' : Process S Sp)
      → held p.fd_table fd ≡ true
      → ((j : ℕ) → get_fd j p' ≡ (if fd == j then none else get_fd j p))
      → Closed fd p (0, p')
  refused : held p.fd_table fd ≡ false → Closed fd p (2 ^ 64 - 1, p)

held_lem :
    {A : Type 0} (l : List (Option A)) (j : ℕ)
    → held l j ≡ true
    → (x : A) × (get_elem? l j ≡ some (some x)) × (j < length l)
held_lem [] j h = cc
held_lem (none ∷ l) zero h = cc
held_lem (some x ∷ l) zero h = (x, refl, omega arith)
held_lem (e ∷ l) (suc j) h = let (x, e', lt) = held_lem l j h in (x, e', omega arith)

free_lem :
    {A : Type 0} (l : List (Option A)) (j : ℕ)
    → held l j ≡ false
    → (get_elem? l j ≡ none) ⊎ (get_elem? l j ≡ some none)
free_lem [] j h = inl refl
free_lem (none ∷ l) zero h = inr refl
free_lem (some x ∷ l) zero h = cc
free_lem (e ∷ l) (suc j) h = free_lem l j h

pub close_fd-Closed : {S Sp : Type 0} (fd : ℕ) (p : Process S Sp) → Closed fd p (close_fd fd p)
unfolding close_fd get_fd
close_fd-Closed fd p = elim (Bool-cases (held p.fd_table fd)) [
  | inl open_one ↦
      (let (x, e, inside) = held_lem p.fd_table fd open_one in
        rw (close_fd, e)
          (done (record p { fd_table = set p.fd_table fd none }) open_one
            (λ j. elim (Bool-cases (fd == j)) [
              | inl here ↦ rw (get_elem?-set p.fd_table fd j none inside, here) refl
              | inr other ↦ rw (get_elem?-set p.fd_table fd j none inside, other) refl
            ])))
  | inr free ↦ elim (free_lem p.fd_table fd free) [
    | inl e ↦ rw (close_fd, e) (refused free)
    | inr e ↦ rw (close_fd, e) (refused free)
  ]
]
