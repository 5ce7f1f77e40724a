-- ===== src/Kernel/Process/Descriptors.antt =====
-- ch8/src/main.rs: the descriptors that `alloc_fd` hands out.
use spec_to_rust_os.Prelude.{
  ℕ, zero, suc, ◌+◌, ◌-◌, ◌≤◌, ◌<◌, ◌≡◌, refl, sym, Bool, true, false, not, ◌&&◌, Option, none,
  some, List, [], ◌∷◌, ◌++◌, ◌==◌, leb, if◌then◌else◌, length, get_elem?, set, Bool-cases, inl, inr,
  arith, length-append, length-set, get_elem?-set_self, get_elem?-set_ne,
}
use spec_to_rust_os.EasyFs.File.{FileHandle}
use spec_to_rust_os.Kernel.Process.{Process, free_fd, alloc_fd, get_fd, is_none, join}

-- Whether the entry of the table holds a file.
abbrev pub held : {A : Type 0} → List (Option A) → ℕ → Bool
held [] j = false
held (e ∷ l) zero = not (is_none e)
held (e ∷ l) (suc j) = held l j

-- The first entry from the third on that holds nothing, of a table whose first entry has the number `fd`.
abbrev LowestFree : {A : Type 0} → ℕ → List (Option A) → Option ℕ → Type 0
LowestFree fd l none = (j : ℕ) → 3 ≤ fd + j → j < length l → held l j ≡ true
LowestFree fd l (some k) =
    (fd ≤ k)
    × (3 ≤ k)
    × (k - fd < length l)
    × (held l (k - fd) ≡ false)
    × ((j : ℕ) → 3 ≤ fd + j → fd + j < k → held l j ≡ true)

held_here :
    {A : Type 0} (e : Option A) (fd : ℕ)
    → leb 3 fd && is_none e ≡ false
    → 3 ≤ fd
    → not (is_none e) ≡ true
held_here e fd taken lo = ground arith

by_index : (P : ℕ → Type 0) → P 0 → ((j : ℕ) → P (suc j)) → (j : ℕ) → P j
by_index P here later zero = here
by_index P here later (suc j) = later j

skip :
    {A : Type 0} (e : Option A) (l : List (Option A)) (fd : ℕ) (o : Option ℕ)
    → leb 3 fd && is_none e ≡ false
    → LowestFree (suc fd) l o
    → LowestFree fd (e ∷ l) o
skip e l fd none taken ih =
    by_index (λ j. 3 ≤ fd + j → j < length (e ∷ l) → held (e ∷ l) j ≡ true)
      (λ lo h. held_here e fd taken (omega arith)) (λ j lo h. ih j (omega arith) (omega arith))
skip e l fd (some k) taken (above, lo, inside, free, first) =
    let here : k - fd ≡ suc (k - suc fd) = omega arith in
    (
      omega arith,
      lo,
      omega arith,
      rw here free,
      by_index (λ j. 3 ≤ fd + j → fd + j < k → held (e ∷ l) j ≡ true)
          (λ lo h. held_here e fd taken (omega arith))
          (λ j lo h. first j (omega arith) (omega arith)),
    )

found_here :
    {A : Type 0} (e : Option A) (l : List (Option A)) (fd : ℕ)
    → leb 3 fd && is_none e ≡ true
    → LowestFree fd (e ∷ l) (some fd)
found_here e l fd free =
    let here : fd - fd ≡ 0 = omega arith in
    (omega arith, ground arith, omega arith, rw here (ground arith), λ j lo h. absurd (omega arith))

free_fd_lem : {A : Type 0} (l : List (Option A)) (fd : ℕ) → LowestFree fd l (free_fd fd l)
unfolding free_fd
free_fd_lem [] fd = λ j lo h. absurd (omega arith)
free_fd_lem (e ∷ l) fd = elim (Bool-cases (leb 3 fd && is_none e)) [
  | inl free ↦ rw (free_fd, free) (found_here e l fd free)
  | inr taken ↦
      rw (free_fd, taken) (skip e l fd (free_fd (suc fd) l) taken (free_fd_lem l (suc fd)))
]

join_held :
    {A : Type 0} (l : List (Option A)) (j : ℕ) → held l j ≡ false → join (get_elem? l j) ≡ none
join_held [] j h = refl
join_held (none ∷ l) zero h = refl
join_held (some x ∷ l) zero h = cc
join_held (e ∷ l) (suc j) h = join_held l j h

get_elem?-append :
    {A : Type 0} (l : List A) (x : A) (j : ℕ)
    → get_elem? (l ++ x ∷ []) j ≡ (if length l == j then some x else get_elem? l j)
get_elem?-append [] x zero = refl
get_elem?-append [] x (suc j) = ground arith
get_elem?-append (y ∷ l) x zero = ground arith
get_elem?-append (y ∷ l) x (suc j) = ground (arith, get_elem?-append l x j)

pub get_elem?-set :
    {A : Type 0} (l : List A) (i j : ℕ) (x : A)
    → i < length l
    → get_elem? (set l i x) j ≡ (if i == j then some x else get_elem? l j)
get_elem?-set l i j x h = elim (Bool-cases (i == j)) [
  | inl e ↦
      (let same : i ≡ j = ground (arith, e) in rw e (rw (sym same) (get_elem?-set_self l i x h)))
  | inr e ↦ rw e (get_elem?-set_ne l {i = i} {j = j} x (λ q. ground arith))
]

-- The table has the entries of the console, which are never taken off.
abbrev pub HasStdio : {S Sp : Type 0} → Process S Sp → Type 0
HasStdio p = 3 ≤ length p.fd_table

-- The descriptor `fd` was the lowest free one from 3 on and now stands for `file`; the others stand for what they did.
abbrev pub Opened : {S Sp : Type 0} → ℕ → FileHandle S → Process S Sp → Process S Sp → Type 0
Opened fd file p p' =
    (3 ≤ fd)
    × (get_fd fd p ≡ none)
    × ((j : ℕ) → 3 ≤ j → j < fd → held p.fd_table j ≡ true)
    × ((j : ℕ) → get_fd j p' ≡ (if fd == j then some file else get_fd j p))
    × HasStdio p'

beyond : {A : Type 0} (l : List (Option A)) → held l (length l) ≡ false
beyond [] = refl
beyond (e ∷ l) = beyond l

pushed :
    {S Sp : Type 0} (file : FileHandle S) (p : Process S Sp)
    → HasStdio p
    → LowestFree 0 p.fd_table none
    → Opened (length p.fd_table) file p (record p { fd_table = p.fd_table ++ some file ∷ [] })
unfolding get_fd
pushed file p three full = (
  three,
  join_held p.fd_table (length p.fd_table) (beyond p.fd_table),
  λ j lo h. full j (omega arith) h,
  λ j. elim (Bool-cases (length p.fd_table == j)) [
    | inl here ↦ rw (get_elem?-append p.fd_table (some file) j, here) refl
    | inr other ↦ rw (get_elem?-append p.fd_table (some file) j, other) refl
  ],
  omega (arith, length-append p.fd_table (some file ∷ [])),
)

filled :
    {S Sp : Type 0} (file : FileHandle S) (p : Process S Sp) (k : ℕ)
    → HasStdio p
    → LowestFree 0 p.fd_table (some k)
    → Opened k file p (record p { fd_table = set p.fd_table k (some file) })
unfolding get_fd
filled file p k three (_, lo, inside, free, first) =
    let same : k - 0 ≡ k = omega arith in
    (
      lo,
      join_held p.fd_table k (rw (sym same) free),
      λ j lo' h. first j (omega arith) (omega arith),
      λ j. elim (Bool-cases (k == j)) [
        | inl here ↦ rw (get_elem?-set p.fd_table k j (some file) (omega arith), here) refl
        | inr other ↦ rw (get_elem?-set p.fd_table k j (some file) (omega arith), other) refl
      ],
      omega (arith, length-set p.fd_table k (some file)),
    )

alloc_by :
    {S Sp : Type 0} (file : FileHandle S) (p : Process S Sp) (o : Option ℕ)
    → HasStdio p
    → free_fd 0 p.fd_table ≡ o
    → LowestFree 0 p.fd_table o
    → Opened (alloc_fd file p).0 file p (alloc_fd file p).1
unfolding alloc_fd get_fd
alloc_by file p none three e full = rw (alloc_fd, e) (pushed file p three full)
alloc_by file p (some k) three e lowest = rw (alloc_fd, e) (filled file p k three lowest)

-- A file is put under the lowest descriptor from 3 on that stands for nothing; the other descriptors stand for what they did.
pub alloc_fd-Opened :
    {S Sp : Type 0} (file : FileHandle S) (p : Process S Sp)
    → HasStdio p
    → Opened (alloc_fd file p).0 file p (alloc_fd file p).1
alloc_fd-Opened file p three =
    alloc_by file p (free_fd 0 p.fd_table) three refl (free_fd_lem p.fd_table 0)
