-- ===== src/EasyFs/File.antt =====
-- easy-fs/src/vfs.rs: `OpenFlags`, `UserBuffer` and `FileHandle`. A handle works on an inode through
-- `read_at` and `write_at`, which stand here for their interface.
use spec_to_rust_os.Prelude.{
  ℕ, zero, suc, ◌+◌, ◌-◌, ◌%◌, ◌≤◌, ◌<◌, ◌≡◌, refl, sym, ap, ◌∙◌, Bool, true, false, Option, none,
  some, List, [], ◌∷◌, ◌++◌, ◌==◌, if◌then◌else◌, length, length-append, take, drop, Bool-cases,
  inl, inr, arith,
}
use spec_to_rust_os.Prelude.Panic.{Outcome, returned, panicked, ◌>>=◌}

-- The operations of an inode over the state `S` of the file system. The bytes of a read are as many as
-- its result says.
pub record Inode (S : Type 0) : Type 0 where
  pub read_at : S → ℕ → ℕ → List ℕ
  pub write_at : S → ℕ → List ℕ → ℕ × S
  pub clear : S → S
  pub readdir : S → List (List ℕ)

-- In the state `s` the file is a sequence of bytes, and a read gives those at the offset that there are.
pub record ReadLaw {S : Type 0} (inode : Inode S) (s : S) : Type 0 where
  pub contents : List ℕ
  pub read_at-contents : (offset n : ℕ) → inode.read_at s offset n ≡ take n (drop offset contents)

abbrev pub wronly : ℕ
wronly = 1

-- The flags are the digits of a word; WRONLY is the lowest.
unfoldable pub read_write : ℕ → Bool × Bool
read_write flags =
    if flags == 0
    then (true, false)
    else if flags % 2 == wronly
    then (false, true)
    else (true, true)

-- The lengths of the slices stand for a buffer that is read into.
unfoldable pub buffer_len : List ℕ → ℕ
buffer_len [] = 0
buffer_len (n ∷ buffers) = n + buffer_len buffers

unfoldable pub is_empty : List ℕ → Bool
is_empty buffers = buffer_len buffers == 0

pub record FileHandle (S : Type 0) : Type 0 where
  pub inode : Option (Inode S)
  pub readable : Bool
  pub writable : Bool
  pub offset : ℕ

unfoldable pub new : {S : Type 0} → Bool → Bool → Inode S → FileHandle S
new readable writable inode = record {
  inode = some inode;
  readable = readable;
  writable = writable;
  offset = 0;
}

unfoldable pub empty : {S : Type 0} → Bool → Bool → FileHandle S
empty readable writable = record {
  inode = none;
  readable = readable;
  writable = writable;
  offset = 0;
}

module _ {S : Type 0} (inode : Inode S) where
  -- The loop over the slices, with the bytes that it copies and the offset that it leaves.
  unfoldable pub read_slices : S → List ℕ → ℕ → List ℕ × ℕ
  read_slices s [] offset = ([], offset)
  read_slices s (n ∷ buffers) offset =
      let bytes = inode.read_at s offset n in
      let (rest, offset') = read_slices s buffers (offset + length bytes) in
      if length bytes == 0 then ([], offset) else (bytes ++ rest, offset')

  unfoldable pub write_slices : S → List (List ℕ) → ℕ → Outcome (S × ℕ)
  write_slices s [] offset = returned (s, offset)
  write_slices s (bytes ∷ buffers) offset =
      let (size, s') = inode.write_at s offset bytes in
      let rest = write_slices s' buffers (offset + size) in
      if size == length bytes then rest else panicked

unfoldable pub read : {S : Type 0} → S → List ℕ → FileHandle S → List ℕ × FileHandle S
read s buffers h = elim h.inode [
  | none ↦ ([], h)
  | some inode ↦
      (let (bytes, offset) = read_slices inode s buffers h.offset in
        (bytes, record h { offset = offset }))
]

-- The result is by how much the offset grew.
unfoldable pub write :
    {S : Type 0} → S → List (List ℕ) → FileHandle S → Outcome (ℕ × S × FileHandle S)
write s buffers h = elim h.inode [
  | none ↦ returned (0, s, h)
  | some inode ↦ (do
    (s', offset) ← write_slices inode s buffers h.offset
    returned (offset - h.offset, s', record h { offset = offset }))
]

take-nil : (m : ℕ) → take {A = ℕ} m [] ≡ []
take-nil zero = refl
take-nil (suc m) = refl

drop-nil : (m : ℕ) → drop {A = ℕ} m [] ≡ []
drop-nil zero = refl
drop-nil (suc m) = refl

take-add : (n m : ℕ) (l : List ℕ) → take (n + m) l ≡ take n l ++ take m (drop (length (take n l)) l)
take-add zero m l = let e : 0 + m ≡ m = omega arith in rw e refl
take-add (suc n) m [] = let e : suc n + m ≡ suc (n + m) = omega arith in rw e (sym (take-nil m))
take-add (suc n) m (x ∷ l) =
    let e : suc n + m ≡ suc (n + m) = omega arith in rw e (ap (λ k. x ∷ k) (take-add n m l))

pub drop-add : (n m : ℕ) (l : List ℕ) → drop (n + m) l ≡ drop m (drop n l)
drop-add zero m l = let e : 0 + m ≡ m = omega arith in rw e refl
drop-add (suc n) m [] = let e : suc n + m ≡ suc (n + m) = omega arith in rw e (sym (drop-nil m))
drop-add (suc n) m (x ∷ l) = let e : suc n + m ≡ suc (n + m) = omega arith in rw e (drop-add n m l)

pub empty_of_take : (n : ℕ) (l : List ℕ) → 0 < n → length (take n l) ≡ 0 → l ≡ []
empty_of_take zero l pos h = absurd (omega arith)
empty_of_take (suc n) [] pos h = refl
empty_of_take (suc n) (x ∷ l) pos h = absurd (omega arith)

-- Slices that are not empty.
abbrev pub AllSome : List ℕ → Type 0
AllSome [] = zero ≤ zero
AllSome (n ∷ buffers) = (0 < n) × AllSome buffers

module _ {S : Type 0} (inode : Inode S) (s : S) (law : ReadLaw inode s) where
  -- What there is from the offset on, as far as the slices reach.
  abbrev pub expected : ℕ → ℕ → List ℕ
  expected total offset = take total (drop offset law.contents)

  joined :
      (n m offset : ℕ)
      → expected (n + m) offset
        ≡ expected n offset ++ expected m (offset + length (expected n offset))
  joined n m offset =
      take-add n m (drop offset law.contents)
      ∙ ap (λ l. expected n offset ++ take m l)
          (sym (drop-add offset (length (expected n offset)) law.contents))

  read_slices_lem :
      (buffers : List ℕ) (offset : ℕ)
      → AllSome buffers
      → read_slices inode s buffers offset ≡ (
        expected (buffer_len buffers) offset,
        offset + length (expected (buffer_len buffers) offset),
      )
  unfolding read_slices buffer_len
  read_slices_lem [] offset ok = ap (λ k. ([], k)) (omega arith)
  read_slices_lem (n ∷ buffers) offset (some_room, ok) =
      let law_here = law.read_at-contents offset n in
      let here = expected n offset in
      elim (Bool-cases (length here == 0)) [
        | inl over ↦
            (let ended : drop offset law.contents ≡ [] =
                empty_of_take n (drop offset law.contents) some_room (ground (arith, over)) in
              let none_left : expected (n + buffer_len buffers) offset ≡ [] =
                rw ended (take-nil (n + buffer_len buffers)) in
              rw (read_slices, law_here, over, none_left) (ap (λ k. ([], k)) (omega arith)))
        | inr more ↦
            (let ih = read_slices_lem buffers (offset + length here) ok in
              let both = here ++ expected (buffer_len buffers) (offset + length here) in
              rw (read_slices, law_here, more, ih, joined n (buffer_len buffers) offset)
                (ap (λ k. (both, k))
                  (omega (
                    arith,
                    length-append here (expected (buffer_len buffers) (offset + length here)),
                  ))))
      ]

  -- A read into slices that are not empty gives what there is of the file from the offset on, as far as
  -- the slices reach, and moves the offset by that much.
  pub read_lem :
      (buffers : List ℕ) (h : FileHandle S)
      → AllSome buffers
      → h.inode ≡ some inode
      → read s buffers h ≡ (
        expected (buffer_len buffers) h.offset,
        record h { offset = h.offset + length (expected (buffer_len buffers) h.offset) },
      )
  unfolding read
  read_lem buffers h ok open_file =
      let bytes = expected (buffer_len buffers) h.offset in
      rw (read, open_file, read_slices_lem buffers h.offset ok)
        (ap (λ i. (bytes, record h { inode = i; offset = h.offset + length bytes })) open_file)
